-- ===== src/Devices/Cache/Laws.antt =====
-- What the cache answers behind a write, and the keys of its entries.
use flowbroker.Prelude.{
  String, ◌≡◌, refl, true, some, List, [], ◌∷◌, eq_refl, Option-cases, inl, inr,
}
use flowbroker.Prelude.Dict
use flowbroker.Prelude.Dict.{Dict}
use flowbroker.Prelude.Dict.Keys.{keys, Distinct, Distinct-put}
use flowbroker.Devices.Cache.{
  StaticAttr, DeviceInfo, KeyValue, AttrDef, Device, static_of, add_template_attrs, add_attrs,
  add_static_attrs, device_info, cache_key, InfoAnswers, add_device, write_device_info,
  get_device_info,
}

-- No key twice.
abbrev pub IsObject : {V : Type 0} → Dict V → Type 0
IsObject m = Distinct (keys m)

add_template_attrs-IsObject :
    (list : List AttrDef) (m : Dict StaticAttr) → IsObject m → IsObject (add_template_attrs list m)
unfolding add_template_attrs
add_template_attrs-IsObject [] m h = h
add_template_attrs-IsObject (a ∷ rest) m h = elim (Option-cases (static_of a)) [
  | inl e ↦ rw (e, add_template_attrs) (add_template_attrs-IsObject rest m h)
  | inr (v, e) ↦
      rw (e, add_template_attrs)
        (add_template_attrs-IsObject rest (Dict.put a.label v m) (Distinct-put a.label v m h))
]

add_attrs-IsObject :
    (attrs : List (String × List AttrDef)) (m : Dict StaticAttr)
    → IsObject m
    → IsObject (add_attrs attrs m)
unfolding add_attrs
add_attrs-IsObject [] m h = h
add_attrs-IsObject ((template, list) ∷ attrs) m h =
    add_attrs-IsObject attrs (add_template_attrs list m) (add_template_attrs-IsObject list m h)

pub add_static_attrs-IsObject :
    (attrs : List (String × List AttrDef)) → IsObject (add_static_attrs attrs)
unfolding add_static_attrs
add_static_attrs-IsObject attrs = add_attrs-IsObject attrs [] tt

module _ {S : Type 0} (redis : KeyValue S) where
  -- An entry that is there is answered.
  pub get_device_info-hit :
      (tenant id : String) (a : InfoAnswers) (s : S) (i : DeviceInfo)
      → a.ready ≡ true
      → a.read ≡ true
      → redis.get (cache_key tenant id) s ≡ some i
      → get_device_info redis tenant id a s ≡ (some i, s)
  unfolding get_device_info
  get_device_info-hit tenant id a s i ready read h = rw (ready, read, h, get_device_info) refl

  pub get-add_device :
      (tenant : String) (d : Device) (s : S)
      → redis.get (cache_key tenant d.id) (add_device redis tenant d true s).1
        ≡ some (device_info d)
  unfolding add_device write_device_info
  get-add_device tenant d s =
      rw (redis.get-set (cache_key tenant d.id) (cache_key tenant d.id) (device_info d) s)
        (rw (eq_refl (cache_key tenant d.id)) refl)
