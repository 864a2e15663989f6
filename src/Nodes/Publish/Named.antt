-- ===== src/Nodes/Publish/Named.antt =====
-- The devices that orchestrator/nodes/multi-device-out and multi-actuate are to publish to, described
-- without their code.
use flowbroker.Prelude.{
  String, ◌≡◌, refl, sym, ap, subst, ◌⊎◌, inl, inr, Option, none, some, List, [], ◌∷◌, ◌==◌, map,
  In, Bool-cases, Option-cases, eq_iff, some-inj, arith,
}
use flowbroker.Json.{Value, null, boolean, num, str, arr, obj, Items, nil, cons, gap}
use flowbroker.Nodes.Base
use flowbroker.Nodes.Base.{Got, got}
use flowbroker.Nodes.Publish.{
  OutConfig, OutMetadata, filled, readable, elements, dynamic_devices, configured_devices,
  get_devices_ids,
}

-- An element of an array; a gap reads as null.
abbrev pub InItems : Value → Items → Type 0
InItems d nil = ⊥
InItems d (cons v xs) = (d ≡ v) ⊎ InItems d xs
InItems d (gap xs) = (d ≡ null) ⊎ InItems d xs

-- What a message has at the path of the dynamic devices is the device, or an array that it is in.
abbrev pub IsNamedBy : Value → Value → Type 0
IsNamedBy d (arr xs fs) = InItems d xs
IsNamedBy d v = d ≡ v

-- The device `d` is one that the node is to publish to: by the source that its configuration names, a
-- device of the configured list, the device that the event came from, or what the message has at the
-- configured path.
abbrev pub IsTarget : OutConfig → OutMetadata → Value → Value → Type 0
IsTarget config metadata message d =
    ((config.device_source ≡ "configured")
      × (listed : List String) × (id : String) × (config.devices_source_configured ≡ some listed)
      × In id listed
      × (d ≡ str id))
    ⊎ (((config.device_source ≡ "self") × (d ≡ str metadata.originator_device_id))
        ⊎ ((config.device_source ≡ "dynamic")
            × (path : String) × (at : Value) × (filled config.devices_source_dynamic ≡ some path)
            × (Base.get path message ≡ got at)
            × IsNamedBy d at))

configured_devices_from :
    (d : Value) (configured : Option (List String))
    → In d (configured_devices configured)
    → (listed : List String) × (id : String) × (configured ≡ some listed)
      × In id listed
      × (d ≡ str id)
configured_devices_from d none i = absurd i
configured_devices_from d (some []) i = absurd i
configured_devices_from d (some (id ∷ ids)) (inl e) = (id ∷ ids, id, refl, inl refl, e)
configured_devices_from d (some (id ∷ ids)) (inr i) =
    let (listed, x, same, j, e) = configured_devices_from d (some ids) i in
    (id ∷ ids, x, refl, inr (subst (λ l. In x l) (sym (some-inj same)) j), e)

In-str : (id : String) (ids : List String) → In id ids → In (str id) (map str ids)
In-str id [] i = absurd i
In-str id (x ∷ ids) (inl e) = inl (ap str e)
In-str id (x ∷ ids) (inr i) = inr (In-str id ids i)

elements_from : (d : Value) (xs : Items) → In d (elements xs) → InItems d xs
elements_from d nil i = absurd i
elements_from d (cons v xs) (inl e) = inl e
elements_from d (cons v xs) (inr i) = inr (elements_from d xs i)
elements_from d (gap xs) (inl e) = inl e
elements_from d (gap xs) (inr i) = inr (elements_from d xs i)

In-elements : (d : Value) (xs : Items) → InItems d xs → In d (elements xs)
In-elements d nil i = absurd i
In-elements d (cons v xs) (inl e) = inl e
In-elements d (cons v xs) (inr i) = inr (In-elements d xs i)
In-elements d (gap xs) (inl e) = inl e
In-elements d (gap xs) (inr i) = inr (In-elements d xs i)

In-single : (d v : Value) → In d (v ∷ []) → d ≡ v
In-single d v (inl e) = e
In-single d v (inr nothing) = absurd nothing

dynamic_devices_from : (d at : Value) → In d (dynamic_devices at) → IsNamedBy d at
dynamic_devices_from d (arr xs fs) i = elements_from d xs i
dynamic_devices_from d null i = In-single d null i
dynamic_devices_from d (boolean b) i = In-single d (boolean b) i
dynamic_devices_from d (num n) i = In-single d (num n) i
dynamic_devices_from d (str s) i = In-single d (str s) i
dynamic_devices_from d (obj fs) i = In-single d (obj fs) i

In-dynamic_devices : (d at : Value) → IsNamedBy d at → In d (dynamic_devices at)
In-dynamic_devices d (arr xs fs) i = In-elements d xs i
In-dynamic_devices d null e = inl e
In-dynamic_devices d (boolean b) e = inl e
In-dynamic_devices d (num n) e = inl e
In-dynamic_devices d (str s) e = inl e
In-dynamic_devices d (obj fs) e = inl e

pub readable_from : (g : Got) (v : Value) → readable g ≡ some v → g ≡ got v
readable_from g v h = ground arith

module _ (config : OutConfig) (metadata : OutMetadata) (message d : Value) where
  pub get_devices_ids-IsTarget :
      In d (get_devices_ids config metadata message) → IsTarget config metadata message d
  unfolding get_devices_ids
  get_devices_ids-IsTarget i = elim (Bool-cases (config.device_source == "configured")) [
    | inl c ↦
        let j = rw (c, get_devices_ids) at i in
        let (listed, id, l, k, e) = configured_devices_from d config.devices_source_configured j in
        inl ((eq_iff _ _).0 c, listed, id, l, k, e)
    | inr c ↦ elim (Bool-cases (config.device_source == "self")) [
      | inl s ↦
          let j = rw (c, s, get_devices_ids) at i in inr (inl ((eq_iff _ _).0 s, In-single d _ j))
      | inr s ↦ elim (Bool-cases (config.device_source == "dynamic")) [
        | inr n ↦ absurd (rw (c, s, n, get_devices_ids) at i)
        | inl n ↦ elim (Option-cases (filled config.devices_source_dynamic)) [
          | inl f ↦ absurd (rw (c, s, n, f, get_devices_ids) at i)
          | inr (path, f) ↦ elim (Option-cases (readable (Base.get path message))) [
            | inl g ↦ absurd (rw (c, s, n, f, g, get_devices_ids) at i)
            | inr (at, g) ↦
                let j = rw (c, s, n, f, g, get_devices_ids) at i in
                inr (
                  inr (
                    (eq_iff _ _).0 n,
                    path,
                    at,
                    f,
                    readable_from _ at g,
                    dynamic_devices_from d at j,
                  ))
          ]
        ]
      ]
    ]
  ]

  pub In-get_devices_ids :
      IsTarget config metadata message d → In d (get_devices_ids config metadata message)
  unfolding get_devices_ids
  In-get_devices_ids (inl (c, listed, id, l, i, e)) =
      rw (c, l, e, get_devices_ids) (In-str id listed i)
  In-get_devices_ids (inr (inl (s, e))) = rw (s, e, get_devices_ids) (inl refl)
  In-get_devices_ids (inr (inr (n, path, at, f, g, i))) =
      rw (n, f, g, get_devices_ids) (In-dynamic_devices d at i)
