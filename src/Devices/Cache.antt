-- ===== src/Devices/Cache.antt =====
-- orchestrator/DeviceCache.js: the templates and the static attributes of devices, kept in Redis. The
-- JSON text of an entry is taken to be read back as it was written.
pub mod Laws
pub mod Pages
use Prim.Native.String.{◌++◌}
use flowbroker.Prelude.{
  ℕ, suc, String, ◌≡◌, Bool, true, false, not, ◌&&◌, Option, none, some, List, [], ◌∷◌, ◌==◌,
  if◌then◌else◌,
}
use flowbroker.Prelude.Dict
use flowbroker.Prelude.Dict.{Dict}
use flowbroker.Prelude.Int.{pos, eq_ℤ}
use flowbroker.Json.{Value, null, boolean, num, str, arr, obj}

pub record StaticAttr : Type 0 where
  pub value : Value
  pub specialized : Bool

pub record DeviceInfo : Type 0 where
  pub templates : List String
  pub static_attrs : Dict StaticAttr

-- Redis: what the cache calls of its client.
pub record KeyValue (S : Type 0) : Type 0 where
  pub get : String → S → Option DeviceInfo
  pub set : String → DeviceInfo → S → S
  pub del : String → S → S
  pub mset : Dict DeviceInfo → S → S
  pub get-set :
      (k j : String) (i : DeviceInfo) (s : S)
      → get j (set k i s) ≡ (if k == j then some i else get j s)
  pub get-del : (k j : String) (s : S) → get j (del k s) ≡ (if k == j then none else get j s)
  pub get-mset :
      (k : String) (ds : Dict DeviceInfo) (s : S)
      → get k (mset ds s) ≡ elim (Dict.get k ds) [ none ↦ get k s | some i ↦ some i ]

-- The definition of an attribute, as the device manager gives it.
pub record AttrDef : Type 0 where
  pub label : String
  pub kind : String
  pub static_value : Option Value
  pub specialized : Option Value

-- A device of the device manager; `attrs` is an object of lists, in the order of a loop over it, and
-- `templates` has the texts of the ids.
pub record Device : Type 0 where
  pub id : String
  pub templates : List String
  pub attrs : List (String × List AttrDef)

unfoldable pub truthy : Value → Bool
truthy null = false
truthy (boolean b) = b
truthy (num n) = not (eq_ℤ n (pos 0))
truthy (str s) = not (s == "")
truthy (arr xs fs) = true
truthy (obj fs) = true

abbrev pub is_truthy_field : Option Value → Bool
is_truthy_field none = false
is_truthy_field (some v) = truthy v

-- `attr.type === 'static' && attr.static_value`, with the value.
unfoldable pub static_of : AttrDef → Option StaticAttr
unfolding truthy
static_of a = elim a.static_value [
  | none ↦ none
  | some v ↦
      if a.kind == "static" && truthy v
      then some (record { value = v; specialized = is_truthy_field a.specialized })
      else none
]

unfoldable pub add_template_attrs : List AttrDef → Dict StaticAttr → Dict StaticAttr
unfolding static_of
add_template_attrs [] m = m
add_template_attrs (a ∷ rest) m =
    add_template_attrs rest (elim (static_of a) [ none ↦ m | some v ↦ Dict.put a.label v m ])

add_attrs : List (String × List AttrDef) → Dict StaticAttr → Dict StaticAttr
unfolding add_template_attrs
add_attrs [] m = m
add_attrs ((template, list) ∷ attrs) m = add_attrs attrs (add_template_attrs list m)

-- _addStaticAttrs
unfoldable pub add_static_attrs : List (String × List AttrDef) → Dict StaticAttr
unfolding add_attrs
add_static_attrs attrs = add_attrs attrs []

abbrev pub device_info : Device → DeviceInfo
device_info d = record { templates = d.templates; static_attrs = add_static_attrs d.attrs }

abbrev pub cache_key : String → String → String
cache_key tenant id = tenant ++ ":" ++ id

-- What a request to the device manager comes to: the device, if it answers, whether Redis is ready
-- then, and whether it writes.
pub record RequestAnswers : Type 0 where
  pub device : Option Device
  pub ready : Bool
  pub written : Bool

-- The answers behind a call of getDeviceInfo; `again` is for the request of its `catch`.
pub record InfoAnswers : Type 0 where
  pub ready : Bool
  pub read : Bool
  pub request : RequestAnswers
  pub again : RequestAnswers

module _ {S : Type 0} (redis : KeyValue S) where
  -- _writeDeviceInfo: does it resolve?
  unfoldable pub write_device_info : String → String → DeviceInfo → Bool → S → Bool × S
  write_device_info tenant id info written s =
      if written then (true, redis.set (cache_key tenant id) info s) else (false, s)

  unfoldable pub add_device : String → Device → Bool → S → Bool × S
  unfolding write_device_info
  add_device tenant d written s = write_device_info tenant d.id (device_info d) written s

  -- deleteDevice: an error is logged and forgotten.
  unfoldable pub delete_device : String → String → Bool → S → S
  delete_device tenant id deleted s = if deleted then redis.del (cache_key tenant id) s else s

  -- _requestDeviceInfo: what it resolves with, `none` for a rejection.
  unfoldable pub request_device_info : String → String → RequestAnswers → S → Option DeviceInfo × S
  unfolding write_device_info
  request_device_info tenant id a s = elim a.device [
    | none ↦ (none, s)
    | some d ↦
        if a.ready
        then (let (done, s') = write_device_info tenant id (device_info d) a.written s in
            (if done then some (device_info d) else none, s'))
        else (some (device_info d), s)
  ]

  -- getDeviceInfo. The `catch` is for the request behind a miss, too.
  unfoldable pub get_device_info : String → String → InfoAnswers → S → Option DeviceInfo × S
  unfolding request_device_info
  get_device_info tenant id a s =
      if a.ready
      then (if a.read
          then elim (redis.get (cache_key tenant id) s) [
            | some info ↦ (some info, s)
            | none ↦
                let (info, s') = request_device_info tenant id a.request s in
                elim info [
                  | some i ↦ (some i, s')
                  | none ↦ request_device_info tenant id a.again s'
                ]
          ]
          else request_device_info tenant id a.again s)
      else request_device_info tenant id a.request s
