-- ===== src/Nodes/Publish.antt =====
-- The nodes that publish to devices: orchestrator/nodes/device-out, actuate, multi-device-out and
-- multi-actuate. Messages are parsed JSON, of which no array has a gap; what is published is left
-- without its time.
pub mod Named
pub mod Targets
use flowbroker.Prelude.{
  String, Bool, true, false, Option, none, some, List, [], ◌∷◌, ◌++◌, ◌==◌, map, if◌then◌else◌,
}
use flowbroker.Prelude.Int.{eq_ℤ}
use flowbroker.Json.{Value, null, boolean, num, str, arr, obj, Items, nil, cons, gap}
use flowbroker.Nodes.Base
use flowbroker.Nodes.Base.{Got, got}

-- The nodes' configuration, with the fields that one or the other reads.
pub record OutConfig : Type 0 where
  pub attrs : Option String
  pub device_source : String
  pub device_id : Option String
  pub device_source_msg : Option String
  pub devices_source_configured : Option (List String)
  pub devices_source_dynamic : Option String

pub record OutMetadata : Type 0 where
  pub tenant : String
  pub originator_device_id : String

-- What is published: an event of the device, or one that configures it.
pub data OutEvent : Type 0 where
  device_event configure_event : (tenant : String) (device attrs : Value) → OutEvent

-- The errors of a rejection.
pub data OutError : Type 0 where
  no_attrs no_device no_source_msg bad_source unreadable no_targets : OutError

pub data OutResult : Type 0 where
  done : List OutEvent → OutResult
  refused : OutError → OutResult

-- A text that is there and not empty.
abbrev pub filled : Option String → Option String
filled none = none
filled (some s) = if s == "" then none else some s

abbrev pub readable : Got → Option Value
readable (got v) = some v
readable _ = none

pub data Target : Type 0 where
  to : Value → Target
  no_target : OutError → Target

-- The `switch` of device-out and actuate.
unfoldable pub device_of : OutConfig → OutMetadata → Value → Target
device_of config metadata message =
    if config.device_source == "configured"
    then elim config.device_id [ none ↦ no_target no_device | some id ↦ to (str id) ]
    else if config.device_source == "self"
    then to (str metadata.originator_device_id)
    else if config.device_source == "dynamic"
    then elim (filled config.device_source_msg) [
      | none ↦ no_target no_source_msg
      | some field ↦ elim (readable (Base.get field message)) [
        | none ↦ no_target unreadable
        | some device ↦ to device
      ]
    ]
    else no_target bad_source

-- device-out and actuate, with the event that they make of a device and the attributes.
unfoldable pub publish_to_one :
    (Value → Value → OutEvent) → OutConfig → OutMetadata → Value → OutResult
unfolding device_of
publish_to_one event config metadata message = elim (filled config.attrs) [
  | none ↦ refused no_attrs
  | some attrs ↦ elim (device_of config metadata message) [
    | no_target e ↦ refused e
    | to device ↦ elim (readable (Base.get attrs message)) [
      | none ↦ refused unreadable
      | some value ↦ done (event device value ∷ [])
    ]
  ]
]

unfoldable pub device_out : OutConfig → OutMetadata → Value → OutResult
unfolding publish_to_one
device_out config metadata message =
    publish_to_one (device_event metadata.tenant) config metadata message

unfoldable pub actuate : OutConfig → OutMetadata → Value → OutResult
unfolding publish_to_one
actuate config metadata message =
    publish_to_one (configure_event metadata.tenant) config metadata message

abbrev pub elements : Items → List Value
elements nil = []
elements (cons v xs) = v ∷ elements xs
elements (gap xs) = null ∷ elements xs

-- `devicesIds`, from what a message has at the path of the dynamic devices.
abbrev pub dynamic_devices : Value → List Value
dynamic_devices (arr xs fs) = elements xs
dynamic_devices v = v ∷ []

abbrev pub configured_devices : Option (List String) → List Value
configured_devices none = []
configured_devices (some ids) = map str ids

-- _getDevicesIds
unfoldable pub get_devices_ids : OutConfig → OutMetadata → Value → List Value
get_devices_ids config metadata message =
    if config.device_source == "configured"
    then configured_devices config.devices_source_configured
    else if config.device_source == "self"
    then str metadata.originator_device_id ∷ []
    else if config.device_source == "dynamic"
    then elim (filled config.devices_source_dynamic) [
      | none ↦ []
      | some field ↦ elim (readable (Base.get field message)) [
        | none ↦ []
        | some devices ↦ dynamic_devices devices
      ]
    ]
    else []

-- The equality of a Set's elements; two objects or arrays of a message are not one.
unfoldable pub same_value : Value → Value → Bool
same_value null null = true
same_value (boolean true) (boolean true) = true
same_value (boolean false) (boolean false) = true
same_value (num m) (num n) = eq_ℤ m n
same_value (str s) (str t) = s == t
same_value _ _ = false

unfoldable pub is_in : Value → List Value → Bool
unfolding same_value
is_in v [] = false
is_in v (w ∷ ws) = if same_value v w then true else is_in v ws

abbrev pub add_value : Value → List Value → List Value
add_value v seen = if is_in v seen then seen else seen ++ v ∷ []

-- `new Set(devicesIds)`, behind the elements that are in it.
unfoldable pub set_of : List Value → List Value → List Value
set_of seen [] = seen
set_of seen (v ∷ vs) = set_of (add_value v seen) vs

unfoldable pub publish_to_all :
    (Value → Value → OutEvent) → OutConfig → OutMetadata → Value → OutResult
unfolding get_devices_ids set_of
publish_to_all event config metadata message = elim (filled config.attrs) [
  | none ↦ refused no_attrs
  | some attrs ↦ elim (readable (Base.get attrs message)) [
    | none ↦ refused unreadable
    | some value ↦ elim (get_devices_ids config metadata message) [
      | [] ↦ refused no_targets
      | id ∷ ids ↦ done (map (λ device. event device value) (set_of [] (id ∷ ids)))
    ]
  ]
]

unfoldable pub multi_device_out : OutConfig → OutMetadata → Value → OutResult
unfolding publish_to_all
multi_device_out config metadata message =
    publish_to_all (device_event metadata.tenant) config metadata message

unfoldable pub multi_actuate : OutConfig → OutMetadata → Value → OutResult
unfolding publish_to_all
multi_actuate config metadata message =
    publish_to_all (configure_event metadata.tenant) config metadata message
