-- ===== src/Nodes/Geo.antt =====
-- The handler of orchestrator/nodes/geo/index.js. The match of a position in a text, and the test whether it
-- is inside the points, are parameters.
use flowbroker.Prelude.{String, Bool, not, ◌&&◌, Option, none, some, ◌==◌, if◌then◌else◌}
use flowbroker.Json.{
  Value, str, arr, obj, Items, nil, cons, gap, Fields, end, get_field, put_field, found, missing,
  type_error, own, assign,
}
use flowbroker.Executor.{Handled, rejected, threw}
use flowbroker.Nodes.Base
use flowbroker.Nodes.Base.{Got, got, unknown_property, get_type_error}
use flowbroker.Nodes.Outcomes.{forwarded, nothing_sent, truthy_value}

pub record GeoConfig : Type 0 where
  pub geopoint : String
  pub filter : String
  pub name : String

-- The position in a text, as the two texts of its coordinates, and the test of the configured points.
pub record Geography : Type 0 where
  pub match_position : String → Option (String × String)
  pub is_point_inside : String × String → Bool

-- getLatLng
unfoldable pub get_lat_lng : Geography → Value → Option (String × String)
get_lat_lng geo (str s) = if s == "" then none else geo.match_position s
get_lat_lng geo _ = none

-- `push`
unfoldable pub push_item : Value → Items → Items
push_item v nil = cons v nil
push_item v (cons x xs) = cons x (push_item v xs)
push_item v (gap xs) = gap (push_item v xs)

-- `location.isat = location.isat || []; location.isat.push(name)`; none where it throws.
unfoldable pub add_isat : String → Value → Option Value
unfolding push_item
add_isat name location = elim (own "isat" location) [
  | type_error ↦ none
  | missing ↦ assign "isat" (arr (cons (str name) nil) end) location
  | found v ↦
      if truthy_value v
      then (elim v [
        | arr xs fs ↦ assign "isat" (arr (push_item (str name) xs) fs) location
        | _ ↦ none
      ])
      else assign "isat" (arr (cons (str name) nil) end) location
]

-- `message.location`, an object without fields where it is falsy.
abbrev location_of : Fields → Value
location_of fs = elim (get_field "location" fs) [
  | none ↦ obj end
  | some v ↦ if truthy_value v then v else obj end
]

-- The message of a hit, for a message that is an object.
unfoldable pub mark_location : String → Fields → Option Fields
unfolding add_isat get_field put_field
mark_location name fs = if name == "" then some fs else elim (add_isat name (location_of fs)) [
  | none ↦ none
  | some location ↦ some (put_field "location" location fs)
]

-- handleMessage
unfoldable pub handle_message : Geography → GeoConfig → Fields → Handled Value
unfolding get_lat_lng mark_location
handle_message geo config fs = elim (Base.get config.geopoint (obj fs)) [
  | unknown_property ↦ rejected
  | get_type_error ↦ rejected
  | got v ↦ elim (get_lat_lng geo v) [
    | none ↦ rejected
    | some position ↦
        if geo.is_point_inside position && config.filter == "inside"
        then elim (mark_location config.name fs) [ none ↦ threw | some fs' ↦ forwarded (obj fs') ]
        else if not (geo.is_point_inside position) && config.filter == "outside"
        then forwarded (obj fs)
        else nothing_sent
  ]
]
