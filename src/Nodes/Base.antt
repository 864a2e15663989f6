-- ===== src/Nodes/Base.antt =====
-- DataHandlerBase._get and _set of lib/DataHandlerBase.js: reading and writing a value by a dotted
-- path. Messages are trees without sharing, and no key is `__proto__` or `hasOwnProperty`.
pub mod Paths
use Prim.Native.Char.{code}
use flowbroker.Prelude.{String, Option, none, some, List, [], ◌∷◌, ◌==◌, nat_eq, if◌then◌else◌}
use flowbroker.Json.{Value, obj, end, Own, found, missing, type_error, own, assign}

-- A piece is kept if it is not empty.
abbrev push_piece : String → List String → List String
push_piece w ws = if w == "" then ws else w ∷ ws

-- The text in front of the first dot, and the pieces behind it.
split_dots : String → String × List String
split_dots String.[] = ("", [])
split_dots (String.◌∷◌ c s) =
    let (w, ws) = split_dots s in
    if nat_eq (code c) b'.' then ("", push_piece w ws) else (String.◌∷◌ c w, ws)

-- `field.match(/([^.]+)/g)`, `[]` for null.
unfoldable pub pieces : String → List String
unfolding split_dots
pieces field = let (w, ws) = split_dots field in push_piece w ws

-- What `_get` does: it returns a value, throws for an unknown property, or throws a TypeError.
pub data Got : Type 0 where
  got : Value → Got
  unknown_property : Got
  get_type_error : Got

unfoldable pub get_path : List String → Value → Got
get_path [] data' = got data'
get_path (at ∷ source) data' = elim (own at data') [
  | found next ↦ get_path source next
  | missing ↦ unknown_property
  | type_error ↦ get_type_error
]

-- `_get`. A field without a piece makes `match` answer null, whose `shift` throws.
unfoldable pub get : String → Value → Got
unfolding get_path
get field target = elim (pieces field) [
  | [] ↦ get_type_error
  | at ∷ source ↦ get_path (at ∷ source) target
]

-- The loop of `_set`: the value `at` as it is behind the write; `none` if the code throws.
unfoldable pub set_path : List String → Value → Value → Option Value
set_path [] value at = some at
set_path (key ∷ []) value at = assign key value at
set_path (key ∷ next ∷ source) value at = elim (own key at) [
  | type_error ↦ none
  | found inner ↦ elim (set_path (next ∷ source) value inner) [
    | none ↦ none
    | some inner' ↦ assign key inner' at
  ]
  | missing ↦ elim (set_path (next ∷ source) value (obj end)) [
    | none ↦ none
    | some inner' ↦ assign key inner' at
  ]
]

-- `_set`: the changed target.
unfoldable pub set : String → Value → Value → Option Value
unfolding set_path
set field value target = elim (pieces field) [
  | [] ↦ none
  | key ∷ source ↦ set_path (key ∷ source) value target
]
