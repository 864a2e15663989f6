-- ===== src/Nodes/Change.antt =====
-- The handler of orchestrator/nodes/change/index.js. Numbers are whole; NaN stands as null, which it
-- becomes when the message leaves.
pub mod Rules
mod Tests
use Prim.Native.Char.{code}
use flowbroker.Prelude.{
  ℕ, ◌+◌, String, Bool, true, false, ◌&&◌, ◌||◌, Option, none, some, List, [], ◌∷◌, ◌==◌, leb,
  nat_eq, if◌then◌else◌,
}
use flowbroker.Json.{Value, null, boolean, num, str, arr, obj}
use flowbroker.Executor.{Handled, resolved, rejected}
use flowbroker.Nodes.Base
use flowbroker.Nodes.Base.{Got, got, unknown_property, get_type_error}
use flowbroker.Nodes.Numbers.{number_of}
use flowbroker.Nodes.Outcomes.{forwarded}

pub record ChangeRule : Type 0 where
  pub t : String
  pub p : String
  pub tot : String
  pub to : Value

-- toLowerCase, on the letters of ASCII, as the codes.
abbrev lower_codes : String → List ℕ
lower_codes String.[] = []
lower_codes (String.◌∷◌ c s) =
    (if leb b'A' (code c) && leb (code c) b'Z' then code c + 32 else code c) ∷ lower_codes s

same_codes : List ℕ → List ℕ → Bool
same_codes [] [] = true
same_codes [] (d ∷ ds) = false
same_codes (c ∷ cs) [] = false
same_codes (c ∷ cs) (d ∷ ds) = let rest = same_codes cs ds in nat_eq c d && rest

-- `['1', 'true'].includes(text.toLowerCase())`
unfoldable pub is_true_text : String → Bool
unfolding same_codes
is_true_text s =
    same_codes (lower_codes s) (lower_codes "1") || same_codes (lower_codes s) (lower_codes "true")

abbrev number_value : Value → Value
number_value v = elim (number_of v) [ none ↦ null | some n ↦ num n ]

-- The value that a rule sets, `none` where the code throws or rejects.
unfoldable pub value_of : ChangeRule → Value → Option Value
unfolding is_true_text
value_of rule message =
    if rule.tot == "str"
    then some rule.to
    else if rule.tot == "num"
    then some (number_value rule.to)
    else if rule.tot == "bool" || rule.tot == "boolean"
    then elim rule.to [ str s ↦ some (boolean (is_true_text s)) | _ ↦ none ]
    else if rule.tot == "msg"
    then elim rule.to [
      | str s ↦ elim (Base.get s message) [
        | got v ↦ some v
        | unknown_property ↦ none
        | get_type_error ↦ none
      ]
      | _ ↦ none
    ]
    else none

-- One turn of the loop, the message behind it; a rule that is no `set` changes nothing.
unfoldable pub change : ChangeRule → Value → Option Value
change rule message =
    if rule.t == "set"
    then elim (value_of rule message) [ none ↦ none | some v ↦ Base.set rule.p v message ]
    else some message

abbrev is_nested : Value → Bool
is_nested (arr xs fs) = true
is_nested (obj fs) = true
is_nested _ = false

-- Does the rule write an object or an array of the message, or of the configuration, to a second place?
unfoldable pub shares : ChangeRule → Value → Bool
shares rule message =
    if rule.t == "set"
    then elim (value_of rule message) [ none ↦ false | some v ↦ is_nested v ]
    else false

-- What the loop comes to. Behind a value in two places the model ends, unless its rule is the last.
pub data Changed : Type 0 where
  changed : Value → Changed
  refused : Changed
  shared : Changed

unfoldable pub changes : List ChangeRule → Value → Changed
unfolding change shares
changes [] message = changed message
changes (rule ∷ []) message = elim (change rule message) [ none ↦ refused | some m ↦ changed m ]
changes (rule ∷ next ∷ rules) message = elim (change rule message) [
  | none ↦ refused
  | some m ↦ if shares rule message then shared else changes (next ∷ rules) m
]

-- handleMessage; `none` where the model ends.
unfoldable pub handle_message : List ChangeRule → Value → Option (Handled Value)
unfolding changes
handle_message rules message = elim (changes rules message) [
  | changed m ↦ some (forwarded m)
  | refused ↦ some rejected
  | shared ↦ none
]
