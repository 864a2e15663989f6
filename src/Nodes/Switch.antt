-- ===== src/Nodes/Switch.antt =====
-- The handler of orchestrator/nodes/switch/index.js, for whole numbers. An object or an array is compared
-- with itself nowhere.
-- The engines of regular expressions and of jsonata are parameters.
pub mod Routes
use Prim.Native.Char.{code}
use flowbroker.Prelude.{
  String, Bool, true, false, ◌&&◌, ◌||◌, not, Option, none, some, List, [], ◌∷◌, ◌==◌, ltb, nat_eq,
  if◌then◌else◌,
}
use flowbroker.Prelude.Int.{ℤ, ltb_ℤ}
use flowbroker.Json.{Value, null, boolean, num, str, arr, obj}
use flowbroker.Nodes.Numbers.{number_of, primitive_text}
use flowbroker.Nodes.Base
use flowbroker.Nodes.Base.{got, unknown_property, get_type_error}
use flowbroker.Nodes.Publish.{same_value}

-- A value of the handler; `promise` is a rejected promise that is used as a value.
pub data Js : Type 0 where
  undefined nan promise : Js
  js : Value → Js

pub record Engines : Type 0 where
  -- `(text).match(new RegExp(pattern, flag))`; `none` for a pattern that throws.
  pub regex : (text : Js) → (pattern : Js) → (ignore_case : Bool) → Option Bool
  -- `(text + "").indexOf(part) !== -1`
  pub contains : (text part : Js) → Bool
  -- An expression on a message; `none` if it throws.
  pub evaluate : (expression : Js) → (message : Value) → Option Js

pub record Rule : Type 0 where
  pub t : String
  pub v : Js
  pub vt : String
  pub v2 : Js
  pub v2t : String
  pub ignore_case : Bool

pub record SwitchConfig : Type 0 where
  pub property : String
  pub property_type : String
  pub rules : List Rule
  pub checkall : String
  pub previous_value : Js

-- `Number(value)`, `none` for NaN.
unfoldable pub number_of_js : Js → Option ℤ
unfolding number_of
number_of_js (js v) = number_of v
number_of_js _ = none

abbrev is_number : Js → Bool
is_number v = elim (number_of_js v) [ none ↦ false | some n ↦ true ]

-- The text that `<` and `<=` take a value for, if any.
unfoldable pub text_of_js : Js → Option String
unfolding primitive_text
text_of_js (js v) = primitive_text v
text_of_js promise = some "[object Promise]"
text_of_js _ = none

text_lt : String → String → Bool
text_lt String.[] String.[] = false
text_lt String.[] (String.◌∷◌ d t) = true
text_lt (String.◌∷◌ c s) String.[] = false
text_lt (String.◌∷◌ c s) (String.◌∷◌ d t) =
    let rest = text_lt s t in
    if ltb (code c) (code d) then true else if nat_eq (code c) (code d) then rest else false

abbrev numbers_lt : Option ℤ → Option ℤ → Bool
numbers_lt (some m) (some n) = ltb_ℤ m n
numbers_lt _ _ = false

abbrev texts_or : (String → String → Bool) → Option String → Option String → Bool → Bool
texts_or compare (some s) (some t) numbers = compare s t
texts_or compare _ _ numbers = numbers

abbrev numbers_le : Option ℤ → Option ℤ → Bool
numbers_le (some m) (some n) = not (ltb_ℤ n m)
numbers_le _ _ = false

-- `a < b`: of two texts, or values that become texts, by their characters, else as numbers.
unfoldable pub less_than : Js → Js → Bool
unfolding text_lt text_of_js number_of_js
less_than a b =
    texts_or text_lt (text_of_js a) (text_of_js b) (numbers_lt (number_of_js a) (number_of_js b))

-- `a <= b`
unfoldable pub at_most : Js → Js → Bool
unfolding text_lt text_of_js number_of_js
at_most a b =
    texts_or (λ s t. not (text_lt t s)) (text_of_js a) (text_of_js b)
      (numbers_le (number_of_js a) (number_of_js b))

-- `a === b`
unfoldable pub strictly_equal : Js → Js → Bool
strictly_equal undefined undefined = true
strictly_equal (js v) (js w) = same_value v w
strictly_equal _ _ = false

abbrev is_null : Js → Bool
is_null undefined = true
is_null (js null) = true
is_null _ = false

-- `elseflag` behind a rule.
abbrev pub next_flag : Rule → Bool → Bool → Bool
next_flag rule elseflag hit = if hit then false else if rule.t == "else" then true else elseflag

-- The outputs from a rule on: a hit ends the loop unless all rules are checked.
unfoldable pub after_rule : Bool → Bool → Option (List Bool) → Option (List Bool)
after_rule true true rest = some (true ∷ [])
after_rule hit first none = none
after_rule hit first (some outs) = some (hit ∷ outs)

module _ (engines : Engines) where
  -- The table of operators, applied; `none` for a name that is not in it, which throws.
  unfoldable pub operate : String → Js → Js → Js → Bool → Option Bool
  unfolding less_than at_most strictly_equal
  operate t a b c d =
      if t == "eq"
      then some (strictly_equal a b)
      else if t == "neq"
      then some (not (strictly_equal a b))
      else if t == "lt"
      then some (less_than a b)
      else if t == "lte"
      then some (at_most a b)
      else if t == "gt"
      then some (less_than b a)
      else if t == "gte"
      then some (at_most b a)
      else if t == "btwn"
      then some (at_most b a && at_most a c)
      else if t == "cont"
      then some (engines.contains a b)
      else if t == "regex"
      then engines.regex a b d
      else if t == "true" || t == "else"
      then some (strictly_equal a (js (boolean true)))
      else if t == "false"
      then some (strictly_equal a (js (boolean false)))
      else if t == "null"
      then some (is_null a)
      else if t == "nnull"
      then some (not (is_null a))
      else none

  -- _getTyped
  unfoldable pub get_typed : Js → String → Js
  unfolding number_of_js
  get_typed v type =
      if type == "num" then elim (number_of_js v) [ none ↦ nan | some n ↦ js (num n) ] else v

  -- _getType
  abbrev get_type : Js → String
  get_type v = if is_number v then "num" else "str"

  -- _get of this node: an unknown property is undefined. `none` if it throws.
  unfoldable pub read : String → Value → Option Js
  read field message = elim (Base.get field message) [
    | got v ↦ some (js v)
    | unknown_property ↦ some undefined
    | get_type_error ↦ none
  ]

  -- A path that is no text has no `match`, and throws.
  abbrev read_at : Js → Value → Option Js
  read_at (js (str field)) message = read field message
  read_at _ message = none

  -- retrieveRuleValue. An error is returned as a rejected promise.
  unfoldable pub retrieve_rule_value : SwitchConfig → Value → Js → String → Js
  unfolding get_typed read
  retrieve_rule_value config message v type =
      if type == "prev"
      then config.previous_value
      else if type == "jsonata"
      then elim (engines.evaluate v message) [ none ↦ promise | some r ↦ r ]
      else if type == "msg"
      then elim (read_at v message) [ none ↦ promise | some r ↦ get_typed r (get_type r) ]
      else elim v [ undefined ↦ undefined | given ↦ get_typed given type ]

  -- The value of a rule's test, for the flag that an `else` reads.
  unfoldable pub test_rule : SwitchConfig → Value → Js → Bool → Rule → Option Bool
  unfolding operate retrieve_rule_value
  test_rule config message prop elseflag rule =
      operate rule.t (if rule.t == "else" then js (boolean elseflag) else prop)
        (retrieve_rule_value config message rule.v rule.vt)
        (retrieve_rule_value config message rule.v2 rule.v2t) rule.ignore_case

  -- The loop: which outputs get the message, for those that the loop gets to.
  unfoldable pub run_rules : SwitchConfig → Value → Js → Bool → List Rule → Option (List Bool)
  unfolding test_rule after_rule
  run_rules config message prop elseflag [] = some []
  run_rules config message prop elseflag (rule ∷ rules) =
      elim (test_rule config message prop elseflag rule) [
        | none ↦ none
        | some hit ↦
            let rest = run_rules config message prop (next_flag rule elseflag hit) rules in
            after_rule hit (config.checkall == "false") rest
      ]

  -- handleMessage: the outputs, `none` for a rejection, and the value that it remembers.
  unfoldable pub handle_message : SwitchConfig → Value → Option (List Bool) × SwitchConfig
  unfolding run_rules get_typed read
  handle_message config message = elim (read config.property message) [
    | none ↦ (none, config)
    | some value ↦
        let prop = get_typed value config.property_type in
        elim (run_rules config message prop true config.rules) [
          | none ↦ (none, config)
          | some outs ↦ (some outs, record config { previous_value = prop })
        ]
  ]
