-- ===== src/Auth.antt =====
-- orchestrator/auth.js: the two steps that an HTTP request to the orchestrator passes. The decoding of a
-- token's middle part is a parameter.
pub mod Passed
mod Tests
use Prim.Native.Char.{code}
use flowbroker.Prelude.{
  ℕ, String, Bool, true, false, ◌&&◌, ◌||◌, Option, none, some, List, [], ◌∷◌, leb, nat_eq,
  if◌then◌else◌,
}
use flowbroker.Prelude.Letters.{contains, ends_with}
use flowbroker.Json.{Value, null, boolean, num, str, arr, obj}

-- The fields of a request that the code reads and writes; a field that is undefined is none.
pub record Visit : Type 0 where
  pub path : String
  pub authorization : Option String
  pub user : Option Value
  pub userid : Option Value
  pub service : Option Value

-- What a token says.
pub record TokenData : Type 0 where
  pub username : Option Value
  pub userid : Option Value
  pub service : Option Value

-- The next step is called, a 401 is sent, or the code throws.
pub data Gate : Type 0 where
  passes : Visit → Gate
  unauthorized : Gate
  crashes : Gate

-- The text in front of the first dot, and the parts behind it.
split_token : String → String × List String
split_token String.[] = ("", [])
split_token (String.◌∷◌ c s) =
    let (w, ws) = split_token s in
    if nat_eq (code c) b'.' then ("", w ∷ ws) else (String.◌∷◌ c w, ws)

-- `rawToken.split('.')`, if it has three parts, the middle one.
unfoldable pub middle_part : String → Option String
unfolding split_token
middle_part raw = elim (split_token raw).1 [
  | [] ↦ none
  | p ∷ ps ↦ elim ps [ [] ↦ none | q ∷ qs ↦ elim qs [ [] ↦ some p | r ∷ rs ↦ none ] ]
]

-- White space of ASCII.
abbrev is_space : ℕ → Bool
is_space c = nat_eq c 32 || (leb 9 c && leb c 13)

-- `text.trim() === ""`
unfoldable pub is_blank : String → Bool
is_blank String.[] = true
is_blank (String.◌∷◌ c s) = let rest = is_blank s in is_space (code c) && rest

-- `v === undefined || v.trim() === ""`; none where the value has no `trim`.
unfoldable pub is_missing : Option Value → Option Bool
unfolding is_blank
is_missing none = some true
is_missing (some (str s)) = some (is_blank s)
is_missing (some _) = none

-- `/(\.png|svg$)|(keymap\.json$)/`: only the last two have to be at the end.
unfoldable pub is_open : String → Bool
unfolding contains ends_with
is_open path = contains ".png" path || ends_with "svg" path || ends_with "keymap.json" path

module _ (decode : String → Option TokenData) where
  -- authParse
  unfoldable pub auth_parse : Visit → Gate
  unfolding middle_part
  auth_parse req = elim req.authorization [
    | none ↦ passes req
    | some raw ↦ elim (middle_part raw) [
      | none ↦ unauthorized
      | some part ↦ elim (decode part) [
        | none ↦ crashes
        | some t ↦ passes (record req { user = t.username; userid = t.userid; service = t.service })
      ]
    ]
  ]

  -- authEnforce
  unfoldable pub auth_enforce : Visit → Gate
  unfolding is_missing is_open
  auth_enforce req = if is_open req.path then passes req else elim (is_missing req.user) [
    | none ↦ crashes
    | some no_user ↦ if no_user then unauthorized else elim (is_missing req.service) [
      | none ↦ crashes
      | some no_service ↦ if no_service then unauthorized else passes req
    ]
  ]

  -- The two steps, one behind the other.
  unfoldable pub authorize : Visit → Gate
  unfolding auth_parse auth_enforce
  authorize req = elim (auth_parse req) [
    | passes r ↦ auth_enforce r
    | unauthorized ↦ unauthorized
    | crashes ↦ crashes
  ]
