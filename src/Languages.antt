-- ===== src/Languages.antt =====
-- orchestrator/accept-language-parser.js: the choice of a language. The accepted languages come parsed, in
-- the order of their quality.
pub mod Picked
mod Tests
use Prim.Native.Char.{code}
use flowbroker.Prelude.{
  String, Bool, true, false, not, ◌&&◌, ◌||◌, Option, none, some, List, [], ◌∷◌, ◌==◌, nat_eq,
  if◌then◌else◌,
}
use flowbroker.Prelude.Letters.{to_lower_case}

-- A language tag; a part that is null or undefined is none.
pub record Tag : Type 0 where
  pub code_of : String
  pub script : Option String
  pub region : Option String

-- The text in front of the first dash, and the parts behind it.
split_dashes : String → String × List String
split_dashes String.[] = ("", [])
split_dashes (String.◌∷◌ c s) =
    let (w, ws) = split_dashes s in
    if nat_eq (code c) b'-' then ("", w ∷ ws) else (String.◌∷◌ c w, ws)

-- `bits`: three parts are a code, a script and a region; else the second one is the region.
abbrev tag_of : String → List String → Tag
tag_of w [] = record { code_of = w; script = none; region = none }
tag_of w (a ∷ []) = record { code_of = w; script = none; region = some a }
tag_of w (a ∷ b ∷ []) = record { code_of = w; script = some a; region = some b }
tag_of w (a ∷ b ∷ c ∷ rest) = record { code_of = w; script = none; region = some a }

-- mapSupported, of one language.
unfoldable pub map_supported : String → Tag
unfolding split_dashes
map_supported support = let (w, ws) = split_dashes support in tag_of w ws

-- `lang.script ? lang.script.toLowerCase() : lang.script`; an empty text is no part.
abbrev lowered : Option String → Option String
lowered none = none
lowered (some s) = if s == "" then none else some (to_lower_case s)

-- `options.loose || !part || part === supported`
abbrev part_fits : Bool → Option String → Option String → Bool
part_fits loose none supported = true
part_fits loose (some p) none = loose
part_fits loose (some p) (some q) = loose || p == q

-- The test of the inner loop.
unfoldable pub fits : Bool → Tag → Tag → Bool
unfolding to_lower_case
fits loose lang supported =
    to_lower_case lang.code_of == to_lower_case supported.code_of
    && part_fits loose (lowered lang.script) (lowered supported.script)
    && part_fits loose (lowered lang.region) (lowered supported.region)

-- The inner loop, over the supported languages.
unfoldable pub pick_for : Bool → Tag → List String → Option String
unfolding fits map_supported
pick_for loose lang [] = none
pick_for loose lang (s ∷ supported) =
    let rest = pick_for loose lang supported in
    if fits loose lang (map_supported s) then some s else rest

-- pick, `none` for null.
unfoldable pub pick : Bool → List String → List Tag → Option String
unfolding pick_for
pick loose supported [] = none
pick loose supported (lang ∷ langs) =
    let rest = pick loose supported langs in
    elim (pick_for loose lang supported) [ some s ↦ some s | none ↦ rest ]
