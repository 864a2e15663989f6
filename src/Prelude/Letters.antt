-- ===== src/Prelude/Letters.antt =====
-- Texts: the case of letters, of ASCII, and what a text starts with, contains and ends with, and lists
-- of texts.
use Prim.Native.Char.{Char, code}
use Prim.Native.String.{String}
use Prim.Native.Nat.{ℕ, zero, suc, ◌-◌}
use mathlib.Core.Bool.{Bool, true, false, ◌&&◌, ◌||◌}
use mathlib.Core.List.{List, [], ◌∷◌}
use text.Mathlib.Text.{◌==◌}
use flowbroker.Prelude.Bools.{leb, nat_eq, if◌then◌else◌}

-- The character at an index, or a given one behind the end.
char_at : ℕ → Char → String → Char
char_at i d String.[] = d
char_at zero d (String.◌∷◌ c s) = c
char_at (suc i) d (String.◌∷◌ c s) = char_at i d s

abbrev lower_char : Char → Char
lower_char c =
    if leb b'A' (code c) && leb (code c) b'Z'
    then char_at (code c - b'A') c "abcdefghijklmnopqrstuvwxyz"
    else c

-- `toLowerCase`
unfoldable pub to_lower_case : String → String
unfolding char_at
to_lower_case String.[] = String.[]
to_lower_case (String.◌∷◌ c s) = String.◌∷◌ (lower_char c) (to_lower_case s)

abbrev upper_char : Char → Char
upper_char c =
    if leb b'a' (code c) && leb (code c) b'z'
    then char_at (code c - b'a') c "ABCDEFGHIJKLMNOPQRSTUVWXYZ"
    else c

-- `toUpperCase`
unfoldable pub to_upper_case : String → String
unfolding char_at
to_upper_case String.[] = String.[]
to_upper_case (String.◌∷◌ c s) = String.◌∷◌ (upper_char c) (to_upper_case s)

-- Does a text start with another one?
unfoldable pub starts_with : String → String → Bool
starts_with String.[] s = true
starts_with (String.◌∷◌ c p) String.[] = false
starts_with (String.◌∷◌ c p) (String.◌∷◌ d s) =
    let rest = starts_with p s in nat_eq (code c) (code d) && rest

-- Does it contain it, or end with it?
unfoldable pub contains : String → String → Bool
unfolding starts_with
contains p String.[] = starts_with p String.[]
contains p (String.◌∷◌ c s) = let rest = contains p s in starts_with p (String.◌∷◌ c s) || rest

unfoldable pub ends_with : String → String → Bool
ends_with p String.[] = p == ""
ends_with p (String.◌∷◌ c s) = let rest = ends_with p s in (p == String.◌∷◌ c s) || rest

-- `texts.includes(s)`
unfoldable pub includes : String → List String → Bool
includes s [] = false
includes s (t ∷ ts) = t == s || includes s ts
