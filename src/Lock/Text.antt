-- ===== src/Lock/Text.antt =====
-- The texts that the lock code compares: `substring`, `charAt`, `>` on two strings and on a string
-- and a number, and the ten digits that ZooKeeper appends to a sequential znode's name. A text is
-- the list of its character codes.
pub mod Padded
use Prim.Native.Char.{code}
use flowbroker.Prelude.{
  ℕ, zero, suc, ◌+◌, ◌-◌, ◌*◌, ◌/◌, ◌%◌, ◌<◌, String, ◌≡◌, refl, Bool, true, false, ◌&&◌, Option,
  none, some, List, [], ◌∷◌, ◌++◌, arith, ltb, leb, nat_eq, if◌then◌else◌, length,
}

abbrev pub Text : Type 0
Text = List ℕ

abbrev pub codes : String → Text
codes String.[] = []
codes (String.◌∷◌ c s) = code c ∷ codes s

-- `s > t` and `s < t` on two strings compare code units from the left: this is `s < t`.
unfoldable pub text_lt : Text → Text → Bool
text_lt s [] = false
text_lt [] (b ∷ t) = true
text_lt (a ∷ s) (b ∷ t) = if ltb a b then true else if ltb b a then false else text_lt s t

-- `s === t`
unfoldable pub text_eq : Text → Text → Bool
text_eq [] [] = true
text_eq [] (b ∷ t) = false
text_eq (a ∷ s) [] = false
text_eq (a ∷ s) (b ∷ t) = nat_eq a b && text_eq s t

number_from : ℕ → Text → Option ℕ
number_from acc [] = some acc
number_from acc (c ∷ s) =
    if leb b'0' c && leb c b'9' then number_from (acc * 10 + (c - b'0')) s else none

-- `Number(s)` of a text of decimal digits; `none` stands for all other texts, of which the code
-- meets none.
unfoldable pub to_number : Text → Option ℕ
unfolding number_from
to_number s = number_from 0 s

-- The last `w` decimal digits of `v`, padded by zeros: `%010d` at `w = 10`.
unfoldable pub padded : ℕ → ℕ → Text
padded zero v = []
padded (suc w) v = padded w (v / 10) ++ (b'0' + v % 10) ∷ []

pub text_lt_irrefl : (s : Text) → text_lt s s ≡ false
unfolding text_lt
text_lt_irrefl [] = refl
text_lt_irrefl (a ∷ s) = ground (arith, text_lt_irrefl s)

pub text_lt_asym : (s t : Text) → text_lt s t ≡ true → text_lt t s ≡ false
unfolding text_lt
text_lt_asym [] (b ∷ t) h = refl
text_lt_asym (a ∷ s) (b ∷ t) h = ground (arith, text_lt_asym s t)
text_lt_asym s [] h = ground arith

pub text_lt-append :
    (s t u v : Text) → length s ≡ length t → text_lt s t ≡ true → text_lt (s ++ u) (t ++ v) ≡ true
unfolding text_lt
text_lt-append [] [] u v e h = ground arith
text_lt-append (a ∷ s) [] u v e h = ground arith
text_lt-append [] (b ∷ t) u v e h = absurd (omega arith)
text_lt-append (a ∷ s) (b ∷ t) u v e h = ground (arith, text_lt-append s t u v)

pub text_lt-append_same : (s : Text) (a b : ℕ) → a < b → text_lt (s ++ a ∷ []) (s ++ b ∷ []) ≡ true
unfolding text_lt
text_lt-append_same [] a b h = ground arith
text_lt-append_same (c ∷ s) a b h = ground (arith, text_lt-append_same s a b)

pub text_eq→≡ : (s t : Text) → text_eq s t ≡ true → s ≡ t
unfolding text_eq
text_eq→≡ [] [] h = refl
text_eq→≡ [] (b ∷ t) h = ground arith
text_eq→≡ (a ∷ s) [] h = ground arith
text_eq→≡ (a ∷ s) (b ∷ t) h = ground (arith, text_eq→≡ s t)
