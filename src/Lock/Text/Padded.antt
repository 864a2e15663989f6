-- ===== src/Lock/Text/Padded.antt =====
-- Zero-padded decimal texts of one width compare as their numbers do, and read back.
use native.Mathlib.Nat.{pow-suc}
use native.Mathlib.Decide.{dec_lt}
use flowbroker.Prelude.{
  ℕ, zero, suc, ◌+◌, ◌*◌, ◌-◌, ◌/◌, ◌%◌, ◌^◌, ◌<◌, ◌≡◌, refl, sym, ap, ◌∙◌, true, ◌&&◌, some, [],
  ◌∷◌, ◌++◌, arith, ltb, leb, length, length-append,
}
use flowbroker.Lock.Text.{
  Text, text_lt, to_number, number_from, padded, text_lt_irrefl, text_lt_asym, text_lt-append,
  text_lt-append_same,
}

pub length-padded : (w v : ℕ) → length (padded w v) ≡ w
unfolding padded
length-padded zero v = refl
length-padded (suc w) v =
    omega
      (arith, length-append (padded w (v / 10)) ((b'0' + v % 10) ∷ []), length-padded w (v / 10))

padded_mono : (w a b : ℕ) → b < 10 ^ w → a < b → text_lt (padded w a) (padded w b) ≡ true
unfolding padded
padded_mono zero a b h lt = absurd (omega arith)
padded_mono (suc w) a b h lt = elim (dec_lt (a / 10) (b / 10)) [
  | yes p ↦
      text_lt-append (padded w (a / 10)) (padded w (b / 10)) _ _
        (length-padded w (a / 10) ∙ sym (length-padded w (b / 10)))
        (padded_mono w (a / 10) (b / 10) (omega (arith, pow-suc 10 w)) p)
  | no p ↦
      let e : a / 10 ≡ b / 10 = omega arith in
      rw e (text_lt-append_same (padded w (b / 10)) _ _ (omega arith))
]

-- The order of two padded texts is the order of their numbers.
pub text_lt-padded :
    (w a b : ℕ) → a < 10 ^ w → b < 10 ^ w → text_lt (padded w a) (padded w b) ≡ ltb a b
text_lt-padded w a b ha hb = elim (dec_lt a b) [
  | yes p ↦ padded_mono w a b hb p ∙ ground arith
  | no p ↦ elim (dec_lt b a) [
    | yes q ↦ text_lt_asym _ _ (padded_mono w b a ha q) ∙ ground arith
    | no q ↦ let e : a ≡ b = omega arith in rw e (text_lt_irrefl (padded w b) ∙ sym (ground arith))
  ]
]

number_from-snoc :
    (acc : ℕ) (s : Text) (c n : ℕ)
    → number_from acc s ≡ some n
    → (leb b'0' c && leb c b'9') ≡ true
    → number_from acc (s ++ c ∷ []) ≡ some (n * 10 + (c - b'0'))
unfolding number_from
number_from-snoc acc [] c n h d = ground arith
number_from-snoc acc (x ∷ s) c n h d =
    ground (arith, number_from-snoc (acc * 10 + (x - b'0')) s c n)

number_from-padded : (w v : ℕ) → v < 10 ^ w → number_from 0 (padded w v) ≡ some v
unfolding padded
number_from-padded zero v h = unfold number_from in ap some (omega arith)
number_from-padded (suc w) v h =
    number_from-snoc 0 (padded w (v / 10)) (b'0' + v % 10) (v / 10)
      (number_from-padded w (v / 10) (omega (arith, pow-suc 10 w))) (ground arith)
    ∙ ap some (omega arith)

-- A padded text reads back as its number.
pub to_number-padded : (w v : ℕ) → v < 10 ^ w → to_number (padded w v) ≡ some v
unfolding to_number
to_number-padded w v h = number_from-padded w v h
