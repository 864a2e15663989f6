-- ===== src/Nodes/CumulativeSum/Window.antt =====
-- The entries of the time window, and their sum: what the loop of cumulative-sum.js drops and keeps.
use flowbroker.Prelude.{
  ◌≡◌, refl, ap, ◌⊎◌, inl, inr, false, List, [], ◌∷◌, ◌++◌, drop, if◌then◌else◌, arith, Bool-cases,
}
use flowbroker.Prelude.Int.{ℤ, pos, pos_part, neg_part, ◌+ℤ◌, ◌≤ℤ◌, ◌<ℤ◌, ltb_ℤ, int_laws}
use flowbroker.Nodes.CumulativeSum.{SumEntry, SumContext, is_messy, expired}

unfoldable pub total : List SumEntry → ℤ
total [] = pos 0
total (e ∷ es) = e.value +ℤ total es

-- The entries that are not below a threshold.
unfoldable pub from : ℤ → List SumEntry → List SumEntry
from t [] = []
from t (e ∷ es) = let rest = from t es in if ltb_ℤ e.timestamp t then rest else e ∷ rest

-- The timestamps do not fall, and are at most `now`.
abbrev pub Ordered : List SumEntry → Type 0
Ordered [] = Unit
Ordered (e ∷ []) = Unit
Ordered (e ∷ f ∷ es) = (e.timestamp ≤ℤ f.timestamp) × Ordered (f ∷ es)

-- All values are positive.
abbrev pub Positive : List SumEntry → Type 0
Positive [] = Unit
Positive (e ∷ es) = (pos 0 <ℤ e.value) × Positive es

pub Ordered-tail : (e : SumEntry) (es : List SumEntry) → Ordered (e ∷ es) → Ordered es
Ordered-tail e [] h = tt
Ordered-tail e (f ∷ es) h = h.1

-- From an entry on that is in the window, all are.
from-all :
    (t : ℤ) (e : SumEntry) (es : List SumEntry)
    → Ordered (e ∷ es)
    → ltb_ℤ e.timestamp t ≡ false
    → from t (e ∷ es) ≡ e ∷ es
unfolding from
from-all t e [] h k = rw (k, from) refl
from-all t e (f ∷ es) h k =
    let next = from-all t f es h.1 (ground arith) in rw (k, from) (ap (λ xs. e ∷ xs) next)

-- What the loop finds: what is left of the sum, and the entries of the window.
pub expired-from :
    (t : ℤ) (es : List SumEntry)
    → Ordered es
    → (total es ≡ (expired t es).0 +ℤ total (from t es))
      × ((ys : List SumEntry) → drop (expired t es).1 (es ++ ys) ≡ from t es ++ ys)
unfolding expired total from
expired-from t [] h = (omega int_laws, λ ys. refl)
expired-from t (e ∷ es) h = elim (Bool-cases (ltb_ℤ e.timestamp t)) [
  | inl old ↦
      let (sums, drops) = expired-from t es (Ordered-tail e es h) in
      rw old (omega (int_laws, ap pos_part sums, ap neg_part sums), drops)
  | inr new ↦ rw (from-all t e es h new) (rw new (omega int_laws, λ ys. refl))
]

pub not_messy :
    (es : List SumEntry) (e : SumEntry) → Ordered (es ++ e ∷ []) → is_messy es e.timestamp ≡ false
unfolding is_messy
not_messy [] e h = refl
not_messy (x ∷ []) e h = ground arith
not_messy (x ∷ y ∷ es) e h = not_messy (y ∷ es) e h.1

pub from-from : (t t' : ℤ) (es : List SumEntry) → t ≤ℤ t' → from t' (from t es) ≡ from t' es
unfolding from
from-from t t' [] h = refl
from-from t t' (e ∷ es) h = ground (arith, from-from t t' es)

pub Ordered-prefix : (xs ys : List SumEntry) → Ordered (xs ++ ys) → Ordered xs
Ordered-prefix [] ys h = tt
Ordered-prefix (x ∷ []) ys h = tt
Ordered-prefix (x ∷ y ∷ xs) ys h = (h.0, Ordered-prefix (y ∷ xs) ys h.1)

pub Ordered-from : (t : ℤ) (es ys : List SumEntry) → Ordered (es ++ ys) → Ordered (from t es ++ ys)
unfolding from
Ordered-from t [] ys h = h
Ordered-from t (e ∷ es) ys h = elim (Bool-cases (ltb_ℤ e.timestamp t)) [
  | inl old ↦ rw (old, from) (Ordered-from t es ys (Ordered-tail e (es ++ ys) h))
  | inr new ↦ rw (from-all t e es (Ordered-prefix (e ∷ es) ys h) new) h
]

pub Positive-from : (t : ℤ) (es : List SumEntry) → Positive es → Positive (from t es)
unfolding from
Positive-from t [] h = tt
Positive-from t (e ∷ es) h = ground (arith, Positive-from t es)

pub from-append :
    (t : ℤ) (es : List SumEntry) (e : SumEntry)
    → t ≤ℤ e.timestamp
    → from t (es ++ e ∷ []) ≡ from t es ++ e ∷ []
unfolding from
from-append t [] e h = ground arith
from-append t (x ∷ es) e h = ground (arith, from-append t es e)

pub total-append : (xs ys : List SumEntry) → total (xs ++ ys) ≡ total xs +ℤ total ys
unfolding total
total-append [] ys = omega int_laws
total-append (x ∷ xs) ys =
    let h = total-append xs ys in omega (int_laws, ap pos_part h, ap neg_part h)

-- Positive values come to 0 only if there is none.
pub total_pos : (es : List SumEntry) → Positive es → (es ≡ []) ⊎ (pos 0 <ℤ total es)
unfolding total
total_pos [] h = inl refl
total_pos (e ∷ es) h = inr (elim (total_pos es h.1) [
  | inl none_left ↦ rw none_left (unfold total in omega (int_laws, h.0))
  | inr more ↦ omega (int_laws, h.0, more)
])

-- The context holds the window of the events from a threshold on, and its sum.
pub record InWindow (t : ℤ) (events : List SumEntry) (c : SumContext) : Type 0 where
  pub window : c.entries ≡ from t events
  pub summed : c.sum ≡ total c.entries
