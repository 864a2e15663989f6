-- ===== src/Prelude/Pending.antt =====
-- A list of pending items, of which one may end: what else it has stays.
use mathlib.Core.Path.{◌≡◌, sym, ◌∙◌, ap}
use mathlib.Core.Bool.{Bool, true, false, false≢true}
use mathlib.Core.Logic.{inl, inr}
use mathlib.Core.List.{List, [], ◌∷◌, ◌++◌}
use flowbroker.Prelude.Lists.{In, In-append, In-append_left, In-append_right, All}

module _ {A : Type 0} where
  -- An item passes the test.
  abbrev pub Has : (A → Bool) → List A → Type 0
  Has p ts = (t : A) × In t ts × (p t ≡ true)

  pub Has-left : (p : A → Bool) (ts us : List A) → Has p ts → Has p (ts ++ us)
  Has-left p ts us h = (h.0, In-append_left h.0 ts us h.1, h.2)

  pub Has-right : (p : A → Bool) (ts us : List A) → Has p us → Has p (ts ++ us)
  Has-right p ts us h = (h.0, In-append_right h.0 ts us h.1, h.2)

  -- An item that ends takes away no other.
  pub Has-rest :
      (p : A → Bool) (ts : List A) (t : A) (us : List A)
      → p t ≡ false
      → Has p (ts ++ t ∷ us)
      → Has p (ts ++ us)
  Has-rest p ts t us pf (x, i, pt) = elim (In-append x ts (t ∷ us) i) [
    | inl l ↦ Has-left p ts us (x, l, pt)
    | inr (inl e) ↦ elim (false≢true (sym pf ∙ ap p (sym e) ∙ pt)) [ ]
    | inr (inr r) ↦ Has-right p ts us (x, r, pt)
  ]

  pub All-rest :
      (P : A → Type 0) (ts : List A) (t : A) (us : List A) → All P (ts ++ t ∷ us) → All P (ts ++ us)
  All-rest P [] t us h = h.1
  All-rest P (x ∷ ts) t us h = (h.0, All-rest P ts t us h.1)
