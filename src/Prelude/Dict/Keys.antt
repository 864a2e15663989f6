-- ===== src/Prelude/Dict/Keys.antt =====
-- The keys of a map: an assignment brings no key in twice.
use mathlib.Core.Path.{◌≡◌, refl, ◌∙◌, sym}
use mathlib.Core.Bool.{false≢true}
use mathlib.Core.Logic.{◌⊎◌, inl, inr}
use mathlib.Core.List.{List, [], ◌∷◌}
use Prim.Native.String.{String}
use text.Mathlib.Text.{◌==◌}
use text.Mathlib.TextEquality.{eq_iff}
use flowbroker.Prelude.Bools.{Bool-cases}
use flowbroker.Prelude.Lists.{In}
use mathlib.Core.Option.{none}
use flowbroker.Prelude.Dict.{Dict, get, put}

-- No element twice.
abbrev pub Distinct : List String → Type 0
Distinct [] = Unit
Distinct (x ∷ xs) = (In x xs → ⊥) × Distinct xs

module _ {ℓ} {V : Type ℓ} where
  abbrev pub keys : Dict V → List String
  keys [] = []
  keys ((k, v) ∷ m) = k ∷ keys m

  abbrev pub values : Dict V → List V
  values [] = []
  values ((k, v) ∷ m) = v ∷ values m

  keys-put :
      (k : String) (v : V) (m : Dict V) (j : String)
      → In j (keys (put k v m))
      → (j ≡ k) ⊎ In j (keys m)
  unfolding put
  keys-put k v [] j (inl e) = inl e
  keys-put k v [] j (inr i) = inr i
  keys-put k v ((i, w) ∷ m) j h = elim (Bool-cases (i == k)) [
    | inl e ↦ inr (rw e at h)
    | inr e ↦ elim (let g : In j (i ∷ keys (put k v m)) = rw e at h in g) [
      | inl same ↦ inr (inl same)
      | inr g ↦ elim (keys-put k v m j g) [ inl x ↦ inl x | inr x ↦ inr (inr x) ]
    ]
  ]

  pub Distinct-put :
      (k : String) (v : V) (m : Dict V) → Distinct (keys m) → Distinct (keys (put k v m))
  unfolding put
  Distinct-put k v [] d = (λ i. absurd i, tt)
  Distinct-put k v ((i, w) ∷ m) (new, d) = elim (Bool-cases (i == k)) [
    | inl e ↦ rw e (new, d)
    | inr e ↦ rw e (
      λ g. elim (keys-put k v m i g) [
        | inl same ↦ false≢true (sym e ∙ (eq_iff i k).1 same)
        | inr old ↦ new old
      ],
      Distinct-put k v m d,
    )
  ]

  -- The key is in, and no key goes.
  pub keys-put_new : (k : String) (v : V) (m : Dict V) → In k (keys (put k v m))
  unfolding put
  keys-put_new k v [] = inl refl
  keys-put_new k v ((i, w) ∷ m) = elim (Bool-cases (i == k)) [
    | inl e ↦ rw e (inl (sym ((eq_iff i k).0 e)))
    | inr e ↦ rw e (inr (keys-put_new k v m))
  ]

  pub keys-put_keeps :
      (k : String) (v : V) (m : Dict V) (j : String) → In j (keys m) → In j (keys (put k v m))
  unfolding put
  keys-put_keeps k v [] j h = absurd h
  keys-put_keeps k v ((i, w) ∷ m) j h = elim (Bool-cases (i == k)) [
    | inl e ↦ rw e h
    | inr e ↦ rw e (elim h [ inl same ↦ inl same | inr g ↦ inr (keys-put_keeps k v m j g) ])
  ]

  -- A key that is not in is not found.
  pub get-none : (k : String) (m : Dict V) → (In k (keys m) → ⊥) → get k m ≡ none
  unfolding get
  get-none k [] h = refl
  get-none k ((i, w) ∷ m) h = elim (Bool-cases (i == k)) [
    | inl e ↦ absurd (h (inl (sym ((eq_iff i k).0 e))))
    | inr e ↦ rw e (get-none k m (λ j. h (inr j)))
  ]
