-- ===== src/Dispatcher/Counts.antt =====
-- How many promises wait in the map of requests, and which timers are left.
use flowbroker.Prelude.{
  ℕ, ◌+◌, String, ◌≡◌, refl, sym, ◌≢◌, inl, inr, none, some, List, [], ◌∷◌, ◌==◌, eq_iff, nat_eq,
  In, arith, Bool-cases, if◌then◌else◌, none≢some, some-inj,
}
use flowbroker.Prelude.Dict
use flowbroker.Prelude.Dict.{
  Dict, get-put, get-remove, get-remove_else, get-remove_self, get-put_else, get-put_self,
}
use flowbroker.Prelude.Dict.Keys.{keys, Distinct, get-none}
use flowbroker.Dispatcher.{Settled, drop_timer}

-- How often a promise waits, and how often it was settled.
unfoldable pub waiting : ℕ → Dict ℕ → ℕ
waiting p [] = 0
waiting p ((id, q) ∷ m) = (if nat_eq p q then 1 else 0) + waiting p m

unfoldable pub settled : ℕ → List (ℕ × Settled) → ℕ
settled p [] = 0
settled p ((q, s) ∷ calls) = (if nat_eq p q then 1 else 0) + settled p calls

pub waiting-put :
    (p q : ℕ) (id : String) (m : Dict ℕ)
    → Dict.get id m ≡ none
    → waiting p (Dict.put id q m) ≡ (if nat_eq p q then 1 else 0) + waiting p m
unfolding waiting Dict.put Dict.get
waiting-put p q id [] h = refl
waiting-put p q id ((k, r) ∷ m) h = elim (Bool-cases (k == id)) [
  | inl e ↦ absurd (none≢some (sym (rw e at h)))
  | inr e ↦ let next = waiting-put p q id m (rw e at h) in rw e (omega (arith, next))
]

keys-remove : (id j : String) (m : Dict ℕ) → In j (keys (Dict.remove id m)) → In j (keys m)
unfolding Dict.remove
keys-remove id j [] i = i
keys-remove id j ((k, r) ∷ m) i = elim (Bool-cases (k == id)) [
  | inl e ↦ inr (keys-remove id j m (rw e at i))
  | inr e ↦ elim (let g : In j (k ∷ keys (Dict.remove id m)) = rw e at i in g) [
    | inl same ↦ inl same
    | inr rest ↦ inr (keys-remove id j m rest)
  ]
]

pub Distinct-remove :
    (id : String) (m : Dict ℕ) → Distinct (keys m) → Distinct (keys (Dict.remove id m))
unfolding Dict.remove
Distinct-remove id [] d = d
Distinct-remove id ((k, r) ∷ m) (new, d) = elim (Bool-cases (k == id)) [
  | inl e ↦ rw e (Distinct-remove id m d)
  | inr e ↦ rw e (λ i. new (keys-remove id k m i), Distinct-remove id m d)
]

waiting-remove-none :
    (p : ℕ) (id : String) (m : Dict ℕ)
    → Dict.get id m ≡ none
    → waiting p (Dict.remove id m) ≡ waiting p m
unfolding waiting Dict.remove Dict.get
waiting-remove-none p id [] h = refl
waiting-remove-none p id ((k, r) ∷ m) h = elim (Bool-cases (k == id)) [
  | inl e ↦ absurd (none≢some (sym (rw e at h)))
  | inr e ↦ let next = waiting-remove-none p id m (rw e at h) in rw e (omega (arith, next))
]

pub waiting-remove :
    (p q : ℕ) (id : String) (m : Dict ℕ)
    → Distinct (keys m)
    → Dict.get id m ≡ some q
    → waiting p m ≡ (if nat_eq p q then 1 else 0) + waiting p (Dict.remove id m)
unfolding waiting Dict.remove Dict.get
waiting-remove p q id [] d h = absurd (none≢some h)
waiting-remove p q id ((k, r) ∷ m) (new, d) h = elim (Bool-cases (k == id)) [
  | inl e ↦
      let same : r ≡ q = some-inj (rw e at h) in
      let gone = waiting-remove-none p id m (get-none id m (rw ((eq_iff k id).0 e) at new)) in
      rw e (rw same (omega (arith, gone)))
  | inr e ↦ let next = waiting-remove p q id m d (rw e at h) in rw e (omega (arith, next))
]

pub In-drop_timer :
    (id j : String) (ts : List String) → In j (drop_timer id ts) → (id ≢ j) × In j ts
unfolding drop_timer
In-drop_timer id j [] i = absurd i
In-drop_timer id j (t ∷ ts) i = ground (arith, eq_iff t id, In-drop_timer id j ts)

pub In-drop_timer_else :
    (id j : String) (ts : List String) → id ≢ j → In j ts → In j (drop_timer id ts)
unfolding drop_timer
In-drop_timer_else id j [] ne i = i
In-drop_timer_else id j (t ∷ ts) ne i = ground (arith, eq_iff t id, In-drop_timer_else id j ts ne)
