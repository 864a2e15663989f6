-- ===== src/Client/Invariant.antt =====
-- The invariant of the client's requests, and how the changes of an entry keep it.
use flowbroker.Prelude.{
  ℕ, ◌<◌, String, ◌≡◌, sym, ap, ◌∙◌, ◌≢◌, ◌↔◌, ◌⊎◌, inl, inr, Bool, true, false, some, List, [],
  ◌∷◌, ◌==◌, eq_iff, In, arith, Bool-cases, nat_eq, false≢true, some-inj, none≢some,
}
use flowbroker.Prelude.Dict
use flowbroker.Prelude.Dict.{Dict, get-put, get-remove}
use flowbroker.Client.State.{
  RequestState, processing, ContextEntry, ResponseTimer, Settlement, Client, new_client, cancel,
}

abbrev pub is_waiting : RequestState → Bool
is_waiting processing = false
is_waiting _ = true

-- The promise's `resolve` or `reject` was called.
abbrev pub IsSettled : ℕ → List (ℕ × Settlement) → Type 0
IsSettled p [] = ⊥
IsSettled p ((q, s) ∷ calls) = (p ≡ q) ⊎ IsSettled p calls

-- A request that waits for a reply will settle the promise.
pub record Waits (p : ℕ) (m : Dict ContextEntry) : Type 0 where
  pub request : String
  pub entry : ContextEntry
  pub found : Dict.get request m ≡ some entry
  pub waiting : is_waiting entry.state ≡ true
  pub promise_is : entry.promise ≡ p

-- The request that a timer ends.
pub record Owned (t : ResponseTimer) (m : Dict ContextEntry) : Type 0 where
  pub entry : ContextEntry
  pub found : Dict.get t.request m ≡ some entry
  pub waiting : is_waiting entry.state ≡ true
  pub timer_is : entry.timer ≡ t.id

-- What holds between the handlers: a waiting request has its timer, a timer has its waiting request,
-- no two requests share a timer, and each promise that was given out is settled or waited for.
pub record Inv (c : Client) : Type 0 where
  pub watched :
      (id : String) (e : ContextEntry)
      → Dict.get id c.context_map ≡ some e
      → is_waiting e.state ≡ true
      → In (record { id = e.timer; request = id }) c.timers
  pub owned : (t : ResponseTimer) → In t c.timers → Owned t c.context_map
  pub own_timer :
      (id id' : String) (e e' : ContextEntry)
      → Dict.get id c.context_map ≡ some e
      → Dict.get id' c.context_map ≡ some e'
      → e.timer ≡ e'.timer
      → id ≡ id'
  pub numbered :
      (id : String) (e : ContextEntry) → Dict.get id c.context_map ≡ some e → e.timer < c.next_timer
  pub accounted : (p : ℕ) → p < c.next_promise → IsSettled p c.calls ⊎ Waits p c.context_map

nat_eq_sound : (a b : ℕ) → nat_eq a b ≡ true → a ≡ b
nat_eq_sound a b h = ground arith

pub In-cancel :
    (id : ℕ) (ts : List ResponseTimer) (t : ResponseTimer)
    → In t (cancel id ts) ↔ (In t ts × (t.id ≢ id))
unfolding cancel
In-cancel id [] t = ground arith
In-cancel id (s ∷ ts) t =
    let (sound, complete) = In-cancel id ts t in
    elim (Bool-cases (nat_eq s.id id)) [
      | inl e ↦
          rw (e, cancel)
            (
              λ i. let (j, n) = sound i in (inr j, n),
              λ h. elim h.0 [
                | inl same ↦
                    absurd (h.1 (ap (λ (x : ResponseTimer). x.id) same ∙ nat_eq_sound _ _ e))
                | inr j ↦ complete (j, h.1)
              ],
            )
      | inr e ↦
          rw (e, cancel)
            (
              λ i. elim i [
                | inl same ↦ (inl same, λ n. ground (arith, ap (λ (x : ResponseTimer). x.id) same))
                | inr j ↦ let (k, n) = sound j in (inr k, n)
              ],
              λ h. elim h.0 [ inl same ↦ inl same | inr j ↦ inr (complete (j, h.1)) ],
            )
    ]

pub Inv-new : Inv new_client
unfolding Dict.get
Inv-new = record {
  watched = λ id e h. absurd (none≢some h);
  owned = λ t i. absurd i;
  own_timer = λ id id' e e' h. absurd (none≢some h);
  numbered = λ id e h. absurd (none≢some h);
  accounted = λ p h. ground arith;
}

-- The entry of `id` in a map: a new one there, the old one elsewhere.
pub get-put_cases :
    (id j : String) (e e' : ContextEntry) (m : Dict ContextEntry)
    → Dict.get j (Dict.put id e m) ≡ some e'
    → ((id ≡ j) × (e ≡ e')) ⊎ ((id ≢ j) × (Dict.get j m ≡ some e'))
get-put_cases id j e e' m h = elim (Bool-cases (id == j)) [
  | inl s ↦ inl ((eq_iff id j).0 s, some-inj (rw (get-put, s) at h))
  | inr s ↦ inr (λ same. false≢true (sym s ∙ (eq_iff id j).1 same), rw (get-put, s) at h)
]

pub get-remove_cases :
    (id j : String) (e' : ContextEntry) (m : Dict ContextEntry)
    → Dict.get j (Dict.remove id m) ≡ some e'
    → (id ≢ j) × (Dict.get j m ≡ some e')
get-remove_cases id j e' m h = elim (Bool-cases (id == j)) [
  | inl s ↦ absurd (none≢some (rw (get-remove, s) at h))
  | inr s ↦ (λ same. false≢true (sym s ∙ (eq_iff id j).1 same), rw (get-remove, s) at h)
]
