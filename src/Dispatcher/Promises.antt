-- ===== src/Dispatcher/Promises.antt =====
-- What becomes of the promises of the requests.
use flowbroker.Prelude.{
  ℕ, ◌+◌, String, ◌≡◌, sym, subst, ◌∙◌, ◌≢◌, inl, inr, Bool, true, none, some, ◌∷◌, ltb, In, arith,
  Bool-cases, Option-cases, if◌then◌else◌, none≢some, same_text, some-inj,
}
use flowbroker.Prelude.Dict
use flowbroker.Prelude.Dict.{
  Dict, get-put, get-remove, get-remove_else, get-remove_self, get-put_else, get-put_self,
}
use flowbroker.Prelude.Dict.Keys.{keys, Distinct, Distinct-put}
use flowbroker.Dispatcher.{
  Settled, replied, timed_out, Dispatcher, new_dispatcher, drop_timer, send_request, receive_reply,
  time_out,
}
use flowbroker.Dispatcher.Counts.{
  waiting, settled, waiting-put, Distinct-remove, waiting-remove, In-drop_timer, In-drop_timer_else,
}

-- Each promise that was given out was settled once or waits, and not both. A timer that is set is that
-- of a request in the map, so that it does not throw, and with a timeout each request has one.
pub record Inv (d : Dispatcher) : Type 0 where
  pub distinct : Distinct (keys d.requests)
  pub accounted :
      (p : ℕ) → waiting p d.requests + settled p d.calls ≡ (if ltb p d.next then 1 else 0)
  pub owned : (id : String) → In id d.timers → (q : ℕ) × (Dict.get id d.requests ≡ some q)
  pub timed :
      (id : String) (q : ℕ)
      → d.request_timeout ≡ true
      → Dict.get id d.requests ≡ some q
      → In id d.timers

Inv-new : (b : Bool) → Inv (new_dispatcher b)
unfolding waiting settled Dict.get
Inv-new b = record {
  distinct = tt;
  accounted = λ p. ground arith;
  owned = λ id i. absurd i;
  timed = λ id q on h. absurd (none≢some h);
}

In-timers :
    (id j : String) (d : Dispatcher)
    → id ≢ j
    → In j (if d.request_timeout then id ∷ d.timers else d.timers)
    → In j d.timers
In-timers id j d ne i = elim (Bool-cases d.request_timeout) [
  | inr off ↦ rw off at i
  | inl on ↦ elim (let g : In j (id ∷ d.timers) = rw on at i in g) [
    | inl same ↦ absurd (ne (sym same))
    | inr old ↦ old
  ]
]

send_request-Inv :
    (id : String) (d : Dispatcher) → Dict.get id d.requests ≡ none → Inv d → Inv (send_request id d)
unfolding send_request
send_request-Inv id d new inv = record {
  distinct = Distinct-put id d.next d.requests inv.distinct;
  accounted = λ p.
      let here = waiting-put p d.next id d.requests new in
      let before = inv.accounted p in ground arith;
  owned = λ j i. elim (same_text id j) [
    | inl same ↦ (
      d.next,
      subst (λ k. Dict.get k (Dict.put id d.next d.requests) ≡ some d.next) same
          (get-put_self id d.next d.requests),
    )
    | inr ne ↦
        let (q, e) = inv.owned j (In-timers id j d ne i) in
        (q, get-put_else id j d.next d.requests ne ∙ e)
  ];
  timed = λ j q on h. elim (same_text id j) [
    | inl same ↦ rw on (inl (sym same))
    | inr ne ↦ rw on (inr (inv.timed j q on (sym (get-put_else id j d.next d.requests ne) ∙ h)))
  ];
}

-- A request that is settled.
ended-Inv :
    (id : String) (q : ℕ) (s : Settled) (d : Dispatcher)
    → Dict.get id d.requests ≡ some q
    → Inv d
    → Inv (record d {
      requests = Dict.remove id d.requests;
      timers = drop_timer id d.timers;
      calls = (q, s) ∷ d.calls;
    })
unfolding settled
ended-Inv id q s d found inv = record {
  distinct = Distinct-remove id d.requests inv.distinct;
  accounted = λ p.
      let here = waiting-remove p q id d.requests inv.distinct found in
      let before = inv.accounted p in omega (arith, here, before);
  owned = λ j i.
      let (ne, old) = In-drop_timer id j d.timers i in
      let (r, e) = inv.owned j old in (r, get-remove_else id j d.requests ne ∙ e);
  timed = λ j r on h. elim (same_text id j) [
    | inl same ↦ absurd (
        none≢some (
          sym (
            subst (λ k. Dict.get k (Dict.remove id d.requests) ≡ none) same
              (get-remove_self id d.requests))
          ∙ h))
    | inr ne ↦
        In-drop_timer_else id j d.timers ne
          (inv.timed j r on (sym (get-remove_else id j d.requests ne) ∙ h))
  ];
}

-- What may happen: a request under an id that is in no use, a reply with any id, and the timer of a
-- request that is set.
pub data Step : Dispatcher → Dispatcher → Type 0 where
  sends :
      (id : String) (d : Dispatcher) → Dict.get id d.requests ≡ none → Step d (send_request id d)
  receives : (id : String) (d : Dispatcher) → Step d (receive_reply id d)
  fires : (id : String) (d d' : Dispatcher) → In id d.timers → time_out id d ≡ some d' → Step d d'

pub data Reached : Bool → Dispatcher → Type 0 where
  begin : (b : Bool) → Reached b (new_dispatcher b)
  next : {b : Bool} → (d d' : Dispatcher) → Reached b d → Step d d' → Reached b d'

receive_reply-Inv : (id : String) (d : Dispatcher) → Inv d → Inv (receive_reply id d)
unfolding receive_reply
receive_reply-Inv id d inv = elim (Option-cases (Dict.get id d.requests)) [
  | inl e ↦ rw (e, receive_reply) inv
  | inr (q, e) ↦ rw (e, receive_reply) (ended-Inv id q replied d e inv)
]

time_out-Inv : (id : String) (d d' : Dispatcher) → time_out id d ≡ some d' → Inv d → Inv d'
unfolding time_out
time_out-Inv id d d' h inv = elim (Option-cases (Dict.get id d.requests)) [
  | inl e ↦ absurd (none≢some (rw (e, time_out) at h))
  | inr (q, e) ↦ subst Inv (some-inj (rw (e, time_out) at h)) (ended-Inv id q timed_out d e inv)
]

Step-Inv : (d d' : Dispatcher) → Step d d' → Inv d → Inv d'
Step-Inv d d' (sends id e new) inv = send_request-Inv id d new inv
Step-Inv d d' (receives id e) inv = receive_reply-Inv id d inv
Step-Inv d d' (fires id e e' set h) inv = time_out-Inv id d d' h inv

-- Behind any requests, replies and timers, in any order: each promise that was given out was settled
-- exactly once or waits, and not both; a timer that is set is that of a request in the map, so that
-- none throws; and with a timeout each request in the map has a timer that is set.
pub Reached-Inv : (b : Bool) (d : Dispatcher) → Reached b d → Inv d
Reached-Inv b d (begin c) = Inv-new b
Reached-Inv b d (next e e' r s) = Step-Inv e d s (Reached-Inv b e r)
