-- ===== src/Client/Waiting.antt =====
-- A request that starts to wait, and a call that is rejected at once, keep the invariant.
use flowbroker.Prelude.{
  ℕ, String, ◌≡◌, refl, sym, ap, ◌∙◌, inl, inr, false≢true, nat_eq, true, false, some, arith,
  Bool-cases,
}
use flowbroker.Prelude.Dict
use flowbroker.Prelude.Dict.{Dict, get-put_self, get-put_else}
use flowbroker.Client.State.{ContextEntry, ResponseTimer, Request, Client, settle}
use flowbroker.Client.Requests.{new_promise, wait_for, reject_call}
use flowbroker.Client.Steps.{timer_of}
use flowbroker.Client.Invariant.{is_waiting, Inv, get-put_cases}

timer_eq :
    (m n : ℕ) (s t : String)
    → m ≡ n
    → s ≡ t
    → ◌≡◌ {A = ResponseTimer} (record { id = m; request = s }) (record { id = n; request = t })
timer_eq m n s t e f = rw (e, f) refl

module _ (c : Client) (inv : Inv c) where
  -- A request starts to wait, under a key that no waiting request has.
  pub waiting-Inv :
      (id : String) (e : ContextEntry) (request : Request)
      → e.timer ≡ c.next_timer
      → e.promise ≡ c.next_promise
      → is_waiting e.state ≡ true
      → ((e' : ContextEntry) → Dict.get id c.context_map ≡ some e' → is_waiting e'.state ≡ false)
      → Inv (wait_for id e request (new_promise c))
  unfolding wait_for new_promise
  waiting-Inv id e request timer promise waits free = record {
    watched = λ j e' h w. elim (get-put_cases id j e e' c.context_map h) [
      | inl (same, is) ↦
          inl (timer_eq e'.timer c.next_timer j id (ap timer_of (sym is) ∙ timer) (sym same))
      | inr (other, g) ↦ inr (inv.watched j e' g w)
    ];
    owned = λ t i. elim i [
      | inl new ↦ rw new record {
        entry = e;
        found = get-put_self id e c.context_map;
        waiting = waits;
        timer_is = timer;
      }
      | inr old ↦
          let o = inv.owned t old in
          record {
            entry = o.entry;
            found =
                get-put_else id t.request e c.context_map
                  (λ same. false≢true (sym (free o.entry (rw (← same) at o.found)) ∙ o.waiting))
                ∙ o.found;
            waiting = o.waiting;
            timer_is = o.timer_is;
          }
    ];
    own_timer = λ j j' e' e'' h h' eq. elim (get-put_cases id j e e' c.context_map h) [
      | inl (same, is) ↦ elim (get-put_cases id j' e e'' c.context_map h') [
        | inl (same', is') ↦ sym same ∙ same'
        | inr (other', g') ↦
            absurd (omega (arith, inv.numbered j' e'' g', ap timer_of is, timer, eq))
      ]
      | inr (other, g) ↦ elim (get-put_cases id j' e e'' c.context_map h') [
        | inl (same', is') ↦ absurd (omega (arith, inv.numbered j e' g, ap timer_of is', timer, eq))
        | inr (other', g') ↦ inv.own_timer j j' e' e'' g g' eq
      ]
    ];
    numbered = λ j e' h. elim (get-put_cases id j e e' c.context_map h) [
      | inl (same, is) ↦ omega (arith, timer, ap timer_of is)
      | inr (other, g) ↦ omega (arith, inv.numbered j e' g)
    ];
    accounted = λ p lt. elim (Bool-cases (nat_eq p c.next_promise)) [
      | inl new ↦ inr record {
        request = id;
        entry = e;
        found = get-put_self id e c.context_map;
        waiting = waits;
        promise_is = ground arith;
      }
      | inr old ↦ elim (inv.accounted p (ground arith)) [
        | inl done ↦ inl done
        | inr w ↦ inr record {
          request = w.request;
          entry = w.entry;
          found =
              get-put_else id w.request e c.context_map
                (λ same. false≢true (sym (free w.entry (rw (← same) at w.found)) ∙ w.waiting))
              ∙ w.found;
          waiting = w.waiting;
          promise_is = w.promise_is;
        }
      ]
    ];
  }

  -- A call that rejects at once.
  pub reject_call-Inv : (reason : String) → Inv (reject_call reason c)
  unfolding reject_call settle new_promise
  reject_call-Inv reason = record {
    watched = inv.watched;
    owned = inv.owned;
    own_timer = inv.own_timer;
    numbered = inv.numbered;
    accounted = λ p lt. elim (Bool-cases (nat_eq p c.next_promise)) [
      | inl new ↦ inl (inl (ground arith))
      | inr old ↦ elim (inv.accounted p (ground arith)) [
        | inl done ↦ inl (inr done)
        | inr w ↦ inr w
      ]
    ];
  }
