-- ===== src/Client/Runs.antt =====
-- Runs of the client: operations, replies and timers in any order.
use flowbroker.Prelude.{
  ◌<◌, String, ◌≡◌, refl, ap, ◌∙◌, ◌⊎◌, inl, inr, Bool, true, false, ◌&&◌, none, some, ◌∷◌, ◌==◌,
  In, Bool-cases, Option-cases, if◌then◌else◌, false≢true,
}
use flowbroker.Prelude.Dict
use flowbroker.Prelude.Dict.{get-put, get-put_self}
use flowbroker.Client.State.{
  ContextLockMode, waiting_lock_response, ContextEntry, ResponseTimer, save_and_unlock, unlock,
  Client, new_client, settle,
}
use flowbroker.Client.Requests.{
  lock_and_get_context, new_promise, wait_for, unlock_entry, is_processing, is_rlock,
  unlock_context, reject_call, send_unlock, Reply, timeout_request, context_of, on_reply, receive,
}
use flowbroker.Client.Invariant.{is_waiting, IsSettled, Waits, Owned, Inv, Inv-new, get-put_cases}
use flowbroker.Client.Operations.{
  IsReadable, lock_and_get_context-Inv, unlock_context-Inv, timeout_request-Inv, receive-Inv,
}

-- What can happen to the client. A lock request draws an id that is not in the map; a reply may bear
-- any id.
pub data ClientStep (is_json : String → Bool) : Client → Client → Type 0 where
  lock :
      {c : Client} (id name : String) (k : ContextLockMode)
      → Dict.get id c.context_map ≡ none
      → ClientStep is_json c (lock_and_get_context id name k c)
  unlock_it :
      {c : Client} (id : String) (save : Bool) (content : String)
      → ClientStep is_json c (unlock_context id save content c)
  reply :
      {c : Client} (r : Reply) → IsReadable is_json r → ClientStep is_json c (receive is_json r c).0
  fire :
      {c : Client} (t : ResponseTimer) → In t c.timers → ClientStep is_json c (timeout_request t c)

pub data ClientRun (is_json : String → Bool) : Client → Type 0 where
  begin : ClientRun is_json new_client
  next : {c c' : Client} → ClientRun is_json c → ClientStep is_json c c' → ClientRun is_json c'

step-Inv : {is_json : String → Bool} {c c' : Client} → ClientStep is_json c c' → Inv c → Inv c'
step-Inv (lock id name k fresh) inv = lock_and_get_context-Inv id name k _ fresh inv
step-Inv (unlock_it id save content) inv = unlock_context-Inv id save content _ inv
step-Inv (reply r readable) inv = receive-Inv _ r _ readable inv
step-Inv (fire t pending) inv = timeout_request-Inv t _ pending inv

run-Inv : {is_json : String → Bool} {c : Client} → ClientRun is_json c → Inv c
run-Inv begin = Inv-new
run-Inv (next run step) = step-Inv step (run-Inv run)

-- Behind any run, a pending timer belongs to a request that is still in the map and waits: a timer
-- never fires for a request that was answered.
pub run-Owned :
    (is_json : String → Bool) (c : Client) (t : ResponseTimer)
    → ClientRun is_json c
    → In t c.timers
    → Owned t c.context_map
run-Owned is_json c t run pending = (run-Inv run).owned t pending

-- A call that ends at once: its own promise is rejected, and no request is changed or sent.
pub record Refused (c c' : Client) : Type 0 where
  pub same_map : c'.context_map ≡ c.context_map
  pub same_timers : c'.timers ≡ c.timers
  pub same_sent : c'.sent ≡ c.sent
  pub settled : IsSettled c.next_promise c'.calls

-- A call that sends: for a request whose lock is held, and to save only if that is no read lock. The
-- request then waits, and will settle the call's promise.
pub record Unlocks (id : String) (save : Bool) (content : String) (c c' : Client) : Type 0 where
  pub entry : ContextEntry
  pub found : Dict.get id c.context_map ≡ some entry
  pub held : is_processing entry.state ≡ true
  pub writer : is_rlock entry.lock_mode && save ≡ false
  pub sends : c'.sent ≡ (if save then save_and_unlock id content else unlock id) ∷ c.sent
  pub waits : Waits c.next_promise c'.context_map

reject_call-Refused : (reason : String) (c : Client) → Refused c (reject_call reason c)
unfolding reject_call settle
reject_call-Refused reason c = record {
  same_map = refl;
  same_timers = refl;
  same_sent = refl;
  settled = inl refl;
}

send_unlock-Unlocks :
    (id : String) (save : Bool) (content : String) (e : ContextEntry) (c : Client)
    → Dict.get id c.context_map ≡ some e
    → is_processing e.state ≡ true
    → is_rlock e.lock_mode && save ≡ false
    → Unlocks id save content c (send_unlock id save content e c)
unfolding send_unlock wait_for new_promise
send_unlock-Unlocks id save content e c got held writer = record {
  entry = e;
  found = got;
  held = held;
  writer = writer;
  sends = refl;
  waits = record {
    request = id;
    entry = _;
    found = get-put_self id _ c.context_map;
    waiting = refl;
    promise_is = refl;
  };
}

-- A call of unlockContext is refused, and then changes nothing but its own promise, or sends what it
-- was asked to: for a request whose lock is held, and a save only if that is no read lock.
pub unlock_context-cases :
    (id : String) (save : Bool) (content : String) (c : Client)
    → Refused c (unlock_context id save content c)
      ⊎ Unlocks id save content c (unlock_context id save content c)
unfolding unlock_context unlock_entry
unlock_context-cases id save content c = elim (Bool-cases (id == "")) [
  | inl e ↦ inl (rw (e, unlock_context) (reject_call-Refused _ c))
  | inr e ↦ elim (Option-cases (Dict.get id c.context_map)) [
    | inl g ↦ inl (rw (e, g, unlock_context) (reject_call-Refused _ c))
    | inr (x, g) ↦ elim (Bool-cases (is_processing x.state)) [
      | inr b ↦ inl (rw (e, g, b, unlock_context, unlock_entry) (reject_call-Refused _ c))
      | inl b ↦ elim (Bool-cases (is_rlock x.lock_mode && save)) [
        | inl r ↦ inl (rw (e, g, b, r, unlock_context, unlock_entry) (reject_call-Refused _ c))
        | inr r ↦ inr (
            rw (e, g, b, r, unlock_context, unlock_entry)
              (send_unlock-Unlocks id save content x c g b r))
      ]
    ]
  ]
]

-- Only this request will settle its promise, which is open.
pub record IsOpen (c : Client) (id : String) (e : ContextEntry) : Type 0 where
  pub found : Dict.get id c.context_map ≡ some e
  pub locking : e.state ≡ waiting_lock_response
  pub given : e.promise < c.next_promise
  pub unsettled : IsSettled e.promise c.calls → ⊥
  pub alone :
      (id' : String) (e' : ContextEntry)
      → Dict.get id' c.context_map ≡ some e'
      → e'.promise ≡ e.promise
      → id ≡ id'

-- A lock is granted with a content that is no JSON: the callback throws, and the caller's promise is
-- neither settled nor waited for any more, so that the invariant does not hold behind it.
pub receive_breaks-Inv :
    (is_json : String → Bool) (r : Reply) (e : ContextEntry) (c : Client)
    → IsOpen c r.request_id e
    → r.ok ≡ true
    → context_of is_json r.context_content ≡ none
    → ((receive is_json r c).1 ≡ false) × (Inv (receive is_json r c).0 → ⊥)
unfolding receive on_reply
receive_breaks-Inv is_json r e c o ok bad =
    rw (o.found, receive)
      (rw (o.locking, ok, bad, on_reply)
        (
          refl,
          λ inv. elim (inv.accounted e.promise o.given) [
            | inl done ↦ o.unsettled done
            | inr w ↦ elim (get-put_cases r.request_id w.request _ w.entry c.context_map w.found) [
              | inl (same, is) ↦
                  false≢true (ap (λ (x : ContextEntry). is_waiting x.state) is ∙ w.waiting)
              | inr (other, g) ↦ other (o.alone w.request w.entry g w.promise_is)
            ]
          ],
        ))
