-- ===== src/Client/Operations.antt =====
-- lockAndGetContext, unlockContext, the `message` callback and timeoutRequest keep the invariant.
use flowbroker.Prelude.{
  String, ◌≡◌, refl, sym, ◌∙◌, ◌≢◌, inl, inr, Bool, true, false, ◌&&◌, none, some, ◌==◌, In,
  Bool-cases, Option-cases, arith, some-inj,
}
use flowbroker.Prelude.Dict
use flowbroker.Client.State.{
  ContextLockMode, rlock, wlock, lock_unlock, RequestState, waiting_lock_response,
  waiting_unlock_response, waiting_lock_unlock_response, processing, ContextEntry, ResponseTimer,
  rejected, Client, cancel,
}
use flowbroker.Client.Requests.{
  first_state, lock_and_get_context, send_unlock, unlock_entry, is_processing, is_rlock,
  unlock_context, Reply, timeout_request, context_of, on_reply, receive,
}
use flowbroker.Client.Invariant.{is_waiting, Inv}
use flowbroker.Client.Steps.{ended-Inv, held-Inv}
use flowbroker.Client.Waiting.{waiting-Inv, reject_call-Inv}

first_waits : (k : ContextLockMode) → is_waiting (first_state k) ≡ true
first_waits rlock = refl
first_waits wlock = refl
first_waits lock_unlock = refl

-- A lock request under an id that no request has (the code draws a UUID) keeps the invariant.
pub lock_and_get_context-Inv :
    (id name : String) (k : ContextLockMode) (c : Client)
    → Dict.get id c.context_map ≡ none
    → Inv c
    → Inv (lock_and_get_context id name k c)
unfolding lock_and_get_context
lock_and_get_context-Inv id name k c fresh inv =
    waiting-Inv c inv id _ _ refl refl (first_waits k) (λ e h. ground arith)

processing_idle : (s : RequestState) → is_processing s ≡ true → is_waiting s ≡ false
processing_idle s h = ground arith

unlock_entry-Inv :
    (id : String) (save : Bool) (content : String) (e : ContextEntry) (c : Client)
    → Dict.get id c.context_map ≡ some e
    → Inv c
    → Inv (unlock_entry id save content e c)
unfolding unlock_entry send_unlock
unlock_entry-Inv id save content e c got inv = elim (Bool-cases (is_processing e.state)) [
  | inr b ↦ rw (b, unlock_entry) (reject_call-Inv c inv "invalid state")
  | inl b ↦ elim (Bool-cases (is_rlock e.lock_mode && save)) [
    | inl r ↦
        rw (b, r, unlock_entry)
          (reject_call-Inv c inv "trying to modify context's content while holding a read lock")
    | inr r ↦
        rw (b, r, unlock_entry)
          (waiting-Inv c inv id _ _ refl refl refl
            λ x h. rw (some-inj (sym got ∙ h)) at (processing_idle e.state b))
  ]
]

-- Any call of unlockContext keeps the invariant, whatever the id and the request's state are.
pub unlock_context-Inv :
    (id : String) (save : Bool) (content : String) (c : Client)
    → Inv c
    → Inv (unlock_context id save content c)
unfolding unlock_context
unlock_context-Inv id save content c inv = elim (Bool-cases (id == "")) [
  | inl e ↦ rw (e, unlock_context) (reject_call-Inv c inv "Invalid contextId")
  | inr e ↦ elim (Option-cases (Dict.get id c.context_map)) [
    | inl g ↦ rw (e, g, unlock_context) (reject_call-Inv c inv "context not found")
    | inr (x, g) ↦ rw (e, g, unlock_context) (unlock_entry-Inv id save content x c g inv)
  ]
]

-- A response timer that fires keeps the invariant.
pub timeout_request-Inv :
    (t : ResponseTimer) (c : Client) → In t c.timers → Inv c → Inv (timeout_request t c)
unfolding timeout_request
timeout_request-Inv t c pending inv =
    let o = inv.owned t pending in
    rw (o.found, timeout_request)
      (rw o.timer_is at (ended-Inv c inv t.request o.entry o.found (rejected (some "timeout"))))

-- The contents of a reply, where one is read, is a context.
abbrev pub IsReadable : (String → Bool) → Reply → Type 0
IsReadable is_json r = r.ok ≡ true → context_of is_json r.context_content ≢ none

on_reply-Inv :
    (is_json : String → Bool) (r : Reply) (s : RequestState) (e : ContextEntry) (c : Client)
    → IsReadable is_json r
    → Dict.get r.request_id c.context_map ≡ some e
    → Inv c
    → Inv (on_reply is_json s e r (record c { timers = cancel e.timer c.timers })).0
unfolding on_reply
on_reply-Inv is_json r waiting_unlock_response e c readable got inv =
    ended-Inv c inv r.request_id e got _
on_reply-Inv is_json r processing e c readable got inv = ended-Inv c inv r.request_id e got _
on_reply-Inv is_json r waiting_lock_response e c readable got inv = elim (Bool-cases r.ok) [
  | inr bad ↦ rw (bad, on_reply) (ended-Inv c inv r.request_id e got _)
  | inl good ↦ elim (Option-cases (context_of is_json r.context_content)) [
    | inl g ↦ absurd (readable good g)
    | inr (x, g) ↦ rw (good, g, on_reply) (held-Inv c inv r.request_id e got _)
  ]
]
on_reply-Inv is_json r waiting_lock_unlock_response e c readable got inv = elim (Bool-cases r.ok) [
  | inr bad ↦ rw (bad, on_reply) (ended-Inv c inv r.request_id e got _)
  | inl good ↦ elim (Option-cases (context_of is_json r.context_content)) [
    | inl g ↦ absurd (readable good g)
    | inr (x, g) ↦ rw (good, g, on_reply) (ended-Inv c inv r.request_id e got _)
  ]
]

-- A reply to any request id, early, late or twice, keeps the invariant, if its content is a context
-- where the result is ok.
pub receive-Inv :
    (is_json : String → Bool) (r : Reply) (c : Client)
    → IsReadable is_json r
    → Inv c
    → Inv (receive is_json r c).0
unfolding receive
receive-Inv is_json r c readable inv = elim (Option-cases (Dict.get r.request_id c.context_map)) [
  | inl g ↦ rw (g, receive) inv
  | inr (e, g) ↦ rw (g, receive) (on_reply-Inv is_json r e.state e c readable g inv)
]
