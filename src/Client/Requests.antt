-- ===== src/Client/Requests.antt =====
-- The operations of lib/ContextManagerClient.js: lockAndGetContext, unlockContext, the `message`
-- callback and timeoutRequest.
use flowbroker.Prelude.{
  suc, String, Bool, true, false, ◌&&◌, Option, none, some, ◌∷◌, ◌==◌, if◌then◌else◌,
}
use flowbroker.Prelude.Dict
use flowbroker.Client.State.{
  ContextLockMode, rlock, wlock, lock_unlock, RequestState, waiting_lock_response,
  waiting_unlock_response, waiting_lock_unlock_response, processing, ContextEntry, ResponseTimer,
  ContextObject, empty_object, json_of, resolved_lock, resolved_unlock, resolved_get, rejected,
  Request, rlock_and_get, wlock_and_get, lock_get_and_unlock, unlock, save_and_unlock, Client,
  cancel, settle, delete_entry,
}

-- A new promise.
unfoldable pub new_promise : Client → Client
new_promise c = record c { next_promise = suc c.next_promise }

-- `setTimeout(timeoutRequest, …, id, this.contextMap)`, the entry that has the timer, and `send`.
unfoldable pub wait_for : String → ContextEntry → Request → Client → Client
wait_for id e request c = record c {
  context_map = Dict.put id e c.context_map;
  timers = record { id = c.next_timer; request = id } ∷ c.timers;
  next_timer = suc c.next_timer;
  sent = request ∷ c.sent;
}

-- The command and the state that a lock mode asks for.
abbrev lock_request : ContextLockMode → String → String → Request
lock_request rlock name id = rlock_and_get name id
lock_request wlock name id = wlock_and_get name id
lock_request lock_unlock name id = lock_get_and_unlock name id

abbrev pub first_state : ContextLockMode → RequestState
first_state lock_unlock = waiting_lock_unlock_response
first_state _ = waiting_lock_response

-- lockAndGetContext, with the UUID that it draws.
unfoldable pub lock_and_get_context : String → String → ContextLockMode → Client → Client
unfolding new_promise wait_for
lock_and_get_context request_id context_name lock_mode c =
    wait_for request_id
      (record {
        timer = c.next_timer;
        lock_mode = lock_mode;
        state = first_state lock_mode;
        promise = c.next_promise;
      })
      (lock_request lock_mode context_name request_id) (new_promise c)

-- A method's own promise is rejected.
unfoldable pub reject_call : String → Client → Client
unfolding new_promise settle
reject_call reason c = settle c.next_promise (rejected (some reason)) (new_promise c)

-- The end of unlockContext, for an entry that is being processed.
unfoldable pub send_unlock : String → Bool → String → ContextEntry → Client → Client
unfolding new_promise wait_for
send_unlock id should_save content e c =
    wait_for id
      (record {
        timer = c.next_timer;
        lock_mode = e.lock_mode;
        state = waiting_unlock_response;
        promise = c.next_promise;
      })
      (if should_save then save_and_unlock id content else unlock id) (new_promise c)

abbrev pub is_processing : RequestState → Bool
is_processing processing = true
is_processing _ = false

abbrev pub is_rlock : ContextLockMode → Bool
is_rlock rlock = true
is_rlock _ = false

unfoldable pub unlock_entry : String → Bool → String → ContextEntry → Client → Client
unfolding reject_call send_unlock
unlock_entry id should_save content e c =
    if is_processing e.state
    then (if is_rlock e.lock_mode && should_save
        then reject_call "trying to modify context's content while holding a read lock" c
        else send_unlock id should_save content e c)
    else reject_call "invalid state" c

-- unlockContext; an undefined id is taken as the empty one. `content` is the text that `JSON.stringify` makes of the context.
unfoldable pub unlock_context : String → Bool → String → Client → Client
unfolding reject_call unlock_entry
unlock_context id should_save content c =
    if id == "" then reject_call "Invalid contextId" c else elim (Dict.get id c.context_map) [
      | none ↦ reject_call "context not found" c
      | some e ↦ unlock_entry id should_save content e c
    ]

-- A reply of the context manager; `ok` is `data.result === 'ok'`.
pub record Reply : Type 0 where
  pub request_id : String
  pub ok : Bool
  pub context_content : Option String

-- timeoutRequest, when the timer fires.
unfoldable pub timeout_request : ResponseTimer → Client → Client
unfolding settle delete_entry
timeout_request t c =
    let fired : Client = record c { timers = cancel t.id c.timers } in
    elim (Dict.get t.request c.context_map) [
      | none ↦ fired
      | some e ↦ settle e.promise (rejected (some "timeout")) (delete_entry t.request fired)
    ]

module _ (is_json : String → Bool) where
  -- The context of a reply; `none` where the code throws: no content, or one that does not parse.
  unfoldable pub context_of : Option String → Option ContextObject
  context_of none = none
  context_of (some text) =
      if text == "" then some empty_object else (if is_json text then some (json_of text) else none)

  -- The `switch` of the `message` callback, for the entry of the reply. The second component is
  -- whether the callback returns; a `false` is an exception.
  unfoldable pub on_reply : RequestState → ContextEntry → Reply → Client → Client × Bool
  unfolding context_of settle delete_entry
  on_reply waiting_lock_response e r c =
      if r.ok
      then (let held : Client = record c {
        context_map = Dict.put r.request_id (record e { state = processing }) c.context_map;
      } in
          elim (context_of r.context_content) [
            | none ↦ (held, false)
            | some x ↦ (settle e.promise (resolved_lock r.request_id x) held, true)
          ])
      else (settle e.promise (rejected (some "internal error")) (delete_entry r.request_id c), true)
  on_reply waiting_unlock_response e r c = (
    settle e.promise (if r.ok then resolved_unlock else rejected none)
        (delete_entry r.request_id c),
    true,
  )
  on_reply waiting_lock_unlock_response e r c =
      if r.ok
      then elim (context_of r.context_content) [
        | none ↦ (delete_entry r.request_id c, false)
        | some x ↦ (settle e.promise (resolved_get x) (delete_entry r.request_id c), true)
      ]
      else (settle e.promise (rejected (some "internal error")) (delete_entry r.request_id c), true)
  on_reply processing e r c =
      (settle e.promise (rejected (some "internal error")) (delete_entry r.request_id c), true)

  -- The `message` callback, for a reply that is JSON.
  unfoldable pub receive : Reply → Client → Client × Bool
  unfolding on_reply
  receive r c = elim (Dict.get r.request_id c.context_map) [
    | none ↦ (c, true)
    | some e ↦ on_reply e.state e r (record c { timers = cancel e.timer c.timers })
  ]
