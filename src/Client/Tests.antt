-- ===== src/Client/Tests.antt =====
-- The theorems about the client at one write lock that is requested, granted and saved.
use flowbroker.Prelude.{
  ◌<◌, String, ◌≡◌, refl, inl, inr, Bool, true, false, none≢some, none, some, [], ◌∷◌, arith, In,
}
use flowbroker.Prelude.Dict
use flowbroker.Client.State.{
  wlock, waiting_lock_response, empty_object, resolved_lock, resolved_unlock, ContextEntry, Client,
  new_client, cancel,
}
use flowbroker.Client.Requests.{lock_and_get_context, unlock_context, Reply, context_of, receive}
use flowbroker.Client.Invariant.{get-put_cases}
use flowbroker.Client.Runs.{IsOpen}

abbrev entry : ContextEntry
entry = record { timer = 0; lock_mode = wlock; state = waiting_lock_response; promise = 0 }

abbrev no_json : String → Bool
no_json s = false

-- A lock request on a fresh client.
abbrev asked : Client
asked = lock_and_get_context "id1" "sum" wlock new_client

asked_map : asked.context_map ≡ ("id1", entry) ∷ []
unfolding lock_and_get_context Dict.put
asked_map = refl

asked_timers : asked.timers ≡ record { id = 0; request = "id1" } ∷ []
unfolding lock_and_get_context
asked_timers = refl

asked_promises : asked.next_promise ≡ 1
unfolding lock_and_get_context
asked_promises = refl

zero_given : 0 < asked.next_promise
zero_given = rw asked_promises (omega arith)

timer_pending : In (record { id = 0; request = "id1" }) asked.timers
unfolding lock_and_get_context
timer_pending = inl refl

asked_found : Dict.get "id1" asked.context_map ≡ some entry
unfolding Dict.get
asked_found = rw asked_map refl

asked_put : asked.context_map ≡ Dict.put "id1" entry []
unfolding lock_and_get_context
asked_put = refl

asked_alone :
    (id : String) (e : ContextEntry)
    → Dict.get id asked.context_map ≡ some e
    → e.promise ≡ entry.promise
    → "id1" ≡ id
asked_alone id e found same = elim (get-put_cases "id1" id entry e [] (rw asked_put at found)) [
  | inl (here, is) ↦ here
  | inr (other, g) ↦ absurd (unfold Dict.get in none≢some g)
]

asked-IsOpen : IsOpen asked "id1" entry
unfolding lock_and_get_context
asked-IsOpen = record {
  found = asked_found;
  locking = refl;
  given = zero_given;
  unsettled = λ i. i;
  alone = asked_alone;
}

abbrev spoiled : Reply
spoiled = record { request_id = "id1"; ok = true; context_content = some "{" }

spoiled_unreadable : context_of no_json spoiled.context_content ≡ none
unfolding context_of
spoiled_unreadable = refl

-- The lock is granted on an empty context, saved and unlocked: both promises resolve.
abbrev granted : Client
granted =
    (receive no_json (record { request_id = "id1"; ok = true; context_content = some "" }) asked).0

abbrev saved : Client
saved =
    (receive no_json (record { request_id = "id1"; ok = true; context_content = none })
      (unlock_context "id1" true "{}" granted)).0

saved_calls :
    (saved.calls ≡ (1, resolved_unlock) ∷ (0, resolved_lock "id1" empty_object) ∷ [])
    × (saved.context_map ≡ [])
    × (saved.timers ≡ [])
unfolding receive unlock_context lock_and_get_context Dict.get Dict.put Dict.remove cancel
saved_calls = (refl, refl, refl)
