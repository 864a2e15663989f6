-- ===== src/Dispatcher.antt =====
-- orchestrator/dispatcher.js: requests to a remote node, their replies and their timers. Promises are
-- numbers, and the payload of a reply is left abstract.
pub mod Counts
pub mod Promises
mod Tests
use flowbroker.Prelude.{
  ℕ, suc, String, Bool, true, false, Option, none, some, List, [], ◌∷◌, ◌==◌, if◌then◌else◌,
}
use flowbroker.Prelude.Dict
use flowbroker.Prelude.Dict.{Dict}

pub data Settled : Type 0 where
  replied timed_out : Settled

-- `requestMap` has the promise of each request; `timers` are those that are set; `calls` are the calls
-- of resolve and reject so far, and `next` the next promise.
pub record Dispatcher : Type 0 where
  pub request_timeout : Bool
  pub requests : Dict ℕ
  pub timers : List String
  pub calls : List (ℕ × Settled)
  pub next : ℕ

abbrev pub new_dispatcher : Bool → Dispatcher
new_dispatcher request_timeout = record {
  request_timeout = request_timeout;
  requests = [];
  timers = [];
  calls = [];
  next = 0;
}

unfoldable pub drop_timer : String → List String → List String
drop_timer id [] = []
drop_timer id (t ∷ ts) = let rest = drop_timer id ts in if t == id then rest else t ∷ rest

-- sendRequest, with the UUID that it draws.
unfoldable pub send_request : String → Dispatcher → Dispatcher
send_request id d = record d {
  requests = Dict.put id d.next d.requests;
  timers = if d.request_timeout then id ∷ d.timers else d.timers;
  next = suc d.next;
}

-- The `message` callback: the request id of the reply. One that is not in the map has expired.
unfoldable pub receive_reply : String → Dispatcher → Dispatcher
unfolding drop_timer
receive_reply id d = elim (Dict.get id d.requests) [
  | none ↦ d
  | some p ↦ record d {
    requests = Dict.remove id d.requests;
    timers = drop_timer id d.timers;
    calls = (p, replied) ∷ d.calls;
  }
]

-- The timer of a request fires; `none` if it throws, since the request is not in the map.
unfoldable pub time_out : String → Dispatcher → Option Dispatcher
unfolding drop_timer
time_out id d = elim (Dict.get id d.requests) [
  | none ↦ none
  | some p ↦ some (record d {
    requests = Dict.remove id d.requests;
    timers = drop_timer id d.timers;
    calls = (p, timed_out) ∷ d.calls;
  })
]
