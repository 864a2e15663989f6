-- ===== src/Client/State.antt =====
-- The state of lib/ContextManagerClient.js: the requests under way and the promises of its callers.
use flowbroker.Prelude.{ℕ, String, Option, List, [], ◌∷◌, nat_eq, if◌then◌else◌}
use flowbroker.Prelude.Dict
use flowbroker.Prelude.Dict.{Dict}

-- RLOCK, WLOCK, LOCK_UNLOCK
pub data ContextLockMode : Type 0 where
  rlock wlock lock_unlock : ContextLockMode

-- REQ_ST_*
pub data RequestState : Type 0 where
  waiting_lock_response waiting_unlock_response : RequestState
  waiting_lock_unlock_response processing : RequestState

-- An entry of `contextMap`. `promise` stands for its `resolve` and `reject`.
pub record ContextEntry : Type 0 where
  pub timer : ℕ
  pub lock_mode : ContextLockMode
  pub state : RequestState
  pub promise : ℕ

-- A response timer that has neither fired nor been cleared.
pub record ResponseTimer : Type 0 where
  pub id : ℕ
  pub request : String

pub data ContextObject : Type 0 where
  empty_object : ContextObject
  json_of : String → ContextObject

-- What a promise is settled with.
pub data Settlement : Type 0 where
  resolved_lock : String → ContextObject → Settlement
  resolved_unlock : Settlement
  resolved_get : ContextObject → Settlement
  rejected : Option String → Settlement

-- What is sent to the context manager.
pub data Request : Type 0 where
  rlock_and_get wlock_and_get lock_get_and_unlock : (context_name request_id : String) → Request
  unlock : (request_id : String) → Request
  save_and_unlock : (request_id context_content : String) → Request

-- `calls` are the calls of `resolve` and `reject`, the newest first.
pub record Client : Type 0 where
  pub context_map : Dict ContextEntry
  pub timers : List ResponseTimer
  pub next_timer : ℕ
  pub next_promise : ℕ
  pub calls : List (ℕ × Settlement)
  pub sent : List Request

abbrev pub new_client : Client
new_client = record {
  context_map = [];
  timers = [];
  next_timer = 0;
  next_promise = 0;
  calls = [];
  sent = [];
}

-- `clearTimeout`, by the timer's number.
unfoldable pub cancel : ℕ → List ResponseTimer → List ResponseTimer
cancel id [] = []
cancel id (t ∷ ts) = let rest = cancel id ts in if nat_eq t.id id then rest else t ∷ rest

unfoldable pub settle : ℕ → Settlement → Client → Client
settle promise s c = record c { calls = (promise, s) ∷ c.calls }

-- `delete this.contextMap[id]`
unfoldable pub delete_entry : String → Client → Client
delete_entry id c = record c { context_map = Dict.remove id c.context_map }
