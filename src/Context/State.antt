-- ===== src/Context/State.antt =====
-- The state of contextManager/index.js's ContextHandler, its requests and responses, and the
-- outcomes of the calls that it waits for.
use flowbroker.Prelude.{
  ℕ, String, Bool, Option, none, some, List, [], ◌∷◌, ◌==◌, nat_eq, if◌then◌else◌,
}
use flowbroker.Prelude.Dict.{Dict}
use flowbroker.Lock.Watch.{LockMode}
use Prim.Native.String.{◌++◌}

-- A LockInstance, by its data path and its lock path.
pub record Lock : Type 0 where
  pub data_path : String
  pub lock_path : String

-- A field's value in the parsed JSON, unless JS holds it for false (null, false, 0): a text, or a
-- value of another type, with the text that it becomes in a key or a response and what `Buffer.from`
-- makes of it, `none` if it throws (as for a number).
pub data Field : Type 0 where
  utf8 : String → Field
  other : String → Option String → Field

-- `request.data`: `none` for a field that is missing or false.
pub record Data : Type 0 where
  pub context_name : Option Field
  pub request_id : Option Field
  pub context_content : Option Field

-- An entry of `controlMap`.
pub record Entry : Type 0 where
  pub lock_mode : LockMode
  pub lock : Lock
  pub timer : ℕ

-- A hold timer: its identity, the key that its `_timeout` deletes, and the lock that it unlocks.
pub record Timer : Type 0 where
  pub id : ℕ
  pub key : String
  pub lock : Lock

-- `control_map` is the source's; `timers` are the hold timers that are set, `next_timer` the next
-- identity that `setTimeout` gives; `locks` are the lock paths granted to this process whose znodes
-- it has not seen deleted; `writes` are the contexts that `a_set` has stored, the last one first.
pub record Manager : Type 0 where
  pub control_map : Dict Entry
  pub timers : List Timer
  pub next_timer : ℕ
  pub locks : List String
  pub writes : List (String × String)

-- `reason` is a text, or the whole response that a `catch` wrapped.
pub data Reason : Type 0 where
  text : String → Reason
  wrapped : String → String → Reason

-- What a handler's promise comes to: resolved with a response, rejected with a response, or rejected
-- with an exception (a missing field, or a content that `Buffer.from` refuses).
pub data Outcome : Type 0 where
  done : String → Outcome
  done_content : String → String → Outcome
  failed : String → Reason → Outcome
  thrown : String → Outcome

-- What the lock library answers.
pub data LockAnswer : Type 0 where
  granted : Lock → LockAnswer
  refused : String → LockAnswer

-- What `a_get` answers: `rc !== 0`, or the data, `none` for null.
pub data GetAnswer : Type 0 where
  get_error : GetAnswer
  got : Option String → GetAnswer

-- `identity + '.' + request_id`
unfoldable pub control_key : String → String → String
control_key identity request_id = identity ++ "." ++ request_id

-- What `LockInstance.unlock` answers.
pub data UnlockAnswer : Type 0 where
  unlocked already_unlocked unlock_error : UnlockAnswer

-- All answers that a handler may wait for.
pub record Answers : Type 0 where
  pub lock : LockAnswer
  pub get : GetAnswer
  pub set_ok : Bool
  pub unlock : UnlockAnswer

-- `checkField`: a field that is missing, false or empty throws, `none`. Any other value passes.
unfoldable pub check_field : Option Field → Option String
check_field none = none
check_field (some (utf8 v)) = if v == "" then none else some v
check_field (some (other rendered buffer)) = some rendered

-- `Buffer.from(data.context_content, 'utf8')`
unfoldable pub buffer_of : Option Field → Option String
buffer_of none = none
buffer_of (some (utf8 v)) = some v
buffer_of (some (other rendered buffer)) = buffer

-- The text that the `switch` compares with its cases: a command that fails `checkField` and one that
-- is no text are both `none`, since neither has an answer.
unfoldable pub command_text : Option Field → Option String
command_text none = none
command_text (some (utf8 v)) = if v == "" then none else some v
command_text (some (other rendered buffer)) = none

unfoldable pub clear_timeout : ℕ → List Timer → List Timer
clear_timeout t [] = []
clear_timeout t (u ∷ ts) = let rest = clear_timeout t ts in if nat_eq t u.id then rest else u ∷ rest

-- A lock path that is not there any more.
unfoldable pub forget : String → List String → List String
forget p [] = []
forget p (q ∷ qs) = let rest = forget p qs in if q == p then rest else q ∷ rest

abbrev pub empty : Manager
empty = record { control_map = []; timers = []; next_timer = 0; locks = []; writes = [] }
