-- ===== src/Context/Handlers.antt =====
-- The handlers of contextManager/index.js: _lock_and_get, _save_and_unlock, _unlock, _timeout and
-- the `message` callback.
use flowbroker.Prelude.{
  suc, String, Bool, true, false, Option, none, some, ◌∷◌, ◌==◌, if◌then◌else◌,
}
use flowbroker.Prelude.Dict
use flowbroker.Lock.Watch.{LockMode, read, write}
use flowbroker.Context.State.{
  Lock, Field, Data, Entry, Timer, Manager, text, wrapped, Outcome, done, done_content, failed,
  thrown, LockAnswer, granted, refused, GetAnswer, get_error, got, UnlockAnswer, unlocked,
  already_unlocked, unlock_error, Answers, control_key, check_field, buffer_of, command_text,
  clear_timeout, forget,
}

-- `protectedData == null` reads as "".
abbrev content_of : Option String → String
content_of none = ""
content_of (some content) = content

-- The callback of `a_get`, and the `catch` round it, which wraps the response of a failed `a_get`.
unfoldable pub finish_get :
    GetAnswer → String → String → Lock → LockMode → Manager → Outcome × Manager
finish_get get_error key request_id lock mode m =
    (failed request_id (wrapped request_id "internal error"), m)
finish_get (got content) key request_id lock mode m = (
  done_content request_id (content_of content),
  record m {
    timers = record { id = m.next_timer; key = key; lock = lock } ∷ m.timers;
    next_timer = suc m.next_timer;
    control_map =
        Dict.put key (record { lock_mode = mode; lock = lock; timer = m.next_timer }) m.control_map;
  },
)

unfoldable pub finish_lock :
    LockAnswer → GetAnswer → String → String → LockMode → Manager → Outcome × Manager
unfolding finish_get
finish_lock (refused reason) get key request_id mode m = (failed request_id (text reason), m)
finish_lock (granted lock) get key request_id mode m =
    finish_get get key request_id lock mode (record m { locks = lock.lock_path ∷ m.locks })

unfoldable pub lock_and_get : String → Data → LockMode → Answers → Manager → Outcome × Manager
unfolding finish_lock
lock_and_get identity d mode a m = elim (check_field d.context_name) [
  | none ↦ (thrown "Request is missing context_name field", m)
  | some context_name ↦ elim (check_field d.request_id) [
    | none ↦ (thrown "Request is missing request_id field", m)
    | some request_id ↦ finish_lock a.lock a.get (control_key identity request_id) request_id mode m
  ]
]

-- `lock.unlock()`: the node is gone, unless ZooKeeper answered another error.
unfoldable pub unlock_lock : UnlockAnswer → Lock → Manager → Manager
unlock_lock unlock_error lock m = m
unlock_lock unlocked lock m = record m { locks = forget lock.lock_path m.locks }
unlock_lock already_unlocked lock m = record m { locks = forget lock.lock_path m.locks }

-- Only `unlocked` resolves; both rejections are answered with an internal error.
unfoldable pub unlock_outcome : UnlockAnswer → String → Outcome
unlock_outcome unlocked request_id = done request_id
unlock_outcome already_unlocked request_id = failed request_id (text "internal error")
unlock_outcome unlock_error request_id = failed request_id (text "internal error")

-- `delete this.controlMap[…]; clearTimeout(…)`
unfoldable pub drop_entry : String → Entry → Manager → Manager
drop_entry key e m = record m {
  control_map = Dict.remove key m.control_map;
  timers = clear_timeout e.timer m.timers;
}

unfoldable pub finish_save :
    Bool → UnlockAnswer → String → String → Lock → Manager → Outcome × Manager
unfolding unlock_lock unlock_outcome
finish_save false answer request_id content lock m =
    (failed request_id (text "fail to write context"), m)
finish_save true answer request_id content lock m = (
  unlock_outcome answer request_id,
  unlock_lock answer lock (record m { writes = (lock.data_path, content) ∷ m.writes }),
)

-- `Buffer.from` stands behind the deletion of the entry and of its timer: where it throws, both are
-- gone, and the lock stays.
unfoldable pub save_entry :
    LockMode → Entry → String → String → Option String → Answers → Manager → Outcome × Manager
unfolding finish_save drop_entry
save_entry read e key request_id buffer a m =
    (failed request_id (text "trying to write while holding a read lock"), m)
save_entry write e key request_id none a m =
    (thrown "The first argument must be of type string", drop_entry key e m)
save_entry write e key request_id (some content) a m =
    finish_save a.set_ok a.unlock request_id content e.lock (drop_entry key e m)

unfoldable pub save_and_unlock : String → Data → Answers → Manager → Outcome × Manager
unfolding save_entry
save_and_unlock identity d a m = elim (check_field d.request_id) [
  | none ↦ (thrown "Request is missing request_id field", m)
  | some request_id ↦ elim (check_field d.context_content) [
    | none ↦ (thrown "Request is missing context_content field", m)
    | some content ↦ elim (Dict.get (control_key identity request_id) m.control_map) [
      | none ↦ (failed request_id (text "lock does not exist"), m)
      | some e ↦
          save_entry e.lock_mode e (control_key identity request_id) request_id
            (buffer_of d.context_content) a m
    ]
  ]
]

unfoldable pub unlock : String → Data → Answers → Manager → Outcome × Manager
unfolding unlock_lock unlock_outcome drop_entry
unlock identity d a m = elim (check_field d.request_id) [
  | none ↦ (thrown "Request is missing request_id field", m)
  | some request_id ↦ elim (Dict.get (control_key identity request_id) m.control_map) [
    | none ↦ (failed request_id (text "lock does not exist"), m)
    | some e ↦ (
      unlock_outcome a.unlock request_id,
      unlock_lock a.unlock e.lock (drop_entry (control_key identity request_id) e m),
    )
  ]
]

-- `_timeout`, when the hold timer `t` fires.
unfoldable pub timeout : Timer → UnlockAnswer → Manager → Manager
unfolding unlock_lock
timeout t answer m = unlock_lock answer t.lock (record m {
  control_map = Dict.remove t.key m.control_map;
  timers = clear_timeout t.id m.timers;
})

-- `lock_get_and_unlock`: the first response is sent if both steps resolve.
unfoldable pub keep_response : Outcome → Outcome → Outcome
keep_response response (failed r reason) = failed r reason
keep_response response (thrown e) = thrown e
keep_response response _ = response

unfoldable pub then_unlock : String → Data → Answers → Outcome × Manager → Outcome × Manager
unfolding keep_response
then_unlock identity d a (failed r reason, m) = (failed r reason, m)
then_unlock identity d a (thrown e, m) = (thrown e, m)
then_unlock identity d a (response, m) =
    let (second, m') = unlock identity d a m in (keep_response response second, m')

unfoldable pub lock_get_and_unlock : String → Data → Answers → Manager → Outcome × Manager
unfolding then_unlock
lock_get_and_unlock identity d a m = then_unlock identity d a (lock_and_get identity d read a m)

pub data Command : Type 0 where
  rlock_and_get_command wlock_and_get_command lock_get_and_unlock_command : Command
  save_and_unlock_command unlock_command : Command

-- The cases of the `switch` that have an answer.
unfoldable pub run_command : Command → String → Data → Answers → Manager → Outcome × Manager
unfolding lock_and_get lock_get_and_unlock save_and_unlock unlock
run_command rlock_and_get_command identity d a m = lock_and_get identity d read a m
run_command wlock_and_get_command identity d a m = lock_and_get identity d write a m
run_command lock_get_and_unlock_command identity d a m = lock_get_and_unlock identity d a m
run_command save_and_unlock_command identity d a m = save_and_unlock identity d a m
run_command unlock_command identity d a m = unlock identity d a m

-- What the `then` and `catch` of the `message` callback send: a rejection with no request id (an
-- exception) is only logged.
unfoldable pub reply : Outcome → Option Outcome
reply (thrown e) = none
reply response = some response

-- The parsed request; a request that is no JSON is `none` below.
pub record Payload : Type 0 where
  pub command : Option Field
  pub content : Option Data

-- The cases of the `switch`; `dump` and unknown commands have no answer.
unfoldable pub parse_command : String → Option Command
parse_command c =
    if c == "rlock_and_get"
    then some rlock_and_get_command
    else if c == "wlock_and_get"
    then some wlock_and_get_command
    else if c == "lock_get_and_unlock"
    then some lock_get_and_unlock_command
    else if c == "save_and_unlock"
    then some save_and_unlock_command
    else if c == "unlock"
    then some unlock_command
    else none

-- The `message` callback: what is sent back, and the state behind it.
unfoldable pub message : String → Option Payload → Answers → Manager → Option Outcome × Manager
unfolding command_text parse_command run_command reply
message identity none a m = (none, m)
message identity (some p) a m = elim (command_text p.command) [
  | none ↦ (none, m)
  | some name ↦ elim (parse_command name) [
    | none ↦ (none, m)
    | some c ↦ elim p.content [
      | none ↦ (none, m)
      | some d ↦ let (outcome, m') = run_command c identity d a m in (reply outcome, m')
    ]
  ]
]
