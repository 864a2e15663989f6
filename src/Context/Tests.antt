-- ===== src/Context/Tests.antt =====
-- The theorems about the context service at concrete requests.
use flowbroker.Prelude.{
  String, ◌≡◌, refl, true, false, none, some, [], ◌∷◌, false≢true, sym, ap, ◌∙◌, Bool, nat_eq,
}
use flowbroker.Prelude.Dict
use Prim.Native.Char.{code}
use Prim.Native.String.{◌++◌}
use text.Mathlib.TextLemmas.{cons-append}
use flowbroker.Lock.Watch.{write}
use flowbroker.Context.State.{
  Lock, utf8, Data, Entry, Manager, empty, Outcome, done, done_content, granted, get_error, got,
  unlocked, Answers, check_field, control_key, buffer_of, command_text, clear_timeout, forget,
}
use flowbroker.Context.Handlers.{
  Payload, message, lock_and_get, save_and_unlock, save_and_unlock_command, parse_command,
}
use flowbroker.Context.Invariant.{Inv}
use flowbroker.Context.Guarded.{Works, AllBuffer, Inv-empty, message-Inv}
use flowbroker.Context.Writes.{MessageWrites, message-Writes}
use flowbroker.Context.Isolation.{IsForeign, message-entry}
use flowbroker.Context.Answers.{Answered, message-Answered}

abbrev lock_1 : Lock
lock_1 = record {
  data_path = "/zk-rwlocks/context-manager/admin/f1/sum";
  lock_path = "/zk-rwlocks/context-manager/admin/f1/sum/wlock-0000000004";
}

abbrev works : Answers
works = record { lock = granted lock_1; get = got none; set_ok = true; unlock = unlocked }

works-Works : Works works
works-Works = record { reads = λ e. cc; writes = refl; deletes = λ e. cc }

abbrev ask : Data
ask = record {
  context_name = some (utf8 "admin/f1/sum");
  request_id = some (utf8 "r1");
  context_content = none;
}

abbrev save : Data
save = record {
  context_name = none;
  request_id = some (utf8 "r1");
  context_content = some (utf8 "{}");
}

abbrev lock_request : Payload
lock_request = record { command = some (utf8 "wlock_and_get"); content = some ask }

abbrev save_request : Payload
save_request = record { command = some (utf8 "save_and_unlock"); content = some save }

abbrev entry_1 : Entry
entry_1 = record { lock_mode = write; lock = lock_1; timer = 0 }

-- The state behind the lock request.
abbrev locked : Manager
locked = record {
  control_map = ("c1.r1", entry_1) ∷ [];
  timers = record { id = 0; key = "c1.r1"; lock = lock_1 } ∷ [];
  next_timer = 1;
  locks = lock_1.lock_path ∷ [];
  writes = [];
}

lock_test : message "c1" (some lock_request) works empty ≡ (some (done_content "r1" ""), locked)
unfolding message control_key Dict.put lock_and_get check_field
lock_test = refl

save_test : message "c1" (some save_request) works locked ≡ (
  some (done "r1"),
  record {
    control_map = [];
    timers = [];
    next_timer = 1;
    locks = [];
    writes = (lock_1.data_path, "{}") ∷ [];
  },
)
unfolding message control_key Dict.get Dict.remove save_and_unlock clear_timeout forget check_field
    buffer_of
save_test = refl

-- The lock request has no content.
ask-AllBuffer : AllBuffer (some lock_request)
unfolding buffer_of check_field
ask-AllBuffer q d h g given = let d_is : d ≡ ask = cc in absurd (given (rw d_is refl))

locked-Inv : Inv locked
unfolding message control_key Dict.put lock_and_get check_field
locked-Inv = message-Inv "c1" (some lock_request) works empty works-Works ask-AllBuffer Inv-empty

message-Writes_example :
    MessageWrites "c1" (some save_request) locked (message "c1" (some save_request) works locked).1
message-Writes_example = message-Writes "c1" (some save_request) works locked

first_is_c : String → Bool
first_is_c String.[] = false
first_is_c (String.◌∷◌ c s) = nat_eq (code c) b'c'

-- The prefix that the keys of the sender c1 begin with is not that of "d2.r1".
d2-IsForeign : IsForeign "c1" "d2.r1"
unfolding control_key first_is_c
d2-IsForeign r e =
    false≢true (sym (ap first_is_c e) ∙ ap first_is_c (cons-append "c" "1" ("." ++ r)))

message-entry_example :
    Dict.get "d2.r1" (message "c1" (some save_request) works locked).1.control_map
    ≡ Dict.get "d2.r1" locked.control_map
message-entry_example = message-entry "c1" "d2.r1" (some save_request) works locked d2-IsForeign

message-Answered_example :
    (o : Outcome) × ((message "c1" (some save_request) works locked).0 ≡ some o) × Answered "r1" o
unfolding check_field buffer_of command_text parse_command
message-Answered_example =
    message-Answered "c1" save_request works locked "save_and_unlock" save_and_unlock_command save
      "r1" refl refl refl refl ((λ e. cc), (λ e. cc))

abbrev unreadable : Answers
unreadable = record { lock = granted lock_1; get = get_error; set_ok = true; unlock = unlocked }

abbrev unwritable : Answers
unwritable = record { lock = granted lock_1; get = got none; set_ok = false; unlock = unlocked }
