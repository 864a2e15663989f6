-- ===== src/Context/Isolation.antt =====
-- One sender's messages leave the control entries of the others alone.
use flowbroker.Prelude.{
  String, ◌≡◌, refl, ◌∙◌, ◌≢◌, inl, inr, Option, none, some, arith, Option-cases, eq_iff, ==-ne,
}
use flowbroker.Prelude.Dict
use flowbroker.Prelude.Dict.{get-put, get-remove}
use flowbroker.Lock.Watch.{LockMode, read, write}
use flowbroker.Context.State.{
  Data, Entry, Manager, Outcome, failed, thrown, LockAnswer, granted, refused, GetAnswer, get_error,
  got, Answers, check_field, command_text, control_key,
}
use flowbroker.Context.Handlers.{
  finish_lock, lock_and_get, save_and_unlock, unlock, then_unlock, lock_get_and_unlock, Command,
  rlock_and_get_command, wlock_and_get_command, lock_get_and_unlock_command,
  save_and_unlock_command, unlock_command, run_command, parse_command, Payload, message,
}

-- The key belongs to no request of this sender.
abbrev pub IsForeign : String → String → Type 0
IsForeign identity key = (r : String) → control_key identity r ≢ key

module _ (identity key : String) (other : IsForeign identity key) (a : Answers) where
  abbrev entry_of : Manager → Option Entry
  entry_of m = Dict.get key m.control_map

  finish_lock-entry :
      (lock : LockAnswer) (get : GetAnswer) (r : String) (mode : LockMode) (m : Manager)
      → entry_of (finish_lock lock get (control_key identity r) r mode m).1 ≡ entry_of m
  unfolding finish_lock
  finish_lock-entry (refused reason) get r mode m = refl
  finish_lock-entry (granted lock) get_error r mode m = refl
  finish_lock-entry (granted lock) (got content) r mode m =
      rw (get-put, ==-ne (control_key identity r) key (other r))

  lock_and_get-entry :
      (d : Data) (mode : LockMode) (m : Manager)
      → entry_of (lock_and_get identity d mode a m).1 ≡ entry_of m
  unfolding lock_and_get
  lock_and_get-entry d mode m = elim (Option-cases (check_field d.request_id)) [
    | inl e ↦ ground arith
    | inr (r, e) ↦ elim (Option-cases (check_field d.context_name)) [
      | inl e' ↦ rw (e', lock_and_get)
      | inr (name, e') ↦ rw (e', e, lock_and_get) (finish_lock-entry a.lock a.get r mode m)
    ]
  ]

  unlock-entry : (d : Data) (m : Manager) → entry_of (unlock identity d a m).1 ≡ entry_of m
  unfolding unlock
  unlock-entry d m = elim (Option-cases (check_field d.request_id)) [
    | inl e ↦ ground arith
    | inr (r, e) ↦
        let k = control_key identity r in
        ground (arith, other r, eq_iff k key, get-remove k key m.control_map)
  ]

  save_and_unlock-entry :
      (d : Data) (m : Manager) → entry_of (save_and_unlock identity d a m).1 ≡ entry_of m
  unfolding save_and_unlock
  save_and_unlock-entry d m = elim (Option-cases (check_field d.request_id)) [
    | inl e ↦ ground arith
    | inr (r, e) ↦
        let k = control_key identity r in
        ground (arith, other r, eq_iff k key, get-remove k key m.control_map)
  ]

  then_unlock-entry :
      (d : Data) (o : Outcome) (m : Manager)
      → entry_of (then_unlock identity d a (o, m)).1 ≡ entry_of m
  unfolding then_unlock
  then_unlock-entry d (failed r reason) m = refl
  then_unlock-entry d (thrown e) m = refl
  then_unlock-entry d _ m = unlock-entry d m

  run_command-entry :
      (c : Command) (d : Data) (m : Manager)
      → entry_of (run_command c identity d a m).1 ≡ entry_of m
  unfolding run_command lock_get_and_unlock
  run_command-entry rlock_and_get_command d m = lock_and_get-entry d read m
  run_command-entry wlock_and_get_command d m = lock_and_get-entry d write m
  run_command-entry lock_get_and_unlock_command d m =
      let (o, m') = lock_and_get identity d read a m in
      then_unlock-entry d o m' ∙ lock_and_get-entry d read m
  run_command-entry save_and_unlock_command d m = save_and_unlock-entry d m
  run_command-entry unlock_command d m = unlock-entry d m

-- Whatever a sender's message says and ZooKeeper answers, a control entry under a key that none of
-- the sender's request ids makes is as it was.
pub message-entry :
    (identity key : String) (p : Option Payload) (a : Answers) (m : Manager)
    → IsForeign identity key
    → Dict.get key (message identity p a m).1.control_map ≡ Dict.get key m.control_map
unfolding message
message-entry identity key none a m other = refl
message-entry identity key (some p) a m other = elim (Option-cases (command_text p.command)) [
  | inl e ↦ rw (e, message)
  | inr (name, e) ↦ elim (Option-cases (parse_command name)) [
    | inl e' ↦ rw (e, e', message)
    | inr (c, e') ↦ elim (Option-cases p.content) [
      | inl e'' ↦ rw (e, e', e'', message)
      | inr (d, e'') ↦ rw (e, e', e'', message) (run_command-entry identity key other a c d m)
    ]
  ]
]
