-- ===== src/Context/Answers.antt =====
-- Every request that names its request gets one answer, which bears that name.
use flowbroker.Prelude.{String, ◌≡◌, refl, ◌≢◌, inl, inr, none, some, Option-cases, Bool-cases}
use flowbroker.Prelude.Dict
use flowbroker.Prelude.Dict.{get-put, get-remove}
use flowbroker.Lock.Watch.{LockMode, read, write}
use flowbroker.Context.State.{
  Data, Entry, Manager, Outcome, done, done_content, failed, thrown, LockAnswer, granted, refused,
  GetAnswer, get_error, got, Answers, check_field, buffer_of, command_text, control_key, unlocked,
  UnlockAnswer,
}
use flowbroker.Context.Handlers.{
  finish_lock, finish_save, save_entry, lock_and_get, save_and_unlock, unlock, then_unlock,
  lock_get_and_unlock, Command, rlock_and_get_command, unlock_outcome, wlock_and_get_command,
  lock_get_and_unlock_command, save_and_unlock_command, unlock_command, run_command, parse_command,
  Payload, message, reply, keep_response,
}

-- The response belongs to the request `r`.
abbrev pub Answered : String → Outcome → Type 0
Answered r (done q) = q ≡ r
Answered r (done_content q content) = q ≡ r
Answered r (failed q reason) = q ≡ r
Answered r (thrown e) = ⊥

-- The fields that the command's handler asks for, beside the request id, are there, and `Buffer.from` takes the
-- content, as it does any text.
abbrev pub IsComplete : Command → Data → Type 0
IsComplete rlock_and_get_command d = check_field d.context_name ≢ none
IsComplete wlock_and_get_command d = check_field d.context_name ≢ none
IsComplete lock_get_and_unlock_command d = check_field d.context_name ≢ none
IsComplete save_and_unlock_command d =
    (check_field d.context_content ≢ none) × (buffer_of d.context_content ≢ none)
IsComplete unlock_command d = Unit

unlock_outcome-Answered :
    (answer : UnlockAnswer) (r : String) → Answered r (unlock_outcome answer r)
unfolding unlock_outcome
unlock_outcome-Answered unlocked r = refl
unlock_outcome-Answered _ r = refl

keep_response-Answered :
    (r : String) (o p : Outcome) → Answered r o → Answered r p → Answered r (keep_response o p)
unfolding keep_response
keep_response-Answered r o (failed q reason) h k = k
keep_response-Answered r o (thrown e) h k = elim k [ ]
keep_response-Answered r o (done q) h k = h
keep_response-Answered r o (done_content q content) h k = h

reply-Answered : (r : String) (o : Outcome) → Answered r o → reply o ≡ some o
unfolding reply
reply-Answered r (thrown e) h = elim h [ ]
reply-Answered r (done q) h = refl
reply-Answered r (done_content q content) h = refl
reply-Answered r (failed q reason) h = refl

module _ (identity : String) (d : Data) (a : Answers) (r : String)
    (named : check_field d.request_id ≡ some r) where
  finish_lock-Answered :
      (lock : LockAnswer) (get : GetAnswer) (key : String) (mode : LockMode) (m : Manager)
      → Answered r (finish_lock lock get key r mode m).0
  unfolding finish_lock
  finish_lock-Answered (refused reason) get key mode m = refl
  finish_lock-Answered (granted lock) get_error key mode m = refl
  finish_lock-Answered (granted lock) (got content) key mode m = refl

  lock_and_get-Answered :
      (mode : LockMode) (m : Manager)
      → check_field d.context_name ≢ none
      → Answered r (lock_and_get identity d mode a m).0
  unfolding lock_and_get
  lock_and_get-Answered mode m given = elim (Option-cases (check_field d.context_name)) [
    | inl e ↦ absurd (given e)
    | inr (name, e) ↦ rw (e, named, lock_and_get) (finish_lock-Answered a.lock a.get _ mode m)
  ]

  unlock-Answered : (m : Manager) → Answered r (unlock identity d a m).0
  unfolding unlock
  unlock-Answered m = elim (Option-cases (Dict.get (control_key identity r) m.control_map)) [
    | inl e ↦ rw (named, e, unlock) refl
    | inr (entry, e) ↦ rw (named, e, unlock) (unlock_outcome-Answered a.unlock r)
  ]

  save_entry-Answered :
      (mode : LockMode) (e : Entry) (key content : String) (m : Manager)
      → Answered r (save_entry mode e key r (some content) a m).0
  unfolding save_entry
  save_entry-Answered read e key content m = refl
  save_entry-Answered write e key content m = elim (Bool-cases a.set_ok) [
    | inl ok ↦ rw (ok, finish_save) (unlock_outcome-Answered a.unlock r)
    | inr bad ↦ rw (bad, finish_save) refl
  ]

  save_and_unlock-Answered :
      (m : Manager)
      → check_field d.context_content ≢ none
      → buffer_of d.context_content ≢ none
      → Answered r (save_and_unlock identity d a m).0
  unfolding save_and_unlock
  save_and_unlock-Answered m given can = elim (Option-cases (check_field d.context_content)) [
    | inl e ↦ absurd (given e)
    | inr (content, e) ↦ elim (Option-cases (Dict.get (control_key identity r) m.control_map)) [
      | inl e' ↦ rw (named, e, e', save_and_unlock) refl
      | inr (entry, e') ↦ elim (Option-cases (buffer_of d.context_content)) [
        | inl b ↦ absurd (can b)
        | inr (buffer, b) ↦
            rw (named, e, e', b, save_and_unlock)
              (save_entry-Answered entry.lock_mode entry _ buffer m)
      ]
    ]
  ]

  then_unlock-Answered :
      (o : Outcome) (m : Manager) → Answered r o → Answered r (then_unlock identity d a (o, m)).0
  unfolding then_unlock
  then_unlock-Answered (thrown e) m h = elim h [ ]
  then_unlock-Answered (failed q reason) m h = h
  then_unlock-Answered (done q) m h = keep_response-Answered r (done q) _ h (unlock-Answered m)
  then_unlock-Answered (done_content q content) m h =
      keep_response-Answered r (done_content q content) _ h (unlock-Answered m)

  run_command-Answered :
      (c : Command) (m : Manager) → IsComplete c d → Answered r (run_command c identity d a m).0
  unfolding run_command lock_get_and_unlock
  run_command-Answered rlock_and_get_command m given = lock_and_get-Answered read m given
  run_command-Answered wlock_and_get_command m given = lock_and_get-Answered write m given
  run_command-Answered lock_get_and_unlock_command m given =
      let (o, m') = lock_and_get identity d read a m in
      then_unlock-Answered o m' (lock_and_get-Answered read m given)
  run_command-Answered save_and_unlock_command m (given, can) = save_and_unlock-Answered m given can
  run_command-Answered unlock_command m given = unlock-Answered m

-- A message with a known command, a request id and the fields of its command gets an answer that
-- bears the request id, whatever the state is and whatever the lock library and ZooKeeper answer.
pub message-Answered :
    (identity : String) (p : Payload) (a : Answers) (m : Manager) (name : String) (c : Command)
    (d : Data) (r : String)
    → command_text p.command ≡ some name
    → parse_command name ≡ some c
    → p.content ≡ some d
    → check_field d.request_id ≡ some r
    → IsComplete c d
    → (o : Outcome) × ((message identity (some p) a m).0 ≡ some o) × Answered r o
unfolding message
message-Answered identity p a m name c d r h1 h2 h3 h4 given =
    let answered = run_command-Answered identity d a r h4 c m given in
    (
      (run_command c identity d a m).0,
      rw (h1, h2, h3, message) (reply-Answered r _ answered),
      answered,
    )
