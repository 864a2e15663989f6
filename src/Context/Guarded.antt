-- ===== src/Context/Guarded.antt =====
-- Every timeout, and every request but one whose content `Buffer.from` refuses, keeps the service's
-- invariant, when ZooKeeper does not fail.
use flowbroker.Prelude.{
  String, ◌≡◌, refl, sym, ◌∙◌, ◌≢◌, inl, inr, true, Option, none, some, In, Option-cases, none≢some,
}
use flowbroker.Prelude.Dict
use flowbroker.Lock.Watch.{LockMode, read, write}
use flowbroker.Context.State.{
  Data, Entry, Timer, Manager, empty, Outcome, failed, thrown, LockAnswer, granted, refused,
  GetAnswer, get_error, got, UnlockAnswer, unlocked, already_unlocked, unlock_error, Answers,
  check_field, buffer_of, command_text, control_key,
}
use flowbroker.Context.Handlers.{
  finish_lock, lock_and_get, unlock_lock, drop_entry, finish_save, save_entry, save_and_unlock,
  unlock, timeout, then_unlock, Command, rlock_and_get_command, wlock_and_get_command,
  lock_get_and_unlock_command, save_and_unlock_command, unlock_command, run_command, parse_command,
  Payload, message,
}
use flowbroker.Context.Invariant.{Inv, freed-Inv, guard_lock-Inv, writes-Inv}

-- ZooKeeper reads, writes and deletes what it is asked to. (A lock may still be refused.)
pub record Works (a : Answers) : Type 0 where
  pub reads : a.get ≢ get_error
  pub writes : a.set_ok ≡ true
  pub deletes : a.unlock ≢ unlock_error

-- A content that is there is one that `Buffer.from` takes, as it does any text.
abbrev pub CanBuffer : Data → Type 0
CanBuffer d = check_field d.context_content ≢ none → buffer_of d.context_content ≢ none

-- So it is with the data of the request, if it has any.
abbrev pub AllBuffer : Option Payload → Type 0
AllBuffer p = (q : Payload) (d : Data) → p ≡ some q → q.content ≡ some d → CanBuffer d

pub Inv-empty : Inv empty
unfolding Dict.get
Inv-empty = record {
  armed = λ key e h. cc;
  fresh = λ t i. absurd i;
  unique = λ t u i. absurd i;
  guarded = λ p i. absurd i;
}

-- A hold timer that fires keeps the invariant.
pub timeout-Inv :
    {m : Manager} (inv : Inv m) (t : Timer) (set : In t m.timers) (answer : UnlockAnswer)
    → answer ≢ unlock_error
    → Inv (timeout t answer m)
unfolding timeout unlock_lock
timeout-Inv inv t set unlocked h = freed-Inv inv t set
timeout-Inv inv t set already_unlocked h = freed-Inv inv t set
timeout-Inv inv t set unlock_error h = absurd (h refl)

finish_lock-Inv :
    (lock : LockAnswer) (get : GetAnswer) (key request_id : String) (mode : LockMode) {m : Manager}
    → get ≢ get_error
    → Inv m
    → Inv (finish_lock lock get key request_id mode m).1
unfolding finish_lock
finish_lock-Inv (refused reason) get key request_id mode h inv = inv
finish_lock-Inv (granted lock) get_error key request_id mode h inv = absurd (h refl)
finish_lock-Inv (granted lock) (got content) key request_id mode h inv =
    guard_lock-Inv inv key mode lock

finish_save-Inv :
    {m : Manager} (inv : Inv m) (key : String) (e : Entry) (request_id content : String)
    (answer : UnlockAnswer)
    → Dict.get key m.control_map ≡ some e
    → answer ≢ unlock_error
    → Inv (finish_save true answer request_id content e.lock (drop_entry key e m)).1
unfolding finish_save drop_entry
finish_save-Inv inv key e request_id content unlocked h d =
    writes-Inv
      (freed-Inv inv (record { id = e.timer; key = key; lock = e.lock }) (inv.armed key e h)) _
finish_save-Inv inv key e request_id content already_unlocked h d =
    writes-Inv
      (freed-Inv inv (record { id = e.timer; key = key; lock = e.lock }) (inv.armed key e h)) _
finish_save-Inv inv key e request_id content unlock_error h d = absurd (d refl)

module _ (identity : String) (d : Data) (a : Answers) (w : Works a) (can : CanBuffer d) where
  lock_and_get-Inv :
      (mode : LockMode) (m : Manager) → Inv m → Inv (lock_and_get identity d mode a m).1
  unfolding lock_and_get
  lock_and_get-Inv mode m inv = elim (Option-cases (check_field d.context_name)) [
    | inl e ↦ rw (e, lock_and_get) inv
    | inr (name, e) ↦ elim (Option-cases (check_field d.request_id)) [
      | inl e' ↦ rw (e, e', lock_and_get) inv
      | inr (request_id, e') ↦
          rw (e, e', lock_and_get)
            (finish_lock-Inv a.lock a.get (control_key identity request_id) request_id mode w.reads
              inv)
    ]
  ]

  unlock-Inv : (m : Manager) → Inv m → Inv (unlock identity d a m).1
  unfolding unlock
  unlock-Inv m inv = elim (Option-cases (check_field d.request_id)) [
    | inl e ↦ rw (e, unlock) inv
    | inr (request_id, e) ↦
        elim (Option-cases (Dict.get (control_key identity request_id) m.control_map)) [
          | inl e' ↦ rw (e, e', unlock) inv
          | inr (entry, e') ↦
              let key = control_key identity request_id in
              let t : Timer = record { id = entry.timer; key = key; lock = entry.lock } in
              rw (e, e', unlock)
                (unfold timeout in timeout-Inv inv t (inv.armed key entry e') a.unlock w.deletes)
        ]
  ]

  save_entry-Inv :
      (mode : LockMode) (key : String) (e : Entry) (request_id content : String) (m : Manager)
      → Dict.get key m.control_map ≡ some e
      → Inv m
      → Inv (save_entry mode e key request_id (some content) a m).1
  unfolding save_entry
  save_entry-Inv read key e request_id content m h inv = inv
  save_entry-Inv write key e request_id content m h inv =
      rw w.writes (finish_save-Inv inv key e request_id content a.unlock h w.deletes)

  save_and_unlock-Inv : (m : Manager) → Inv m → Inv (save_and_unlock identity d a m).1
  unfolding save_and_unlock
  save_and_unlock-Inv m inv = elim (Option-cases (check_field d.request_id)) [
    | inl e ↦ rw (e, save_and_unlock) inv
    | inr (request_id, e) ↦ elim (Option-cases (check_field d.context_content)) [
      | inl e' ↦ rw (e, e', save_and_unlock) inv
      | inr (content, e') ↦
          elim (Option-cases (Dict.get (control_key identity request_id) m.control_map)) [
            | inl e'' ↦ rw (e, e', e'', save_and_unlock) inv
            | inr (entry, e'') ↦ elim (Option-cases (buffer_of d.context_content)) [
              | inl b ↦ absurd (can (λ n. none≢some (sym n ∙ e')) b)
              | inr (buffer, b) ↦
                  rw (e, e', e'', b, save_and_unlock)
                    (save_entry-Inv entry.lock_mode _ entry request_id buffer m e'' inv)
            ]
          ]
    ]
  ]

  then_unlock-Inv : (r : Outcome) (m : Manager) → Inv m → Inv (then_unlock identity d a (r, m)).1
  unfolding then_unlock
  then_unlock-Inv (failed r reason) m inv = inv
  then_unlock-Inv (thrown e) m inv = inv
  then_unlock-Inv _ m inv = unlock-Inv m inv

  run_command-Inv : (c : Command) (m : Manager) → Inv m → Inv (run_command c identity d a m).1
  unfolding run_command
  run_command-Inv rlock_and_get_command m inv = lock_and_get-Inv read m inv
  run_command-Inv wlock_and_get_command m inv = lock_and_get-Inv write m inv
  run_command-Inv lock_get_and_unlock_command m inv =
      let (r, m') = lock_and_get identity d read a m in
      then_unlock-Inv r m' (lock_and_get-Inv read m inv)
  run_command-Inv save_and_unlock_command m inv = save_and_unlock-Inv m inv
  run_command-Inv unlock_command m inv = unlock-Inv m inv

pub message-Inv :
    (identity : String) (p : Option Payload) (a : Answers) (m : Manager)
    → Works a
    → AllBuffer p
    → Inv m
    → Inv (message identity p a m).1
unfolding message
message-Inv identity none a m w can inv = inv
message-Inv identity (some p) a m w can inv = elim (Option-cases (command_text p.command)) [
  | inl e ↦ rw (e, message) inv
  | inr (name, e) ↦ elim (Option-cases (parse_command name)) [
    | inl e' ↦ rw (e, e', message) inv
    | inr (c, e') ↦ elim (Option-cases p.content) [
      | inl e'' ↦ rw (e, e', e'', message) inv
      | inr (d, e'') ↦
          rw (e, e', e'', message) (run_command-Inv identity d a w (can p d refl e'') c m inv)
    ]
  ]
]
