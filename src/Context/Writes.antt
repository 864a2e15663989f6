-- ===== src/Context/Writes.antt =====
-- Who may store a context, and who may touch a control entry.
use flowbroker.Prelude.{
  String, ◌≡◌, refl, sym, ap, ◌∙◌, subst, ◌⊎◌, inl, inr, Bool, true, false, Option, none, some, ◌∷◌,
  arith, ◌==◌, Option-cases, Bool-cases, eq_refl, eq_iff,
}
use flowbroker.Prelude.Dict
use flowbroker.Prelude.Dict.{get-put, get-remove}
use flowbroker.Lock.Watch.{LockMode, read, write}
use flowbroker.Context.State.{
  Data, Entry, Manager, Outcome, failed, thrown, LockAnswer, granted, refused, GetAnswer, get_error,
  got, UnlockAnswer, Answers, check_field, buffer_of, command_text, control_key,
}
use flowbroker.Context.Handlers.{
  finish_lock, lock_and_get, drop_entry, finish_save, save_and_unlock, unlock, then_unlock,
  lock_get_and_unlock, Command, rlock_and_get_command, wlock_and_get_command,
  lock_get_and_unlock_command, save_and_unlock_command, unlock_command, run_command, parse_command,
  Payload, message,
}

-- `m'` has stored one context more than `m`: the content that the data `d` bears, under the write lock
-- of the request that `d` names, which has ended.
pub record Stores (identity : String) (d : Data) (m m' : Manager) : Type 0 where
  pub request_id : String
  pub content : String
  pub entry : Entry
  pub named : check_field d.request_id ≡ some request_id
  pub buffered : buffer_of d.context_content ≡ some content
  pub locked : Dict.get (control_key identity request_id) m.control_map ≡ some entry
  pub writer : entry.lock_mode ≡ write
  pub stored : m'.writes ≡ (entry.lock.data_path, content) ∷ m.writes
  pub ended : Dict.get (control_key identity request_id) m'.control_map ≡ none

abbrev pub Writes : String → Data → Manager → Manager → Type 0
Writes identity d m m' = (m'.writes ≡ m.writes) ⊎ Stores identity d m m'

-- The message is a `save_and_unlock` with the data `d`.
pub record SaveRequest (p : Option Payload) (d : Data) : Type 0 where
  pub payload : Payload
  pub parsed : p ≡ some payload
  pub command : command_text payload.command ≡ some "save_and_unlock"
  pub content : payload.content ≡ some d

abbrev pub MessageWrites : String → Option Payload → Manager → Manager → Type 0
MessageWrites identity p m m' =
    (m'.writes ≡ m.writes) ⊎ ((d : Data) × SaveRequest p d × Stores identity d m m')

parse_save :
    (name : String) → parse_command name ≡ some save_and_unlock_command → name ≡ "save_and_unlock"
unfolding parse_command
parse_save name h = elim (Bool-cases (name == "rlock_and_get")) [
  | inl e ↦ absurd (let f = rw (e, parse_command) at h in cc)
  | inr e ↦ elim (Bool-cases (name == "wlock_and_get")) [
    | inl e' ↦ absurd (let f = rw (e, e', parse_command) at h in cc)
    | inr e' ↦ elim (Bool-cases (name == "lock_get_and_unlock")) [
      | inl e'' ↦ absurd (let f = rw (e, e', e'', parse_command) at h in cc)
      | inr e'' ↦ elim (Bool-cases (name == "save_and_unlock")) [
        | inl same ↦ (eq_iff name "save_and_unlock").0 same
        | inr other ↦ absurd (let f = rw (e, e', e'', other, parse_command) at h in ground arith)
      ]
    ]
  ]
]

mode_cases : (k : LockMode) → (k ≡ read) ⊎ (k ≡ write)
mode_cases read = inl refl
mode_cases write = inr refl

module _ (identity : String) (a : Answers) where
  finish_lock-writes :
      (lock : LockAnswer) (get : GetAnswer) (key request_id : String) (mode : LockMode)
      (m : Manager)
      → (finish_lock lock get key request_id mode m).1.writes ≡ m.writes
  unfolding finish_lock
  finish_lock-writes (refused reason) get key request_id mode m = refl
  finish_lock-writes (granted lock) get_error key request_id mode m = refl
  finish_lock-writes (granted lock) (got content) key request_id mode m = refl

  unlock-writes : (d : Data) (m : Manager) → (unlock identity d a m).1.writes ≡ m.writes
  unfolding unlock
  unlock-writes d m = ground arith

  lock_and_get-writes :
      (d : Data) (mode : LockMode) (m : Manager)
      → (lock_and_get identity d mode a m).1.writes ≡ m.writes
  unfolding lock_and_get
  lock_and_get-writes d mode m = ground arith

  then_unlock-writes :
      (d : Data) (r : Outcome) (m : Manager) → (then_unlock identity d a (r, m)).1.writes ≡ m.writes
  unfolding then_unlock
  then_unlock-writes d (failed r reason) m = refl
  then_unlock-writes d (thrown e) m = refl
  then_unlock-writes d _ m = unlock-writes d m

  finish_save-Writes :
      (d : Data) (m : Manager) (set_ok : Bool) (answer : UnlockAnswer) (request_id content : String)
      (e : Entry)
      → check_field d.request_id ≡ some request_id
      → buffer_of d.context_content ≡ some content
      → Dict.get (control_key identity request_id) m.control_map ≡ some e
      → e.lock_mode ≡ write
      → Writes identity d m
          (finish_save set_ok answer request_id content e.lock
            (drop_entry (control_key identity request_id) e m)).1
  unfolding finish_save drop_entry
  finish_save-Writes d m false answer request_id content e n b h w = inl refl
  finish_save-Writes d m true answer request_id content e n b h w = inr (record {
    request_id = request_id;
    content = content;
    entry = e;
    named = n;
    buffered = b;
    locked = h;
    writer = w;
    stored = ground arith;
    ended = ground (
      arith,
      get-remove (control_key identity request_id) (control_key identity request_id) m.control_map,
      eq_refl (control_key identity request_id),
    );
  })

  save_and_unlock-Writes :
      (d : Data) (m : Manager) → Writes identity d m (save_and_unlock identity d a m).1
  unfolding save_and_unlock
  save_and_unlock-Writes d m = elim (Option-cases (check_field d.request_id)) [
    | inl e ↦ rw (e, save_and_unlock) (inl refl)
    | inr (r, e) ↦ elim (Option-cases (check_field d.context_content)) [
      | inl e' ↦ rw (e, e', save_and_unlock) (inl refl)
      | inr (c, e') ↦ elim (Option-cases (Dict.get (control_key identity r) m.control_map)) [
        | inl e'' ↦ rw (e, e', e'', save_and_unlock) (inl refl)
        | inr (entry, e'') ↦ elim (mode_cases entry.lock_mode) [
          | inl reading ↦ rw (e, e', e'', reading, save_and_unlock) (inl refl)
          | inr writing ↦ elim (Option-cases (buffer_of d.context_content)) [
            | inl b ↦ rw (e, e', e'', writing, b, save_and_unlock) (inl refl)
            | inr (buffer, b) ↦
                rw (e, e', e'', writing, b, save_and_unlock)
                  (finish_save-Writes d m a.set_ok a.unlock r buffer entry e b e'' writing)
          ]
        ]
      ]
    ]
  ]

  save-MessageWrites :
      (p : Payload) (name : String) (c : Command) (d : Data) (m : Manager)
      → command_text p.command ≡ some name
      → parse_command name ≡ some c
      → p.content ≡ some d
      → MessageWrites identity (some p) m (run_command c identity d a m).1
  unfolding run_command lock_get_and_unlock
  save-MessageWrites p name rlock_and_get_command d m h n g = inl (lock_and_get-writes d read m)
  save-MessageWrites p name wlock_and_get_command d m h n g = inl (lock_and_get-writes d write m)
  save-MessageWrites p name lock_get_and_unlock_command d m h n g =
      let (r, m') = lock_and_get identity d read a m in
      inl (then_unlock-writes d r m' ∙ lock_and_get-writes d read m)
  save-MessageWrites p name save_and_unlock_command d m h n g = elim (save_and_unlock-Writes d m) [
    | inl same ↦ inl same
    | inr stores ↦
        let asked : SaveRequest (some p) d = record {
          payload = p;
          parsed = refl;
          command = h ∙ ap some (parse_save name n);
          content = g;
        } in
        inr (d, asked, stores)
  ]
  save-MessageWrites p name unlock_command d m h n g = inl (unlock-writes d m)

-- A message stores no context, or it is a save_and_unlock and stores one: the content that it bears,
-- on the data znode of a write lock that the sender holds under the request that it names, and the
-- request is no longer in the control map.
pub message-Writes :
    (identity : String) (p : Option Payload) (a : Answers) (m : Manager)
    → MessageWrites identity p m (message identity p a m).1
unfolding message
message-Writes identity none a m = inl refl
message-Writes identity (some p) a m = elim (Option-cases (command_text p.command)) [
  | inl e ↦ rw (e, message) (inl refl)
  | inr (name, e) ↦ elim (Option-cases (parse_command name)) [
    | inl e' ↦ rw (e, e', message) (inl refl)
    | inr (c, e') ↦ elim (Option-cases p.content) [
      | inl e'' ↦ rw (e, e', e'', message) (inl refl)
      | inr (d, e'') ↦
          let same : (message identity (some p) a m).1 ≡ (run_command c identity d a m).1 =
            rw (e, e', e'', message) refl in
          subst (λ m'. MessageWrites identity (some p) m m') (sym same)
            (save-MessageWrites identity a p name c d m e e' e'')
    ]
  ]
]
