-- ===== src/Context/Leaks.antt =====
-- Three error paths of contextManager/index.js leave a lock held that nothing will release.
use flowbroker.Prelude.{String, ◌≡◌, refl, ◌≢◌, inl, false, none, some, In}
use flowbroker.Prelude.Dict
use flowbroker.Lock.Watch.{LockMode, write}
use flowbroker.Context.State.{
  Lock, Data, Entry, Timer, Manager, granted, get_error, Answers, check_field, buffer_of,
  control_key,
}
use flowbroker.Context.Handlers.{lock_and_get, save_and_unlock}
use flowbroker.Context.Invariant.{Inv, In-clear_timeout}

module _ (identity : String) (d : Data) (a : Answers) (request_id : String) (m : Manager) where
  -- A lock was granted, on a path that no hold timer knows, and then `a_get` fails: the invariant
  -- does not hold behind it, in either mode. (The lock is granted, and no timer is set for it.)
  pub get_error_breaks-Inv :
      (context_name : String) (mode : LockMode) (lock : Lock)
      → check_field d.context_name ≡ some context_name
      → check_field d.request_id ≡ some request_id
      → a.lock ≡ granted lock
      → a.get ≡ get_error
      → ((t : Timer) → In t m.timers → t.lock.lock_path ≢ lock.lock_path)
      → ¬ Inv (lock_and_get identity d mode a m).1
  unfolding lock_and_get
  get_error_breaks-Inv context_name mode lock named identified locked failing unknown inv =
      let inv' = rw (named, identified, locked, failing, lock_and_get) at inv in
      let (t, set, e) = inv'.guarded lock.lock_path (inl refl) in unknown t set e

  -- The owner of a write lock saves, and `a_set` fails: the control entry and its hold timer are gone
  -- and the lock is still held, so the invariant does not hold behind it. (The hold timer was the
  -- only one for that lock.)
  pub set_error_breaks-Inv :
      (content : String) (e : Entry)
      → check_field d.request_id ≡ some request_id
      → check_field d.context_content ≡ some content
      → buffer_of d.context_content ≡ some content
      → Dict.get (control_key identity request_id) m.control_map ≡ some e
      → e.lock_mode ≡ write
      → a.set_ok ≡ false
      → In e.lock.lock_path m.locks
      → ((t : Timer) → In t m.timers → t.lock.lock_path ≡ e.lock.lock_path → e.timer ≡ t.id)
      → ¬ Inv (save_and_unlock identity d a m).1
  unfolding save_and_unlock
  set_error_breaks-Inv content e identified given buffered found mode failing held only inv =
      let inv' = rw (identified, given, found, mode, buffered, failing, save_and_unlock) at inv in
      let (t, set, same) = inv'.guarded e.lock.lock_path held in
      let (set', d') = In-clear_timeout e.timer t m.timers set in d' (only t set' same)

  -- The owner of a write lock saves a content that passes the check and that `Buffer.from` refuses: the
  -- control entry and its hold timer are gone and the lock is still held, so the invariant does not
  -- hold behind it. (The hold timer was the only one for that lock.)
  pub buffer_error_breaks-Inv :
      (rendered : String) (e : Entry)
      → check_field d.request_id ≡ some request_id
      → check_field d.context_content ≡ some rendered
      → buffer_of d.context_content ≡ none
      → Dict.get (control_key identity request_id) m.control_map ≡ some e
      → e.lock_mode ≡ write
      → In e.lock.lock_path m.locks
      → ((t : Timer) → In t m.timers → t.lock.lock_path ≡ e.lock.lock_path → e.timer ≡ t.id)
      → ¬ Inv (save_and_unlock identity d a m).1
  unfolding save_and_unlock
  buffer_error_breaks-Inv rendered e identified given refusing found mode held only inv =
      let inv' = rw (identified, given, found, mode, refusing, save_and_unlock) at inv in
      let (t, set, same) = inv'.guarded e.lock.lock_path held in
      let (set', d') = In-clear_timeout e.timer t m.timers set in d' (only t set' same)
