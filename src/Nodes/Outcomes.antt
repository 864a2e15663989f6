-- ===== src/Nodes/Outcomes.antt =====
-- What the promise of a node's handler comes to, as the executor takes it, and handlers that write one
-- field of the message.
use flowbroker.Prelude.{
  String, Bool, true, false, none, some, [], ◌∷◌, ◌≡◌, ◌≢◌, ◌⊎◌, inl, inr, refl, Option-cases,
}
use flowbroker.Prelude.Int.{pos, eq_ℤ}
use flowbroker.Prelude.{not, ◌==◌}
use flowbroker.Json.{Value, null, boolean, num, str, arr, obj, Fields}
use flowbroker.Executor.{Handled, resolved, rejected}
use flowbroker.Nodes.Base.{got, get, set}
use flowbroker.Nodes.Base.Paths.{FirstKey, get-set}

-- `Promise.resolve([message])`
abbrev pub forwarded : Value → Handled Value
forwarded message = resolved (some (some message ∷ []))

pub forwarded-inj : {m m' : Value} → some (forwarded m) ≡ some (forwarded m') → m ≡ m'
forwarded-inj h = cc

-- `Promise.resolve([])`
abbrev pub nothing_sent : Handled Value
nothing_sent = resolved (some [])

-- `this._set(field, value, message); return resolve([message])` with a catch that rejects.
unfoldable pub write_and_forward : String → Value → Value → Handled Value
write_and_forward field value message = elim (set field value message) [
  | none ↦ rejected
  | some message' ↦ forwarded message'
]

-- JavaScript's `!value`, turned round.
abbrev pub truthy_value : Value → Bool
truthy_value null = false
truthy_value (boolean b) = b
truthy_value (num n) = not (eq_ℤ n (pos 0))
truthy_value (str s) = not (s == "")
truthy_value (arr xs fs) = true
truthy_value (obj fs) = true

-- A message that is the one before but for a field that reads as the value, and what shares its first
-- key.
abbrev pub Written : String → Value → Fields → Value → Type 0
Written field value fs message' =
    (get field message' ≡ got value)
    × ((key other other_field : String)
        → FirstKey key field
        → FirstKey other other_field
        → key ≢ other
        → get other_field message' ≡ get other_field (obj fs))

-- The handler rejects, or forwards one message, in which the field is written.
abbrev pub Fills : String → Value → Fields → Handled Value → Type 0
Fills field value fs h =
    (h ≡ rejected)
    ⊎ ((message' : Value) × (h ≡ forwarded message') × Written field value fs message')

pub write_and_forward-Fills :
    (field : String) (value : Value) (fs : Fields)
    → Fills field value fs (write_and_forward field value (obj fs))
unfolding write_and_forward
write_and_forward-Fills field value fs = elim (Option-cases (set field value (obj fs))) [
  | inl e ↦ inl (rw (e, write_and_forward) refl)
  | inr (m, e) ↦ inr (m, rw (e, write_and_forward) refl, get-set field value fs m e)
]
