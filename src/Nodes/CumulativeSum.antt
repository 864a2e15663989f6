-- ===== src/Nodes/CumulativeSum.antt =====
-- The handler of orchestrator/nodes/cumulative-sum/cumulative-sum.js. Values and timestamps are taken
-- to be whole numbers, and the message's attributes to be numbers where they pass for such.
pub mod Window
pub mod Runs
use flowbroker.Prelude.{
  ℕ, zero, suc, ◌*◌, String, Bool, true, false, ◌&&◌, ◌||◌, not, Option, none, some, List, [], ◌∷◌,
  ◌++◌, ◌==◌, drop, length, if◌then◌else◌,
}
use flowbroker.Prelude.Int.{ℤ, pos, ◌+ℤ◌, ◌-ℤ◌, ltb_ℤ, eq_ℤ}
use flowbroker.Json.{Value, num}
use flowbroker.Nodes.Base
use flowbroker.Nodes.Base.{got}

pub record SumEntry : Type 0 where
  pub timestamp : ℤ
  pub value : ℤ

-- `contextContent`; a fresh context has neither field, which reads as a sum of 0.
pub record SumContext : Type 0 where
  pub sum : ℤ
  pub entries : List SumEntry

abbrev pub fresh : SumContext
fresh = record { sum = pos 0; entries = [] }

-- `if (!contextContent.sum)`
unfoldable pub start_over : SumContext → SumContext
start_over c = if eq_ℤ c.sum (pos 0) then fresh else c

-- Is the last entry behind the event?
unfoldable pub is_messy : List SumEntry → ℤ → Bool
is_messy [] now = false
is_messy (e ∷ []) now = ltb_ℤ now e.timestamp
is_messy (e ∷ f ∷ es) now = is_messy (f ∷ es) now

-- The loop: the sum of the entries in front that are below the threshold, and the index to slice at.
unfoldable pub expired : ℤ → List SumEntry → ℤ × ℕ
expired threshold [] = (pos 0, 0)
expired threshold (e ∷ es) =
    let (sum, index) = expired threshold es in
    if ltb_ℤ e.timestamp threshold then (e.value +ℤ sum, suc index) else (pos 0, 0)

-- What the event makes of a context that is not reset, `none` for a messy time.
unfoldable pub add_entry : ℤ → ℤ → ℤ → SumContext → Option SumContext
unfolding is_messy expired
add_entry period now value c =
    let (sum, index) = expired (now -ℤ period) c.entries in
    if is_messy c.entries now
    then none
    else some (record {
      sum = c.sum -ℤ sum +ℤ value;
      entries = drop index (c.entries ++ record { timestamp = now; value = value } ∷ []);
    })

unfoldable pub add_event : ℤ → ℤ → ℤ → SumContext → Option SumContext
unfolding add_entry start_over
add_event period now value context = add_entry period now value (start_over context)

-- The node's configuration; `time_period` is in minutes, `none` if it is missing or no number.
pub record SumConfig : Type 0 where
  pub target_attribute : String
  pub timestamp : String
  pub time_period : Option ℕ
  pub output : String

-- A number other than 0, at a path.
abbrev number_at : String → Value → Option ℤ
number_at path message = elim (Base.get path message) [
  | got v ↦ elim v [ num n ↦ if eq_ℤ n (pos 0) then none else some n | _ ↦ none ]
  | _ ↦ none
]

-- `_isParametersValid`, with what it reads: value, timestamp, and the period in milliseconds.
unfoldable pub valid_parameters : SumConfig → Value → Option (ℤ × ℤ × ℤ)
valid_parameters config message = elim (number_at config.target_attribute message) [
  | none ↦ none
  | some value ↦ elim (number_at config.timestamp message) [
    | none ↦ none
    | some now ↦ elim config.time_period [
      | none ↦ none
      | some zero ↦ none
      | some (suc n) ↦ if config.output == "" then none else some (value, now, pos (suc n * 60000))
    ]
  ]
]

-- What the context handler answers: the context under a write lock, and whether it is saved.
pub record SumAnswers : Type 0 where
  pub locked : Option SumContext
  pub saved : Bool

pub data SumResult : Type 0 where
  rejected : String → SumResult
  resolved : Value → SumResult
  resolved_text : String → SumResult

-- What is sent to be stored, and the result. A failure to save is resolved with a text. An exception
-- of `_set` behind the save is caught by the same `catch`.
unfoldable pub handle_event :
    ℤ × ℤ × ℤ → SumConfig → Value → SumAnswers → Option SumContext × SumResult
unfolding add_event
handle_event (value, now, period) config message a = elim a.locked [
  | none ↦ (none, rejected "Failed to retrieve context.")
  | some context ↦ elim (add_event period now value context) [
    | none ↦ (none, rejected "Failed to retrieve context.")
    | some c ↦ (
      some c,
      if a.saved
          then elim (Base.set config.output (num c.sum) message) [
            | none ↦ resolved_text "Failed to unlock context."
            | some message' ↦ resolved message'
          ]
          else resolved_text "Failed to unlock context.",
    )
  ]
]

unfoldable pub handle_message : SumConfig → Value → SumAnswers → Option SumContext × SumResult
unfolding handle_event valid_parameters
handle_message config message a = elim (valid_parameters config message) [
  | none ↦ (none, rejected "Invalid parameters.")
  | some p ↦ handle_event p config message a
]
