-- ===== src/Amqp/Worlds.antt =====
-- Runs of the producer of orchestrator/amqp.js: what it waits for, and its steps.
use flowbroker.Prelude.{ℕ, Bool, true, false, List, [], ◌∷◌, ◌++◌}
use flowbroker.Amqp.{
  Setting, Link, new_link, Pending, connecting, opening, asserting, waiting, BrokerAnswer, Ran,
  connect, resume, on_error, on_close,
}

abbrev pub retries : Pending → Bool
retries connecting = true
retries (waiting d) = true
retries (opening c) = false
retries (asserting ch) = false

abbrev pub opens : Pending → Bool
opens (opening c) = true
opens connecting = false
opens (waiting d) = false
opens (asserting ch) = false

-- The link and what it waits for.
pub record World : Type 0 where
  pub link : Link
  pub tasks : List Pending

abbrev pub after : Ran → List Pending → World
after r ts = record { link = r.link; tasks = ts ++ r.tasks }

module _ (configured : Setting) (close_throws : ℕ → Bool) where
  -- A wait ends, an event of a connection, or a call of `connect`.
  pub data Step : World → World → Type 0 where
    resumes :
        (l : Link) (ts : List Pending) (t : Pending) (us : List Pending) (a : BrokerAnswer)
        → Step
            (record { link = l; tasks = ts ++ t ∷ us })
            (after (resume configured close_throws t a l) (ts ++ us))
    errors : (w : World) → Step w (after (on_error configured close_throws w.link) w.tasks)
    closes : (w : World) → Step w (after (on_close configured close_throws w.link) w.tasks)
    calls : (w : World) → Step w (after (connect configured close_throws w.link) w.tasks)

  pub data Reached (max : Setting) : World → Type 0 where
    begin : Reached max (record { link = new_link max configured; tasks = connecting ∷ [] })
    next : (v w : World) → Reached max v → Step v w → Reached max w
