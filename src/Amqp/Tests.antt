-- ===== src/Amqp/Tests.antt =====
-- Runs of the connections of orchestrator/amqp.js.
use flowbroker.Prelude.{ℕ, Bool, false, none, some, [], ◌∷◌, ◌++◌, ◌≤◌, ◌≡◌, refl, ◌⊎◌, arith, In}
use flowbroker.Amqp
use flowbroker.Amqp.{
  Setting, number, text, numeric, Link, new_link, Pending, connecting, opening, asserting, waiting,
  BrokerAnswer, answered, failed, on_error, on_close, connect, resume,
}
use flowbroker.Prelude.Pending.{Has}
use flowbroker.Amqp.Worlds.{World, after, resumes, Reached, begin, next}
use flowbroker.Amqp.Alive.{Reached-Serves, Sends, progress}
use flowbroker.Amqp.Backoff.{failed_tries, powers, failed_tries-powers}
use flowbroker.Amqp.Consumer

abbrev never : ℕ → Bool
never ch = false

-- The defaults of config.js.
abbrev fresh : Link
fresh = new_link (number 180) (number 2)

-- The first connection is refused.
abbrev refused : World
refused = after (resume (number 2) never connecting failed fresh) []

refused-Reached : Reached (number 2) never (number 180) refused
refused-Reached =
    next (record { link = fresh; tasks = connecting ∷ [] }) refused begin
      (resumes fresh [] connecting [] failed)

Reached-Serves_example :
    (Sends refused.link ⊎ Has progress refused.tasks)
    × ((d : ℕ) → In (waiting d) refused.tasks → (2 ≤ d) × (d ≤ 180))
Reached-Serves_example =
    Reached-Serves (number 180) (number 2) never refused (omega arith) (omega arith) refused-Reached

-- An initial time of 1 becomes 2, and the third wait meets the maximum.
abbrev impatient : Link
impatient = new_link (number 7) (number 1)

failed_tries-powers_example : failed_tries (number 1) never 4 impatient ≡ powers 2 7 1 4
failed_tries-powers_example = failed_tries-powers (number 1) never 4 impatient refl

powers_run : powers 2 7 1 4 ≡ waiting 2 ∷ waiting 4 ∷ waiting 7 ∷ waiting 7 ∷ []
powers_run = refl

-- A connection fails: its `error` event and its `close` event each start a connection.
abbrev broken : Amqp.Ran
broken = on_error (number 2) never (record fresh { connection = some 1; channel = some 1 })

broken_run :
    broken.tasks ++ (on_close (number 2) never broken.link).tasks ≡ waiting 2 ∷ connecting ∷ []
unfolding on_error on_close Amqp.reconnect Amqp.disconnect Amqp.connect Amqp.with_time
    Amqp.next_time
broken_run = refl

-- The consumer's tries start over behind the answer to `consume`, one wait behind the assertion's.
abbrev tried : Link
tried = record fresh { current_number = 3 }

consumer_assertion :
    Consumer.resume (number 2) never (Consumer.asserting 1) (answered 1) tried
    ≡ record { link = tried; closes = []; tasks = Consumer.consuming 1 ∷ []; promise = none }
unfolding Consumer.resume
consumer_assertion = refl

consumer_consumes :
    (Consumer.resume (number 2) never (Consumer.consuming 1) (answered 1) tried).link ≡ fresh
unfolding Consumer.resume
consumer_consumes = refl
