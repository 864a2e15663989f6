-- ===== src/Amqp.antt =====
-- orchestrator/amqp.js: the producer's connection to the broker. Connections and channels are numbers,
-- and what the broker answers is an argument. What runs between two waits for the network or for a
-- timer is one step.
pub mod Worlds
pub mod Alive
pub mod Consumer
pub mod Backoff
mod Tests
use flowbroker.Prelude.{
  ℕ, suc, Bool, true, false, Option, none, some, List, [], ◌∷◌, ◌^◌, ◌||◌, ltb, leb, nat_eq,
  if◌then◌else◌,
}

-- A number of the configuration: the default, or the decimal text of an environment variable.
pub data Setting : Type 0 where
  number : ℕ → Setting
  text : ℕ → Setting

-- The number that arithmetic and `>=` read.
abbrev pub numeric : Setting → ℕ
numeric (number n) = n
numeric (text n) = n

abbrev pub truthy : Setting → Bool
truthy (number n) = ltb 0 n
truthy (text n) = true

-- The fields that change, and the two bounds of the configuration.
pub record Link : Type 0 where
  pub connection : Option ℕ
  pub channel : Option ℕ
  pub channel_disconnecting : Bool
  pub connection_disconnecting : Bool
  pub max_time : Setting
  pub actual_time : Setting
  pub initial_time : Setting
  pub current_number : ℕ

-- The constructor, with the two settings of the configuration.
abbrev pub new_link : Setting → Setting → Link
new_link max_time initial_time = record {
  connection = none;
  channel = none;
  channel_disconnecting = false;
  connection_disconnecting = false;
  max_time = max_time;
  actual_time = initial_time;
  initial_time = initial_time;
  current_number = 0;
}

-- What the code waits for: a connection, a channel of a connection, the assertion of the queue, or the
-- seconds before another try.
pub data Pending : Type 0 where
  connecting : Pending
  opening : ℕ → Pending
  asserting : ℕ → Pending
  waiting : ℕ → Pending

pub data BrokerAnswer : Type 0 where
  answered : ℕ → BrokerAnswer
  failed : BrokerAnswer

pub data PromiseEnd : Type 0 where
  resolved rejected : PromiseEnd

pub data Closing : Type 0 where
  close_channel : ℕ → Closing
  close_connection : ℕ → Closing

-- What a step comes to: what it closes, the tasks that it starts, and the call of resolve or reject for
-- the promise of the `connect` that it belongs to, if it makes one.
pub record Ran : Type 0 where
  pub link : Link
  pub closes : List Closing
  pub tasks : List Pending
  pub promise : Option PromiseEnd

abbrev pub ends : Link → Option PromiseEnd → Ran
ends l p = record { link = l; closes = []; tasks = []; promise = p }

abbrev pub starts : Link → Pending → Option PromiseEnd → Ran
starts l t p = record { link = l; closes = []; tasks = t ∷ []; promise = p }

-- The `=== 1` test, which a text never passes.
abbrev pub at_least_two : Setting → Setting
at_least_two (number n) = number (if nat_eq n 1 then 2 else n)
at_least_two (text n) = text n

-- The time of the next try, not above the maximum.
unfoldable pub next_time : Link → Setting
next_time l =
    let exponential_value = numeric l.initial_time ^ l.current_number in
    if leb (numeric l.max_time) exponential_value then l.max_time else number exponential_value

unfoldable pub with_time : Link → Link
with_time l =
    let l' = record l { initial_time = at_least_two l.initial_time } in
    record l' { actual_time = next_time l' }

abbrev pub lost : Link → Link
lost l = record l { connection = none; channel = none }

abbrev pub counted : Link → Link
counted l = record l { current_number = suc l.current_number }

-- The queue is asserted: the tries start over.
abbrev pub restarted : Setting → Link → Link
restarted configured l = record l { current_number = 0; actual_time = configured }

-- The configured initial time, and whether the close of a channel throws.
module _ (configured : Setting) (close_throws : ℕ → Bool) where
  -- disconnect, from the flags that are set to those that are cleared. It leaves the fields to the
  -- connection's `close` event.
  unfoldable pub disconnect : Link → Link × List Closing
  disconnect l = elim l.connection [
    | none ↦ (l, [])
    | some c ↦ elim l.channel [
      | none ↦ (l, [])
      | some ch ↦ (
        record l { channel_disconnecting = false; connection_disconnecting = false },
        if close_throws ch then [] else close_channel ch ∷ close_connection c ∷ [],
      )
    ]
  ]

  -- reconnect, up to its wait. Its promise is never resolved.
  unfoldable pub reconnect : Link → Ran
  reconnect l =
      if truthy l.initial_time
      then record {
        link = (disconnect (with_time l)).0;
        closes = (disconnect (with_time l)).1;
        tasks = waiting (numeric (with_time l).actual_time) ∷ [];
        promise = none;
      }
      else ends l (some rejected)

  -- connect, up to the broker's answer.
  unfoldable pub connect : Link → Ran
  connect l =
      if l.channel_disconnecting || l.connection_disconnecting
      then ends l (some resolved)
      else starts l connecting none

  -- The code behind each wait, with the broker's answer; the rejection behind a failed assertion is
  -- nobody's.
  unfoldable pub resume : Pending → BrokerAnswer → Link → Ran
  resume connecting (answered c) l = starts (record l { connection = some c }) (opening c) none
  resume connecting failed l = reconnect (counted (lost l))
  resume (opening c) (answered ch) l =
      starts (record l { channel = some ch }) (asserting ch) (some resolved)
  resume (opening c) failed l = reconnect (counted (lost l))
  resume (asserting ch) (answered q) l = ends (restarted configured l) none
  resume (asserting ch) failed l = ends l none
  resume (waiting d) a l = connect l

  -- The `error` event of a connection.
  unfoldable pub on_error : Link → Ran
  on_error l = reconnect (counted (lost l))

  -- The `close` event of a connection.
  unfoldable pub on_close : Link → Ran
  on_close l = connect (lost l)

-- What sendMessage comes to: an answer that is no call of the broker, or the message and its priority
-- given to the channel.
pub data Sending (B : Type 0) : Type 0 where
  not_ready : Sending B
  not_connected : Sending B
  to_queue : ℕ → B → ℕ → Sending B

-- sendMessage, up to the broker's answer.
unfoldable pub send_message : {B : Type 0} → B → ℕ → Link → Sending B
send_message buffer priority l = elim l.channel [
  | none ↦ not_ready
  | some ch ↦ elim l.connection [ none ↦ not_connected | some c ↦ to_queue ch buffer priority ]
]
