-- ===== src/Amqp/Consumer.antt =====
-- orchestrator/amqp.js: the consumer's connection. Its methods are those of the producer, but for a
-- `connect` that asks no flag, and for the queue, from which it consumes behind one wait more.
use flowbroker.Prelude.{ℕ, Bool, false, Option, none, some, List, [], ◌∷◌, if◌then◌else◌}
use flowbroker.Amqp.{
  Setting, numeric, truthy, Link, BrokerAnswer, answered, failed, PromiseEnd, resolved, rejected,
  Closing, close_channel, close_connection, with_time, lost, counted, restarted,
}

-- What the consumer waits for; `consuming` is the answer to `channel.consume`.
pub data Pending : Type 0 where
  connecting : Pending
  opening : ℕ → Pending
  asserting : ℕ → Pending
  consuming : ℕ → Pending
  waiting : ℕ → Pending

-- As the producer's `Ran`, with these waits.
pub record Ran : Type 0 where
  pub link : Link
  pub closes : List Closing
  pub tasks : List Pending
  pub promise : Option PromiseEnd

module _ (configured : Setting) (close_throws : ℕ → Bool) where
  -- AMQPConsumer.disconnect, as the producer's.
  unfoldable pub disconnect : Link → Link × List Closing
  disconnect l = elim l.connection [
    | none ↦ (l, [])
    | some c ↦ elim l.channel [
      | none ↦ (l, [])
      | some ch ↦ (
        record l { channel_disconnecting = false; connection_disconnecting = false },
        if close_throws ch then [] else close_channel ch ∷ close_connection c ∷ [],
      )
    ]
  ]

  -- AMQPConsumer.reconnect, up to its wait.
  unfoldable pub reconnect : Link → Ran
  reconnect l =
      if truthy l.initial_time
      then record {
        link = (disconnect (with_time l)).0;
        closes = (disconnect (with_time l)).1;
        tasks = waiting (numeric (with_time l).actual_time) ∷ [];
        promise = none;
      }
      else record { link = l; closes = []; tasks = []; promise = some rejected }

  -- AMQPConsumer.connect, up to the broker's answer.
  unfoldable pub connect : Link → Ran
  connect l = record { link = l; closes = []; tasks = connecting ∷ []; promise = none }

  -- The code behind each wait. Behind the assertion of the queue the channel consumes, and the tries
  -- start over behind the answer to that. A rejection behind a failed assertion or `consume` is nobody's.
  unfoldable pub resume : Pending → BrokerAnswer → Link → Ran
  resume connecting (answered c) l = record {
    link = record l { connection = some c };
    closes = [];
    tasks = opening c ∷ [];
    promise = none;
  }
  resume connecting failed l = reconnect (counted (lost l))
  resume (opening c) (answered ch) l = record {
    link = record l { channel = some ch };
    closes = [];
    tasks = asserting ch ∷ [];
    promise = some resolved;
  }
  resume (opening c) failed l = reconnect (counted (lost l))
  resume (asserting ch) (answered q) l = record {
    link = l;
    closes = [];
    tasks = consuming ch ∷ [];
    promise = none;
  }
  resume (asserting ch) failed l = record { link = l; closes = []; tasks = []; promise = none }
  resume (consuming ch) (answered tag) l = record {
    link = restarted configured l;
    closes = [];
    tasks = [];
    promise = none;
  }
  resume (consuming ch) failed l = record { link = l; closes = []; tasks = []; promise = none }
  resume (waiting d) a l = connect l

  -- The `error` event of a connection.
  unfoldable pub on_error : Link → Ran
  on_error l = reconnect (counted (lost l))

  -- The `close` event of a connection.
  unfoldable pub on_close : Link → Ran
  on_close l = connect (lost l)
