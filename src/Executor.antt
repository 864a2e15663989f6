-- ===== src/Executor.antt =====
-- orchestrator/executor.js: a task runs a node's handler, and its results go to the next hops. The
-- messages, the handlers and the producer are parameters.
pub mod Tasks
pub mod Journeys
pub mod Started
mod Tests
use flowbroker.Prelude.{ℕ, String, Bool, true, false, Option, none, some, List, [], ◌∷◌, ◌++◌}
use flowbroker.Prelude.Dict
use flowbroker.Prelude.Dict.{Dict}

-- A node of `nodeMap`; `kind` is its `type`.
pub record HopNode : Type 0 where
  pub id : String
  pub kind : Option String
  pub wires : Option (List (List String))

-- The metadata of a task.
pub record Metadata : Type 0 where
  pub tenant : String
  pub originator : String

-- A flow as a task carries it.
pub record TaskFlow : Type 0 where
  pub id : String
  pub node_map : Dict HopNode

module _ (M : Type 0) where
  -- A task of the queue.
  pub record HopEvent : Type 0 where
    pub hop : String
    pub message : M
    pub flow : TaskFlow
    pub metadata : Metadata

  -- What the call of `handleMessage` comes to, raced with the timer: a resolved result (`none` for
  -- undefined), a rejection, the timeout, or an exception of the call itself.
  pub data Handled : Type 0 where
    resolved : Option (List (Option M)) → Handled
    rejected timed_out threw : Handled

  -- What `hop` does: the tasks that it gives to the producer, its calls of `ack`, and whether it
  -- throws.
  pub record Hopped : Type 0 where
    pub tasks : List HopEvent
    pub acks : ℕ
    pub raised : Bool

module _ {M : Type 0} where
  abbrev acknowledged : List (HopEvent M) → Hopped M
  acknowledged tasks = record { tasks = tasks; acks = 1; raised = false }

  abbrev raises : Hopped M
  raises = record { tasks = []; acks = 0; raised = true }

  -- The inner loop, over the hops of one output.
  send_hops : HopEvent M → M → List String → List (HopEvent M)
  send_hops event new_event [] = []
  send_hops event new_event (hop ∷ hops) =
      record event { hop = hop; message = new_event } ∷ send_hops event new_event hops

  -- The loop over the outputs, with the results that are left.
  pub send_outputs : HopEvent M → List (List String) → List (Option M) → List (HopEvent M)
  send_outputs event [] results = []
  send_outputs event (output ∷ outputs) [] = []
  send_outputs event (output ∷ outputs) (none ∷ results) = send_outputs event outputs results
  send_outputs event (output ∷ outputs) (some new_event ∷ results) =
      send_hops event new_event output ++ send_outputs event outputs results

  -- What is behind the handler's promise. A node without wires and a result that is undefined throw
  -- in the `then`, which the `catch` acknowledges.
  unfoldable pub send_result : HopEvent M → HopNode → Option (List (Option M)) → Hopped M
  unfolding send_hops send_outputs
  send_result event at result = elim at.wires [
    | none ↦ acknowledged []
    | some wires ↦ elim result [
      | none ↦ acknowledged []
      | some results ↦ acknowledged (send_outputs event wires results)
    ]
  ]

  unfoldable pub finish_hop : HopEvent M → HopNode → Handled M → Hopped M
  unfolding send_result
  finish_hop event at (resolved result) = send_result event at result
  finish_hop event at rejected = acknowledged []
  finish_hop event at timed_out = acknowledged []
  finish_hop event at threw = raises

  -- `hop`, for a task that is JSON or not. `get_node` finds the handler of a type for a tenant.
  unfoldable pub hop :
      (String → String → Option (HopNode → M → Handled M)) → Option (HopEvent M) → Hopped M
  unfolding finish_hop
  hop get_node none = acknowledged []
  hop get_node (some event) = elim (Dict.get event.hop event.flow.node_map) [
    | none ↦ raises
    | some at ↦ elim at.kind [
      | none ↦ acknowledged []
      | some kind ↦ elim (get_node kind event.metadata.tenant) [
        | none ↦ acknowledged []
        | some handle_message ↦ finish_hop event at (handle_message at event.message)
      ]
    ]
  ]
