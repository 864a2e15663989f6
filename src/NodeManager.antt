-- ===== src/NodeManager.antt =====
-- orchestrator/nodeManager.js: the node handlers of each tenant, and the containers of remote nodes.
-- The engine's and the database's answers are arguments; a call runs to its end.
pub mod Consistency
pub mod Leaks
pub mod Lists
pub mod Start
mod Tests
use flowbroker.Prelude.{
  String, Bool, true, false, Option, none, some, List, [], ◌∷◌, ◌==◌, if◌then◌else◌,
}
use flowbroker.Prelude.Dict
use flowbroker.Prelude.Dict.{Dict}

-- A node's handler: one of the orchestrator's own, which has no `deinit`, or a remote one.
pub data Handler : Type 0 where
  local : Handler
  remote : (container : String) → Handler

-- `collection` has the ids that are stored for a tenant; `containers` are those that run.
pub record Managed : Type 0 where
  pub nodes : Dict (Dict Handler)
  pub collection : Dict (List String)
  pub containers : List String

-- The errors of a rejection.
pub data Reason : Type 0 where
  not_initialized already_exists not_found not_created not_initiated wrong_name not_persisted :
      Reason

-- What a promise comes to; `hangs` if an exception keeps it from being settled.
pub data Outcome : Type 0 where
  resolved hangs : Outcome
  rejected : Reason → Outcome

unfoldable pub without : String → List String → List String
without x [] = []
without x (y ∷ ys) = let rest = without x ys in if y == x then rest else y ∷ rest

-- findOneAndDelete: the first entry with the id.
unfoldable pub delete_one : String → List String → List String
delete_one x [] = []
delete_one x (y ∷ ys) = let rest = delete_one x ys in if y == x then ys else y ∷ rest

-- Does the container's removal work, and the removal of the entry?
pub record DelAnswers : Type 0 where
  pub removed : Bool
  pub deleted : Bool

-- The `try` and the `finally` of delRemoteNode, for a remote node. The `catch` of the entry's removal
-- names an undefined variable, so it throws and nothing settles the promise.
unfoldable pub drop_remote :
    String → String → String → Dict Handler → List String → DelAnswers → Managed → Outcome × Managed
unfolding without delete_one
drop_remote id tenant container handlers stored a m =
    let rest : Managed = record m {
      nodes = Dict.put tenant (Dict.remove id handlers) m.nodes;
      containers = if a.removed then without container m.containers else m.containers;
    } in
    if a.deleted
    then (
      resolved,
      record rest { collection = Dict.put tenant (delete_one id stored) m.collection },
    )
    else (hangs, rest)

unfoldable pub drop_handler :
    String
    → String
    → Handler
    → Dict Handler
    → List String
    → DelAnswers
    → Managed
    → Outcome × Managed
unfolding drop_remote
drop_handler id tenant local handlers stored a m = (hangs, m)
drop_handler id tenant (remote container) handlers stored a m =
    drop_remote id tenant container handlers stored a m

-- delRemoteNode; `none` is an undefined tenant. Where the tenant's nodes are not set yet, the async
-- executor throws.
unfoldable pub del_remote_node : String → Option String → DelAnswers → Managed → Outcome × Managed
unfolding drop_handler
del_remote_node id none a m = (rejected not_initialized, m)
del_remote_node id (some tenant) a m = elim (Dict.get tenant m.collection) [
  | none ↦ (rejected not_initialized, m)
  | some stored ↦ elim (Dict.get tenant m.nodes) [
    | none ↦ (hangs, m)
    | some handlers ↦ elim (Dict.get id handlers) [
      | none ↦ (rejected not_found, m)
      | some h ↦ drop_handler id tenant h handlers stored a m
    ]
  ]
]

-- What happens to a new node: is its container created, does `init` work, which name does its
-- metadata give, is the entry inserted? `cleanup` is for the call of delRemoteNode on a failure.
pub record AddAnswers : Type 0 where
  pub created : Option String
  pub init_ok : Bool
  pub name : String
  pub inserted : Bool
  pub cleanup : DelAnswers

-- Behind a working `init`, with the right name: the node is set, and its entry inserted.
unfoldable pub register :
    String → String → String → Dict Handler → AddAnswers → Managed → Outcome × Managed
unfolding del_remote_node
register id tenant container handlers a m =
    let set : Managed = record m {
      nodes = Dict.put tenant (Dict.put id (remote container) handlers) m.nodes;
    } in
    elim (Dict.get tenant m.collection) [
      | none ↦ (hangs, set)
      | some stored ↦
          if a.inserted
          then (resolved, record set { collection = Dict.put tenant (id ∷ stored) m.collection })
          else (rejected not_persisted, (del_remote_node container none a.cleanup set).1)
    ]

-- Behind `create`.
unfoldable pub start_node :
    String → String → String → Dict Handler → AddAnswers → Managed → Outcome × Managed
unfolding register del_remote_node
start_node id tenant container handlers a m =
    if a.init_ok
    then (if id == a.name
        then register id tenant container handlers a m
        else (rejected wrong_name, (del_remote_node id (some tenant) a.cleanup m).1))
    else (rejected not_initiated, (del_remote_node container none a.cleanup m).1)

-- addRemoteNode.
unfoldable pub add_remote_node : String → String → AddAnswers → Managed → Outcome × Managed
unfolding start_node
add_remote_node id tenant a m = elim (Dict.get tenant m.nodes) [
  | none ↦ (rejected not_initialized, m)
  | some handlers ↦ elim (Dict.get id handlers) [
    | some h ↦ (rejected already_exists, m)
    | none ↦ elim a.created [
      | none ↦ (rejected not_created, m)
      | some container ↦
          start_node id tenant container handlers a
            (record m { containers = container ∷ m.containers })
    ]
  ]
]

-- getNode
unfoldable pub get_node : String → String → Managed → Option Handler
get_node id tenant m = elim (Dict.get tenant m.nodes) [
  | none ↦ none
  | some handlers ↦ Dict.get id handlers
]
