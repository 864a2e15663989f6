-- ===== src/NodeManager/Start.antt =====
-- orchestrator/nodeManager.js: a tenant's start, with the remote nodes that are stored for it. Each stored
-- node is loaded to its end before the next. What addTenant does at once comes first, since each load first
-- waits for the engine.
pub mod Handlers
pub mod Registered
use flowbroker.Prelude.{
  String, Bool, true, false, Option, none, some, List, [], ◌∷◌, map, ◌==◌, if◌then◌else◌,
}
use flowbroker.Prelude.Dict
use flowbroker.Prelude.Dict.{Dict}
use flowbroker.NodeManager.{
  Handler, local, remote, Managed, Outcome, resolved, hangs, rejected, without, DelAnswers,
  del_remote_node,
}

pub data Engine : Type 0 where
  docker kubernetes : Engine

-- A stored node, with what happens to it: is its old container removed, what does `create` resolve with,
-- do `init` and the update of the entry work? `cleanup` is for delRemoteNode.
pub record Stored : Type 0 where
  pub id : String
  pub container_id : String
  pub removed : Bool
  pub created : Option String
  pub init_ok : Bool
  pub updated : Bool
  pub cleanup : DelAnswers

-- What a load comes to; `load_hangs` where the rollback is never settled.
pub data Load : Type 0 where
  loaded load_failed load_hangs : Load

abbrev pub after_rollback : Outcome → Load
after_rollback hangs = load_hangs
after_rollback resolved = load_failed
after_rollback (rejected r) = load_failed

-- The `catch`, with a container's id, if it is not empty: delRemoteNode is called with it as the node's.
unfoldable pub roll_back : String → String → Stored → Managed → Load × Managed
unfolding del_remote_node
roll_back tenant container item m =
    let answer = del_remote_node container (some tenant) item.cleanup m in
    if container == "" then (load_failed, m) else (after_rollback answer.0, answer.1)

-- Only the engine of Docker removes the old container.
unfoldable pub remove_old : Engine → Stored → Managed → Managed
unfolding without
remove_old docker item m =
    if item.removed then record m { containers = without item.container_id m.containers } else m
remove_old kubernetes item m = m

-- Behind `create`. Without nodes of the tenant, the assignment throws.
unfoldable pub load_container : String → String → Stored → Managed → Load × Managed
unfolding roll_back
load_container tenant container item m = elim (Dict.get tenant m.nodes) [
  | none ↦ roll_back tenant container item m
  | some handlers ↦
      let set : Managed = record m {
        nodes = Dict.put tenant (Dict.put item.id (remote container) handlers) m.nodes;
      } in
      if item.init_ok
      then (if item.updated then (loaded, set) else roll_back tenant container item set)
      else roll_back tenant container item set
]

-- One round of _loadRemoteNodes.
unfoldable pub load_remote_node : Engine → String → Stored → Managed → Load × Managed
unfolding remove_old load_container
load_remote_node engine tenant item m =
    let m1 = remove_old engine item m in
    elim item.created [
      | none ↦ (load_failed, m1)
      | some container ↦
          load_container tenant container item
            (record m1 { containers = container ∷ m1.containers })
    ]

-- _loadRemoteNodes, which resolves before the rounds end: a rejection in them is without effect.
unfoldable pub load_remote_nodes : Engine → String → List Stored → Managed → Managed
unfolding load_remote_node
load_remote_nodes engine tenant [] m = m
load_remote_nodes engine tenant (item ∷ items) m =
    load_remote_nodes engine tenant items (load_remote_node engine tenant item m).1

-- The orchestrator's own nodes.
abbrev pub own_names : List String
own_names =
    "change" ∷ "geofence" ∷ "http" ∷ "ftp" ∷ "switch" ∷ "template" ∷ "event device in" ∷ "device in"
    ∷ "device out" ∷ "multi device out" ∷ "publish-ftp" ∷ "notification" ∷ "event template in"
    ∷ "device template in" ∷ "actuate" ∷ "multi actuate" ∷ "get context" ∷ "cron" ∷ "cron-batch"
    ∷ "cumulative sum" ∷ "merge data" ∷ []

abbrev pub own_nodes : Dict Handler
own_nodes = map (λ name. (name, local)) own_names

-- What addTenant rejects with: no collection, or no list of the stored nodes.
pub data TenantEnd : Type 0 where
  tenant_added no_collection not_listed : TenantEnd

abbrev pub ids_of : List Stored → List String
ids_of [] = []
ids_of (item ∷ items) = item.id ∷ ids_of items

-- addTenant; `found` is what the database lists for the tenant, and `stored` its entries.
unfoldable pub add_tenant :
    Engine → String → Bool → List String → Option (List Stored) → Managed → TenantEnd × Managed
unfolding load_remote_nodes
add_tenant engine tenant opened stored found m =
    let with_collection : Managed = record m { collection = Dict.put tenant stored m.collection } in
    if opened
    then (elim found [
      | none ↦ (not_listed, with_collection)
      | some items ↦ (
        tenant_added,
        load_remote_nodes engine tenant items
            (record with_collection { nodes = Dict.put tenant own_nodes m.nodes }),
      )
    ])
    else (no_collection, m)
