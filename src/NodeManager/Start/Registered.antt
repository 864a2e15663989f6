-- ===== src/NodeManager/Start/Registered.antt =====
-- Which stored nodes are registered behind a tenant's start.
use flowbroker.Prelude.{
  String, ◌≡◌, refl, sym, subst, inl, inr, true, false, none, some, List, [], ◌∷◌, In, Bool-cases,
  Option-cases, ◌==◌, if◌then◌else◌,
}
use flowbroker.Prelude.Dict
use flowbroker.Prelude.Dict.{Dict, get-put_self, get-put_else}
use flowbroker.Prelude.Dict.Keys.{Distinct}
use flowbroker.NodeManager.{Handler, remote, Managed, del_remote_node, get_node}
use flowbroker.NodeManager.Start.Handlers.{
  with_created, IsForeign, CreatesForeign, AllForeign, handler_of, IsClear, with_created-IsClear,
  all_created, all_created-In,
}
use flowbroker.NodeManager.Start.{
  Engine, docker, kubernetes, Stored, Load, load_failed, loaded, roll_back, remove_old,
  load_container, load_remote_node, load_remote_nodes, own_nodes, tenant_added, ids_of, add_tenant,
}

-- The nodes that are there, of the tenant.
record At (tenant : String) (handlers : Dict Handler) (m : Managed) : Type 0 where
  stored : List String
  opened : Dict.get tenant m.collection ≡ some stored
  known : Dict.get tenant m.nodes ≡ some handlers

module _ (tenant : String) where
  roll_back_lem :
      (container : String) (item : Stored) (handlers : Dict Handler) (m : Managed)
      → At tenant handlers m
      → Dict.get container handlers ≡ none
      → roll_back tenant container item m ≡ (load_failed, m)
  unfolding roll_back del_remote_node
  roll_back_lem container item handlers m at_m missing = elim (Bool-cases (container == "")) [
    | inl e ↦ rw (e, roll_back) refl
    | inr e ↦ rw (e, roll_back) (rw (at_m.opened, at_m.known, missing, del_remote_node) refl)
  ]

  remove_old-At :
      (engine : Engine) (item : Stored) (handlers : Dict Handler) (m : Managed)
      → At tenant handlers m
      → At tenant handlers (remove_old engine item m)
  unfolding remove_old
  remove_old-At kubernetes item handlers m at_m = at_m
  remove_old-At docker item handlers m at_m = elim (Bool-cases item.removed) [
    | inl e ↦
        rw (e, remove_old) record { stored = at_m.stored; opened = at_m.opened; known = at_m.known }
    | inr e ↦ rw (e, remove_old) at_m
  ]

  load_container-At :
      (container : String) (item : Stored) (handlers : Dict Handler) (m : Managed)
      → At tenant handlers m
      → Dict.get container (Dict.put item.id (remote container) handlers) ≡ none
      → At tenant
          (Dict.put item.id (remote container) handlers)
          (load_container tenant container item m).1
  unfolding load_container
  load_container-At container item handlers m at_m missing =
      let handlers' : Dict Handler = Dict.put item.id (remote container) handlers in
      let set : Managed = record m { nodes = Dict.put tenant handlers' m.nodes } in
      let at_set : At tenant handlers' set = record {
        stored = at_m.stored;
        opened = at_m.opened;
        known = get-put_self tenant handlers' m.nodes;
      } in
      let back = roll_back_lem container item handlers' set at_set missing in
      let failed : At tenant handlers' (roll_back tenant container item set).1 =
        subst (λ (r : Load × Managed). At tenant handlers' r.1) (sym back) at_set in
      rw (at_m.known, load_container)
        (elim item.init_ok
          as (λ b.
            At tenant handlers'
              (if b
                then (if item.updated then (loaded, set) else roll_back tenant container item set)
                else roll_back tenant container item set).1) [
                  | false ↦ failed
                  | true ↦
                      elim item.updated
                        as (λ b.
                          At tenant handlers'
                            (if b then (loaded, set) else roll_back tenant container item set).1) [
                              | false ↦ failed
                              | true ↦ at_set
                            ]
                ])

  load_remote_node-At :
      (engine : Engine) (ids : List String) (item : Stored) (handlers : Dict Handler) (m : Managed)
      → At tenant handlers m
      → In item.id ids
      → CreatesForeign ids item.created
      → IsClear ids handlers
      → At tenant
          (with_created item.id item.created handlers)
          (load_remote_node engine tenant item m).1
  unfolding load_remote_node
  load_remote_node-At engine ids item handlers m at_m listed foreign clear =
      let m1 = remove_old engine item m in
      let at_m1 = remove_old-At engine item handlers m at_m in
      elim (Option-cases item.created) [
        | inl e ↦ rw (e, load_remote_node) at_m1
        | inr (container, e) ↦
            let away : IsForeign ids container = rw e at foreign in
            let m2 : Managed = record m1 { containers = container ∷ m1.containers } in
            rw (e, load_remote_node)
              (load_container-At container item handlers m2
                (record { stored = at_m1.stored; opened = at_m1.opened; known = at_m1.known })
                (with_created-IsClear ids item.id (some container) handlers listed clear container
                  away))
      ]

  load_remote_nodes-At :
      (engine : Engine) (ids : List String) (items : List Stored) (handlers : Dict Handler)
      (m : Managed)
      → At tenant handlers m
      → ((x : String) → In x (ids_of items) → In x ids)
      → AllForeign ids items
      → IsClear ids handlers
      → At tenant (all_created items handlers) (load_remote_nodes engine tenant items m)
  unfolding load_remote_nodes all_created
  load_remote_nodes-At engine ids [] handlers m at_m listed foreign clear = at_m
  load_remote_nodes-At engine ids (item ∷ items) handlers m at_m listed (here, rest) clear =
      load_remote_nodes-At engine ids items (with_created item.id item.created handlers)
        (load_remote_node engine tenant item m).1
        (load_remote_node-At engine ids item handlers m at_m (listed item.id (inl refl)) here clear)
        (λ x i. listed x (inr i)) rest
        (with_created-IsClear ids item.id item.created handlers (listed item.id (inl refl)) clear)

-- A tenant is added whose collection is opened and whose stored nodes are listed, with distinct ids; the
-- texts that their creations resolve with name none of these, and none of the orchestrator's own nodes.
-- Behind all loads, with whatever answers: a stored node is registered, with what its creation resolved
-- with, if it was created; else what has its name is an own node, or nothing.
pub add_tenant-registers :
    (engine : Engine) (tenant : String) (stored : List String) (items : List Stored) (m : Managed)
    (item : Stored)
    → Distinct (ids_of items)
    → AllForeign (ids_of items) items
    → In item items
    → ((add_tenant engine tenant true stored (some items) m).0 ≡ tenant_added)
      × (get_node item.id tenant (add_tenant engine tenant true stored (some items) m).1
          ≡ handler_of item.created (Dict.get item.id own_nodes))
unfolding add_tenant get_node
add_tenant-registers engine tenant stored items m item distinct foreign i =
    let with_own : Managed = record m {
      collection = Dict.put tenant stored m.collection;
      nodes = Dict.put tenant own_nodes m.nodes;
    } in
    let behind =
      load_remote_nodes-At tenant engine (ids_of items) items own_nodes with_own
        (record {
          stored = stored;
          opened = get-put_self tenant stored m.collection;
          known = get-put_self tenant own_nodes m.nodes;
        })
        (λ x j. j) foreign (λ c f. f.1) in
    (refl, rw (behind.known, get_node) (all_created-In items own_nodes item distinct i))
