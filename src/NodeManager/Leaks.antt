-- ===== src/NodeManager/Leaks.antt =====
-- What a failed addRemoteNode leaves behind.
use flowbroker.Prelude.{
  String, ◌≡◌, refl, inl, inr, none, some, List, ◌∷◌, ◌==◌, Bool-cases, if◌then◌else◌,
}
use flowbroker.Prelude.Dict
use flowbroker.Prelude.Dict.{Dict, get-put_self}
use flowbroker.NodeManager.{
  Handler, remote, Managed, Reason, resolved, rejected, del_remote_node, AddAnswers, register,
  start_node, add_remote_node, get_node,
}

resolved≢rejected : {r : Reason} → resolved ≡ rejected r → ⊥
resolved≢rejected h = cc

-- A call that gets as far as a container, for a tenant that is set up.
pub record Creates (id tenant : String) (a : AddAnswers) (m : Managed) (container : String)
    : Type 0 where
  pub handlers : Dict Handler
  pub stored : List String
  pub known : Dict.get tenant m.nodes ≡ some handlers
  pub opened : Dict.get tenant m.collection ≡ some stored
  pub new : Dict.get id handlers ≡ none
  pub created : a.created ≡ some container

start_node-leaks :
    (id tenant : String) (a : AddAnswers) (m : Managed) (container : String) (reason : Reason)
    (handlers : Dict Handler) (stored : List String)
    → Dict.get tenant m.nodes ≡ some handlers
    → Dict.get tenant m.collection ≡ some stored
    → Dict.get id handlers ≡ none
    → (start_node id tenant container handlers a m).0 ≡ rejected reason
    → ((start_node id tenant container handlers a m).1.containers ≡ m.containers)
      × ((start_node id tenant container handlers a m).1.collection ≡ m.collection)
      × (get_node id tenant (start_node id tenant container handlers a m).1
          ≡ (if a.init_ok then (if id == a.name then some (remote container) else none) else none))
unfolding start_node get_node
start_node-leaks id tenant a m container reason handlers stored known opened new failed =
    elim (Bool-cases a.init_ok) [
      | inr i ↦ rw (i, start_node) (refl, refl, rw (known, get_node) new)
      | inl i ↦ elim (Bool-cases (id == a.name)) [
        | inr n ↦
            rw (i, n, start_node)
              (rw (opened, known, new, del_remote_node) (refl, refl, rw (known, get_node) new))
        | inl n ↦ elim (Bool-cases a.inserted) [
          | inl done ↦
              absurd (resolved≢rejected (rw (i, n, opened, done, start_node, register) at failed))
          | inr lost ↦
              rw (i, n, opened, lost, start_node, register)
                (
                  refl,
                  refl,
                  rw (get-put_self tenant _ m.nodes, get_node) (get-put_self id _ handlers),
                )
        ]
      ]
    ]

-- Every call that creates a container and is rejected leaves the container running and stores nothing,
-- whatever the cleanup could do: the cleanup never finds what it is to remove. The node is still
-- registered exactly if it was the insertion that failed.
pub add_remote_node-leaks :
    (id tenant : String) (a : AddAnswers) (m : Managed) (container : String) (reason : Reason)
    → Creates id tenant a m container
    → (add_remote_node id tenant a m).0 ≡ rejected reason
    → ((add_remote_node id tenant a m).1.containers ≡ container ∷ m.containers)
      × ((add_remote_node id tenant a m).1.collection ≡ m.collection)
      × (get_node id tenant (add_remote_node id tenant a m).1
          ≡ (if a.init_ok then (if id == a.name then some (remote container) else none) else none))
unfolding add_remote_node
add_remote_node-leaks id tenant a m container reason c failed =
    rw (c.known, c.new, c.created, add_remote_node)
      (start_node-leaks id tenant a (record m { containers = container ∷ m.containers }) container
        reason c.handlers c.stored c.known c.opened c.new
        (rw (c.known, c.new, c.created, add_remote_node) at failed))
