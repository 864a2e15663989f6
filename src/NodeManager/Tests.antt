-- ===== src/NodeManager/Tests.antt =====
-- The theorems about the node manager at one tenant and a remote node.
use flowbroker.Prelude.{
  String, ◌≡◌, ◌≢◌, refl, sym, ap, inl, inr, false≢true, true, false, none, some, [], ◌∷◌, ◌==◌,
  if◌then◌else◌,
}
use flowbroker.Prelude.Dict
use flowbroker.NodeManager.{
  local, remote, Managed, resolved, rejected, not_initiated, del_remote_node, AddAnswers,
  add_remote_node, get_node,
}
use flowbroker.NodeManager.Leaks.{add_remote_node-leaks}
use flowbroker.NodeManager.Start.{docker, Stored, own_nodes, tenant_added, add_tenant}
use flowbroker.NodeManager.Start.Handlers.{IsForeign, handler_of}
use flowbroker.NodeManager.Start.Registered.{add_tenant-registers}

abbrev start : Managed
start = record {
  nodes = ("admin", ("switch", local) ∷ []) ∷ [];
  collection = ("admin", []) ∷ [];
  containers = [];
}

abbrev works : AddAnswers
works = record {
  created = some "c1";
  init_ok = true;
  name = "kelvin";
  inserted = true;
  cleanup = record { removed = true; deleted = true };
}

abbrev fails : AddAnswers
fails = record works { init_ok = false }

fails_at_init : (add_remote_node "kelvin" "admin" fails start).0 ≡ rejected not_initiated
unfolding add_remote_node Dict.get
fails_at_init = refl

handlers_found : Dict.get "admin" start.nodes ≡ some (("switch", local) ∷ [])
unfolding Dict.get
handlers_found = refl

stored_found : Dict.get "admin" start.collection ≡ some []
unfolding Dict.get
stored_found = refl

kelvin_is_new : Dict.get "kelvin" (("switch", local) ∷ []) ≡ none
unfolding Dict.get
kelvin_is_new = refl

add_remote_node-leaks_example :
    ((add_remote_node "kelvin" "admin" fails start).1.containers ≡ "c1" ∷ [])
    × ((add_remote_node "kelvin" "admin" fails start).1.collection ≡ start.collection)
    × (get_node "kelvin" "admin" (add_remote_node "kelvin" "admin" fails start).1 ≡ (
        if fails.init_ok
        then (if "kelvin" == fails.name then some (remote "c1") else none)
        else none))
add_remote_node-leaks_example =
    add_remote_node-leaks "kelvin" "admin" fails start "c1" not_initiated
      (record {
        handlers = ("switch", local) ∷ [];
        stored = [];
        known = handlers_found;
        opened = stored_found;
        new = kelvin_is_new;
        created = refl;
      })
      fails_at_init

-- A stored node whose `init` fails, and one that is not created.
abbrev stored_kelvin : Stored
stored_kelvin = record {
  id = "kelvin";
  container_id = "c0";
  removed = true;
  created = some "c1";
  init_ok = false;
  updated = true;
  cleanup = record { removed = true; deleted = true };
}

abbrev stored_level : Stored
stored_level = record stored_kelvin { id = "level"; container_id = "c2"; created = none }

empty_manager : Managed
empty_manager = record { nodes = []; collection = []; containers = "c0" ∷ "c2" ∷ [] }

kelvin≢level : ◌≢◌ {A = String} "kelvin" "level"
kelvin≢level e = false≢true (sym (ap (λ s. s == "kelvin") e))

c1-IsForeign : IsForeign ("kelvin" ∷ "level" ∷ []) "c1"
unfolding Dict.get
c1-IsForeign = (
  λ i. elim i [
    | inl e ↦ false≢true (ap (λ s. s == "kelvin") e)
    | inr (inl e) ↦ false≢true (ap (λ s. s == "level") e)
    | inr (inr none_left) ↦ elim none_left [ ]
  ],
  refl,
)

add_tenant-registers_example :
    ((add_tenant docker "admin" true
        ("kelvin" ∷ "level" ∷ [])
        (some (stored_kelvin ∷ stored_level ∷ []))
        empty_manager).0
      ≡ tenant_added)
    × (get_node "kelvin" "admin"
          (add_tenant docker "admin" true
            ("kelvin" ∷ "level" ∷ [])
            (some (stored_kelvin ∷ stored_level ∷ []))
            empty_manager).1
        ≡ handler_of (some "c1") (Dict.get "kelvin" own_nodes))
add_tenant-registers_example =
    add_tenant-registers docker "admin" ("kelvin" ∷ "level" ∷ [])
      (stored_kelvin ∷ stored_level ∷ []) empty_manager stored_kelvin
      (λ i. elim i [ inl e ↦ kelvin≢level e | inr j ↦ elim j [ ] ], (λ i. absurd i, tt))
      (c1-IsForeign, (tt, tt)) (inl refl)

-- A node that was added and removed leaves nothing.
round_trip :
    (del_remote_node "kelvin"
      (some "admin")
      (record { removed = true; deleted = true })
      (add_remote_node "kelvin" "admin" works start).1)
    ≡ (resolved, start)
unfolding add_remote_node del_remote_node Dict.get Dict.put Dict.remove
round_trip = refl
