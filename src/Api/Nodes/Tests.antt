-- ===== src/Api/Nodes/Tests.antt =====
-- The node routes at one tenant and a remote node.
use flowbroker.Prelude.{
  String, ◌≡◌, refl, inl, inr, true, false, some, List, [], ◌∷◌, ◌==◌, Bool-cases, some-inj,
  none≢some,
}
use flowbroker.Prelude.Dict
use flowbroker.NodeManager.{local, Managed, AddAnswers}
use flowbroker.NodeManager.Consistency.{Consistent}
use flowbroker.Api.Nodes.{NodeRequest, post_node_request, delete_node_request, delete_nodes_request}
use flowbroker.Api.Nodes.Runs.{serve_nodes, serve_nodes-Consistent}

abbrev start : Managed
start = record {
  nodes = ("admin", ("switch", local) ∷ []) ∷ [];
  collection = ("admin", []) ∷ [];
  containers = [];
}

abbrev works : AddAnswers
works = record {
  created = some "c1";
  init_ok = true;
  name = "kelvin";
  inserted = true;
  cleanup = record { removed = true; deleted = true };
}

nothing_stored :
    (tenant : String) (stored : List String)
    → Dict.get tenant start.collection ≡ some stored
    → [] ≡ stored
unfolding Dict.get
nothing_stored tenant stored h = elim (Bool-cases ("admin" == tenant)) [
  | inl e ↦ some-inj (rw e at h)
  | inr e ↦ absurd (none≢some (rw e at h))
]

start-Consistent : Consistent start
start-Consistent = record {
  registered = λ tenant id stored h i. absurd (rw (← nothing_stored tenant stored h) at i);
  once = λ tenant stored h. rw (← nothing_stored tenant stored h) tt;
}

abbrev requests : List (String × NodeRequest)
requests =
    ("admin", post_node_request (some "kelvin") works)
    ∷ (
      "admin",
      post_node_request (some "celsius") (record works { created = some "c2"; name = "celsius" }),
    )
    ∷ ("admin", delete_node_request "kelvin" (record { removed = false; deleted = true }))
    ∷ ("admin", delete_nodes_request true (λ id. record { removed = true; deleted = true }))
    ∷ []

serve_nodes-Consistent_example : Consistent (serve_nodes requests start)
serve_nodes-Consistent_example =
    serve_nodes-Consistent requests start (tt, (tt, (refl, ((λ id. refl), tt)))) start-Consistent
