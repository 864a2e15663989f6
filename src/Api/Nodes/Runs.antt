-- ===== src/Api/Nodes/Runs.antt =====
-- What the node routes keep.
use flowbroker.Prelude.{String, ◌≡◌, inl, inr, Bool, true, none, some, List, [], ◌∷◌, Option-cases}
use flowbroker.NodeManager.{Managed, DelAnswers, del_remote_node}
use flowbroker.NodeManager.Consistency.{Consistent}
use flowbroker.NodeManager.Consistency.Operations.{
  add_remote_node-Consistent, del_remote_node-Consistent,
}
use flowbroker.Api.Nodes.{
  NodeRequest, post_node_request, delete_node_request, delete_nodes_request, get_nodes_request,
  serve_node, delete_each, delete_nodes, get_all_nodes,
}

-- The database removes what a request has it remove.
abbrev pub Deletes : NodeRequest → Type 0
Deletes (delete_node_request id a) = a.deleted ≡ true
Deletes (delete_nodes_request ok a) = (id : String) → (a id).deleted ≡ true
Deletes _ = Unit

delete_each-Consistent :
    (tenant : String) (ids : List String) (a : String → DelAnswers) (m : Managed)
    → ((id : String) → (a id).deleted ≡ true)
    → Consistent m
    → Consistent (delete_each tenant ids a m).1
unfolding delete_each
delete_each-Consistent tenant [] a m deletes c = c
delete_each-Consistent tenant (id ∷ ids) a m deletes c =
    delete_each-Consistent tenant ids a (del_remote_node id (some tenant) (a id) m).1 deletes
      (del_remote_node-Consistent id (some tenant) (a id) m (deletes id) c)

delete_nodes-Consistent :
    (tenant : String) (ok : Bool) (a : String → DelAnswers) (m : Managed)
    → ((id : String) → (a id).deleted ≡ true)
    → Consistent m
    → Consistent (delete_nodes tenant ok a m).1
unfolding delete_nodes
delete_nodes-Consistent tenant ok a m deletes c = elim (Option-cases (get_all_nodes tenant ok m)) [
  | inl e ↦ rw (e, delete_nodes) c
  | inr (ids, e) ↦ rw (e, delete_nodes) (delete_each-Consistent tenant ids a m deletes c)
]

serve_node-Consistent :
    (tenant : String) (q : NodeRequest) (m : Managed)
    → Deletes q
    → Consistent m
    → Consistent (serve_node tenant q m).1
unfolding serve_node
serve_node-Consistent tenant (post_node_request none a) m deletes c = c
serve_node-Consistent tenant (post_node_request (some id) a) m deletes c =
    add_remote_node-Consistent id tenant a m c
serve_node-Consistent tenant (delete_node_request id a) m deletes c =
    del_remote_node-Consistent id (some tenant) a m deletes c
serve_node-Consistent tenant (delete_nodes_request ok a) m deletes c =
    delete_nodes-Consistent tenant ok a m deletes c
serve_node-Consistent tenant (get_nodes_request ok) m deletes c = c

-- The requests of some tenants, one behind the other.
unfoldable pub serve_nodes : List (String × NodeRequest) → Managed → Managed
serve_nodes [] m = m
serve_nodes ((tenant, q) ∷ qs) m = serve_nodes qs (serve_node tenant q m).1

abbrev pub AllDelete : List (String × NodeRequest) → Type 0
AllDelete [] = Unit
AllDelete ((tenant, q) ∷ qs) = Deletes q × AllDelete qs

-- Any requests to the node routes, of any tenants, each run to its end before the next, keep what is stored registered and stored once, if
-- the database removes the entries that it is asked to remove: whatever else the engine, the new nodes
-- and the database answer.
pub serve_nodes-Consistent :
    (qs : List (String × NodeRequest)) (m : Managed)
    → AllDelete qs
    → Consistent m
    → Consistent (serve_nodes qs m)
unfolding serve_nodes
serve_nodes-Consistent [] m deletes c = c
serve_nodes-Consistent ((tenant, q) ∷ qs) m (here, later) c =
    serve_nodes-Consistent qs (serve_node tenant q m).1 later
      (serve_node-Consistent tenant q m here c)
