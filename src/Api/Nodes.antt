-- ===== src/Api/Nodes.antt =====
-- The node routes of orchestrator/api.js, over the node manager; the removals of a DELETE of all nodes
-- run one behind the other.
pub mod Runs
mod Tests
use flowbroker.Prelude.{
  ℕ, String, Bool, true, false, Option, none, some, List, [], ◌∷◌, if◌then◌else◌,
}
use flowbroker.Prelude.Dict
use flowbroker.NodeManager.{
  Managed, Outcome, resolved, rejected, hangs, DelAnswers, AddAnswers, add_remote_node,
  del_remote_node,
}

-- The response, `no_answer` for a request that is left open.
pub data NodeResponse : Type 0 where
  answered : (status : ℕ) → NodeResponse
  node_list : List String → NodeResponse
  no_answer : NodeResponse

abbrev status_of : Outcome → NodeResponse
status_of resolved = answered 200
status_of (rejected e) = answered 500
status_of hangs = no_answer

-- POST /v1/node; a body without the image or the id is `none`.
unfoldable pub post_node : String → Option String → AddAnswers → Managed → NodeResponse × Managed
post_node tenant none a m = (answered 400, m)
post_node tenant (some id) a m =
    let (outcome, m') = add_remote_node id tenant a m in (status_of outcome, m')

-- DELETE /v1/node/:id
unfoldable pub delete_node : String → String → DelAnswers → Managed → NodeResponse × Managed
delete_node tenant id a m =
    let (outcome, m') = del_remote_node id (some tenant) a m in (status_of outcome, m')

-- Promise.all of two outcomes: a rejection counts, whatever hangs.
abbrev both : Outcome → Outcome → Outcome
both (rejected e) o = rejected e
both resolved o = o
both hangs (rejected e) = rejected e
both hangs _ = hangs

-- getAll, `ok` if the database answers.
unfoldable pub get_all_nodes : String → Bool → Managed → Option (List String)
get_all_nodes tenant ok m = if ok then Dict.get tenant m.collection else none

unfoldable pub delete_each :
    String → List String → (String → DelAnswers) → Managed → Outcome × Managed
delete_each tenant [] a m = (resolved, m)
delete_each tenant (id ∷ ids) a m =
    let (first, m') = del_remote_node id (some tenant) (a id) m in
    let (rest, m'') = delete_each tenant ids a m' in (both first rest, m'')

-- DELETE /v1/node
unfoldable pub delete_nodes :
    String → Bool → (String → DelAnswers) → Managed → NodeResponse × Managed
unfolding delete_each
delete_nodes tenant ok a m = elim (get_all_nodes tenant ok m) [
  | none ↦ (answered 500, m)
  | some ids ↦ let (outcome, m') = delete_each tenant ids a m in (status_of outcome, m')
]

-- GET /v1/node
unfoldable pub get_nodes : String → Bool → Managed → NodeResponse × Managed
get_nodes tenant ok m =
    (elim (get_all_nodes tenant ok m) [ none ↦ answered 500 | some ids ↦ node_list ids ], m)

pub data NodeRequest : Type 0 where
  post_node_request : Option String → AddAnswers → NodeRequest
  delete_node_request : String → DelAnswers → NodeRequest
  delete_nodes_request : Bool → (String → DelAnswers) → NodeRequest
  get_nodes_request : Bool → NodeRequest

unfoldable pub serve_node : String → NodeRequest → Managed → NodeResponse × Managed
unfolding post_node delete_node delete_nodes get_nodes
serve_node tenant (post_node_request id a) m = post_node tenant id a m
serve_node tenant (delete_node_request id a) m = delete_node tenant id a m
serve_node tenant (delete_nodes_request ok a) m = delete_nodes tenant ok a m
serve_node tenant (get_nodes_request ok) m = get_nodes tenant ok m
