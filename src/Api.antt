-- ===== src/Api.antt =====
-- The flow and node routes of orchestrator/api.js, over the flow manager and a collection of flows.
pub mod Flows
pub mod RoundTrips
pub mod Nodes
pub mod Refinement
mod Tests
use flowbroker.Prelude.{
  ℕ, String, Bool, true, false, Option, none, some, List, [], ◌∷◌, ◌==◌, map, if◌then◌else◌,
}
use flowbroker.Flow.Nodes.{Node}
use flowbroker.Flow.Collection.{Collection}
use flowbroker.Flow.Store.{Document, Enabled}
use flowbroker.Flow.Manager
use flowbroker.Flow.Manager.{
  Failure, invalid_flow_error, unknown_flow_error, mongo_error, other_error, Answer, resolves,
  rejects,
}

-- summarizeFlow, without the times.
pub record FlowSummary : Type 0 where
  pub name : String
  pub enabled : Enabled
  pub id : String
  pub flow : List Node

abbrev pub summarize_flow : Document → FlowSummary
summarize_flow d = record { name = d.label; enabled = d.enabled; id = d.id; flow = d.red }

pub data Body : Type 0 where
  one_flow : FlowSummary → Body
  flows : List FlowSummary → Body
  message : Body
  unknown_flow : (id : String) → Body

pub record Response : Type 0 where
  pub status : ℕ
  pub body : Body

abbrev respond : ℕ → Body → Response
respond status body = record { status = status; body = body }

-- The `catch` of the flow routes: a FlowError has its own status and payload.
unfoldable pub failed : Failure → Response
failed invalid_flow_error = respond 400 message
failed (unknown_flow_error id) = respond 404 (unknown_flow id)
failed mongo_error = respond 500 message
failed other_error = respond 500 message

-- The body of a POST: the fields that the routes look for; a `flow` that is there is taken to be a
-- list of nodes, and a `name` to be a text.
pub record FlowBody : Type 0 where
  pub name : Option String
  pub enabled : Enabled
  pub flow : Option (List Node)

-- validateMandatoryFields for `name` and `flow`.
unfoldable pub validate_mandatory_fields : FlowBody → Bool
validate_mandatory_fields b = elim b.name [
  | none ↦ false
  | some name ↦ elim b.flow [ none ↦ false | some flow ↦ true ]
]

-- FlowManager.get throws a TenantError for a missing tenant.
abbrev pub is_tenant : Option String → Bool
is_tenant none = false
is_tenant (some t) = if t == "" then false else true

unfoldable pub one_response : Answer Document → Response
unfolding failed
one_response (resolves d) = respond 200 (one_flow (summarize_flow d))
one_response (rejects e) = failed e

unfoldable pub list_response : Answer (List Document) → Response
list_response (resolves ds) = respond 200 (flows (map summarize_flow ds))
list_response (rejects e) = respond 500 message

unfoldable pub done_response : Answer (Unit {0}) → Response
done_response (resolves u) = respond 200 message
done_response (rejects e) = respond 500 message

module _ {S : Type 0} (store : Collection S) where
  -- GET /v1/flow
  unfoldable pub get_flows : Option String → Bool → S → Response × S
  unfolding list_response
  get_flows tenant ok s =
      if is_tenant tenant
      then (list_response (Manager.get_all store ok s), s)
      else (respond 400 message, s)

  -- POST /v1/flow; `id` is the UUID that `create` draws.
  unfoldable pub post_flow : Option String → FlowBody → String → Bool → S → Response × S
  unfolding one_response validate_mandatory_fields
  post_flow tenant b id ok s =
      if is_tenant tenant
      then (if validate_mandatory_fields b
          then (let (answer, s') = Manager.create store id b.name b.enabled b.flow ok s in
              (one_response answer, s'))
          else (respond 400 message, s))
      else (respond 400 message, s)

  -- DELETE /v1/flow
  unfoldable pub delete_flows : Option String → Bool → S → Response × S
  unfolding done_response
  delete_flows tenant ok s =
      if is_tenant tenant
      then (let (answer, s') = Manager.remove_all store ok s in (done_response answer, s'))
      else (respond 400 message, s)

  -- GET /v1/flow/:id
  unfoldable pub get_flow : Option String → String → Bool → S → Response × S
  unfolding one_response
  get_flow tenant id ok s =
      if is_tenant tenant
      then (one_response (Manager.get store id ok s), s)
      else (respond 400 message, s)

  -- PUT /v1/flow/:id; `found` and `ok` are for the two operations of `set`.
  unfoldable pub put_flow : Option String → String → FlowBody → Bool → Bool → S → Response × S
  unfolding one_response
  put_flow tenant id b found ok s =
      if is_tenant tenant
      then (let (answer, s') = Manager.set store id b.name b.enabled b.flow found ok s in
          (one_response answer, s'))
      else (respond 400 message, s)

  -- DELETE /v1/flow/:id
  unfoldable pub delete_flow : Option String → String → Bool → S → Response × S
  unfolding one_response
  delete_flow tenant id ok s =
      if is_tenant tenant
      then (let (answer, s') = Manager.remove store id ok s in (one_response answer, s'))
      else (respond 400 message, s)

-- The requests of a client, and what each is answered with.
pub data FlowRequest : Type 0 where
  get_all_request delete_all_request : Bool → FlowRequest
  post_request : FlowBody → String → Bool → FlowRequest
  get_request delete_request : String → Bool → FlowRequest
  put_request : String → FlowBody → Bool → Bool → FlowRequest

unfoldable pub serve : {S : Type 0} → Collection S → Option String → FlowRequest → S → Response × S
unfolding get_flows post_flow delete_flows get_flow put_flow delete_flow
serve store tenant (get_all_request ok) s = get_flows store tenant ok s
serve store tenant (delete_all_request ok) s = delete_flows store tenant ok s
serve store tenant (post_request b id ok) s = post_flow store tenant b id ok s
serve store tenant (get_request id ok) s = get_flow store tenant id ok s
serve store tenant (delete_request id ok) s = delete_flow store tenant id ok s
serve store tenant (put_request id b found ok) s = put_flow store tenant id b found ok s
