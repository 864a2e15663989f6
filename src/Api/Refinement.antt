-- ===== src/Api/Refinement.antt =====
-- The flow routes behave as a map from ids to flows, of which the collection is one representation.
pub mod Runs
use mathlib.Core.Path.{ap₂, fun_ext}
use flowbroker.Prelude.{
  String, ◌≡◌, refl, sym, ap, ◌∙◌, subst, inl, inr, Bool, true, false, Option, none, some, List, [],
  ◌∷◌, ◌==◌, Bool-cases, Option-cases, if◌then◌else◌,
}
use flowbroker.Flow.Nodes.{Node}
use flowbroker.Flow.Collection.{Collection}
use flowbroker.Flow.Store
use flowbroker.Flow.Store.{Document, Enabled, Written, stored, refused}
use flowbroker.Flow.Manager
use flowbroker.Flow.Manager.{
  unknown_flow_error, mongo_error, other_error, resolves, rejects, failure_of,
}
use flowbroker.Flow.Manager.Laws.{HasId, create-HasId, set-HasId}
use flowbroker.Api.{
  message, Response, failed, FlowBody, is_tenant, validate_mandatory_fields, one_response,
  done_response, FlowRequest, get_all_request, delete_all_request, post_request, get_request,
  delete_request, put_request, serve,
}

-- The flows by id.
abbrev pub Flows : Type 0
Flows = String → Option Document

abbrev pub view : {S : Type 0} → Collection S → S → Flows
view store s = λ id. store.find_one id s

abbrev pub with : Document → Flows → Flows
with d m = λ j. if d.id == j then some d else m j

abbrev pub without : String → Flows → Flows
without id m = λ j. if id == j then none else m j

abbrev pub error : Response
error = record { status = 500; body = message }

abbrev pub bad_request : Response
bad_request = record { status = 400; body = message }

-- A document that is written, if the database writes.
unfoldable pub write : Written → Bool → Flows → Response × Flows
write (refused e) ok m = (failed (failure_of e), m)
write (stored d) ok m = if ok then (one_response (resolves d), with d m) else (error, m)

-- What a request comes to on a map, for a tenant.
unfoldable pub specified : FlowRequest → Flows → Response × Flows
unfolding write
specified (get_all_request ok) m = (error, m)
specified (delete_all_request ok) m =
    if ok then (record { status = 200; body = message }, λ j. none) else (error, m)
specified (post_request b id ok) m =
    if validate_mandatory_fields b
    then write (Store.create id b.name b.enabled b.flow) ok m
    else (bad_request, m)
specified (get_request id ok) m =
    if ok
    then elim (m id) [
      | none ↦ (failed (unknown_flow_error id), m)
      | some d ↦ (one_response (resolves d), m)
    ]
    else (error, m)
specified (delete_request id ok) m =
    if ok
    then elim (m id) [
      | none ↦ (failed (unknown_flow_error id), m)
      | some d ↦ (one_response (resolves d), without id m)
    ]
    else (error, m)
specified (put_request id b found ok) m =
    if found
    then elim (m id) [
      | none ↦ (failed (unknown_flow_error id), m)
      | some old ↦ write (Store.set old b.name b.enabled b.flow) ok m
    ]
    else (error, m)

-- A request for one flow, or to remove all; a new id is new.
abbrev pub IsPlainRequest : FlowRequest → Flows → Type 0
IsPlainRequest (get_all_request ok) m = ⊥
IsPlainRequest (post_request b id ok) m = m id ≡ none
IsPlainRequest _ m = Unit

-- Requests, one behind the other: the responses, and what is left.
unfoldable pub run :
    {S : Type 0} → Collection S → Option String → List FlowRequest → S → List Response × S
run store tenant [] s = ([], s)
run store tenant (q ∷ qs) s =
    let (r, s') = serve store tenant q s in let (rs, s'') = run store tenant qs s' in (r ∷ rs, s'')

unfoldable pub run_map : List FlowRequest → Flows → List Response × Flows
run_map [] m = ([], m)
run_map (q ∷ qs) m = let (r, m') = specified q m in let (rs, m'') = run_map qs m' in (r ∷ rs, m'')

abbrev pub AllPlain : List FlowRequest → Flows → Type 0
AllPlain [] m = Unit
AllPlain (q ∷ qs) m = IsPlainRequest q m × AllPlain qs (specified q m).1
