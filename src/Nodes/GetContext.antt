-- ===== src/Nodes/GetContext.antt =====
-- The handler of orchestrator/nodes/get-context/get-context.js. What the promises of the context handler
-- come to is a parameter.
use flowbroker.Prelude.{
  String, Option, none, some, ◌==◌, if◌then◌else◌, ◌≡◌, ◌⊎◌, inl, inr, refl, Option-cases,
}
use flowbroker.Json.{Value, str, obj, Fields}
use flowbroker.Executor.{Handled, rejected}
use flowbroker.Nodes.Base
use flowbroker.Nodes.Base.{Got, got, unknown_property, get_type_error}
use flowbroker.Nodes.Outcomes.{write_and_forward, Fills, write_and_forward-Fills}
use flowbroker.Contexts.{Layer, tenant_layer, flow_layer}

pub record GetContextConfig : Type 0 where
  pub context_name : String
  pub context_name_type : String
  pub context_layer : String
  pub context_content : String

-- The metadata that the executor passes on.
pub record FlowMetadata : Type 0 where
  pub tenant : String
  pub flow_id : String

-- The name, configured or read from the message; `none` where the read throws.
unfoldable pub context_name_of : GetContextConfig → Value → Option Value
context_name_of config message =
    if config.context_name_type == "msg"
    then elim (Base.get config.context_name message) [
      | got v ↦ some v
      | unknown_property ↦ none
      | get_type_error ↦ none
    ]
    else some (str config.context_name)

unfoldable pub layer_of : GetContextConfig → FlowMetadata → Layer
layer_of config metadata =
    if config.context_layer == "tenant"
    then tenant_layer metadata.tenant
    else flow_layer metadata.tenant metadata.flow_id

-- getTenantContext and getFlowContext, with a name of any kind; `none` for a rejection.
module _ (get_context : Layer → Value → Option Value) where
  -- handleMessage
  unfoldable pub handle_message : GetContextConfig → Value → FlowMetadata → Handled Value
  handle_message config message metadata = elim (context_name_of config message) [
    | none ↦ rejected
    | some name ↦ elim (get_context (layer_of config metadata) name) [
      | none ↦ rejected
      | some content ↦ write_and_forward config.context_content content message
    ]
  ]

  -- The node rejects, or reads a context of the configured layer and name, and forwards the message with
  -- the content in the configured field.
  pub handle_message_lem :
      (config : GetContextConfig) (fs : Fields) (metadata : FlowMetadata)
      → (handle_message config (obj fs) metadata ≡ rejected)
        ⊎ ((name content : Value) × (context_name_of config (obj fs) ≡ some name)
            × (get_context (layer_of config metadata) name ≡ some content)
            × Fills config.context_content content fs (handle_message config (obj fs) metadata))
  unfolding handle_message
  handle_message_lem config fs metadata = elim (Option-cases (context_name_of config (obj fs))) [
    | inl e ↦ inl (rw (e, handle_message) refl)
    | inr (name, e) ↦ elim (Option-cases (get_context (layer_of config metadata) name)) [
      | inl n ↦ inl (rw (e, n, handle_message) refl)
      | inr (content, c) ↦ inr (
        name,
        content,
        e,
        c,
        rw (e, c, handle_message) (write_and_forward-Fills config.context_content content fs),
      )
    ]
  ]
