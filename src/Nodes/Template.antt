-- ===== src/Nodes/Template.antt =====
-- The handler of orchestrator/nodes/template/index.js. The template engines and the JSON parser are
-- parameters, `none` where they throw; a message was parsed, so its copy through JSON is itself.
use flowbroker.Prelude.{
  String, Option, none, some, ◌==◌, if◌then◌else◌, ◌≡◌, ◌⊎◌, inl, inr, refl, Option-cases,
}
use flowbroker.Json.{Value, str, obj, Fields, assign, put_field}
use flowbroker.Executor.{Handled, rejected, threw}
use flowbroker.Nodes.Outcomes.{write_and_forward, Fills, write_and_forward-Fills}

pub record TemplateConfig : Type 0 where
  pub template : String
  pub syntax : String
  pub output : String
  pub field : String

pub record TemplateEngines : Type 0 where
  pub handlebars : String → Value → Option String
  pub mustache : String → Value → Option String
  pub parse_json : String → Option Value

module _ (engines : TemplateEngines) where
  -- The switch over the syntax; `none` for an error or for a syntax that is not supported.
  unfoldable pub render : TemplateConfig → Value → Option String
  render config full_message =
      if config.syntax == "handlebars"
      then engines.handlebars config.template full_message
      else if config.syntax == "plain"
      then some config.template
      else if config.syntax == "mustache"
      then engines.mustache config.template full_message
      else none

  -- The text, or what it parses to.
  unfoldable pub output_of : TemplateConfig → String → Option Value
  output_of config data' =
      if config.output == "json" then engines.parse_json data' else some (str data')

  -- What is written, for a message with its metadata.
  unfoldable pub rendered : TemplateConfig → Value → Option Value
  rendered config full_message = elim (render config full_message) [
    | none ↦ none
    | some data' ↦ output_of config data'
  ]

  -- handleMessage. The copy's `payloadMetadata` is assigned in front of the try block.
  unfoldable pub handle_message : TemplateConfig → Value → Value → Handled Value
  handle_message config message metadata = elim (assign "payloadMetadata" metadata message) [
    | none ↦ threw
    | some full_message ↦ elim (rendered config full_message) [
      | none ↦ rejected
      | some value ↦ write_and_forward config.field value message
    ]
  ]

  -- For a message that is an object: the node rejects, or forwards the message with the output of the
  -- template in the configured field, which the template makes of the message and its metadata.
  pub handle_message_lem :
      (config : TemplateConfig) (fs : Fields) (metadata : Value)
      → (handle_message config (obj fs) metadata ≡ rejected)
        ⊎ ((value : Value) × (rendered config (obj (put_field "payloadMetadata" metadata fs))
              ≡ some value)
            × Fills config.field value fs (handle_message config (obj fs) metadata))
  unfolding handle_message assign
  handle_message_lem config fs metadata =
      elim (Option-cases (rendered config (obj (put_field "payloadMetadata" metadata fs)))) [
        | inl e ↦ inl (rw (e, handle_message) refl)
        | inr (value, e) ↦
            inr (value, e, rw (e, handle_message) (write_and_forward-Fills config.field value fs))
      ]
