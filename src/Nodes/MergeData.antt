-- ===== src/Nodes/MergeData.antt =====
-- The handler of orchestrator/nodes/merge-data/merge-data.js. The merge of lodash is a parameter, and so
-- is what the promises of the context handler come to.
use Prim.Native.String.{String}
use flowbroker.Prelude.{
  Bool, true, false, ◌&&◌, not, Option, none, some, List, [], ◌∷◌, ◌==◌, if◌then◌else◌, ◌≡◌, ◌⊎◌,
  inl, inr, refl, Option-cases, Bool-cases,
}
use flowbroker.Json.{Value, str, arr, obj, end, Fields}
use flowbroker.Executor.{Handled, resolved, rejected}
use flowbroker.Nodes.Base
use flowbroker.Nodes.Base.{Got, got, unknown_property, get_type_error}
use flowbroker.Nodes.Outcomes.{forwarded, truthy_value, Written}
use flowbroker.Nodes.Base.Paths.{get-set}

pub record MergeConfig : Type 0 where
  pub target_data : String
  pub merged_data : String

-- The answers of wlockAndGetNodeInstanceContext, `none` for a rejection, and of saveAndUnlockContext.
pub record MergeAnswers : Type 0 where
  pub locked : Option Value
  pub saved : Bool

-- `targetData instanceof Object`
abbrev is_object : Value → Bool
is_object (arr xs fs) = true
is_object (obj fs) = true
is_object _ = false

-- _isParametersValid, with the data that it reads.
unfoldable pub valid_target : MergeConfig → Value → Option Value
valid_target config message = elim (Base.get config.target_data message) [
  | got v ↦ if is_object v && not (config.merged_data == "") then some v else none
  | unknown_property ↦ none
  | get_type_error ↦ none
]

-- A text as a result: the executor reads its characters as the outputs.
unfoldable pub characters : String → List (Option Value)
characters String.[] = []
characters (String.◌∷◌ c s) = some (str (String.◌∷◌ c String.[])) ∷ characters s

abbrev pub text_result : String → Handled Value
text_result s = resolved (some (characters s))

abbrev pub content_of : Value → Value
content_of v = if truthy_value v then v else obj end

module _ (merge : Value → Value → Value) where
  -- handleMessage: the content that it asks to save, and its result.
  unfoldable pub handle_message : MergeConfig → Value → MergeAnswers → Option Value × Handled Value
  handle_message config message answers = elim (valid_target config message) [
    | none ↦ (none, rejected)
    | some target_data ↦ elim answers.locked [
      | none ↦ (none, text_result "Failed to retrieve context.")
      | some context_content ↦
          let merged = merge (content_of context_content) target_data in
          (
            some merged,
            if answers.saved
                then elim (Base.set config.merged_data merged message) [
                  | none ↦ text_result "Failed to unlock context."
                  | some message' ↦ forwarded message'
                ]
                else text_result "Failed to unlock context.",
          )
    ]
  ]

  -- For a message that is an object, one of: the configuration or the target data are refused, and the
  -- context is left alone; the context could not be locked, and the outputs are the characters of a
  -- text; or the context's content merged with the target data is what the node asks to save, and the
  -- message is forwarded with it in the configured field, or the outputs are the characters of a text.
  pub handle_message_lem :
      (config : MergeConfig) (fs : Fields) (answers : MergeAnswers)
      → (handle_message config (obj fs) answers ≡ (none, rejected))
        ⊎ (handle_message config (obj fs) answers
            ≡ (none, text_result "Failed to retrieve context."))
        ⊎ ((content target : Value) × (answers.locked ≡ some content)
            × (valid_target config (obj fs) ≡ some target)
            × ((handle_message config (obj fs) answers).0
                ≡ some (merge (content_of content) target))
            × (((handle_message config (obj fs) answers).1
                  ≡ text_result "Failed to unlock context.")
                ⊎ ((message' : Value) × (answers.saved ≡ true)
                    × ((handle_message config (obj fs) answers).1 ≡ forwarded message')
                    × Written config.merged_data (merge (content_of content) target) fs message')))
  unfolding handle_message
  handle_message_lem config fs answers = elim (Option-cases (valid_target config (obj fs))) [
    | inl e ↦ inl (rw (e, handle_message) refl)
    | inr (target, t) ↦ elim (Option-cases answers.locked) [
      | inl e ↦ inr (inl (rw (t, e, handle_message) refl))
      | inr (content, l) ↦ inr (
          inr (
            content,
            target,
            l,
            t,
            rw (t, l, handle_message) refl,
            elim (Bool-cases answers.saved) [
              | inl s ↦
                  elim (Option-cases
                    (Base.set config.merged_data (merge (content_of content) target) (obj fs))) [
                      | inl e ↦ inl (rw (t, l, s, e, handle_message) refl)
                      | inr (m, e) ↦ inr (
                        m,
                        s,
                        rw (t, l, s, e, handle_message) refl,
                        get-set config.merged_data (merge (content_of content) target) fs m e,
                      )
                    ]
              | inr s ↦ inl (rw (t, l, s, handle_message) refl)
            ],
          ))
    ]
  ]
