-- ===== src/NodeManager/Lists.antt =====
-- orchestrator/nodeManager.js: the lists of a tenant's nodes for the editor. What a node gives as metadata and
-- as a page are parameters; that asJson writes into the node's own metadata is left out.
use Prim.Native.String.{◌++◌}
use flowbroker.Prelude.{
  String, Option, none, some, List, [], ◌∷◌, ◌≡◌, refl, sym, ap, ◌∙◌, true, inl, inr, In,
  Option-cases,
}
use flowbroker.Prelude.Dict
use flowbroker.Prelude.Dict.{Dict}
use flowbroker.Json.{
  Value, boolean, arr, obj, nil, cons, gap, Items, Fields, end, put_field, found, own, Own,
}
use flowbroker.NodeManager.{Handler, Managed}

-- `[metadata.name]`
abbrev pub type_list : Own → Items
type_list (found v) = cons v nil
type_list _ = gap nil

-- The fields that the orchestrator adds.
unfoldable pub with_flags : Value → Fields → Fields
unfolding own put_field
with_flags metadata fs =
    put_field "types" (arr (type_list (own "name" metadata)) end)
      (put_field "local" (boolean true) (put_field "enabled" (boolean true) fs))

-- An assignment to a field of null or of a primitive throws.
unfoldable pub flagged : Value → Option Value
unfolding with_flags
flagged (obj fs) = some (obj (with_flags (obj fs) fs))
flagged (arr xs fs) = some (arr xs (with_flags (arr xs fs) fs))
flagged v = none

-- The loop of asJson; `none` where it throws.
unfoldable pub json_of : (String → Handler → Option Value) → Dict Handler → Option (List Value)
unfolding flagged
json_of metadata_of [] = some []
json_of metadata_of ((id, h) ∷ handlers) =
    let rest = json_of metadata_of handlers in
    elim (metadata_of id h) [
      | none ↦ none
      | some v ↦ elim (flagged v) [
        | none ↦ none
        | some w ↦ elim rest [ none ↦ none | some ws ↦ some (w ∷ ws) ]
      ]
    ]

unfoldable pub as_json : (String → Handler → Option Value) → String → Managed → Option (List Value)
unfolding json_of
as_json metadata_of tenant m = elim (Dict.get tenant m.nodes) [
  | none ↦ some []
  | some handlers ↦ json_of metadata_of handlers
]

-- The loop of asHtml; `none` where a page cannot be read.
unfoldable pub html_of : (String → Handler → Option String) → Dict Handler → String → Option String
html_of page_of [] result = some result
html_of page_of ((id, h) ∷ handlers) result = elim (page_of id h) [
  | none ↦ none
  | some page ↦ html_of page_of handlers (result ++ "\n" ++ page)
]

unfoldable pub as_html : (String → Handler → Option String) → String → Managed → Option String
unfolding html_of
as_html page_of tenant m = elim (Dict.get tenant m.nodes) [
  | none ↦ some ""
  | some handlers ↦ html_of page_of handlers ""
]

-- One node without metadata, as is one whose `init` failed, and there is no list for its tenant.
pub json_of-none :
    (metadata_of : String → Handler → Option Value) (handlers : Dict Handler) (id : String)
    (h : Handler)
    → In (id, h) handlers
    → metadata_of id h ≡ none
    → json_of metadata_of handlers ≡ none
unfolding json_of
json_of-none metadata_of [] id h i e = absurd i
json_of-none metadata_of ((j, g) ∷ handlers) id h (inl same) e =
    let gone : metadata_of j g ≡ none =
      ap (λ (x : String × Handler). metadata_of x.0 x.1) (sym same) ∙ e in
    rw (gone, json_of) refl
json_of-none metadata_of ((j, g) ∷ handlers) id h (inr i) e =
    elim (Option-cases (metadata_of j g)) [
      | inl n ↦ rw (n, json_of) refl
      | inr (v, s) ↦ elim (Option-cases (flagged v)) [
        | inl n ↦ rw (s, n, json_of) refl
        | inr (w, f) ↦ rw (s, f, json_of-none metadata_of handlers id h i e, json_of) refl
      ]
    ]
