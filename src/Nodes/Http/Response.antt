-- ===== src/Nodes/Http/Response.antt =====
-- orchestrator/nodes/http/index.js: what the node makes of a response. A chunk is its text.
use Prim.Native.String.{◌++◌, count}
use flowbroker.Prelude.{
  ◌+◌, ◌≤◌, String, Option, none, some, List, [], ◌∷◌, ◌==◌, if◌then◌else◌, ◌≡◌, ◌≢◌, ◌↔◌, refl,
  arith, length, Option-cases, none≢some, ==-ne, inl, inr, ap, sym, ◌∙◌,
}
use text.Mathlib.TextLemmas.{length-append, append-nil}
use flowbroker.Json.{Value, str, obj, Fields, end, field}
use flowbroker.Executor.{Handled, rejected}
use flowbroker.Nodes.Base
use flowbroker.Nodes.Base.Paths.{get-set}
use flowbroker.Nodes.Outcomes.{forwarded, forwarded-inj, Written}

pub record HttpResponse : Type 0 where
  pub status_code : Value
  pub headers : Value
  pub response_url : Value
  pub chunks : List String

-- What the request comes to.
pub data Answered : Type 0 where
  responded : HttpResponse → Answered
  no_response : Answered
  request_error : Answered

-- `payload.toString("utf8")` of the array of the chunks.
unfoldable pub array_text : List String → String
array_text [] = ""
array_text (c ∷ []) = c
array_text (c ∷ d ∷ cs) = c ++ "," ++ array_text (d ∷ cs)

-- The chunks, kept as they are where the node returns binary data.
pub record Formats : Type 0 where
  pub buffers : List String → Value
  pub parse_json : String → Option Value

module _ (formats : Formats) where
  unfoldable pub response_payload : String → List String → Value
  unfolding array_text
  response_payload ret chunks =
      if ret == "bin"
      then formats.buffers chunks
      else if ret == "obj"
      then elim (formats.parse_json (array_text chunks)) [
        | none ↦ str (array_text chunks)
        | some v ↦ v
      ]
      else str (array_text chunks)

  -- The object that is written into the message, as it is when the response ends.
  unfoldable pub response_value : String → HttpResponse → Value
  unfolding response_payload
  response_value ret r = obj (
      field "statusCode" r.status_code (
        field "headers" r.headers (
          field "responseUrl" r.response_url
            (field "payload" (response_payload ret r.chunks) end))))

  -- The callbacks of the request; `none` where one of them throws, which nobody catches.
  unfoldable pub resolve_request : String → String → Value → Answered → Option (Handled Value)
  unfolding response_value
  resolve_request ret response message (responded r) =
      elim (Base.set response (response_value ret r) message) [
        | none ↦ none
        | some message' ↦ some (forwarded message')
      ]
  resolve_request ret response message no_response = some rejected
  resolve_request ret response message request_error = some rejected

-- The text that was sent.
abbrev pub body : List String → String
body [] = ""
body (c ∷ cs) = c ++ body cs

-- Between two chunks the array's text has a comma.
count-array_text :
    (c : String) (cs : List String)
    → count (array_text (c ∷ cs)) ≡ count (body (c ∷ cs)) + length cs
unfolding array_text
count-array_text c [] = rw (append-nil c) (omega arith)
count-array_text c (d ∷ cs) = omega (
  arith,
  count-array_text d cs,
  length-append c ("," ++ array_text (d ∷ cs)),
  length-append "," (array_text (d ∷ cs)),
  length-append c (body (d ∷ cs)),
)

-- The array's text is the text that was sent exactly if that came in one chunk, or in none.
array_text-body : (chunks : List String) → (array_text chunks ≡ body chunks) ↔ (length chunks ≤ 1)
unfolding array_text
array_text-body [] = (λ e. omega arith, λ h. refl)
array_text-body (c ∷ []) = (λ e. omega arith, λ h. sym (append-nil c))
array_text-body (c ∷ d ∷ cs) =
    let n = count-array_text c (d ∷ cs) in
    (
      λ e. absurd (
          let m : count (array_text (c ∷ d ∷ cs)) ≡ count (body (c ∷ d ∷ cs)) = ap count e in
          omega (arith, n, m)),
      λ h. absurd (omega (arith, h)),
    )

written_of :
    (formats : Formats) (ret response : String) (message : Value) (r : HttpResponse) (m' : Value)
    → resolve_request formats ret response message (responded r) ≡ some (forwarded m')
    → Base.set response (response_value formats ret r) message ≡ some m'
unfolding resolve_request
written_of formats ret response message r m' h =
    elim (Option-cases (Base.set response (response_value formats ret r) message)) [
      | inl e ↦ absurd (none≢some (rw (e, resolve_request) at h))
      | inr (m, e) ↦ e ∙ ap some (forwarded-inj (rw (e, resolve_request) at h))
    ]

-- A response that the node forwards, to be read as text: the field of the configuration reads as the
-- response, and its payload is the text that was sent exactly if that came in one chunk, or in none.
pub resolve_request_lem :
    (formats : Formats) (ret response : String) (fs : Fields) (r : HttpResponse) (m' : Value)
    → resolve_request formats ret response (obj fs) (responded r) ≡ some (forwarded m')
    → ret ≢ "bin"
    → ret ≢ "obj"
    → (payload : String) × Written response
        (obj (
          field "statusCode" r.status_code (
            field "headers" r.headers
              (field "responseUrl" r.response_url (field "payload" (str payload) end)))))
        fs
        m'
      × ((payload ≡ body r.chunks) ↔ (length r.chunks ≤ 1))
unfolding response_value response_payload
resolve_request_lem formats ret response fs r m' h b o = (
  array_text r.chunks,
  rw (==-ne ret "bin" b, ==-ne ret "obj" o) at
      (get-set response (response_value formats ret r) fs m'
        (written_of formats ret response (obj fs) r m' h)),
  array_text-body r.chunks,
)
