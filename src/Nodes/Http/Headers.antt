-- ===== src/Nodes/Http/Headers.antt =====
-- orchestrator/nodes/http/index.js: which headers of the message's request are sent.
use flowbroker.Prelude.{
  String, Bool, true, false, ◌&&◌, ◌||◌, Option, none, some, [], ◌∷◌, ◌==◌, ◌≡◌, ◌≢◌, inl, inr,
  refl, sym, ap, subst, ◌∙◌, arith, eq_iff, Option-cases, Bool-cases, All,
}
use flowbroker.Prelude.Letters.{to_lower_case}
use flowbroker.Prelude.Dict
use flowbroker.Prelude.Dict.{
  Dict, get-put, get-put_else, get-put_self, get-remove, get-remove_else, get-remove_self,
}
use flowbroker.Prelude.Dict.Keys.{Distinct, keys, get-none}
use flowbroker.Json.{Value, str, num}
use flowbroker.Nodes.Http.{
  HttpRequest, Opts, new_opts, add_header, add_headers, is_null, Texts, body_text,
  handle_message_request_payload, set_if, revert, handle_message_request,
}
use flowbroker.Nodes.Http.Loop.{
  Plain, Known, Apart, stored_name-Plain, Plain-ne_type, Plain-ne_length, lower_type, lower_length,
  add_headers-Known, add_headers-Apart, add_headers-Plain,
}

set_if-else :
    (b : Bool) (key : String) (v : Value) (hs : Dict Value) (k : String)
    → key ≢ k
    → Dict.get k (set_if b key v hs) ≡ Dict.get k hs
unfolding set_if
set_if-else true key v hs k ne = get-put_else key k v hs ne
set_if-else false key v hs k ne = refl

-- The payload's part of the code writes to the two known names only.
payload-else :
    (texts : Texts) (request : HttpRequest) (method : String) (o : Opts) (k : String)
    → o.ct_set ≢ k
    → o.cl_set ≢ k
    → Dict.get k (handle_message_request_payload texts request method o).1 ≡ Dict.get k o.headers
unfolding handle_message_request_payload
payload-else texts request method o k t l = elim (Option-cases request.payload) [
  | inl e ↦ rw (e, handle_message_request_payload) refl
  | inr (v, e) ↦ elim (Bool-cases (method == "POST" || method == "PUT" || method == "PATCH")) [
    | inr b ↦ rw (e, b, handle_message_request_payload) refl
    | inl b ↦
        rw (e, b, handle_message_request_payload)
          (set_if-else _ o.cl_set _ _ k l ∙ set_if-else _ o.ct_set _ o.headers k t)
  ]
]

revert-else :
    (key set k : String) (hs : Dict Value)
    → key ≢ k
    → set ≢ k
    → Dict.get k (revert key set hs) ≡ Dict.get k hs
unfolding revert
revert-else key set k hs nk ns = elim (Option-cases (Dict.get key hs)) [
  | inl e ↦ rw (e, revert) refl
  | inr (v, e) ↦ elim (Bool-cases (set == key)) [
    | inl b ↦ rw (e, b, revert) refl
    | inr b ↦
        rw (e, b, revert)
          (get-remove_else key k (Dict.put set v hs) nk ∙ get-put_else set k v hs ns)
  ]
]

and_false : (b : Bool) → (b && false) ≡ false
and_false true = refl
and_false false = refl

is_null_missing : (key : String) (hs : Dict Value) → Dict.get key hs ≡ none → is_null key hs ≡ false
is_null_missing key hs e = rw (e, is_null) refl

set_if-false : (key : String) (v : Value) (hs : Dict Value) → set_if false key v hs ≡ hs
unfolding set_if
set_if-false key v hs = refl

-- Without a header of the content's type or length the payload's part adds none.
payload_same :
    (texts : Texts) (request : HttpRequest) (method : String) (o : Opts)
    → Dict.get "content-type" o.headers ≡ none
    → Dict.get "content-length" o.headers ≡ none
    → (handle_message_request_payload texts request method o).1 ≡ o.headers
unfolding handle_message_request_payload
payload_same texts request method o t l = elim (Option-cases request.payload) [
  | inl e ↦ rw (e, handle_message_request_payload) refl
  | inr (v, e) ↦ elim (Bool-cases (method == "POST" || method == "PUT" || method == "PATCH")) [
    | inr b ↦ rw (e, b, handle_message_request_payload) refl
    | inl b ↦
        rw (e, b, handle_message_request_payload)
          (rw
            (
              is_null_missing "content-type" o.headers t,
              and_false,
              set_if-false o.ct_set (str "application/json") o.headers,
              is_null_missing "content-length" o.headers l,
            )
            (set_if-false o.cl_set (num (texts.byte_length (body_text texts v))) o.headers))
  ]
]

revert_missing :
    (key set : String) (hs : Dict Value) → Dict.get key hs ≡ none → revert key set hs ≡ hs
unfolding revert
revert_missing key set hs e = rw (e, revert) refl

All-Plain-Apart : (k : String) (hs : Dict Value) → (Plain k → ⊥) → All Plain (keys hs) → Apart k hs
All-Plain-Apart k [] p a = _
All-Plain-Apart k ((v, value) ∷ hs) p a =
    (λ e. p (subst Plain (sym (stored_name-Plain v a.0) ∙ e) a.0), All-Plain-Apart k hs p a.1)

initial-Known : Known new_opts
unfolding to_lower_case
initial-Known = (refl, refl)

-- Where no header of the content's type or length is given: what the loop leaves has none either.
not_stored :
    (k : String) (hs : Dict Value)
    → (Plain k → ⊥)
    → All Plain (keys hs)
    → Dict.get k (add_headers hs new_opts).headers ≡ none
unfolding Dict.get
not_stored k hs p a = add_headers-Apart k hs new_opts (All-Plain-Apart k hs p a)

-- The value of an `authorization`, or else what was there.
abbrev auth_of : Option Value → Option Value → Option Value
auth_of none before = before
auth_of (some v) before = some v

add_headers-auth :
    (hs : Dict Value) (o : Opts)
    → Distinct (keys hs)
    → (add_headers hs o).auth ≡ auth_of (Dict.get "authorization" hs) o.auth
unfolding add_headers add_header Dict.get
add_headers-auth [] o d = refl
add_headers-auth ((k, v) ∷ hs) o (new, d) = elim (Bool-cases (k == "authorization")) [
  | inl same ↦
      let e = (eq_iff k "authorization").0 same in
      let out : Dict.get "authorization" hs ≡ none = get-none "authorization" hs (rw e at new) in
      add_headers-auth hs (add_header k v o) d ∙ rw (out, same) refl
  | inr other ↦ add_headers-auth hs (add_header k v o) d ∙ rw other refl
]

-- The value of an `authorization` becomes the `auth` option.
pub handle_message_request-auth :
    (texts : Texts) (method : String) (request : HttpRequest)
    → Distinct (keys request.headers)
    → (handle_message_request texts method request).1.auth
      ≡ Dict.get "authorization" request.headers
unfolding handle_message_request
handle_message_request-auth texts method request d =
    add_headers-auth request.headers new_opts d
    ∙ (elim (Option-cases (Dict.get "authorization" request.headers)) [
      | inl e ↦ rw e refl
      | inr (v, e) ↦ rw e refl
    ])

-- For a request whose headers have distinct names: no `authorization` is among the headers; a header of another name
-- that is not that of the content's type or length, in letters of any case, is sent as it is given, and
-- none of such a name is added; and where no header of the content's type or length is given, no length
-- of the content is sent.
pub handle_message_request_lem :
    (texts : Texts) (method : String) (request : HttpRequest)
    → Distinct (keys request.headers)
    → (Dict.get "authorization" (handle_message_request texts method request).1.headers ≡ none)
      × ((k : String)
          → Plain k
          → k ≢ "authorization"
          → Dict.get k (handle_message_request texts method request).1.headers
            ≡ Dict.get k request.headers)
      × (All Plain (keys request.headers)
          → (k : String) → to_lower_case k ≡ "content-length"
          → Dict.get k (handle_message_request texts method request).1.headers ≡ none)
unfolding handle_message_request Dict.get
handle_message_request_lem texts method request d =
    let o = add_headers request.headers new_opts in
    let sent = (handle_message_request_payload texts request method o).1 in
    let known = add_headers-Known request.headers new_opts initial-Known in
    let typed = revert "content-type" o.ct_set sent in
    (
      get-remove_self "authorization" (revert "content-length" o.cl_set typed),
      λ k p ne.
          let t = Plain-ne_type k o.ct_set p known.0 in
          let l = Plain-ne_length k o.cl_set p known.1 in
          get-remove_else "authorization" k (revert "content-length" o.cl_set typed)
            (λ e. ne (sym e))
          ∙ revert-else "content-length" o.cl_set k typed
              (Plain-ne_length k "content-length" p lower_length) l
          ∙ revert-else "content-type" o.ct_set k sent (Plain-ne_type k "content-type" p lower_type)
              t
          ∙ payload-else texts request method o k t l
          ∙ add_headers-Plain k request.headers new_opts p d refl,
      λ a k e.
          let t = not_stored "content-type" request.headers (λ p. p.0 lower_type) a in
          let l = not_stored "content-length" request.headers (λ p. p.1 lower_length) a in
          let same = payload_same texts request method o t l in
          let plain =
            ap (revert "content-type" o.ct_set) same
            ∙ revert_missing "content-type" o.ct_set o.headers t in
          let both =
            ap (revert "content-length" o.cl_set) plain
            ∙ revert_missing "content-length" o.cl_set o.headers l in
          ap (λ hs. Dict.get k (Dict.remove "authorization" hs)) both
          ∙ ground (
            arith,
            get-remove "authorization" k o.headers,
            not_stored k request.headers (λ p. p.1 e) a,
          ),
    )
