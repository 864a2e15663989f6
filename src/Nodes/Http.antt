-- ===== src/Nodes/Http.antt =====
-- orchestrator/nodes/http/index.js: how the node makes an HTTP request of a message.
pub mod Loop
mod Tests
pub mod Headers
pub mod Response
pub mod Handler
pub mod Prepared
use Prim.Native.Char.{code}
use Prim.Native.String.{◌++◌}
use flowbroker.Prelude.{
  ℕ, String, Bool, true, false, ◌&&◌, ◌||◌, not, Option, none, some, List, [], ◌∷◌, ◌==◌, nat_eq,
  if◌then◌else◌,
}
use flowbroker.Prelude.Int.{ℤ}
use flowbroker.Prelude.Letters.{to_lower_case, starts_with}
use flowbroker.Prelude.Dict
use flowbroker.Prelude.Dict.{Dict}
use flowbroker.Json.{Value, null, boolean, num, str, arr, obj}

-- `/^.*:\/\//`: a `://` on the first line.
unfoldable pub has_transport : String → Bool
unfolding starts_with
has_transport String.[] = false
has_transport (String.◌∷◌ c s) =
    let rest = has_transport s in
    if starts_with "://" (String.◌∷◌ c s)
    then true
    else if nat_eq (code c) b'\n'
    then false
    else rest

-- `/^(http|https):\/\//`
abbrev pub is_http : String → Bool
is_http url = starts_with "http://" url || starts_with "https://" url

-- testUrl: the check and the URL.
unfoldable pub test_url : String → Bool × String
unfolding has_transport
test_url url =
    let url' = if has_transport url then url else "http://" ++ url in (is_http url', url')

-- The request that the body parsed to; `headers` has no entries where the body has none.
pub record HttpRequest : Type 0 where
  pub headers : Dict Value
  pub payload : Option Value

-- The loop's state: `opts.headers`, `ctSet`, `clSet` and `opts.auth`.
pub record Opts : Type 0 where
  pub headers : Dict Value
  pub ct_set : String
  pub cl_set : String
  pub auth : Option Value

abbrev new_opts : Opts
new_opts = record { headers = []; ct_set = "Content-Type"; cl_set = "Content-Length"; auth = none }

-- The name that the loop stores a header under.
abbrev pub stored_name : String → String
stored_name v =
    let name = to_lower_case v in
    if name == "content-type" || name == "content-length" then name else v

-- One turn of the loop over the headers.
unfoldable pub add_header : String → Value → Opts → Opts
unfolding to_lower_case
add_header v value o = record {
  headers = Dict.put (stored_name v) value o.headers;
  ct_set = if to_lower_case v == "content-type" then v else o.ct_set;
  cl_set = if to_lower_case v == "content-length" then v else o.cl_set;
  auth = if v == "authorization" then some value else o.auth;
}

unfoldable pub add_headers : Dict Value → Opts → Opts
unfolding add_header
add_headers [] o = o
add_headers ((v, value) ∷ hs) o = add_headers hs (add_header v value o)

-- `headers[key] === null`: a header that is there, and null.
abbrev is_null : String → Dict Value → Bool
is_null key headers = elim (Dict.get key headers) [ some null ↦ true | _ ↦ false ]

-- An assignment under a test.
unfoldable pub set_if : Bool → String → Value → Dict Value → Dict Value
set_if b key value headers = if b then Dict.put key value headers else headers

-- `headers[set] = headers[key]; delete headers[key]`, where the key is there and `set` is another one.
unfoldable pub revert : String → String → Dict Value → Dict Value
revert key set headers = elim (Dict.get key headers) [
  | none ↦ headers
  | some v ↦ if set == key then headers else Dict.remove key (Dict.put set v headers)
]

-- The texts of numbers and of other values, and the bytes of a text.
pub record Texts : Type 0 where
  pub number_text : ℤ → String
  pub stringify : Value → String
  pub byte_length : String → ℤ

module _ (texts : Texts) where
  abbrev pub body_text : Value → String
  body_text (str s) = s
  body_text (num n) = texts.number_text n
  body_text v = texts.stringify v

  abbrev pub is_plain : Value → Bool
  is_plain (str s) = true
  is_plain (num n) = true
  is_plain _ = false

  -- handleMessageRequestPayload: the payload and the headers.
  unfoldable pub handle_message_request_payload :
      HttpRequest → String → Opts → Option String × Dict Value
  unfolding set_if
  handle_message_request_payload request method o = elim request.payload [
    | none ↦ (none, o.headers)
    | some v ↦
        if method == "POST" || method == "PUT" || method == "PATCH"
        then (
          some (body_text v),
          let headers =
                set_if (not (is_plain v) && is_null "content-type" o.headers) o.ct_set
                  (str "application/json") o.headers in
              set_if (is_null "content-length" headers) o.cl_set
                (num (texts.byte_length (body_text v))) headers,
        )
        else (none, o.headers)
  ]

  -- handleMessageRequest, but for what the URL's parser puts into the options.
  unfoldable pub handle_message_request : String → HttpRequest → Option String × Opts
  unfolding add_headers handle_message_request_payload revert
  handle_message_request method request =
      let o = add_headers request.headers new_opts in
      let (payload, headers) = handle_message_request_payload request method o in
      (
        payload,
        record o {
          headers =
              Dict.remove "authorization"
                (revert "content-length" o.cl_set (revert "content-type" o.ct_set headers));
        },
      )
