-- ===== src/Remote/Init.antt =====
-- What `init` and `getLocaleData` of a remote node get from its container.
use flowbroker.Prelude.{String, Bool, true, some, Option, ◌≡◌, ◌≢◌, refl, ap, ◌∙◌}
use flowbroker.Json.{Value, str, obj, end, field, own, get_field}
use flowbroker.Nodes.Outcomes.{truthy_value}
use flowbroker.Remote.{
  RemoteHandler, returned, check_field_of, payload_of, handle_request, handle_locale,
  answer_payload, fetched, payload_in, take_payload, plain_command, locale_command, fetch,
  RemoteNode, initialized, write_page, init, get_locale_data,
}
use flowbroker.Remote.Calls.{text_truthy, on_packet-answer}

take_payload-payload :
    (v id : Value)
    → take_payload (some (obj (field "payload" v (field "requestId" id end)))) ≡ payload_in v
unfolding take_payload own get_field
take_payload-payload v id = refl

fetch-payload_in :
    (handler : RemoteHandler) (id : String) (command v : Value)
    → id ≢ ""
    → truthy_value command ≡ true
    → answer_payload (handle_request handler command) ≡ some v
    → fetch handler id command ≡ payload_in v
unfolding fetch
fetch-payload_in handler id command v i t a =
    ap take_payload (on_packet-answer handler id command v i t a) ∙ take_payload-payload v (str id)

payload_in-payload_of : (v : Value) → payload_in (payload_of v) ≡ fetched (some v)
unfolding payload_in own get_field
payload_in-payload_of v = refl

metadata_answer :
    (handler : RemoteHandler) (m : Value)
    → handler.metadata ≡ some m
    → answer_payload (handle_request handler (plain_command "metadata")) ≡ some (payload_of m)
unfolding handle_request check_field_of own get_field
metadata_answer handler m e = rw e refl

html_answer :
    (handler : RemoteHandler) (h : Value)
    → handler.html ≡ some h
    → answer_payload (handle_request handler (plain_command "html")) ≡ some (payload_of h)
unfolding handle_request check_field_of own get_field
html_answer handler h e = rw e refl

-- A remote node whose container has metadata and a page, and where the page can be written: `init`, under
-- two ids, sets the metadata and writes the page.
pub init_lem :
    (handler : RemoteHandler) (id id' : String) (writes : Option Value → Bool) (node : RemoteNode)
    (m h : Value)
    → id ≢ ""
    → id' ≢ ""
    → handler.metadata ≡ some m
    → handler.html ≡ some h
    → writes (some h) ≡ true
    → init handler id id' writes node ≡ (initialized, record { metadata = some m; page = some h })
unfolding init
init_lem handler id id' writes node m h i i' em eh w =
    let meta =
      fetch-payload_in handler id (plain_command "metadata") (payload_of m) i refl
        (metadata_answer handler m em)
      ∙ payload_in-payload_of m in
    let page =
      fetch-payload_in handler id' (plain_command "html") (payload_of h) i' refl
        (html_answer handler h eh)
      ∙ payload_in-payload_of h in
    rw (meta, init) (rw page (rw (w, write_page) refl))

read_locale :
    (locale : String)
    → locale ≢ ""
    → check_field_of "locale" (locale_command locale) ≡ some (str locale)
unfolding check_field_of own get_field
read_locale locale ne = rw (text_truthy locale ne, check_field_of) refl

handle_request-locale :
    (handler : RemoteHandler) (locale : String)
    → handle_request handler (locale_command locale) ≡ handle_locale handler (locale_command locale)
unfolding handle_request check_field_of own get_field
handle_request-locale handler locale = refl

handle_locale-payload_of :
    (handler : RemoteHandler) (locale : String) (d : Value)
    → locale ≢ ""
    → handler.locale_data (str locale) ≡ some d
    → handle_locale handler (locale_command locale) ≡ returned (some (payload_of d))
unfolding handle_locale
handle_locale-payload_of handler locale d ne e = rw (read_locale locale ne, e, handle_locale) refl

-- A locale that the container knows.
pub get_locale_data_lem :
    (handler : RemoteHandler) (id locale : String) (d : Value)
    → id ≢ ""
    → locale ≢ ""
    → handler.locale_data (str locale) ≡ some d
    → get_locale_data handler id locale ≡ fetched (some d)
unfolding get_locale_data
get_locale_data_lem handler id locale d i ne e =
    fetch-payload_in handler id (locale_command locale) (payload_of d) i refl (
      ap answer_payload
        (handle_request-locale handler locale ∙ handle_locale-payload_of handler locale d ne e))
    ∙ payload_in-payload_of d
