-- ===== src/Remote/Calls.antt =====
-- What a call of a remote node comes to.
use flowbroker.Prelude.{String, true, none, some, ◌≡◌, ◌≢◌, refl, ap, ◌∙◌, ==-ne}
use flowbroker.Json.{Value, str, arr, obj, nil, Items, end, field, own, get_field}
use flowbroker.Nodes.Outcomes.{truthy_value}
use flowbroker.Remote.{
  HandlerEnd, returned, failed_with, RemoteHandler, check_field_of, or_no_messages, handle_message,
  handle_request, answer_payload, on_packet, remote_resolves, remote_rejects, take_reply,
  take_answer, packet_of, message_command, remote_call,
}

-- What the executor gives to a node, all of it truthy.
abbrev pub Given : (config message metadata : Value) → Type 0
Given config message metadata =
    (truthy_value config ≡ true) × (truthy_value message ≡ true) × (truthy_value metadata ≡ true)

read_command :
    (config message metadata : Value)
    → check_field_of "command" (message_command config message metadata) ≡ some (str "message")
unfolding check_field_of own get_field
read_command config message metadata = refl

read_fields :
    (config message metadata : Value)
    → Given config message metadata
    → (check_field_of "config" (message_command config message metadata) ≡ some config)
      × (check_field_of "message" (message_command config message metadata) ≡ some message)
      × (check_field_of "metadata" (message_command config message metadata) ≡ some metadata)
unfolding check_field_of own get_field
read_fields config message metadata (c, m, d) =
    (rw (c, check_field_of) refl, rw (m, check_field_of) refl, rw (d, check_field_of) refl)

-- The handler's result, as _handleMessage passes it on.
abbrev passed_on : HandlerEnd → HandlerEnd
passed_on (returned r) = returned (some (or_no_messages r))
passed_on (failed_with e) = failed_with e

-- The request reaches the handler with what was sent.
handle_message-passed_on :
    (handler : RemoteHandler) (config message metadata : Value)
    → Given config message metadata
    → handle_message handler (message_command config message metadata)
      ≡ passed_on (handler.message config message metadata)
unfolding handle_message
handle_message-passed_on handler config message metadata g =
    let r = read_fields config message metadata g in rw (r.0, r.1, r.2, handle_message) refl

handle_request-message :
    (handler : RemoteHandler) (config message metadata : Value)
    → handle_request handler (message_command config message metadata)
      ≡ handle_message handler (message_command config message metadata)
unfolding handle_request
handle_request-message handler config message metadata =
    rw (read_command config message metadata, handle_request) refl

pub text_truthy : (s : String) → s ≢ "" → truthy_value (str s) ≡ true
text_truthy s h = rw (==-ne s "" h) refl

read_packet :
    (id : String) (payload : Value)
    → id ≢ ""
    → truthy_value payload ≡ true
    → (check_field_of "requestId" (packet_of id payload) ≡ some (str id))
      × (check_field_of "payload" (packet_of id payload) ≡ some payload)
unfolding check_field_of own get_field
read_packet id payload i t =
    (rw (text_truthy id i, check_field_of) refl, rw (t, check_field_of) refl)

-- The answer to a packet with an id.
pub on_packet-answer :
    (handler : RemoteHandler) (id : String) (payload v : Value)
    → id ≢ ""
    → truthy_value payload ≡ true
    → answer_payload (handle_request handler payload) ≡ some v
    → on_packet handler (packet_of id payload)
      ≡ some (obj (field "payload" v (field "requestId" (str id) end)))
unfolding on_packet
on_packet-answer handler id payload v i t a =
    let r = read_packet id payload i t in rw (r.0, r.1, a, on_packet) refl

take_answer-payload :
    (v id : Value)
    → take_answer (some (obj (field "payload" v (field "requestId" id end)))) ≡ take_reply v
unfolding take_answer own get_field
take_answer-payload v id = refl

-- A call, for what the handler's result becomes as a payload.
remote_call-take_reply :
    (handler : RemoteHandler) (id : String) (config message metadata v : Value)
    → id ≢ ""
    → Given config message metadata
    → answer_payload (passed_on (handler.message config message metadata)) ≡ some v
    → remote_call handler id config message metadata ≡ take_reply v
unfolding remote_call
remote_call-take_reply handler id config message metadata v i g a =
    let command = message_command config message metadata in
    let end' =
      handle_request-message handler config message metadata
      ∙ handle_message-passed_on handler config message metadata g in
    ap take_answer (on_packet-answer handler id command v i refl (ap answer_payload end' ∙ a))
    ∙ take_answer-payload v (str id)

take_reply-list : (xs : Items) → take_reply (arr xs end) ≡ remote_resolves (arr xs end)
unfolding take_reply own get_field
take_reply-list xs = refl

take_reply-error :
    (e : Value)
    → truthy_value e ≡ true
    → take_reply (obj (field "error" e end)) ≡ remote_rejects (some e)
unfolding take_reply own get_field
take_reply-error e t = rw (t, take_reply) refl

-- A call of a remote node, under an id, with a configuration, a message and metadata that are truthy: where
-- the handler in the container returns a list of messages the call resolves with it, and with no message
-- where it returns nothing; and where the handler rejects with an error that is truthy in JSON, so does
-- the call.
pub remote_call_lem :
    (handler : RemoteHandler) (id : String) (config message metadata : Value)
    → id ≢ ""
    → Given config message metadata
    → ((xs : Items)
        → handler.message config message metadata ≡ returned (some (arr xs end))
        → remote_call handler id config message metadata ≡ remote_resolves (arr xs end))
      × (handler.message config message metadata ≡ returned none
          → remote_call handler id config message metadata ≡ remote_resolves (arr nil end))
      × ((e : Value)
          → handler.message config message metadata ≡ failed_with e
          → truthy_value e ≡ true
          → remote_call handler id config message metadata ≡ remote_rejects (some e))
remote_call_lem handler id config message metadata i g = (
  λ xs h.
      remote_call-take_reply handler id config message metadata (arr xs end) i g (rw h refl)
      ∙ take_reply-list xs,
  λ h.
      remote_call-take_reply handler id config message metadata (arr nil end) i g (rw h refl)
      ∙ take_reply-list nil,
  λ e h t.
      remote_call-take_reply handler id config message metadata (obj (field "error" e end)) i g
        (rw h refl)
      ∙ take_reply-error e t,
)
