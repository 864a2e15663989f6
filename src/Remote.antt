-- ===== src/Remote.antt =====
-- A call of a node in its own container: orchestrator/nodes/remoteNode/index.js makes a request of it, and
-- lib/DojotHandler.js answers. What is sent as JSON arrives as itself, but for errors.
pub mod Calls
pub mod Init
mod Tests
use flowbroker.Prelude.{String, Bool, true, false, Option, none, some, ◌==◌, if◌then◌else◌}
use flowbroker.Json.{
  Value, null, str, arr, obj, nil, end, field, Own, found, missing, type_error, own,
}
use flowbroker.Nodes.Outcomes.{truthy_value}

-- What a handler's promise comes to: a result, `none` for undefined, or an error, as it is in JSON.
pub data HandlerEnd : Type 0 where
  returned : Option Value → HandlerEnd
  failed_with : Value → HandlerEnd

-- The handler of the node, in its container; `none` where a method throws or rejects.
pub record RemoteHandler : Type 0 where
  pub html : Option Value
  pub metadata : Option Value
  pub locale_data : Value → Option Value
  pub message : (config message metadata : Value) → HandlerEnd

-- An exception of the code, which is an object without fields in JSON.
abbrev pub exception : Value
exception = obj end

-- checkField: the field, if it is there and truthy.
unfoldable pub check_field_of : String → Value → Option Value
check_field_of key target = elim (own key target) [
  | found v ↦ if truthy_value v then some v else none
  | missing ↦ none
  | type_error ↦ none
]

-- `{ payload: value }`
abbrev pub payload_of : Value → Value
payload_of v = obj (field "payload" v end)

abbrev answer_or_fail : Option Value → HandlerEnd
answer_or_fail none = failed_with exception
answer_or_fail (some v) = returned (some (payload_of v))

-- `!result`, which becomes an empty list.
abbrev pub or_no_messages : Option Value → Value
or_no_messages none = arr nil end
or_no_messages (some v) = if truthy_value v then v else arr nil end

-- The payload of the answer: the result, or `{ error }`.
abbrev pub answer_payload : HandlerEnd → Option Value
answer_payload (returned r) = r
answer_payload (failed_with e) = some (obj (field "error" e end))

module _ (handler : RemoteHandler) where
  -- _handleMessage
  unfoldable pub handle_message : Value → HandlerEnd
  unfolding check_field_of
  handle_message data' = elim (check_field_of "config" data') [
    | none ↦ failed_with exception
    | some config ↦ elim (check_field_of "message" data') [
      | none ↦ failed_with exception
      | some message ↦ elim (check_field_of "metadata" data') [
        | none ↦ failed_with exception
        | some metadata ↦ elim (handler.message config message metadata) [
          | returned r ↦ returned (some (or_no_messages r))
          | failed_with e ↦ failed_with e
        ]
      ]
    ]
  ]

  -- _handleLocale: a locale without data is answered with an empty object.
  unfoldable pub handle_locale : Value → HandlerEnd
  unfolding check_field_of
  handle_locale data' = elim (check_field_of "locale" data') [
    | none ↦ failed_with exception
    | some locale ↦ elim (handler.locale_data locale) [
      | none ↦ returned (some (obj end))
      | some v ↦ returned (some (payload_of v))
    ]
  ]

  -- _handleRequest
  unfoldable pub handle_request : Value → HandlerEnd
  unfolding check_field_of handle_message handle_locale
  handle_request request = elim (check_field_of "command" request) [
    | some (str command) ↦
        if command == "locale"
        then handle_locale request
        else if command == "metadata"
        then answer_or_fail handler.metadata
        else if command == "message"
        then handle_message request
        else if command == "html"
        then answer_or_fail handler.html
        else failed_with exception
    | _ ↦ failed_with exception
  ]

  -- The `message` callback, for a packet that is JSON: the answer, if it sends one.
  unfoldable pub on_packet : Value → Option Value
  unfolding check_field_of handle_request
  on_packet request = elim (check_field_of "requestId" request) [
    | none ↦ none
    | some id ↦ elim (check_field_of "payload" request) [
      | none ↦ none
      | some payload ↦ elim (answer_payload (handle_request payload)) [
        | none ↦ some (obj (field "requestId" id end))
        | some v ↦ some (obj (field "payload" v (field "requestId" id end)))
      ]
    ]
  ]

-- What `handleMessage` of the remote node comes to; a request without an answer waits.
pub data RemoteEnd : Type 0 where
  remote_resolves : Value → RemoteEnd
  remote_rejects : Option Value → RemoteEnd
  remote_waits : RemoteEnd

-- `Array.isArray(reply)`
abbrev by_kind : Value → RemoteEnd
by_kind (arr xs fs) = remote_resolves (arr xs fs)
by_kind v = remote_rejects none

-- The `then` of handleMessage: an error, a list of messages, or an invalid response.
unfoldable pub take_reply : Value → RemoteEnd
take_reply reply = elim (own "error" reply) [
  | type_error ↦ remote_rejects none
  | found e ↦ if truthy_value e then remote_rejects (some e) else by_kind reply
  | missing ↦ by_kind reply
]

-- The answer's payload reaches the promise that sendRequest gave out.
unfoldable pub take_answer : Option Value → RemoteEnd
unfolding take_reply
take_answer none = remote_waits
take_answer (some response) = elim (own "payload" response) [
  | found reply ↦ take_reply reply
  | missing ↦ remote_rejects none
  | type_error ↦ remote_waits
]

-- The request that sendRequest makes, with its id.
abbrev pub packet_of : String → Value → Value
packet_of id payload = obj (field "requestId" (str id) (field "payload" payload end))

-- The command of handleMessage.
abbrev pub message_command : (config message metadata : Value) → Value
message_command config message metadata = obj (
    field "command" (str "message")
      (field "message" message (field "config" config (field "metadata" metadata end))))

-- handleMessage of the remote node, through the container and back.
unfoldable pub remote_call : RemoteHandler → String → (config message metadata : Value) → RemoteEnd
unfolding on_packet take_answer
remote_call handler id config message metadata =
    take_answer (on_packet handler (packet_of id (message_command config message metadata)))

-- What init and getLocaleData get of an answer: the payload of the reply, `none` for undefined.
pub data Fetched : Type 0 where
  fetched : Option Value → Fetched
  fetch_rejects fetch_waits : Fetched

-- `reply.payload`
unfoldable pub payload_in : Value → Fetched
payload_in reply = elim (own "payload" reply) [
  | found v ↦ fetched (some v)
  | missing ↦ fetched none
  | type_error ↦ fetch_rejects
]

-- A reply that is undefined has no fields.
unfoldable pub take_payload : Option Value → Fetched
unfolding payload_in
take_payload none = fetch_waits
take_payload (some response) = elim (own "payload" response) [
  | found reply ↦ payload_in reply
  | missing ↦ fetch_rejects
  | type_error ↦ fetch_waits
]

abbrev pub plain_command : String → Value
plain_command command = obj (field "command" (str command) end)

abbrev pub locale_command : String → Value
locale_command locale = obj (field "command" (str "locale") (field "locale" (str locale) end))

-- A request of the node's container.
unfoldable pub fetch : RemoteHandler → String → Value → Fetched
unfolding on_packet take_payload
fetch handler id command = take_payload (on_packet handler (packet_of id command))

-- The fields that init sets: the metadata, and the page, which it writes to a file.
pub record RemoteNode : Type 0 where
  pub metadata : Option Value
  pub page : Option Value

-- What init comes to; `writes` tells whether the page can be written.
pub data InitEnd : Type 0 where
  initialized init_rejects init_waits : InitEnd

unfoldable pub write_page : (Option Value → Bool) → Fetched → RemoteNode → InitEnd × RemoteNode
write_page writes (fetched page) node =
    if writes page then (initialized, record node { page = page }) else (init_rejects, node)
write_page writes fetch_rejects node = (init_rejects, node)
write_page writes fetch_waits node = (init_waits, node)

unfoldable pub behind_metadata :
    RemoteHandler → String → (Option Value → Bool) → Fetched → RemoteNode → InitEnd × RemoteNode
unfolding write_page fetch
behind_metadata handler id writes (fetched meta) node =
    write_page writes (fetch handler id (plain_command "html")) (record node { metadata = meta })
behind_metadata handler id writes fetch_rejects node = (init_rejects, node)
behind_metadata handler id writes fetch_waits node = (init_waits, node)

-- init, with the ids of its two requests.
unfoldable pub init :
    RemoteHandler → (id id' : String) → (Option Value → Bool) → RemoteNode → InitEnd × RemoteNode
unfolding behind_metadata fetch
init handler id id' writes node =
    behind_metadata handler id' writes (fetch handler id (plain_command "metadata")) node

-- getLocaleData
unfoldable pub get_locale_data : RemoteHandler → String → String → Fetched
unfolding fetch
get_locale_data handler id locale = fetch handler id (locale_command locale)
