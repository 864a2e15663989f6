-- ===== src/Nodes/Http/Handler.antt =====
-- The handler of orchestrator/nodes/http/index.js. The template engine, the parsers, and what the request
-- comes to are parameters; a `url` or `method` of the message is a text where it is there.
use flowbroker.Prelude.{String, Bool, not, ◌&&◌, Option, none, some, ◌==◌, if◌then◌else◌}
use flowbroker.Prelude.Letters.{to_upper_case}
use flowbroker.Json.{Value, str, obj, Fields, get_field}
use flowbroker.Executor.{Handled, rejected, threw}
use flowbroker.Nodes.Base
use flowbroker.Nodes.Base.{Got, got, unknown_property, get_type_error}
use flowbroker.Nodes.Http.{test_url, HttpRequest, Opts, Texts, handle_message_request}
use flowbroker.Nodes.Http.Response.{Answered, Formats, resolve_request}

pub record HttpConfig : Type 0 where
  pub url : String
  pub method : String
  pub ret : String
  pub body : String
  pub response : String

pub record HttpEngines : Type 0 where
  -- `JSON.parse` of a value, to an object whose headers are one.
  pub parse_request : Value → Option HttpRequest
  -- mustache; `none` where it throws.
  pub render : String → Value → Option String
  -- `indexOf("{{") !== -1`
  pub is_template : String → Bool
  pub texts : Texts
  pub formats : Formats

-- A request that is made: its URL, the options and the payload.
pub record Sent : Type 0 where
  pub url : String
  pub method : String
  pub opts : Opts
  pub payload : Option String

-- The handler rejects, throws, or makes a request.
pub data Prepared : Type 0 where
  refuses : Prepared
  throws : Prepared
  sends : Sent → Prepared

-- A property of the message that is a text.
abbrev text_of : String → Fields → String
text_of key fs = elim (get_field key fs) [ some (str s) ↦ s | _ ↦ "" ]

abbrev or_default : String → String → String
or_default s d = if s == "" then d else s

module _ (engines : HttpEngines) where
  -- The URL: rendered where it is a template, else as configured or as in the message.
  unfoldable pub url_of : HttpConfig → Fields → Option String
  unfolding get_field
  url_of config fs =
      if engines.is_template config.url
      then engines.render config.url (obj fs)
      else some (or_default config.url (text_of "url" fs))

  unfoldable pub method_of : HttpConfig → Fields → String
  unfolding get_field to_upper_case
  method_of config fs =
      if not (text_of "method" fs == "") && config.method == "use"
      then to_upper_case (text_of "method" fs)
      else to_upper_case (or_default config.method "GET")

  -- The request in the message's body.
  unfoldable pub request_of : HttpConfig → Fields → Option HttpRequest
  request_of config fs = elim (Base.get config.body (obj fs)) [
    | got v ↦ engines.parse_request v
    | unknown_property ↦ none
    | get_type_error ↦ none
  ]

  -- The check of the URL, and the request.
  unfoldable pub to_send : String → HttpConfig → Fields → HttpRequest → Prepared
  unfolding test_url handle_message_request method_of
  to_send url config fs request =
      let (check_url, url') = test_url url in
      let (payload, opts) = handle_message_request engines.texts (method_of config fs) request in
      if check_url
      then sends
          (record { url = url'; method = method_of config fs; opts = opts; payload = payload })
      else refuses

  -- handleMessage, up to the call of resolveRequest, for a message that is an object.
  unfoldable pub prepare : HttpConfig → Fields → Prepared
  unfolding to_send
  prepare config fs = elim (request_of config fs) [
    | none ↦ refuses
    | some request ↦ elim (url_of config fs) [
      | none ↦ throws
      | some url ↦ if url == "" then refuses else to_send url config fs request
    ]
  ]

  -- handleMessage, with what the request comes to; `none` where a callback of the request throws.
  unfoldable pub handle_message : (Sent → Answered) → HttpConfig → Fields → Option (Handled Value)
  unfolding prepare resolve_request
  handle_message answer config fs = elim (prepare config fs) [
    | refuses ↦ some rejected
    | throws ↦ some threw
    | sends s ↦
        resolve_request engines.formats (or_default config.ret "txt") config.response (obj fs)
          (answer s)
  ]
