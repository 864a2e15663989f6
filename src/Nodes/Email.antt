-- ===== src/Nodes/Email.antt =====
-- The handler of orchestrator/nodes/email/index.js. The texts of values, the pattern of a tag, and what
-- sending a mail comes to are parameters.
use flowbroker.Prelude.{String, Bool, ◌&&◌, Option, none, some, List, [], ◌∷◌, if◌then◌else◌}
use flowbroker.Json.{Value, str, found, missing, type_error, own}
use flowbroker.Executor.{Handled, rejected, threw}
use flowbroker.Nodes.Base
use flowbroker.Nodes.Base.{Got, got, unknown_property, get_type_error}
use flowbroker.Nodes.Outcomes.{nothing_sent, truthy_value}

pub record Credentials : Type 0 where
  pub userid : Value
  pub password : Value

-- A field that is undefined is none.
pub record EmailConfig : Type 0 where
  pub subject : Option Value
  pub to : Option Value
  pub from : Option Value
  pub body : String
  pub credentials : Option Credentials

-- sendopts, and the user and password of the transport.
pub record Mail : Type 0 where
  pub subject : Option Value
  pub to : Option Value
  pub from : Value
  pub envelope : Option Value
  pub text : String
  pub html : Option String
  pub auth : Option Credentials

pub record MailService : Type 0 where
  -- `JSON.stringify` of an object, else the text of a value that is no text.
  pub text_of_value : Value → String
  -- `/<[a-z][\s\S]*>/i`
  pub has_tag : String → Bool
  -- Is the mail sent?
  pub send : Mail → Bool

-- `a || b`
abbrev either_of : Option Value → Option Value → Option Value
either_of none b = b
either_of (some a) b = if truthy_value a then some a else b

-- `message[key]`, none where it is not there.
abbrev property_of : String → Value → Option Value
property_of key message = elim (own key message) [ found v ↦ some v | _ ↦ none ]

abbrev value_or : Option Value → Value → Value
value_or none d = d
value_or (some v) d = if truthy_value v then v else d

-- ensureString
unfoldable pub ensure_string : MailService → Value → String
ensure_string service (str s) = s
ensure_string service v = service.text_of_value v

-- The credentials that are used: both parts have to be truthy.
abbrev usable : Option Credentials → Option Credentials
usable none = none
usable (some c) = if truthy_value c.userid && truthy_value c.password then some c else none

unfoldable pub mail_of : MailService → EmailConfig → Value → Value → Mail
unfolding ensure_string
mail_of service config message body = record {
  subject = config.subject;
  to = either_of config.to (property_of "to" message);
  from = value_or (either_of (property_of "from" message) config.from) (str "dojot@noemail.com");
  envelope = property_of "envelope" message;
  text = ensure_string service body;
  html =
      if service.has_tag (ensure_string service body)
      then some (ensure_string service body)
      else none;
  auth = usable config.credentials;
}

-- handleMessage: the mails that it sends, and its result.
unfoldable pub handle_message : MailService → EmailConfig → Value → List Mail × Handled Value
unfolding mail_of
handle_message service config message = elim (own "payload" message) [
  | type_error ↦ ([], threw)
  | missing ↦ ([], rejected)
  | found payload ↦ elim (Base.get config.body message) [
    | unknown_property ↦ ([], rejected)
    | get_type_error ↦ ([], rejected)
    | got body ↦
        let mail = mail_of service config message body in
        (mail ∷ [], if service.send mail then nothing_sent else rejected)
  ]
]
