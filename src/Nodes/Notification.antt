-- ===== src/Nodes/Notification.antt =====
-- The handlers of orchestrator/nodes/notification/index.js and publish-ftp/index.js, which publish one
-- message for Kafka. Its id and time are left out.
use flowbroker.Prelude.{
  String, true, Option, none, some, List, [], ◌∷◌, ◌==◌, if◌then◌else◌, ◌≡◌, ◌≢◌, ◌⊎◌, inl, inr,
  refl, Option-cases, same_text, ==-ne, none≢some, some-inj, ap, sym, ◌∙◌,
}
use flowbroker.Json.{Value, null, boolean, num, str, arr, obj, Fields, end, get_field, put_field}
use flowbroker.Executor.{Handled, rejected}
use flowbroker.Nodes.Base
use flowbroker.Nodes.Base.{Got, got, unknown_property, get_type_error}
use flowbroker.Nodes.Outcomes.{nothing_sent}

pub record NotificationConfig : Type 0 where
  pub source : String
  pub msg_type : String
  pub message_dynamic : String
  pub message_static : Value

-- What is published: the tenant, the text and the metadata.
pub record Notice : Type 0 where
  pub tenant : String
  pub message : String
  pub meta : Value

abbrev read_field : String → Value → Option Value
read_field path message = elim (Base.get path message) [
  | got v ↦ some v
  | unknown_property ↦ none
  | get_type_error ↦ none
]

-- `meta`, an object as it is if no source is configured.
unfoldable pub meta_of : NotificationConfig → Value → Option Value
meta_of config message =
    if config.source == "" then some (obj end) else read_field config.source message

unfoldable pub content_message : NotificationConfig → Value → Option Value
content_message config message =
    if config.msg_type == "dynamic"
    then read_field config.message_dynamic message
    else some config.message_static

-- `shouldPersist` is true where the metadata does not say it.
abbrev with_persist : Fields → Fields
with_persist fs = elim (get_field "shouldPersist" fs) [
  | none ↦ put_field "shouldPersist" (boolean true) fs
  | some v ↦ fs
]

-- The checks of the metadata and of the text.
unfoldable pub checked_notice : String → Value → Value → Option Notice
unfolding get_field put_field
checked_notice tenant (obj fs) (str s) =
    if s == ""
    then none
    else some (record { tenant = tenant; message = s; meta = obj (with_persist fs) })
checked_notice tenant _ _ = none

-- handleMessage of the notification node: what it publishes, and its result.
unfoldable pub notify : NotificationConfig → Value → String → List Notice × Handled Value
unfolding meta_of content_message checked_notice
notify config message tenant = elim (meta_of config message) [
  | none ↦ ([], rejected)
  | some meta ↦ elim (content_message config message) [
    | none ↦ ([], rejected)
    | some content ↦ elim (checked_notice tenant meta content) [
      | none ↦ ([], rejected)
      | some notice ↦ (notice ∷ [], nothing_sent)
    ]
  ]
]

pub record PublishFtpConfig : Type 0 where
  pub filecontent : String
  pub encode : Value
  pub filename : String

-- The file that is published.
pub record FtpFile : Type 0 where
  pub tenant : String
  pub filename : Value
  pub encoding : Value
  pub content : Value

-- A field of the message, an empty text where none is configured.
unfoldable pub extracted : String → Value → Option Value
extracted path message = if path == "" then some (str "") else read_field path message

-- handleMessage of the publish-ftp node.
unfoldable pub publish_ftp : PublishFtpConfig → Value → String → List FtpFile × Handled Value
unfolding extracted
publish_ftp config message tenant = elim (extracted config.filecontent message) [
  | none ↦ ([], rejected)
  | some content ↦ elim (extracted config.filename message) [
    | none ↦ ([], rejected)
    | some filename ↦ (
      record { tenant = tenant; filename = filename; encoding = config.encode; content = content }
          ∷ [],
      nothing_sent,
    )
  ]
]

-- A notice that passes the checks: the text is the content, and not empty.
checked_notice_lem :
    (tenant : String) (meta content : Value) (n : Notice)
    → checked_notice tenant meta content ≡ some n
    → (n.tenant ≡ tenant) × (n.message ≢ "") × (content ≡ str n.message)
unfolding checked_notice
checked_notice_lem tenant (obj fs) (str s) n h = elim (same_text s "") [
  | inl e ↦ absurd (none≢some (rw (e, checked_notice) at h))
  | inr ne ↦
      let e = some-inj (rw (==-ne s "" ne, checked_notice) at h) in
      (
        ap (λ (x : Notice). x.tenant) (sym e),
        λ z. ne (ap (λ (x : Notice). x.message) e ∙ z),
        ap (λ (x : Notice). str x.message) e,
      )
]
checked_notice_lem tenant (obj fs) null n h = absurd (none≢some h)
checked_notice_lem tenant (obj fs) (boolean b) n h = absurd (none≢some h)
checked_notice_lem tenant (obj fs) (num k) n h = absurd (none≢some h)
checked_notice_lem tenant (obj fs) (arr xs gs) n h = absurd (none≢some h)
checked_notice_lem tenant (obj fs) (obj gs) n h = absurd (none≢some h)
checked_notice_lem tenant null content n h = absurd (none≢some h)
checked_notice_lem tenant (boolean b) content n h = absurd (none≢some h)
checked_notice_lem tenant (num k) content n h = absurd (none≢some h)
checked_notice_lem tenant (str s) content n h = absurd (none≢some h)
checked_notice_lem tenant (arr xs gs) content n h = absurd (none≢some h)

-- The notification node publishes one notice for the tenant, with the configured text or that of the
-- message, which is not empty, and hands nothing on; or it publishes none, and rejects.
pub notify_lem :
    (config : NotificationConfig) (message : Value) (tenant : String)
    → (notify config message tenant ≡ ([], rejected))
      ⊎ ((n : Notice) × (notify config message tenant ≡ (n ∷ [], nothing_sent))
          × (n.tenant ≡ tenant)
          × (n.message ≢ "")
          × (content_message config message ≡ some (str n.message)))
unfolding notify
notify_lem config message tenant = elim (Option-cases (meta_of config message)) [
  | inl e ↦ inl (rw (e, notify) refl)
  | inr (meta, e) ↦ elim (Option-cases (content_message config message)) [
    | inl f ↦ inl (rw (e, f, notify) refl)
    | inr (content, f) ↦ elim (Option-cases (checked_notice tenant meta content)) [
      | inl g ↦ inl (rw (e, f, g, notify) refl)
      | inr (n, g) ↦
          let (t, m, c) = checked_notice_lem tenant meta content n g in
          inr (n, rw (e, f, g, notify) refl, t, m, f ∙ ap some c)
    ]
  ]
]
