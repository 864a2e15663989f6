-- ===== src/Flow/Store/Documents.antt =====
-- What the documents of flows keep.
use flowbroker.Prelude.{
  String, ◌≡◌, refl, ap, ◌∙◌, inl, inr, Bool, false, Option, none, some, List, ◌==◌, Bool-cases,
  Option-cases,
}
use flowbroker.Flow.Nodes.{Node, ParsedFlow}
use flowbroker.Flow.Parse.{ok, parse}
use flowbroker.Flow.Parse.Heads.{parse-Loop, Parsed-cases}
use flowbroker.Flow.Store.{
  Enabled, boolean, Document, Written, stored, refused, enabled_val, with_parsed, empty_document,
  create_parsed, create, set_fields, set,
}

-- The document is what `parse` makes of the nodes that it stores.
pub record Matches (d : Document) : Type 0 where
  pub parsed : ParsedFlow
  pub accepted : parse d.red ≡ ok parsed
  pub same_heads : d.heads ≡ parsed.heads
  pub same_devices : d.devices ≡ parsed.devices
  pub same_templates : d.templates ≡ parsed.templates

-- What a write leaves is such a document, if anything.
abbrev pub Keeps : Written → Type 0
Keeps (refused e) = Unit
Keeps (stored d) = Matches d

with_parsed-Matches :
    (d : Document) (flow : List Node) (p : ParsedFlow)
    → parse flow ≡ ok p
    → Matches (with_parsed d p)
unfolding with_parsed
with_parsed-Matches d flow p h =
    let (heads, red, good) = parse-Loop flow p h in
    record {
      parsed = p;
      accepted = ap parse red ∙ h;
      same_heads = refl;
      same_devices = refl;
      same_templates = refl;
    }

set_fields-Matches :
    (label : Option String) (enabled : Enabled) (d : Document)
    → Matches d
    → Matches (set_fields label enabled d)
unfolding set_fields
set_fields-Matches label enabled d m = record {
  parsed = m.parsed;
  accepted = m.accepted;
  same_heads = m.same_heads;
  same_devices = m.same_devices;
  same_templates = m.same_templates;
}

create_parsed-Keeps :
    (id label : String) (b : Bool) (flow : Option (List Node))
    → Keeps (create_parsed id label b flow)
unfolding create_parsed
create_parsed-Keeps id label b none = tt
create_parsed-Keeps id label b (some flow) = elim (Parsed-cases (parse flow)) [
  | inl (e, h) ↦ rw (h, create_parsed) tt
  | inr (p, h) ↦ rw (h, create_parsed) (with_parsed-Matches (empty_document id label b) flow p h)
]

create-Keeps :
    (id : String) (label : Option String) (enabled : Enabled) (flow : Option (List Node))
    → Keeps (create id label enabled flow)
unfolding create enabled_val
create-Keeps id none enabled flow = tt
create-Keeps id (some l) enabled flow = elim (Bool-cases (l == "")) [
  | inl e ↦ rw (e, create) tt
  | inr e ↦ elim (Option-cases (enabled_val enabled)) [
    | inl v ↦ rw (e, v, create) tt
    | inr (b, v) ↦ rw (e, v, create) (create_parsed-Keeps id l b flow)
  ]
]

set-Keeps :
    (old : Document) (label : Option String) (enabled : Enabled) (flow : Option (List Node))
    → Matches old
    → Keeps (set old label enabled flow)
unfolding set
set-Keeps old label enabled none m = set_fields-Matches label enabled old m
set-Keeps old label enabled (some flow) m = elim (Parsed-cases (parse flow)) [
  | inl (e, h) ↦ rw (h, set) tt
  | inr (p, h) ↦ rw (h, set) (set_fields-Matches label enabled _ (with_parsed-Matches old flow p h))
]

-- What `create` stores, and what `set` makes of such a document, whatever the request has: the heads,
-- devices and templates are those that `parse` finds in the stored nodes.
pub document-Matches :
    (id : String) (old : Document) (label : Option String) (enabled : Enabled)
    (flow : Option (List Node))
    → Matches old
    → Keeps (create id label enabled flow) × Keeps (set old label enabled flow)
document-Matches id old label enabled flow m =
    (create-Keeps id label enabled flow, set-Keeps old label enabled flow m)

-- The value of `enabled` behind a write.
abbrev pub IsEnabled : Enabled → Written → Type 0
IsEnabled v (refused e) = Unit
IsEnabled v (stored d) = d.enabled ≡ v

-- `set` with `enabled: false` leaves a flow as enabled as it was: no update disables one.
pub set-IsEnabled :
    (old : Document) (label : Option String) (flow : Option (List Node))
    → IsEnabled old.enabled (set old label (boolean false) flow)
unfolding set set_fields with_parsed
set-IsEnabled old label none = refl
set-IsEnabled old label (some flow) = elim (Parsed-cases (parse flow)) [
  | inl (e, h) ↦ rw (h, set) tt
  | inr (p, h) ↦ rw (h, set) refl
]
