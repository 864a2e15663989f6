-- ===== src/Flow/Store.antt =====
-- FlowManager.create and FlowManager.set of orchestrator/flowManager.js: the document that they give
-- to the collection. The new id, and the old document that `get` finds, are arguments; the times of
-- creation and of the update are left out.
pub mod Documents
use flowbroker.Prelude.{
  String, Bool, true, false, Option, none, some, List, [], ◌∷◌, ◌==◌, if◌then◌else◌,
}
use flowbroker.Flow.Nodes.{Node, ParsedFlow}
use flowbroker.Flow.Parse.{ParseError, Parsed, ok, err, parse}

-- The field `enabled` of a request's JSON: undefined or null, a boolean, or another value, of which
-- the code asks whether it is truthy.
pub data Enabled : Type 0 where
  missing : Enabled
  boolean : Bool → Enabled
  other : (truthy : Bool) → Enabled

-- A flow's document, without `nodes`.
pub record Document : Type 0 where
  pub id : String
  pub label : String
  pub enabled : Enabled
  pub heads : List String
  pub devices : List (Option String)
  pub templates : List (Option String)
  pub red : List Node

pub data FlowError : Type 0 where
  no_label bad_enabled bad_flow : FlowError
  parse_error : ParseError → FlowError

pub data Written : Type 0 where
  stored : Document → Written
  refused : FlowError → Written

-- The value of `enabled` that `create` stores, if it takes it. (No JSON value is an instance of
-- String, so that branch of the code is never taken.)
unfoldable pub enabled_val : Enabled → Option Bool
enabled_val missing = some true
enabled_val (boolean b) = some b
enabled_val (other truthy) = none

unfoldable pub with_parsed : Document → ParsedFlow → Document
with_parsed d p = record d {
  heads = p.heads;
  devices = p.devices;
  templates = p.templates;
  red = p.red;
}

abbrev pub empty_document : String → String → Bool → Document
empty_document id label enabled = record {
  id = id;
  label = label;
  enabled = boolean enabled;
  heads = [];
  devices = [];
  templates = [];
  red = [];
}

-- A text that is there and not empty.
abbrev given : Option String → Option String
given none = none
given (some s) = if s == "" then none else some s

-- Any exception of `parse` is an invalid flow here; a missing flow makes it throw.
unfoldable pub create_parsed : String → String → Bool → Option (List Node) → Written
unfolding with_parsed
create_parsed id label enabled none = refused bad_flow
create_parsed id label enabled (some flow) = elim (parse flow) [
  | err e ↦ refused bad_flow
  | ok p ↦ stored (with_parsed (empty_document id label enabled) p)
]

-- `create`, with the UUID that it draws.
unfoldable pub create : String → Option String → Enabled → Option (List Node) → Written
unfolding create_parsed enabled_val
create id label enabled flow = elim (given label) [
  | none ↦ refused no_label
  | some text ↦ elim (enabled_val enabled) [
    | none ↦ refused bad_enabled
    | some b ↦ create_parsed id text b flow
  ]
]

abbrev is_truthy : Enabled → Bool
is_truthy missing = false
is_truthy (boolean b) = b
is_truthy (other truthy) = truthy

-- `if (label) …; if (enabled) …`
unfoldable pub set_fields : Option String → Enabled → Document → Document
set_fields label enabled d = record d {
  label = elim (given label) [ none ↦ d.label | some text ↦ text ];
  enabled = if is_truthy enabled then enabled else d.enabled;
}

-- `set`, for the document that `get` found.
unfoldable pub set : Document → Option String → Enabled → Option (List Node) → Written
unfolding with_parsed set_fields
set old label enabled none = stored (set_fields label enabled old)
set old label enabled (some flow) = elim (parse flow) [
  | err e ↦ refused (parse_error e)
  | ok p ↦ stored (set_fields label enabled (with_parsed old p))
]
