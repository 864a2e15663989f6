-- ===== src/Nodes/Tests.antt =====
-- The theorems about the nodes at small messages.
use flowbroker.Prelude.{String, arith, ◌≡◌, ◌≢◌, refl, true, false, none, some, List, [], ◌∷◌, map}
use flowbroker.Prelude.Int.{ℤ, pos, negsuc, ◌-ℤ◌, int_laws}
use flowbroker.Json.{Value, num, obj, Fields, end, field, own, assign, put_field, get_field}
use flowbroker.Nodes.Base.{pieces, got, get, set, set_path}
use flowbroker.Nodes.Base.Paths.{FirstKey, get-set}
use flowbroker.Nodes.CumulativeSum.{SumEntry, SumContext, fresh}
use flowbroker.Nodes.CumulativeSum.Window.{Ordered, Positive, total, from}
use flowbroker.Nodes.CumulativeSum.Runs.{run, last_threshold, run-fresh}
use flowbroker.Json.{str, arr, nil, cons}
use flowbroker.Nodes.Publish.{
  OutConfig, OutMetadata, device_event, configure_event, multi_device_out, multi_actuate,
}
use flowbroker.Nodes.Publish.Targets.{IsAnswer, multi_out-IsAnswer}
use flowbroker.Nodes.Numbers.{number_of, number_of_text, int_text}
use flowbroker.Nodes.Switch.{
  js, promise, undefined, less_than, at_most, Engines, Rule, SwitchConfig, strictly_equal,
  handle_message,
}
use flowbroker.Nodes.Switch.Routes.{IsSwitched, handle_message-IsSwitched}

abbrev fields : Fields
fields = field "data" (obj (field "attrs" (obj end) end)) end

abbrev written : Value
written = obj (field "data" (obj (field "attrs" (obj (field "level" (num (pos 7)) end)) end)) end)

set_level : set "data.attrs.level" (num (pos 7)) (obj fields) ≡ some written
unfolding set set_path pieces own assign put_field get_field
set_level = refl

get-set_example :
    (get "data.attrs.level" written ≡ got (num (pos 7)))
    × ((key other other_field : String)
        → FirstKey key "data.attrs.level"
        → FirstKey other other_field
        → key ≢ other
        → get other_field written ≡ get other_field (obj fields))
get-set_example = get-set "data.attrs.level" (num (pos 7)) fields written set_level

abbrev event : ℤ → ℤ → SumEntry
event timestamp value = record { timestamp = timestamp; value = value }

abbrev events : List SumEntry
events = event (pos 10) (pos 4) ∷ event (pos 20) (pos 5) ∷ event (pos 75) (pos 6) ∷ []

events-Ordered : Ordered events
events-Ordered = (omega arith, (omega arith, tt))

events-Positive : Positive events
events-Positive = (omega arith, (omega arith, (omega arith, tt)))

run-fresh_example :
    (c : SumContext) × (run (pos 60) events fresh ≡ some c)
    × (c.entries ≡ from (last_threshold (pos 60) (pos 0) events) events)
    × (c.sum ≡ total (from (last_threshold (pos 60) (pos 0) events) events))
run-fresh_example = run-fresh (pos 60) events events-Ordered events-Positive (omega int_laws)

-- Two entries that cancel out.
abbrev cancelled : SumContext
cancelled = record {
  sum = pos 0;
  entries = event (pos 10) (pos 4) ∷ event (pos 20) (negsuc 3) ∷ [];
}

-- Targets that the message names, one of them twice.
abbrev dynamic : OutConfig
dynamic = record {
  attrs = some "attrs";
  device_source = "dynamic";
  device_id = none;
  device_source_msg = none;
  devices_source_configured = none;
  devices_source_dynamic = some "to";
}

abbrev originator : OutMetadata
originator = record { tenant = "admin"; originator_device_id = "a1" }

abbrev addressed : Value
addressed = obj (
    field "to" (arr (cons (str "a2") (cons (str "a3") (cons (str "a2") nil))) end)
      (field "attrs" (num (pos 7)) end))

multi_out-IsAnswer_example :
    IsAnswer
      (device_event "admin")
      dynamic
      originator
      addressed
      (multi_device_out dynamic originator addressed)
    × IsAnswer
        (configure_event "admin")
        dynamic
        originator
        addressed
        (multi_actuate dynamic originator addressed)
multi_out-IsAnswer_example = multi_out-IsAnswer dynamic originator addressed

-- Engines without patterns: a text matches and contains itself.
abbrev plain : Engines
plain = record {
  regex = λ text pattern ignore_case. some (strictly_equal text pattern);
  contains = strictly_equal;
  evaluate = λ expression message. some undefined;
}

abbrev equals : ℤ → Rule
equals n = record {
  t = "eq";
  v = js (num n);
  vt = "num";
  v2 = undefined;
  v2t = "";
  ignore_case = false;
}

abbrev switch : SwitchConfig
switch = record {
  property = "attrs";
  property_type = "msg";
  rules = equals (pos 3) ∷ record (equals (pos 0)) { t = "else" } ∷ [];
  checkall = "true";
  previous_value = undefined;
}

handle_message-IsSwitched_example :
    IsSwitched plain switch addressed (handle_message plain switch addressed).0
handle_message-IsSwitched_example = handle_message-IsSwitched plain switch addressed

-- Texts of numbers, padded, with an exponent, a point or a radix, and what is none.
numbers_of_texts :
    map number_of_text (" 12 " ∷ "-7" ∷ "1.5e1" ∷ "20e-1" ∷ "0x1F" ∷ "" ∷ "1e" ∷ "-0x1" ∷ "." ∷ [])
    ≡ some (pos 12)
      ∷ some (negsuc 6)
      ∷ some (pos 15)
      ∷ some (pos 2)
      ∷ some (pos 31)
      ∷ some (pos 0)
      ∷ none
      ∷ none
      ∷ none
      ∷ []
unfolding number_of_text ◌-ℤ◌
numbers_of_texts = refl

-- A text is compared with the texts of a rejected promise, an object and an array.
texts_compared :
    less_than (js (str "a")) promise
      ∷ less_than promise (js (str "a"))
      ∷ less_than (js (str "a")) (js (obj end))
      ∷ less_than (js (str "10,3")) (js (arr (cons (num (pos 10)) (cons (num (pos 29)) nil)) end))
      ∷ at_most (js (arr (cons (num (pos 5)) nil) end)) (js (num (pos 6)))
      ∷ []
    ≡ false ∷ true ∷ false ∷ false ∷ true ∷ []
unfolding less_than at_most number_of int_text
texts_compared = refl
