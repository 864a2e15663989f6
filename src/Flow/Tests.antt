-- ===== src/Flow/Tests.antt =====
-- The theorems about flows at a flow of one device node.
use flowbroker.Prelude.{
  String, Option, ◌++◌, inl, In-append_left, ◌≡◌, In, refl, true, none, some, [], ◌∷◌, List,
}
use flowbroker.Prelude.Dict
use flowbroker.Flow.Nodes.{Node, ParsedFlow}
use flowbroker.Flow.Parse.{ok, parse, add_nodes, add_node}
use flowbroker.Flow.Ingest.{
  Flow, Event, Task, Payload, calculate_queue, parse_int_16, attrs, handle_flow, start_head,
  publish, head_payload, fill_node_map, handle_event, unique_flows,
}
use flowbroker.Flow.Store.{Document, missing, boolean, create, set}
use flowbroker.Flow.Store.Documents.{Matches, Keeps, document-Matches}
use flowbroker.Flow.Ingest.Asked.{Asks}
use flowbroker.Flow.Ingest.NodeMap.{IsStored}
use flowbroker.Flow.Ingest.Starts.{IsHop, IsSent, handle_flow-IsSent}
use flowbroker.Flow.Ingest.Unique.{Once, sent_by, handle_event-Once}
use flowbroker.Executor.{HopNode, HopEvent, Handled, hop}
use flowbroker.Executor.Journeys.{begin, runs}
use flowbroker.Executor.Started.{task_flow, started, FromHead, started-FromHead}

abbrev head : Node
head = record {
  id = "n1";
  kind = some "device in";
  wires = some (("n2" ∷ []) ∷ []);
  device_id = none;
  own_device_id = some "a1";
  template_id = none;
  device_template_id = none;
  events = [];
}

abbrev tab : Node
tab = record head { id = "t"; kind = some "tab"; wires = none }

abbrev template_head : Node
template_head = record head { kind = some "device template in" }

abbrev red : List Node
red = tab ∷ head ∷ []

abbrev parsed : ParsedFlow
parsed = record {
  heads = "n1" ∷ [];
  devices = some "a1" ∷ [];
  templates = [];
  nodes = ("n1", head) ∷ [];
  red = red;
}

parse_red : parse red ≡ ok parsed
unfolding parse add_nodes add_node Dict.put
parse_red = refl

abbrev flow : Flow
flow = record { id = "f"; heads = "n1" ∷ []; red = red }

abbrev event : Event
event = record { tenant = "admin"; device = "a1"; templates = []; source = "publish" }

flow-IsStored : IsStored flow
flow-IsStored = record { parsed = parsed; accepted = parse_red; same_heads = refl }

abbrev task : Task
task = record {
  queue = 1;
  hop = "n2";
  payload = attrs;
  flow = "f";
  tenant = "admin";
  originator = "a1";
}

queue_of_a1 : calculate_queue "a1" 10 ≡ 1
unfolding calculate_queue parse_int_16
queue_of_a1 = refl

handle_flow_sends : handle_flow 10 flow event ≡ record { tasks = task ∷ []; completed = true }
unfolding handle_flow Dict.get fill_node_map Dict.put start_head head_payload publish
    calculate_queue parse_int_16
handle_flow_sends = refl

handle_flow-IsSent_example :
    ((handle_flow 10 flow event).completed ≡ true)
    × ((t : Task)
        → In t (handle_flow 10 flow event).tasks
        → (node : Node) × In node flow.red × In node.id flow.heads × IsSent 10 flow event node t)
    × ((head : String)
        → In head flow.heads
        → (node : Node) × In node flow.red
          × (node.id ≡ head)
          × ((payload : Payload) (wires : List (List String)) (hop : String)
              → Asks node event payload
              → node.wires ≡ some wires
              → IsHop hop wires
              → (t : Task) × In t (handle_flow 10 flow event).tasks
                × (t.hop ≡ hop)
                × IsSent 10 flow event node t))
handle_flow-IsSent_example = handle_flow-IsSent 10 flow event flow-IsStored

handle_event-Once_example :
    (flows : List Flow) × Once ((flow ∷ []) ∷ (flow ∷ []) ∷ []) flows
    × (handle_event 10 event ((flow ∷ []) ∷ (flow ∷ []) ∷ []) ≡ sent_by 10 event flows)
handle_event-Once_example = handle_event-Once 10 event ((flow ∷ []) ∷ (flow ∷ []) ∷ [])

-- A flow that is found twice sends its task once.
handle_event_once : handle_event 10 event ((flow ∷ []) ∷ (flow ∷ []) ∷ []) ≡ task ∷ []
unfolding handle_event unique_flows handle_flow Dict.put Dict.get fill_node_map start_head
    head_payload publish calculate_queue parse_int_16
handle_event_once = refl

-- The head of another device starts as well: a "device in" node does not look at the device.
abbrev other_event : Event
other_event = record event { device = "b2" }

other_device_starts :
    (handle_flow 10 flow other_event).tasks ≡ record task { queue = 8; originator = "b2" } ∷ []
unfolding handle_flow Dict.get fill_node_map Dict.put start_head head_payload publish
    calculate_queue parse_int_16
other_device_starts = refl

abbrev document : Document
document = record {
  id = "f";
  label = "flow";
  enabled = boolean true;
  heads = parsed.heads;
  devices = parsed.devices;
  templates = parsed.templates;
  red = red;
}

document_is_parsed : Matches document
document_is_parsed = record {
  parsed = parsed;
  accepted = parse_red;
  same_heads = refl;
  same_devices = refl;
  same_templates = refl;
}

document-Matches_example :
    Keeps (create "g" (some "new") missing (some red))
    × Keeps (set document (some "new") missing (some red))
document-Matches_example =
    document-Matches "g" document (some "new") missing (some red) document_is_parsed

-- The task of the event, as the executor reads it, and as it runs it.
abbrev first : HopEvent String
first = record {
  hop = "n2";
  message = "m";
  flow = task_flow flow;
  metadata = record { tenant = "admin"; originator = "a1" };
}

abbrev no_nodes : String → String → Option (HopNode → String → Handled String)
no_nodes kind tenant = none

abbrev run_once : List (HopEvent String)
run_once = started 10 flow event (λ p. "m") ++ (hop no_nodes (some first)).tasks

first-In : In first (started 10 flow event (λ p. "m"))
unfolding started handle_flow start_head publish head_payload fill_node_map Dict.get Dict.put
first-In = inl refl

started-FromHead_example : FromHead flow event first
started-FromHead_example =
    started-FromHead 10 flow event (λ p. "m") run_once first flow-IsStored
      (runs (started 10 flow event (λ p. "m")) first no_nodes begin first-In)
      (In-append_left first (started 10 flow event (λ p. "m")) (hop no_nodes (some first)).tasks
        first-In)
