-- ===== src/Flow/Ingest.antt =====
-- orchestrator/ingestor.js: a device event starts the flows that it belongs to. The message is a
-- parameter, with the attributes that a `publish` carries.
pub mod Asked
pub mod NodeMap
pub mod Starts
pub mod Unique
use flowbroker.Prelude.Letters.{includes}
use Prim.Native.Char.{code}
use flowbroker.Prelude.{
  ℕ, suc, ◌+◌, ◌-◌, ◌*◌, ◌%◌, String, Bool, true, false, ◌&&◌, ◌||◌, Option, none, some, List, [],
  ◌∷◌, ◌++◌, ◌==◌, leb, nat_eq, if◌then◌else◌, map,
}
use flowbroker.Prelude.Dict
use flowbroker.Prelude.Dict.{Dict}
use flowbroker.Flow.Nodes.{Node}

-- A stored flow, with the fields that the ingestor reads.
pub record Flow : Type 0 where
  pub id : String
  pub heads : List String
  pub red : List Node

-- What a task carries: the attributes of a published event, or the event as it came.
pub data Payload : Type 0 where
  attrs whole_event : Payload

pub record Task : Type 0 where
  pub queue : ℕ
  pub hop : String
  pub payload : Payload
  pub flow : String
  pub tenant : String
  pub originator : String

-- The event, as `_handleFlow` gets it.
pub record Event : Type 0 where
  pub tenant : String
  pub device : String
  pub templates : List String
  pub source : String

-- The value of a hexadecimal digit.
unfoldable pub hex_digit : ℕ → Option ℕ
hex_digit c =
    if leb b'0' c && leb c b'9'
    then some (c - b'0')
    else if leb b'a' c && leb c b'f'
    then some (c - b'a' + 10)
    else if leb b'A' c && leb c b'F'
    then some (c - b'A' + 10)
    else none

hex_from : Option ℕ → String → Option ℕ
hex_from acc String.[] = acc
hex_from acc (String.◌∷◌ c s) = elim (hex_digit (code c)) [
  | none ↦ acc
  | some d ↦ hex_from (some (elim acc [ none ↦ d | some n ↦ n * 16 + d ])) s
]

-- `parseInt(deviceID, 16)` of a text that begins with digits; `none` is NaN. (Device ids have no
-- sign, blank or prefix in front, and fewer than 14 digits.)
unfoldable pub parse_int_16 : String → Option ℕ
unfolding hex_digit hex_from
parse_int_16 s = hex_from none s

-- calculateQueue of util.js: NaN counts as 0.
unfoldable pub calculate_queue : String → ℕ → ℕ
calculate_queue device n = elim (parse_int_16 device) [ none ↦ 0 | some v ↦ v % n ]

-- `===` of a field with a text
unfoldable pub field_is : Option String → String → Bool
field_is none s = false
field_is (some t) s = t == s

unfoldable pub includes_field : Option String → List String → Bool
includes_field none ts = false
includes_field (some t) ts = includes t ts

-- The inner loop of `_publish`, over the hops of one output.
publish_hops : ℕ → Payload → Flow → Event → List String → List Task
publish_hops queue payload flow ev [] = []
publish_hops queue payload flow ev (hop ∷ hops) =
    record {
      queue = queue;
      hop = hop;
      payload = payload;
      flow = flow.id;
      tenant = ev.tenant;
      originator = ev.device;
    }
    ∷ publish_hops queue payload flow ev hops

publish_outputs : ℕ → Payload → Flow → Event → List (List String) → List Task
publish_outputs queue payload flow ev [] = []
publish_outputs queue payload flow ev (output ∷ outputs) =
    publish_hops queue payload flow ev output ++ publish_outputs queue payload flow ev outputs

-- `_publish`: the tasks that are sent. A node without wires makes it reject, and nothing is sent.
unfoldable pub publish : ℕ → Node → Payload → Flow → Event → List Task
unfolding publish_hops publish_outputs
publish task_queues node payload flow ev = elim node.wires [
  | none ↦ []
  | some wires ↦ publish_outputs (calculate_queue ev.device task_queues) payload flow ev wires
]

-- The `switch` of `_handleFlow`: what a head publishes, `none` if nothing.
unfoldable pub head_payload : Node → Event → Option Payload
unfolding field_is includes_field includes
head_payload node ev = elim node.kind [
  | none ↦ none
  | some kind ↦
      if kind == "device in" || kind == "device template in"
      then (if ev.source == "publish" then some attrs else none)
      else if kind == "event device in"
      then (if field_is node.device_id ev.device && includes ev.source node.events
          then some whole_event
          else none)
      else if kind == "event template in"
      then (if includes_field node.template_id ev.templates && includes ev.source node.events
          then some whole_event
          else none)
      else none
]

unfoldable pub start_head : ℕ → Flow → Event → Node → List Task
start_head task_queues flow ev node = elim (head_payload node ev) [
  | none ↦ []
  | some payload ↦ publish task_queues node payload flow ev
]

-- `flow.nodeMap`: the last node of an id counts.
unfoldable pub fill_node_map : List Node → Dict Node → Dict Node
fill_node_map [] m = m
fill_node_map (n ∷ ns) m = fill_node_map ns (Dict.put n.id n m)

-- The tasks that a flow sends, and whether its promise gets past the loop over the heads.
pub record Started : Type 0 where
  pub tasks : List Task
  pub completed : Bool

-- The loop over the heads. A head that is not in the map throws, behind what is sent by then.
unfoldable pub start_heads : ℕ → Flow → Event → Dict Node → List String → Started
start_heads task_queues flow ev nodes [] = record { tasks = []; completed = true }
start_heads task_queues flow ev nodes (head ∷ heads) =
    let rest = start_heads task_queues flow ev nodes heads in
    elim (Dict.get head nodes) [
      | none ↦ record { tasks = []; completed = false }
      | some node ↦ record {
        tasks = start_head task_queues flow ev node ++ rest.tasks;
        completed = rest.completed;
      }
    ]

-- `_handleFlow`
unfoldable pub handle_flow : ℕ → Flow → Event → Started
unfolding start_heads
handle_flow task_queues flow ev =
    start_heads task_queues flow ev (fill_node_map flow.red []) flow.heads

-- `uniqueFlows[flow.id] = flow`, over the flows that were found.
unfoldable pub collect_flows : List Flow → Dict Flow → Dict Flow
collect_flows [] m = m
collect_flows (f ∷ fs) m = collect_flows fs (Dict.put f.id f m)

unfoldable pub unique_flows : List (List Flow) → Dict Flow → Dict Flow
unfolding collect_flows
unique_flows [] m = m
unique_flows (flows ∷ lists) m = unique_flows lists (collect_flows flows m)

handle_flows : ℕ → Event → Dict Flow → List Task
handle_flows task_queues ev [] = []
handle_flows task_queues ev ((id, flow) ∷ flows) =
    (handle_flow task_queues flow ev).tasks ++ handle_flows task_queues ev flows

-- `_handleEvent`, with the answers of `getByDevice` and of each `getByTemplate`: the tasks of all
-- flows. A flow that fails does not stop the others.
unfoldable pub handle_event : ℕ → Event → List (List Flow) → List Task
unfolding handle_flows
handle_event task_queues ev found = handle_flows task_queues ev (unique_flows found [])
