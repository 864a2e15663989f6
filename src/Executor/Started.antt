-- ===== src/Executor/Started.antt =====
-- From the ingestor to the executor: the tasks that orchestrator/ingestor.js sends for a flow, as
-- orchestrator/executor.js reads them, and all that they lead to.
use flowbroker.Prelude.{
  ℕ, String, ◌≡◌, refl, sym, ap, ◌∙◌, subst, inl, inr, some, List, [], ◌∷◌, ◌==◌, map, In,
  Bool-cases, some-inj, none≢some,
}
use flowbroker.Prelude.Dict
use flowbroker.Prelude.Dict.{Dict}
use flowbroker.Flow.Nodes.{Node}
use flowbroker.Flow.Ingest.{Flow, Task, Payload, Event, fill_node_map, handle_flow}
use flowbroker.Flow.Ingest.NodeMap.{IsStored, fill_node_map_sound}
use flowbroker.Flow.Ingest.Starts.{IsHop, handle_flow-IsSent}
use flowbroker.Executor.{HopNode, TaskFlow, HopEvent}
use flowbroker.Executor.Journeys.{Wired, Way, stay, along, Queued, Queued-Descends}

abbrev pub hop_node : Node → HopNode
hop_node n = record { id = n.id; kind = n.kind; wires = n.wires }

unfoldable pub hop_nodes : Dict Node → Dict HopNode
hop_nodes [] = []
hop_nodes ((id, n) ∷ m) = (id, hop_node n) ∷ hop_nodes m

-- The flow that a task carries, with the `nodeMap` of _handleFlow.
unfoldable pub task_flow : Flow → TaskFlow
unfolding hop_nodes
task_flow flow = record { id = flow.id; node_map = hop_nodes (fill_node_map flow.red []) }

module _ {M : Type 0} where
  -- The object that _publish sends, for the message of a payload.
  unfoldable pub sent_object : Flow → (Payload → M) → Task → HopEvent M
  sent_object flow message t = record {
    hop = t.hop;
    message = message t.payload;
    flow = task_flow flow;
    metadata = record { tenant = t.tenant; originator = t.originator };
  }

  -- The tasks that an event sends for a flow.
  unfoldable pub started : ℕ → Flow → Event → (Payload → M) → List (HopEvent M)
  unfolding sent_object
  started task_queues flow ev message =
      map (sent_object flow message) (handle_flow task_queues flow ev).tasks

-- An output of a node of the flow has a wire to another one.
abbrev pub Linked : Flow → String → String → Type 0
Linked flow from to =
    (n : Node) × (wires : List (List String)) × (hops : List String) × In n flow.red
    × (n.id ≡ from)
    × (n.wires ≡ some wires)
    × In hops wires
    × In to hops

-- A way along the wires of the nodes.
pub data Leads (flow : Flow) : String → String → Type 0 where
  here : (h : String) → Leads flow h h
  onward : (g h k : String) → Leads flow g h → Linked flow h k → Leads flow g k

get-hop_nodes :
    (m : Dict Node) (id : String) (at : HopNode)
    → Dict.get id (hop_nodes m) ≡ some at
    → (n : Node) × (Dict.get id m ≡ some n) × (at ≡ hop_node n)
unfolding Dict.get hop_nodes
get-hop_nodes [] id at h = absurd (none≢some h)
get-hop_nodes ((j, n) ∷ m) id at h = elim (Bool-cases (j == id)) [
  | inl e ↦ (n, rw e refl, sym (some-inj (rw e at h)))
  | inr e ↦ let (x, f, s) = get-hop_nodes m id at (rw e at h) in (x, rw e f, s)
]

Wired-Linked :
    (flow : Flow) (from to : String) → Wired (task_flow flow) from to → Linked flow from to
unfolding task_flow
Wired-Linked flow from to (at, wires, hops, found, w, i, j) =
    let (n, f, same) = get-hop_nodes (fill_node_map flow.red []) from at found in
    elim (fill_node_map_sound flow.red [] from n f) [
      | inl (k, named) ↦
          (n, wires, hops, k, named, ap (λ (x : HopNode). x.wires) (sym same) ∙ w, i, j)
      | inr g ↦ absurd (unfold Dict.get in none≢some g)
    ]

Way-Leads : (flow : Flow) (g k : String) → Way (task_flow flow) g k → Leads flow g k
Way-Leads flow g k (stay h) = here h
Way-Leads flow g k (along a h b way wire) =
    onward a h b (Way-Leads flow a h way) (Wired-Linked flow h b wire)

IsHop-In :
    (hop : String) (wires : List (List String))
    → IsHop hop wires
    → (hops : List String) × In hops wires × In hop hops
IsHop-In hop [] i = absurd i
IsHop-In hop (output ∷ outputs) (inl i) = (output, inl refl, i)
IsHop-In hop (output ∷ outputs) (inr i) =
    let (hops, j, k) = IsHop-In hop outputs i in (hops, inr j, k)

In-map :
    {A B : Type 0}
    → (f : A → B) (xs : List A) (y : B) → In y (map f xs)
    → (x : A) × In x xs × (y ≡ f x)
In-map f [] y i = absurd i
In-map f (x ∷ xs) y (inl e) = (x, inl refl, e)
In-map f (x ∷ xs) y (inr i) = let (z, j, e) = In-map f xs y i in (z, inr j, e)

module _ {M : Type 0} where
  -- A task that comes from a head of the flow.
  abbrev pub FromHead : Flow → Event → HopEvent M → Type 0
  FromHead flow ev t =
      (t.metadata ≡ record { tenant = ev.tenant; originator = ev.device })
      × (node : Node) × (first : String) × In node flow.red
      × In node.id flow.heads
      × Linked flow node.id first
      × Leads flow first t.hop

  -- An event is handled for a stored flow, and the tasks that it sends are run, in whatever order, and with
  -- whatever answers of the handlers: each task of the queue has the event's tenant and device in its
  -- metadata, and is for a node that the wires of the flow's nodes lead to from a node of the flow whose id
  -- is a head, over one wire or more.
  pub started-FromHead :
      (task_queues : ℕ) (flow : Flow) (ev : Event) (message : Payload → M)
      (tasks : List (HopEvent M)) (t : HopEvent M)
      → IsStored flow
      → Queued (started task_queues flow ev message) tasks
      → In t tasks
      → FromHead flow ev t
  unfolding started sent_object
  started-FromHead task_queues flow ev message tasks t stored queue i =
      let (s, j, same_flow, same_metadata, way) =
        Queued-Descends (started task_queues flow ev message) tasks t queue i in
      let (task, k, made) =
        In-map (sent_object flow message) (handle_flow task_queues flow ev).tasks s j in
      let (node, n, h, sent) = (handle_flow-IsSent task_queues flow ev stored).1 task k in
      let (hops, a, b) = IsHop-In task.hop sent.wires sent.hop in
      let st = sent.stamped in
      (
        same_metadata ∙ ap (λ (x : HopEvent M). x.metadata) made ∙ λ p. record {
          tenant = st.tenant_is p;
          originator = st.originator_is p;
        },
        node,
        task.hop,
        n,
        h,
        (node, sent.wires, hops, n, refl, sent.wired, a, b),
        Way-Leads flow task.hop t.hop (subst (λ (x : HopEvent M). Way x.flow x.hop t.hop) made way),
      )
