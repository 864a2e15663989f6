-- ===== src/Flow/Ingest/Starts.antt =====
-- Which tasks an event sends.
use flowbroker.Prelude.{
  ℕ, ◌<◌, String, ◌≡◌, refl, sym, ap, ◌≢◌, ◌⊎◌, inl, inr, true, none, some, List, [], ◌∷◌, In,
  In-append, In-append_left, In-append_right, arith, Option-cases,
}
use flowbroker.Prelude.Dict
use flowbroker.Prelude.Dict.{Dict}
use flowbroker.Flow.Nodes.{Node}
use flowbroker.Flow.Ingest.NodeMap.{IsStored, head_known, head_node}
use flowbroker.Flow.Ingest.Asked.{
  Asks, IsQueueOf, calculate_queue-IsQueueOf, head_payload-Asks, Asks-head_payload,
}
use flowbroker.Flow.Ingest.{
  Flow, Task, Payload, Event, calculate_queue, parse_int_16, publish_hops, publish_outputs, publish,
  head_payload, start_head, fill_node_map, start_heads, handle_flow,
}

-- The queue of a device is one of the queues.
pub calculate_queue-lt : (device : String) (n : ℕ) → 0 < n → calculate_queue device n < n
unfolding calculate_queue
calculate_queue-lt device n pos = elim (Option-cases (parse_int_16 device)) [
  | inl e ↦ rw (e, calculate_queue) pos
  | inr (v, e) ↦ rw (e, calculate_queue) (grind arith)
]

-- A hop of one of the outputs.
abbrev pub IsHop : String → List (List String) → Type 0
IsHop hop [] = ⊥
IsHop hop (output ∷ outputs) = In hop output ⊎ IsHop hop outputs

-- The fields of a task beside its hop.
pub record Stamped (queue : ℕ) (payload : Payload) (flow : Flow) (ev : Event) (t : Task)
    : Type 0 where
  pub payload_is : t.payload ≡ payload
  pub queue_is : t.queue ≡ queue
  pub flow_is : t.flow ≡ flow.id
  pub tenant_is : t.tenant ≡ ev.tenant
  pub originator_is : t.originator ≡ ev.device

-- `t` is what the event sends from the head `node` of the flow: to a hop of the node's wires, with
-- what the node's type asks for, on the device's queue.
pub record IsSent (task_queues : ℕ) (flow : Flow) (ev : Event) (node : Node) (t : Task)
    : Type 0 where
  pub payload : Payload
  pub wires : List (List String)
  pub queue : ℕ
  pub asked : Asks node ev payload
  pub queued : IsQueueOf ev.device task_queues queue
  pub wired : node.wires ≡ some wires
  pub hop : IsHop t.hop wires
  pub stamped : Stamped queue payload flow ev t

module _ (flow : Flow) (ev : Event) (q : ℕ) (payload : Payload) where
  publish_hops_sound :
      (hops : List String) (t : Task)
      → In t (publish_hops q payload flow ev hops)
      → In t.hop hops × Stamped q payload flow ev t
  unfolding publish_hops
  publish_hops_sound [] t i = absurd i
  publish_hops_sound (hop ∷ hops) t (inl e) = (
    inl (ap (λ (x : Task). x.hop) e),
    record {
      payload_is = ap (λ (x : Task). x.payload) e;
      queue_is = ap (λ (x : Task). x.queue) e;
      flow_is = ap (λ (x : Task). x.flow) e;
      tenant_is = ap (λ (x : Task). x.tenant) e;
      originator_is = ap (λ (x : Task). x.originator) e;
    },
  )
  publish_hops_sound (hop ∷ hops) t (inr i) =
      let (h, st) = publish_hops_sound hops t i in (inr h, st)

  publish_hops_complete :
      (hops : List String) (hop : String)
      → In hop hops
      → (t : Task) × In t (publish_hops q payload flow ev hops) × (t.hop ≡ hop)
  unfolding publish_hops
  publish_hops_complete [] hop i = absurd i
  publish_hops_complete (x ∷ hops) hop (inl e) = (_, inl refl, sym e)
  publish_hops_complete (x ∷ hops) hop (inr i) =
      let (t, j, e) = publish_hops_complete hops hop i in (t, inr j, e)

  publish_outputs_complete :
      (outputs : List (List String)) (hop : String)
      → IsHop hop outputs
      → (t : Task) × In t (publish_outputs q payload flow ev outputs) × (t.hop ≡ hop)
  unfolding publish_outputs
  publish_outputs_complete [] hop i = absurd i
  publish_outputs_complete (output ∷ outputs) hop (inl i) =
      let (t, j, e) = publish_hops_complete output hop i in (t, In-append_left t _ _ j, e)
  publish_outputs_complete (output ∷ outputs) hop (inr i) =
      let (t, j, e) = publish_outputs_complete outputs hop i in
      (t, In-append_right t (publish_hops q payload flow ev output) _ j, e)

  publish_outputs_sound :
      (outputs : List (List String)) (t : Task)
      → In t (publish_outputs q payload flow ev outputs)
      → IsHop t.hop outputs × Stamped q payload flow ev t
  unfolding publish_outputs
  publish_outputs_sound [] t i = absurd i
  publish_outputs_sound (output ∷ outputs) t i =
      elim (In-append t (publish_hops q payload flow ev output) _ i) [
        | inl j ↦ let (h, st) = publish_hops_sound output t j in (inl h, st)
        | inr j ↦ let (h, st) = publish_outputs_sound outputs t j in (inr h, st)
      ]

module _ (task_queues : ℕ) (flow : Flow) (ev : Event) where
  start_head-IsSent :
      (node : Node) (t : Task)
      → In t (start_head task_queues flow ev node)
      → IsSent task_queues flow ev node t
  unfolding start_head publish
  start_head-IsSent node t i = elim (Option-cases (head_payload node ev)) [
    | inl e ↦ absurd (rw (e, start_head) at i)
    | inr (payload, e) ↦ elim (Option-cases node.wires) [
      | inl w ↦ absurd (rw (e, w, start_head, publish) at i)
      | inr (wires, w) ↦
          let j = rw (e, w, start_head, publish) at i in
          let (h, st) = publish_outputs_sound flow ev _ payload wires t j in
          record {
            payload = payload;
            wires = wires;
            queue = calculate_queue ev.device task_queues;
            asked = head_payload-Asks node ev payload e;
            queued = calculate_queue-IsQueueOf ev.device task_queues;
            wired = w;
            hop = h;
            stamped = st;
          }
    ]
  ]

  start_heads-IsSent :
      (nodes : Dict Node) (heads : List String) (t : Task)
      → In t (start_heads task_queues flow ev nodes heads).tasks
      → (node : Node) × (head : String) × In head heads
        × (Dict.get head nodes ≡ some node)
        × IsSent task_queues flow ev node t
  unfolding start_heads
  start_heads-IsSent nodes [] t i = absurd i
  start_heads-IsSent nodes (head ∷ heads) t i = elim (Option-cases (Dict.get head nodes)) [
    | inl e ↦ absurd (rw (e, start_heads) at i)
    | inr (node, e) ↦
        elim (In-append t (start_head task_queues flow ev node) _ (rw (e, start_heads) at i)) [
          | inl j ↦ (node, head, inl refl, e, start_head-IsSent node t j)
          | inr j ↦ let (n, h, k, f, s) = start_heads-IsSent nodes heads t j in (n, h, inr k, f, s)
        ]
  ]

  In-start_head :
      (node : Node) (payload : Payload) (wires : List (List String)) (t : Task)
      → Asks node ev payload
      → node.wires ≡ some wires
      → In t (publish_outputs (calculate_queue ev.device task_queues) payload flow ev wires)
      → In t (start_head task_queues flow ev node)
  unfolding start_head publish
  In-start_head node payload wires t asks w i =
      rw (Asks-head_payload node ev payload asks, w, start_head, publish) i

  start_head_complete :
      (node : Node) (payload : Payload) (wires : List (List String)) (hop : String)
      → Asks node ev payload
      → node.wires ≡ some wires
      → IsHop hop wires
      → (t : Task) × In t (start_head task_queues flow ev node)
        × (t.hop ≡ hop)
        × IsSent task_queues flow ev node t
  start_head_complete node payload wires hop asks w i =
      let (t, j, e) =
        publish_outputs_complete flow ev (calculate_queue ev.device task_queues) payload wires hop
          i in
      let k = In-start_head node payload wires t asks w j in (t, k, e, start_head-IsSent node t k)

  start_heads_complete :
      (nodes : Dict Node) (heads : List String) (head : String) (node : Node) (t : Task)
      → ((id : String) → In id heads → Dict.get id nodes ≢ none)
      → In head heads
      → Dict.get head nodes ≡ some node
      → In t (start_head task_queues flow ev node)
      → In t (start_heads task_queues flow ev nodes heads).tasks
  unfolding start_heads
  start_heads_complete nodes [] head node t known i h j = absurd i
  start_heads_complete nodes (x ∷ heads) head node t known (inl e) h j =
      rw (sym e, h, start_heads) (In-append_left t _ _ j)
  start_heads_complete nodes (x ∷ heads) head node t known (inr i) h j =
      elim (Option-cases (Dict.get x nodes)) [
        | inl e ↦ absurd (known x (inl refl) e)
        | inr (other, e) ↦
            rw (e, start_heads)
              (In-append_right t (start_head task_queues flow ev other) _
                (start_heads_complete nodes heads head node t (λ id k. known id (inr k)) i h j))
      ]

  start_heads-completed :
      (nodes : Dict Node) (heads : List String)
      → ((head : String) → In head heads → Dict.get head nodes ≢ none)
      → (start_heads task_queues flow ev nodes heads).completed ≡ true
  unfolding start_heads
  start_heads-completed nodes [] known = refl
  start_heads-completed nodes (head ∷ heads) known = elim (Option-cases (Dict.get head nodes)) [
    | inl e ↦ absurd (known head (inl refl) e)
    | inr (node, e) ↦
        rw (e, start_heads) (start_heads-completed nodes heads (λ h i. known h (inr i)))
  ]

-- Handling an event gets through all heads of a stored flow. Every task that it sends comes from a
-- node of the flow whose id is a head and which asks, by its type, for this event or its attributes:
-- it carries what was asked for, goes to a hop of that node's wires, and is on the queue of the
-- event's device. And each head is the id of a node of the flow such that, if it asks, there is such
-- a task for each hop of its wires.
pub handle_flow-IsSent :
    (task_queues : ℕ) (flow : Flow) (ev : Event)
    → IsStored flow
    → ((handle_flow task_queues flow ev).completed ≡ true)
      × ((t : Task)
          → In t (handle_flow task_queues flow ev).tasks
          → (node : Node) × In node flow.red
            × In node.id flow.heads
            × IsSent task_queues flow ev node t)
      × ((head : String)
          → In head flow.heads
          → (node : Node) × In node flow.red
            × (node.id ≡ head)
            × ((payload : Payload) (wires : List (List String)) (hop : String)
                → Asks node ev payload
                → node.wires ≡ some wires
                → IsHop hop wires
                → (t : Task) × In t (handle_flow task_queues flow ev).tasks
                  × (t.hop ≡ hop)
                  × IsSent task_queues flow ev node t))
unfolding handle_flow
handle_flow-IsSent task_queues flow ev stored = (
  start_heads-completed task_queues flow ev (fill_node_map flow.red []) flow.heads
      (head_known flow stored),
  λ t i.
      let (node, head, j, e, sent) = start_heads-IsSent task_queues flow ev _ flow.heads t i in
      let (k, same) = head_node flow stored head node e in (node, k, (rw (← same) at j), sent),
  λ head i. elim (Option-cases (Dict.get head (fill_node_map flow.red []))) [
    | inl e ↦ absurd (head_known flow stored head i e)
    | inr (node, e) ↦
        let (k, same) = head_node flow stored head node e in
        (
          node,
          k,
          same,
          λ payload wires hop asks w h.
              let (t, j, at, sent) =
                start_head_complete task_queues flow ev node payload wires hop asks w h in
              (
                t,
                start_heads_complete task_queues flow ev (fill_node_map flow.red []) flow.heads head
                    node t (head_known flow stored) i e j,
                at,
                sent,
              ),
        )
  ],
)
