-- ===== src/Executor/Journeys.antt =====
-- Where the tasks of a queue come from, over any number of hops.
use flowbroker.Prelude.{
  ℕ, zero, suc, String, ◌≡◌, refl, sym, ap, ◌∙◌, inl, inr, Option, none, some, List, [], ◌∷◌, ◌++◌,
  In, In-append, get_elem?, Option-cases, some-inj, none≢some,
}
use flowbroker.Prelude.Dict
use flowbroker.Executor.{
  HopNode, TaskFlow, HopEvent, Handled, resolved, rejected, timed_out, threw, send_result,
  finish_hop, hop,
}
use flowbroker.Executor.Tasks.{Sent, send_outputs_sound}

-- An output of a node has a wire to another one.
abbrev pub Wired : TaskFlow → String → String → Type 0
Wired flow from to =
    (at : HopNode) × (wires : List (List String)) × (hops : List String) × (Dict.get from
        flow.node_map
      ≡ some at)
    × (at.wires ≡ some wires)
    × In hops wires
    × In to hops

-- A way along the wires of a flow.
pub data Way (flow : TaskFlow) : String → String → Type 0 where
  stay : (h : String) → Way flow h h
  along : (g h k : String) → Way flow g h → Wired flow h k → Way flow g k

In-get_elem? : {A : Type 0} → (xs : List A) (i : ℕ) (x : A) → get_elem? xs i ≡ some x → In x xs
In-get_elem? [] i x h = absurd (none≢some h)
In-get_elem? (y ∷ xs) zero x h = inl (sym (some-inj h))
In-get_elem? (y ∷ xs) (suc i) x h = inr (In-get_elem? xs i x h)

module _ {M : Type 0} where
  -- A task of the same flow with the same metadata, one wire on.
  abbrev Follows : HopEvent M → HopEvent M → Type 0
  Follows event t =
      (t.flow ≡ event.flow) × (t.metadata ≡ event.metadata) × Wired event.flow event.hop t.hop

  Sent-Follows :
      (event : HopEvent M) (at : HopNode) (wires : List (List String)) (results : List (Option M))
      (t : HopEvent M)
      → Dict.get event.hop event.flow.node_map ≡ some at
      → at.wires ≡ some wires
      → Sent event wires results t
      → Follows event t
  Sent-Follows event at wires results t f w s = (
    ap (λ (x : HopEvent M). x.flow) s.is,
    ap (λ (x : HopEvent M). x.metadata) s.is,
    (at, wires, s.hops, f, w, In-get_elem? wires s.index s.hops s.output, rw s.is s.wired),
  )

  finish_hop-Follows :
      (event : HopEvent M) (at : HopNode) (handled : Handled M) (t : HopEvent M)
      → Dict.get event.hop event.flow.node_map ≡ some at
      → In t (finish_hop event at handled).tasks
      → Follows event t
  unfolding finish_hop send_result
  finish_hop-Follows event at rejected t f i = absurd i
  finish_hop-Follows event at timed_out t f i = absurd i
  finish_hop-Follows event at threw t f i = absurd i
  finish_hop-Follows event at (resolved none) t f i = elim (Option-cases at.wires) [
    | inl n ↦ absurd (rw (n, send_result) at i)
    | inr (wires, w) ↦ absurd (rw (w, send_result) at i)
  ]
  finish_hop-Follows event at (resolved (some results)) t f i = elim (Option-cases at.wires) [
    | inl n ↦ absurd (rw (n, send_result) at i)
    | inr (wires, w) ↦
        Sent-Follows event at wires results t f w
          (send_outputs_sound event wires results t (rw (w, send_result) at i))
  ]

  hop-Follows :
      (get_node : String → String → Option (HopNode → M → Handled M)) (event t : HopEvent M)
      → In t (hop get_node (some event)).tasks
      → Follows event t
  unfolding hop
  hop-Follows get_node event t i = elim (Option-cases (Dict.get event.hop event.flow.node_map)) [
    | inl n ↦ absurd (rw (n, hop) at i)
    | inr (at, f) ↦ elim (Option-cases at.kind) [
      | inl n ↦ absurd (rw (f, n, hop) at i)
      | inr (kind, k) ↦ elim (Option-cases (get_node kind event.metadata.tenant)) [
        | inl n ↦ absurd (rw (f, k, n, hop) at i)
        | inr (handle, g) ↦
            finish_hop-Follows event at (handle at event.message) t f (rw (f, k, g, hop) at i)
      ]
    ]
  ]

  -- The tasks that a queue has had, from the first ones on: any of them is run, by the handlers as they
  -- are then, and may be run again.
  pub data Queued (start : List (HopEvent M)) : List (HopEvent M) → Type 1 where
    begin : Queued start start
    runs :
        (tasks : List (HopEvent M)) (event : HopEvent M)
        (get_node : String → String → Option (HopNode → M → Handled M))
        → Queued start tasks
        → In event tasks
        → Queued start (tasks ++ (hop get_node (some event)).tasks)

  -- A task of the flow and with the metadata of a first one, at a node on a way from it.
  abbrev pub Descends : List (HopEvent M) → HopEvent M → Type 0
  Descends start t =
      (s : HopEvent M) × In s start
      × (t.flow ≡ s.flow)
      × (t.metadata ≡ s.metadata)
      × Way s.flow s.hop t.hop

  -- Whatever the handlers answer, and in whatever order the tasks are run: each task of the queue has the
  -- flow and the metadata of one of the first tasks, and is for a node that the wires of that flow lead to
  -- from the node of that first task.
  pub Queued-Descends :
      (start tasks : List (HopEvent M)) (t : HopEvent M)
      → Queued start tasks
      → In t tasks
      → Descends start t
  Queued-Descends start tasks t begin i = (t, i, refl, refl, stay t.hop)
  Queued-Descends start tasks t (runs before event get_node q e) i =
      elim (In-append t before (hop get_node (some event)).tasks i) [
        | inl j ↦ Queued-Descends start before t q j
        | inr j ↦
            let (s, k, f, m, way) = Queued-Descends start before event q e in
            let (f', m', wire) = hop-Follows get_node event t j in
            (s, k, f' ∙ f, m' ∙ m, along s.hop event.hop t.hop way (rw (sym f) wire))
      ]
