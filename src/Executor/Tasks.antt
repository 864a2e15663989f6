-- ===== src/Executor/Tasks.antt =====
-- Which tasks a hop sends, and that it is acknowledged.
use flowbroker.Prelude.{
  ℕ, zero, suc, String, ◌≡◌, refl, ◌⊎◌, inl, inr, ◌↔◌, true, false, Option, none, some, List, [],
  ◌∷◌, In, In-append, In-append_left, In-append_right, get_elem?, Option-cases, arith,
}
use flowbroker.Prelude.Dict
use flowbroker.Prelude.Dict.{Dict}
use flowbroker.Executor.{
  HopNode, HopEvent, Handled, resolved, rejected, timed_out, threw, send_hops, send_outputs,
  send_result, finish_hop, hop,
}

module _ {M : Type 0} where
  -- The task takes the result of some output to a hop of that output, and is else as the event is.
  pub record Sent (event : HopEvent M) (wires : List (List String)) (results : List (Option M))
      (t : HopEvent M) : Type 0 where
    pub index : ℕ
    pub hops : List String
    pub new_event : M
    pub output : get_elem? wires index ≡ some hops
    pub result : get_elem? results index ≡ some (some new_event)
    pub next_hop : String
    pub wired : In next_hop hops
    pub is : t ≡ record event { hop = next_hop; message = new_event }

  send_hops_sound :
      (event : HopEvent M) (m : M) (hops : List String) (t : HopEvent M)
      → In t (send_hops event m hops)
      → (h : String) × In h hops × (t ≡ record event { hop = h; message = m })
  unfolding send_hops
  send_hops_sound event m [] t i = absurd i
  send_hops_sound event m (h ∷ hops) t (inl e) = (h, inl refl, e)
  send_hops_sound event m (h ∷ hops) t (inr i) =
      let (x, j, e) = send_hops_sound event m hops t i in (x, inr j, e)

  send_hops_complete :
      (event : HopEvent M) (m : M) (hops : List String) (h : String)
      → In h hops
      → In (record event { hop = h; message = m }) (send_hops event m hops)
  unfolding send_hops
  send_hops_complete event m [] h i = absurd i
  send_hops_complete event m (x ∷ hops) h (inl e) = inl (rw e refl)
  send_hops_complete event m (x ∷ hops) h (inr i) = inr (send_hops_complete event m hops h i)

  pub send_outputs_sound :
      (event : HopEvent M) (wires : List (List String)) (results : List (Option M)) (t : HopEvent M)
      → In t (send_outputs event wires results)
      → Sent event wires results t
  unfolding send_outputs
  send_outputs_sound event [] results t i = absurd i
  send_outputs_sound event (w ∷ wires) [] t i = absurd i
  send_outputs_sound event (w ∷ wires) (none ∷ results) t i =
      let s = send_outputs_sound event wires results t i in
      record {
        index = suc s.index;
        hops = s.hops;
        new_event = s.new_event;
        output = s.output;
        result = s.result;
        next_hop = s.next_hop;
        wired = s.wired;
        is = s.is;
      }
  send_outputs_sound event (w ∷ wires) (some m ∷ results) t i =
      elim (In-append t (send_hops event m w) (send_outputs event wires results) i) [
        | inl j ↦
            let (h, k, e) = send_hops_sound event m w t j in
            record {
              index = 0;
              hops = w;
              new_event = m;
              output = refl;
              result = refl;
              next_hop = h;
              wired = k;
              is = e;
            }
        | inr j ↦
            let s = send_outputs_sound event wires results t j in
            record {
              index = suc s.index;
              hops = s.hops;
              new_event = s.new_event;
              output = s.output;
              result = s.result;
              next_hop = s.next_hop;
              wired = s.wired;
              is = s.is;
            }
      ]

  send_outputs_complete :
      (event : HopEvent M) (wires : List (List String)) (results : List (Option M)) (index : ℕ)
      (hops : List String) (m : M) (h : String)
      → get_elem? wires index ≡ some hops
      → get_elem? results index ≡ some (some m)
      → In h hops
      → In (record event { hop = h; message = m }) (send_outputs event wires results)
  unfolding send_outputs
  send_outputs_complete event [] results index hops m h o r i = ground arith
  send_outputs_complete event (w ∷ wires) [] index hops m h o r i = ground arith
  send_outputs_complete event (w ∷ wires) (none ∷ results) zero hops m h o r i = ground arith
  send_outputs_complete event (w ∷ wires) (some n ∷ results) zero hops m h o r i =
      let same : w ≡ hops = cc in
      let new : n ≡ m = cc in
      In-append_left _ (send_hops event n w) _ (rw new (send_hops_complete event m w h (rw same i)))
  send_outputs_complete event (w ∷ wires) (none ∷ results) (suc index) hops m h o r i =
      send_outputs_complete event wires results index hops m h o r i
  send_outputs_complete event (w ∷ wires) (some n ∷ results) (suc index) hops m h o r i =
      In-append_right _ (send_hops event n w) _
        (send_outputs_complete event wires results index hops m h o r i)

  -- The node of a task, whose handler was called.
  pub record Runs (get_node : String → String → Option (HopNode → M → Handled M))
      (event : HopEvent M) (handled : Handled M) : Type 0 where
    pub at : HopNode
    pub kind : String
    pub handle_message : HopNode → M → Handled M
    pub found : Dict.get event.hop event.flow.node_map ≡ some at
    pub typed : at.kind ≡ some kind
    pub known : get_node kind event.metadata.tenant ≡ some handle_message
    pub handles : handle_message at event.message ≡ handled

  -- A handler's result that is a list, of a node with wires: the tasks are exactly the results, each
  -- that is there taken to each hop of the output that has its index, with the flow and the metadata
  -- of the event, and the event is acknowledged once.
  pub hop-Sent :
      (get_node : String → String → Option (HopNode → M → Handled M)) (event : HopEvent M)
      (results : List (Option M)) (wires : List (List String))
      (run : Runs get_node event (resolved (some results)))
      → run.at.wires ≡ some wires
      → ((hop get_node (some event)).acks ≡ 1)
        × ((t : HopEvent M) → In t (hop get_node (some event)).tasks ↔ Sent event wires results t)
  unfolding hop finish_hop send_result
  hop-Sent get_node event results wires run wired =
      rw (run.found, hop)
        (rw (run.typed, hop)
          (rw (run.known, hop)
            (rw (run.handles, finish_hop)
              (rw (wired, send_result)
                (
                  refl,
                  λ t. (
                    send_outputs_sound event wires results t,
                    λ s. rw s.is (
                        send_outputs_complete event wires results s.index s.hops s.new_event
                          s.next_hop s.output s.result s.wired),
                  ),
                )))))

  -- The cases in which `hop` throws: the hop is not in the flow, or the handler throws at once.
  abbrev pub Throws :
      (String → String → Option (HopNode → M → Handled M)) → Option (HopEvent M) → Type 0
  Throws get_node none = ⊥
  Throws get_node (some event) =
      (Dict.get event.hop event.flow.node_map ≡ none) ⊎ Runs get_node event threw

  finish_hop_acks :
      (event : HopEvent M) (at : HopNode) (handled : Handled M)
      → (((finish_hop event at handled).acks ≡ 1) × ((finish_hop event at handled).raised ≡ false))
        ⊎ (((finish_hop event at handled).acks ≡ 0)
            × ((finish_hop event at handled).raised ≡ true)
            × (handled ≡ threw))
  unfolding finish_hop send_result
  finish_hop_acks event at rejected = inl (refl, refl)
  finish_hop_acks event at timed_out = inl (refl, refl)
  finish_hop_acks event at threw = inr (refl, refl, refl)
  finish_hop_acks event at (resolved result) = inl (ground arith, ground arith)

  -- A task is acknowledged exactly once and `hop` returns, or it is never acknowledged and `hop`
  -- throws: then the hop is not in the flow's nodes, or the node's handler threw at once.
  pub hop-acks :
      (get_node : String → String → Option (HopNode → M → Handled M)) (event : Option (HopEvent M))
      → (((hop get_node event).acks ≡ 1) × ((hop get_node event).raised ≡ false))
        ⊎ (((hop get_node event).acks ≡ 0)
            × ((hop get_node event).raised ≡ true)
            × Throws get_node event)
  unfolding hop
  hop-acks get_node none = inl (refl, refl)
  hop-acks get_node (some event) = elim (Option-cases (Dict.get event.hop event.flow.node_map)) [
    | inl e ↦ inr (rw (e, hop) (refl, refl, inl refl))
    | inr (at, e) ↦ elim (Option-cases at.kind) [
      | inl k ↦ inl (rw (e, k, hop) (refl, refl))
      | inr (kind, k) ↦ elim (Option-cases (get_node kind event.metadata.tenant)) [
        | inl g ↦ inl (rw (e, k, g, hop) (refl, refl))
        | inr (handle, g) ↦ elim (finish_hop_acks event at (handle at event.message)) [
          | inl good ↦ inl (rw (e, k, g, hop) good)
          | inr (a, r, t) ↦ inr (
            (rw (e, k, g, hop) a),
            (rw (e, k, g, hop) r),
            inr record {
              at = at;
              kind = kind;
              handle_message = handle;
              found = e;
              typed = k;
              known = g;
              handles = t;
            },
          )
        ]
      ]
    ]
  ]
