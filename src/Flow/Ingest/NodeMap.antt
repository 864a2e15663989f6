-- ===== src/Flow/Ingest/NodeMap.antt =====
-- The map of a flow's nodes that orchestrator/ingestor.js makes, and the heads of a stored flow in it.
use flowbroker.Prelude.{
  String, ◌≡◌, refl, sym, ap, ◌∙◌, ◌≢◌, ◌⊎◌, inl, inr, none, some, List, [], ◌∷◌, ◌==◌, eq_iff, In,
  arith, Bool-cases, none≢some,
}
use flowbroker.Prelude.Dict
use flowbroker.Prelude.Dict.{Dict, get-put}
use flowbroker.Flow.Nodes.{Node, ParsedFlow}
use flowbroker.Flow.Parse.{ok, parse}
use flowbroker.Flow.Parse.Heads.{is_head, head_ids, parse-Loop}
use flowbroker.Flow.Ingest.{Flow, fill_node_map}

pub fill_node_map_sound :
    (ns : List Node) (m : Dict Node) (id : String) (n : Node)
    → Dict.get id (fill_node_map ns m) ≡ some n
    → (In n ns × (n.id ≡ id)) ⊎ (Dict.get id m ≡ some n)
unfolding fill_node_map
fill_node_map_sound [] m id n h = inr h
fill_node_map_sound (x ∷ ns) m id n h = elim (fill_node_map_sound ns (Dict.put x.id x m) id n h) [
  | inl (i, e) ↦ inl (inr i, e)
  | inr g ↦ elim (Bool-cases (x.id == id)) [
    | inl same ↦
        let new : some x ≡ some n = rw (get-put, same) at g in
        let e : n ≡ x = cc in inl (inl e, ap (λ (y : Node). y.id) e ∙ (eq_iff x.id id).0 same)
    | inr other ↦ inr (rw (get-put, other) at g)
  ]
]

fill_node_map_keeps :
    (ns : List Node) (m : Dict Node) (id : String)
    → Dict.get id m ≢ none
    → Dict.get id (fill_node_map ns m) ≢ none
unfolding fill_node_map
fill_node_map_keeps [] m id h = h
fill_node_map_keeps (x ∷ ns) m id h =
    fill_node_map_keeps ns (Dict.put x.id x m) id λ g. ground (arith, get-put x.id id x m)

fill_node_map_complete :
    (ns : List Node) (m : Dict Node) (n : Node)
    → In n ns
    → Dict.get n.id (fill_node_map ns m) ≢ none
unfolding fill_node_map
fill_node_map_complete [] m n i = absurd i
fill_node_map_complete (x ∷ ns) m n (inl e) =
    fill_node_map_keeps ns (Dict.put x.id x m) n.id
      λ g. ground (arith, get-put x.id n.id x m, eq_iff x.id n.id, ap (λ (y : Node). y.id) e)
fill_node_map_complete (x ∷ ns) m n (inr i) = fill_node_map_complete ns (Dict.put x.id x m) n i

head_ids-In :
    (ns : List Node) (id : String) → In id (head_ids ns) → (n : Node) × In n ns × (n.id ≡ id)
head_ids-In [] id i = absurd i
head_ids-In (n ∷ ns) id i = elim (Bool-cases (is_head n)) [
  | inl e ↦ elim (let j : In id (n.id ∷ head_ids ns) = rw e at i in j) [
    | inl same ↦ (n, inl refl, sym same)
    | inr j ↦ let (x, k, f) = head_ids-In ns id j in (x, inr k, f)
  ]
  | inr e ↦ let (x, k, f) = head_ids-In ns id (rw e at i) in (x, inr k, f)
]

-- A stored flow: what `parse` made of its nodes.
pub record IsStored (flow : Flow) : Type 0 where
  pub parsed : ParsedFlow
  pub accepted : parse flow.red ≡ ok parsed
  pub same_heads : flow.heads ≡ parsed.heads

module _ (flow : Flow) (stored : IsStored flow) where
  -- A head of a stored flow is in its map of nodes.
  pub head_known :
      (head : String) → In head flow.heads → Dict.get head (fill_node_map flow.red []) ≢ none
  head_known head i =
      let (heads, red, good) = parse-Loop flow.red stored.parsed stored.accepted in
      let (n, j, e) = head_ids-In flow.red head (rw (stored.same_heads, heads) at i) in
      rw e at (fill_node_map_complete flow.red [] n j)

  pub head_node :
      (head : String) (node : Node)
      → Dict.get head (fill_node_map flow.red []) ≡ some node
      → In node flow.red × (node.id ≡ head)
  head_node head node e = elim (fill_node_map_sound flow.red [] head node e) [
    | inl (k, same) ↦ (k, same)
    | inr g ↦ absurd (unfold Dict.get in none≢some g)
  ]
