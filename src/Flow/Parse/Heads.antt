-- ===== src/Flow/Parse/Heads.antt =====
-- Which nodes of a flow are its heads, and when a flow is refused.
use flowbroker.Prelude.{
  String, ◌≡◌, refl, sym, ap, ◌∙◌, ◌≢◌, ◌↔◌, ◌⊎◌, inl, inr, Bool, true, false, ◌||◌, none, some,
  List, [], ◌∷◌, ◌++◌, ◌==◌, eq_iff, if◌then◌else◌, false≢true, append_assoc, append-nil, arith,
  Bool-cases, Option-cases,
}
use flowbroker.Flow.Nodes.{Node, ParsedFlow, parsed_flow}
use flowbroker.Flow.Parse.{ParseError, Parsed, ok, err, add_node, add_nodes, parse}

-- The types of node at which a flow starts.
abbrev pub is_entry : String → Bool
is_entry kind =
    kind == "event device in"
    || (kind == "event template in" || (kind == "device in" || kind == "device template in"))

-- A node that starts a flow: of an entry type, with wires.
abbrev pub is_head : Node → Bool
is_head n = elim n.kind [
  | none ↦ false
  | some kind ↦ elim n.wires [ none ↦ false | some w ↦ is_entry kind ]
]

-- A node that makes `parse` throw: it has no type, or it is a template head without a template.
abbrev pub is_bad : Node → Bool
is_bad n = elim n.kind [
  | none ↦ true
  | some kind ↦ elim n.wires [
    | none ↦ false
    | some w ↦ elim n.device_template_id [ none ↦ kind == "device template in" | some t ↦ false ]
  ]
]

-- The ids of the heads, in the order of the nodes.
abbrev pub head_ids : List Node → List String
head_ids [] = []
head_ids (n ∷ ns) = if is_head n then n.id ∷ head_ids ns else head_ids ns

abbrev pub any_bad : List Node → Bool
any_bad [] = false
any_bad (n ∷ ns) = is_bad n || any_bad ns

-- What a round of the loop does to the heads.
record Round (n : Node) (p q : ParsedFlow) : Type 0 where
  heads : q.heads ≡ (if is_head n then p.heads ++ n.id ∷ [] else p.heads)
  red : q.red ≡ p.red
  good : is_bad n ≡ false

-- The types that the code tells apart.
data Sort (kind : String) : Type 0 where
  tab : kind ≡ "tab" → Sort kind
  event_device : kind ≡ "event device in" → Sort kind
  event_template : kind ≡ "event template in" → Sort kind
  device : kind ≡ "device in" → Sort kind
  template : kind ≡ "device template in" → Sort kind
  other :
      kind == "tab" ≡ false
      → kind == "event device in" ≡ false
      → kind == "event template in" ≡ false
      → kind == "device in" ≡ false
      → kind == "device template in" ≡ false
      → Sort kind

sort : (kind : String) → Sort kind
sort kind = elim (Bool-cases (kind == "tab")) [
  | inl e ↦ tab ((eq_iff _ _).0 e)
  | inr a ↦ elim (Bool-cases (kind == "event device in")) [
    | inl e ↦ event_device ((eq_iff _ _).0 e)
    | inr b ↦ elim (Bool-cases (kind == "event template in")) [
      | inl e ↦ event_template ((eq_iff _ _).0 e)
      | inr c ↦ elim (Bool-cases (kind == "device in")) [
        | inl e ↦ device ((eq_iff _ _).0 e)
        | inr d ↦ elim (Bool-cases (kind == "device template in")) [
          | inl e ↦ template ((eq_iff _ _).0 e)
          | inr f ↦ other a b c d f
        ]
      ]
    ]
  ]
]

add_node-Round : (n : Node) (p q : ParsedFlow) → add_node n p ≡ ok q → Round n p q
unfolding add_node
add_node-Round n p q h = elim (Option-cases n.kind) [
  | inl e ↦ ground arith
  | inr (kind, e) ↦ elim (sort kind) [
    | tab s ↦ let k : n.kind ≡ some "tab" = e ∙ ap some s in ground arith
    | event_device s ↦ let k : n.kind ≡ some "event device in" = e ∙ ap some s in ground arith
    | event_template s ↦ let k : n.kind ≡ some "event template in" = e ∙ ap some s in ground arith
    | device s ↦ let k : n.kind ≡ some "device in" = e ∙ ap some s in ground arith
    | template s ↦ let k : n.kind ≡ some "device template in" = e ∙ ap some s in ground arith
    | other a b c d f ↦ ground arith
  ]
]

-- `parse` throws in a round exactly at a bad node.
add_node-ok :
    (n : Node) (p : ParsedFlow) → is_bad n ≡ false → (e : ParseError) → add_node n p ≢ err e
unfolding add_node
add_node-ok n p h x = elim (Option-cases n.kind) [
  | inl e ↦ ground arith
  | inr (kind, e) ↦ elim (sort kind) [
    | template s ↦ let k : n.kind ≡ some "device template in" = e ∙ ap some s in ground arith
    | _ ↦ ground arith
  ]
]

pub Parsed-cases : (r : Parsed) → ((e : ParseError) × (r ≡ err e)) ⊎ ((p : ParsedFlow) × (r ≡ ok p))
Parsed-cases (err e) = inl (e, refl)
Parsed-cases (ok p) = inr (p, refl)

err≢ok : {e : ParseError} {p : ParsedFlow} → err e ≡ ok p → ⊥
err≢ok h = cc

-- What the whole loop does to the heads.
record Loop (ns : List Node) (p q : ParsedFlow) : Type 0 where
  pub heads : q.heads ≡ p.heads ++ head_ids ns
  pub red : q.red ≡ p.red
  pub good : any_bad ns ≡ false

snoc_append :
    (b : Bool) (xs : List String) (x : String) (ys : List String)
    → (if b then xs ++ x ∷ [] else xs) ++ ys ≡ xs ++ (if b then x ∷ ys else ys)
snoc_append true xs x ys = append_assoc xs (x ∷ []) ys
snoc_append false xs x ys = refl

add_nodes-Loop : (ns : List Node) (p q : ParsedFlow) → add_nodes ns p ≡ ok q → Loop ns p q
unfolding add_nodes
add_nodes-Loop [] p q h =
    let e : p ≡ q = cc in
    record {
      heads = ap (λ (x : ParsedFlow). x.heads) (sym e) ∙ sym (append-nil p.heads);
      red = ap (λ (x : ParsedFlow). x.red) (sym e);
      good = refl;
    }
add_nodes-Loop (n ∷ ns) p q h = elim (Parsed-cases (add_node n p)) [
  | inl (e, bad) ↦ let stopped : err e ≡ ok q = rw (bad, add_nodes) at h in absurd (err≢ok stopped)
  | inr (p', good) ↦
      let round = add_node-Round n p p' good in
      let rest = add_nodes-Loop ns p' q (rw (good, add_nodes) at h) in
      record {
        heads =
            rest.heads
            ∙ ap (λ hs. hs ++ head_ids ns) round.heads
            ∙ snoc_append (is_head n) p.heads n.id (head_ids ns);
        red = rest.red ∙ round.red;
        good = rw round.good rest.good;
      }
]

-- A flow that `parse` accepts: its heads are the ids of the nodes of an entry type that have wires,
-- in the order of the nodes, `red` is the flow itself, and no node of it is bad.
pub parse-Loop :
    (flow : List Node) (q : ParsedFlow)
    → parse flow ≡ ok q
    → (q.heads ≡ head_ids flow) × (q.red ≡ flow) × (any_bad flow ≡ false)
unfolding parse
parse-Loop flow q h =
    let loop = add_nodes-Loop flow (parsed_flow flow) q h in (loop.heads, loop.red, loop.good)

add_nodes-accepts :
    (ns : List Node) (p : ParsedFlow) (e : ParseError) → any_bad ns ≡ false → add_nodes ns p ≢ err e
unfolding add_nodes
add_nodes-accepts [] p e good h = cc
add_nodes-accepts (n ∷ ns) p e good h = elim (Parsed-cases (add_node n p)) [
  | inl (e', bad) ↦ add_node-ok n p (ground arith) e' bad
  | inr (p', fine) ↦ add_nodes-accepts ns p' e (ground arith) (rw (fine, add_nodes) at h)
]

-- `parse` throws exactly for the flows with a bad node: one without a type, or a "device template in"
-- node with wires and without a device template.
pub parse_fails_iff :
    (flow : List Node) → ((e : ParseError) × (parse flow ≡ err e)) ↔ (any_bad flow ≡ true)
unfolding parse
parse_fails_iff flow = elim (Parsed-cases (parse flow)) [
  | inl (e, failed) ↦ (
    λ _. elim (Bool-cases (any_bad flow)) [
      | inl bad ↦ bad
      | inr good ↦ absurd (add_nodes-accepts flow (parsed_flow flow) e good failed)
    ],
    λ _. (e, failed),
  )
  | inr (q, fine) ↦ (
    λ f. absurd (err≢ok (sym f.1 ∙ fine)),
    λ bad.
        let good = (add_nodes-Loop flow (parsed_flow flow) q fine).good in
        absurd (false≢true (sym good ∙ bad)),
  )
]
