-- ===== src/Flow/Parse.antt =====
-- FlowManager.parse of orchestrator/flowManager.js.
pub mod Heads
use flowbroker.Prelude.{
  String, Bool, true, false, Option, none, some, List, [], ◌∷◌, ◌++◌, ◌==◌, if◌then◌else◌,
}
use flowbroker.Prelude.Dict
use flowbroker.Flow.Nodes.{Node, ParsedFlow, parsed_flow}

-- `parse` throws for a node without a type, and where it reads a field of an undefined one.
pub data ParseError : Type 0 where
  invalid_flow type_error : ParseError

pub data Parsed : Type 0 where
  ok : ParsedFlow → Parsed
  err : ParseError → Parsed

-- The `switch` on a node's type, for the node's id and the flow parsed so far.
unfoldable pub add_head : String → Node → ParsedFlow → Parsed
add_head kind node p =
    if kind == "event device in"
    then ok
        (record p { heads = p.heads ++ node.id ∷ []; devices = p.devices ++ node.device_id ∷ [] })
    else if kind == "event template in"
    then ok (record p {
      heads = p.heads ++ node.id ∷ [];
      templates = p.templates ++ node.template_id ∷ [];
    })
    else if kind == "device in"
    then ok (record p {
      heads = p.heads ++ node.id ∷ [];
      devices = p.devices ++ node.own_device_id ∷ [];
    })
    else if kind == "device template in"
    then elim node.device_template_id [
      | none ↦ err type_error
      | some t ↦
          ok (record p { heads = p.heads ++ node.id ∷ []; templates = p.templates ++ some t ∷ [] })
    ]
    else ok p

-- A node that is no tab and has wires.
unfoldable pub add_wired : String → Node → ParsedFlow → Parsed
unfolding add_head
add_wired kind node p = add_head kind node (record p { nodes = Dict.put node.id node p.nodes })

-- One round of the loop.
unfoldable pub add_node : Node → ParsedFlow → Parsed
unfolding add_wired
add_node node p = elim node.kind [
  | none ↦ err invalid_flow
  | some kind ↦
      if kind == "tab"
      then ok p
      else elim node.wires [ none ↦ ok p | some wires ↦ add_wired kind node p ]
]

unfoldable pub add_nodes : List Node → ParsedFlow → Parsed
add_nodes [] p = ok p
add_nodes (node ∷ nodes) p = elim (add_node node p) [ err e ↦ err e | ok p' ↦ add_nodes nodes p' ]

unfoldable pub parse : List Node → Parsed
parse flow = add_nodes flow (parsed_flow flow)
