-- ===== src/Flow/Nodes.antt =====
-- The nodes of a flow and a parsed flow, as orchestrator/flowManager.js and orchestrator/ingestor.js
-- read them.
use flowbroker.Prelude.{String, Option, List, []}
use flowbroker.Prelude.Dict.{Dict}

-- A node of the editor's JSON, with the fields that the code reads; `none` for a missing one.
-- `events` are the sources for which the field `event_` + source is set.
pub record Node : Type 0 where
  pub id : String
  pub kind : Option String  -- type
  pub wires : Option (List (List String))
  pub device_id : Option String
  pub own_device_id : Option String  -- _device_id
  pub template_id : Option String
  pub device_template_id : Option String
  pub events : List String

pub record ParsedFlow : Type 0 where
  pub heads : List String
  pub devices : List (Option String)
  pub templates : List (Option String)
  pub nodes : Dict Node
  pub red : List Node

-- `new ParsedFlow(flow)`
abbrev pub parsed_flow : List Node → ParsedFlow
parsed_flow flow = record { heads = []; devices = []; templates = []; nodes = []; red = flow }
