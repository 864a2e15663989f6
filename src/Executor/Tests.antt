-- ===== src/Executor/Tests.antt =====
-- The theorems about the executor at a switch with two outputs, of which the second has a result.
use flowbroker.Prelude.{
  String, ◌≡◌, refl, ◌⊎◌, inl, ◌↔◌, true, false, Option, none, some, [], ◌∷◌, List, In,
}
use flowbroker.Prelude.Dict
use flowbroker.Executor.{HopNode, HopEvent, Handled, resolved, hop}
use flowbroker.Executor.Journeys.{Queued, begin, runs}
use flowbroker.Executor.Tasks.{Sent, Runs, hop-Sent, Throws, hop-acks}

abbrev switch_node : HopNode
switch_node = record {
  id = "n1";
  kind = some "switch";
  wires = some (("n2" ∷ []) ∷ ("n3" ∷ "n4" ∷ []) ∷ []);
}

abbrev event : HopEvent String
event = record {
  hop = "n1";
  message = "m";
  flow = record { id = "f"; node_map = ("n1", switch_node) ∷ [] };
  metadata = record { tenant = "admin"; originator = "a1" };
}

abbrev results : List (Option String)
results = none ∷ some "r" ∷ []

abbrev handler : HopNode → String → Handled String
handler at m = resolved (some results)

abbrev nodes : String → String → Option (HopNode → String → Handled String)
nodes kind tenant = some handler

event_found : Dict.get "n1" event.flow.node_map ≡ some switch_node
unfolding Dict.get
event_found = refl

abbrev event_run : Runs nodes event (resolved (some results))
event_run = record {
  at = switch_node;
  kind = "switch";
  handle_message = handler;
  found = event_found;
  typed = refl;
  known = refl;
  handles = refl;
}

hop-Sent_example :
    ((hop nodes (some event)).acks ≡ 1)
    × ((t : HopEvent String)
        → In t (hop nodes (some event)).tasks
          ↔ Sent event (("n2" ∷ []) ∷ ("n3" ∷ "n4" ∷ []) ∷ []) results t)
hop-Sent_example =
    hop-Sent nodes event results (("n2" ∷ []) ∷ ("n3" ∷ "n4" ∷ []) ∷ []) event_run refl

hop-acks_example :
    (((hop nodes (some event)).acks ≡ 1) × ((hop nodes (some event)).raised ≡ false))
    ⊎ (((hop nodes (some event)).acks ≡ 0)
        × ((hop nodes (some event)).raised ≡ true)
        × Throws nodes (some event))
hop-acks_example = hop-acks nodes (some event)

hop_sends :
    (hop nodes (some event)).tasks
    ≡ record event { hop = "n3"; message = "r" } ∷ record event { hop = "n4"; message = "r" } ∷ []
unfolding hop Dict.get
hop_sends = refl

-- A task for a node that the flow does not have is not acknowledged.
unknown_hop :
    hop nodes (some (record event { hop = "n9" })) ≡ record { tasks = []; acks = 0; raised = true }
unfolding hop Dict.get
unknown_hop = refl

-- The task and those that it sends.
abbrev queued : List (HopEvent String)
queued = event ∷ (hop nodes (some event)).tasks

queued-Queued : Queued (event ∷ []) queued
queued-Queued = runs (event ∷ []) event nodes begin (inl refl)
