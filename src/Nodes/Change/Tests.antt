-- ===== src/Nodes/Change/Tests.antt =====
-- A change node at a small message.
use flowbroker.Prelude.{String, some, [], ◌∷◌, ◌≡◌, refl, All}
use flowbroker.Prelude.Int.{pos}
use flowbroker.Json.{Value, num, str, obj, Fields, end, field, assign, own}
use flowbroker.Nodes.Base
use flowbroker.Nodes.Base.{got}
use flowbroker.Nodes.Base.Paths.{FirstKey}
use flowbroker.Nodes.Change.{ChangeRule, value_of, changed, changes, handle_message}
use flowbroker.Nodes.Change.Rules.{Spares, handle_message-value_of}
use flowbroker.Nodes.Outcomes.{forwarded}

abbrev rename : ChangeRule
rename = record { t = "set"; p = "name"; tot = "str"; to = str "pump" }

abbrev copy : ChangeRule
copy = record { t = "set"; p = "info.label"; tot = "msg"; to = str "name" }

abbrev incoming : Fields
incoming = field "level" (num (pos 7)) end

abbrev outgoing : Value
outgoing = obj (
    field "level" (num (pos 7))
      (field "name" (str "pump") (field "info" (obj (field "label" (str "pump") end)) end)))

copied : handle_message (rename ∷ copy ∷ []) (obj incoming) ≡ some (forwarded outgoing)
unfolding handle_message Base.get Base.set Base.get_path Base.pieces value_of assign own
copied = refl

copy-FirstKey : FirstKey "info" "info.label"
unfolding Base.pieces
copy-FirstKey = ("label" ∷ [], refl)

handle_message-value_of_example :
    ((mid : Fields) × (v : Value) × (changes (rename ∷ []) (obj incoming) ≡ changed (obj mid))
      × (value_of copy (obj mid) ≡ some v)
      × (Base.get "info.label" outgoing ≡ got v))
    × ((other f : String)
        → All (Spares other) (rename ∷ copy ∷ [])
        → FirstKey other f
        → Base.get f outgoing ≡ Base.get f (obj incoming))
handle_message-value_of_example =
    handle_message-value_of (rename ∷ []) copy [] incoming outgoing "info" copied refl copy-FirstKey
      tt
