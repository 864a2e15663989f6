-- ===== src/Remote/Tests.antt =====
-- Calls of a remote node at a small message.
use flowbroker.Prelude.{String, true, none, some, ◌≡◌, ◌≢◌, refl, false≢true, eq_iff}
use flowbroker.Prelude.Int.{pos}
use flowbroker.Json.{Value, num, arr, obj, nil, cons, Items, end, field}
use flowbroker.Nodes.Outcomes.{truthy_value}
use flowbroker.Remote.{
  returned, failed_with, RemoteHandler, remote_resolves, remote_rejects, remote_call,
}
use flowbroker.Remote.Calls.{remote_call_lem}

abbrev reading : Value
reading = obj (field "level" (num (pos 7)) end)

-- A node that sends its message twice.
abbrev twice : RemoteHandler
twice = record {
  html = none;
  metadata = none;
  locale_data = λ l. none;
  message = λ c m d. returned (some (arr (cons m (cons m nil)) end));
}

id≢empty : ◌≢◌ {A = String} "r1" ""
id≢empty e = false≢true ((eq_iff "r1" "").1 e)

remote_call_lem_example :
    ((xs : Items)
      → twice.message reading reading reading ≡ returned (some (arr xs end))
      → remote_call twice "r1" reading reading reading ≡ remote_resolves (arr xs end))
    × (twice.message reading reading reading ≡ returned none
        → remote_call twice "r1" reading reading reading ≡ remote_resolves (arr nil end))
    × ((e : Value)
        → twice.message reading reading reading ≡ failed_with e
        → truthy_value e ≡ true
        → remote_call twice "r1" reading reading reading ≡ remote_rejects (some e))
remote_call_lem_example =
    remote_call_lem twice "r1" reading reading reading id≢empty (refl, refl, refl)
