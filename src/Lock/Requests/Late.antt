-- ===== src/Lock/Requests/Late.antt =====
-- contextManager/ZookeeperRWLock.js: two orders of events behind which a lock and its node part.
use flowbroker.Prelude.{true, false, none, some, List, [], ◌∷◌, ◌≡◌, refl, ap, ◌∙◌}
use flowbroker.Lock.Text.{Text}
use flowbroker.Lock.Watch.{node_to_be_watched}
use flowbroker.Lock.Requests.{
  LockEnd, granted, internal_error, waited_too_long, LockCall, children_listed, watch, deletion, ok,
  settle_call, done, on_children, on_watch, on_deletion, wait_timeout, Calling, joined, LockStep,
  children_answer, watch_fires, delete_answers, times_out,
}

-- Any number of steps.
pub data Run (s : Calling) : Calling → Type 0 where
  stop : Run s s
  go : (t u : Calling) → Run s t → LockStep t u → Run s u

acquires :
    (c : LockCall) (siblings : List Text)
    → node_to_be_watched c.mode siblings c.node ≡ none
    → on_children (some siblings) c ≡ done (settle_call granted (record c { timer = false }))
unfolding on_children
acquires c siblings e = rw (e, on_children) refl

-- What settles an open promise, and what comes too late.
settle_call_first :
    (e : LockEnd) (c : LockCall)
    → c.settled ≡ none
    → settle_call e c ≡ record c { settled = some e }
unfolding settle_call
settle_call_first e c n = rw (n, settle_call) refl

settle_call_late : (e d : LockEnd) (c : LockCall) → c.settled ≡ some d → settle_call e c ≡ c
unfolding settle_call
settle_call_late e d c n = simp (n, settle_call)

acquires-first :
    (c : LockCall) (siblings : List Text)
    → c.settled ≡ none
    → node_to_be_watched c.mode siblings c.node ≡ none
    → on_children (some siblings) c ≡ done (record c { timer = false; settled = some granted })
acquires-first c siblings n e =
    acquires c siblings e ∙ ap done (settle_call_first granted (record c { timer = false }) n)

deletion-late :
    (c : LockCall) (d : LockEnd)
    → c.settled ≡ some d
    → on_deletion ok c ≡ done (record c { there = false })
unfolding on_deletion
deletion-late c d n = ap done (settle_call_late waited_too_long d (record c { there = false }) n)

-- The timer fires while the siblings are asked for, and their answer comes in front of that to the
-- deletion.
late_grant :
    (c : LockCall) (siblings : List Text)
    → c.timer ≡ true
    → c.settled ≡ none
    → node_to_be_watched c.mode siblings c.node ≡ none
    → (s : Calling) × Run (record { call = c; waits = children_listed ∷ [] }) s
      × (s.call.settled ≡ some granted)
      × (s.call.there ≡ false)
      × (s.waits ≡ [])
unfolding wait_timeout
late_grant c siblings t n e =
    let late = record c { timer = false } in
    let answer = on_children (some siblings) late in
    let deleted = on_deletion ok answer.0 in
    let first = acquires-first late siblings n e in
    let last = deletion-late answer.0 granted (ap (λ r. r.0.settled) first) in
    (
      joined deleted answer.1,
      go (joined answer (deletion ∷ [])) (joined deleted answer.1)
          (go (joined (wait_timeout c) (children_listed ∷ [])) (joined answer (deletion ∷ []))
            (go (record { call = c; waits = children_listed ∷ [] })
              (joined (wait_timeout c) (children_listed ∷ [])) stop
              (times_out c (children_listed ∷ []) t))
            (children_answer late [] (deletion ∷ []) (some siblings)))
          (delete_answers answer.0 [] answer.1 ok),
      ap (λ r. r.0.settled) last ∙ ap (λ r. r.0.settled) first,
      ap (λ r. r.0.there) last,
      rw (last, first) refl,
    )

-- The connection is lost while a watch is in place, and comes back: each change of the session calls the
-- watch.
orphaned :
    (c : LockCall) (siblings : List Text)
    → c.there ≡ true
    → c.settled ≡ none
    → node_to_be_watched c.mode siblings c.node ≡ none
    → (s : Calling) × Run (record { call = c; waits = watch ∷ [] }) s
      × (s.call.settled ≡ some internal_error)
      × (s.call.there ≡ true)
      × (s.call.timer ≡ false)
      × (s.waits ≡ watch ∷ [])
unfolding on_watch
orphaned c siblings t n e =
    let lost = settle_call internal_error c in
    let same = settle_call_first internal_error c n in
    let answer = on_children (some siblings) lost in
    let found : answer ≡ done (record c { timer = false; settled = some internal_error }) =
      rw same (
        acquires (record c { settled = some internal_error }) siblings e
        ∙ ap done (
            settle_call_late granted internal_error
              (record c { timer = false; settled = some internal_error }) refl)) in
    (
      joined answer (watch ∷ []),
      go (record { call = lost; waits = children_listed ∷ watch ∷ [] }) (joined answer (watch ∷ []))
          (go (record { call = lost; waits = watch ∷ [] })
            (record { call = lost; waits = children_listed ∷ watch ∷ [] })
            (go (record { call = c; waits = watch ∷ [] })
              (record { call = lost; waits = watch ∷ [] }) stop (watch_fires c [] [] false true))
            (watch_fires lost [] [] true true))
          (children_answer lost [] (watch ∷ []) (some siblings)),
      ap (λ r. r.0.settled) found,
      ap (λ r. r.0.there) found ∙ t,
      ap (λ r. r.0.timer) found,
      rw found refl,
    )

-- A lock request whose promise is open and whose node is there. If its wait timer fires while it asks for
-- the siblings, and they are answered in front of the deletion, with no node to wait for: it is granted
-- the lock, and its node is deleted. And if the connection is lost while it watches a node, and comes
-- back, and the siblings have no node to wait for then: it is told of an error, and its node stays, with
-- no timer set and nothing waited for that deletes it.
pub late_grant-orphaned :
    (c : LockCall) (siblings : List Text)
    → c.timer ≡ true
    → c.there ≡ true
    → c.settled ≡ none
    → node_to_be_watched c.mode siblings c.node ≡ none
    → ((s : Calling) × Run (record { call = c; waits = children_listed ∷ [] }) s
        × (s.call.settled ≡ some granted)
        × (s.call.there ≡ false)
        × (s.waits ≡ []))
      × ((s : Calling) × Run (record { call = c; waits = watch ∷ [] }) s
          × (s.call.settled ≡ some internal_error)
          × (s.call.there ≡ true)
          × (s.call.timer ≡ false)
          × (s.waits ≡ watch ∷ []))
late_grant-orphaned c siblings t h n e = (late_grant c siblings t n e, orphaned c siblings h n e)
