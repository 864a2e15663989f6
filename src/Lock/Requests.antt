-- ===== src/Lock/Requests.antt =====
-- One call of ZookeeperRWLock._lock: the callbacks that it waits for, its wait timer, and the calls of
-- resolve and reject for its promise, of which the first one counts.
pub mod Settled
pub mod Late
mod Tests
use flowbroker.Prelude.{
  ◌≡◌, Bool, true, false, Option, none, some, List, [], ◌∷◌, ◌++◌, if◌then◌else◌,
}
use flowbroker.Lock.Text.{Text}
use flowbroker.Lock.Watch.{LockMode, node_to_be_watched}

pub data LockEnd : Type 0 where
  granted : LockEnd
  internal_error : LockEnd
  waited_too_long : LockEnd

-- `there` says whether ZooKeeper has the lock node, `timer` whether the wait timer is set.
pub record LockCall : Type 0 where
  pub mode : LockMode
  pub node : Text
  pub there : Bool
  pub timer : Bool
  pub settled : Option LockEnd

-- The data path, the lock node, its siblings, the watched node, the watch on it, and the deletion that
-- the wait timer asks for.
pub data Wait : Type 0 where
  path_created node_created children_listed existence watch deletion : Wait

-- A result code: 0, ZNONODE or another error.
pub data Rc : Type 0 where
  ok no_node error : Rc

-- A call of resolve or reject.
unfoldable pub settle_call : LockEnd → LockCall → LockCall
settle_call e c = elim c.settled [ none ↦ record c { settled = some e } | some d ↦ c ]

-- The call and the waits that the callback starts.
abbrev pub done : LockCall → LockCall × List Wait
done c = (c, [])

-- createPathIfNotExists is answered.
unfoldable pub on_path : Bool → LockCall → LockCall × List Wait
unfolding settle_call
on_path true c = (c, node_created ∷ [])
on_path false c = done (settle_call internal_error c)

-- The callback of a_create: the timer is set, and the first try is made.
unfoldable pub on_create : Option Text → LockCall → LockCall × List Wait
unfolding settle_call
on_create none c = done (settle_call internal_error c)
on_create (some node) c =
    (record c { node = node; there = true; timer = true }, children_listed ∷ [])

-- The callback of a_get_children.
unfoldable pub on_children : Option (List Text) → LockCall → LockCall × List Wait
unfolding settle_call
on_children none c = done (settle_call internal_error c)
on_children (some siblings) c = elim (node_to_be_watched c.mode siblings c.node) [
  | none ↦ done (settle_call granted (record c { timer = false }))
  | some watched ↦ (c, existence ∷ [])
]

-- The result of aw_exists. The watch is in place if the node exists.
unfoldable pub on_exists : Rc → LockCall → LockCall × List Wait
unfolding settle_call
on_exists ok c = (c, watch ∷ [])
on_exists no_node c = (c, children_listed ∷ [])
on_exists error c = done (settle_call internal_error c)

-- The watch of aw_exists fires.
unfoldable pub on_watch : Bool → Bool → LockCall → LockCall × List Wait
unfolding settle_call
on_watch connected session c =
    let stays = if session then watch ∷ [] else [] in
    if connected then (c, children_listed ∷ stays) else (settle_call internal_error c, stays)

-- LockInstance.unlock's answer to _lockWaitTimeout: a node that is gone is an error too.
unfoldable pub on_deletion : Rc → LockCall → LockCall × List Wait
unfolding settle_call
on_deletion ok c = done (settle_call waited_too_long (record c { there = false }))
on_deletion no_node c = done (settle_call internal_error c)
on_deletion error c = done (settle_call internal_error c)

-- _lockWaitTimeout, when the timer fires.
unfoldable pub wait_timeout : LockCall → LockCall × List Wait
wait_timeout c = (record c { timer = false }, deletion ∷ [])

-- The call, and what it waits for.
pub record Calling : Type 0 where
  pub call : LockCall
  pub waits : List Wait

abbrev pub joined : LockCall × List Wait → List Wait → Calling
joined r waits = record { call = r.0; waits = waits ++ r.1 }

-- A callback, the timer, or the end of the session, which takes the node away.
pub data LockStep : Calling → Calling → Type 0 where
  path_answers :
      (c : LockCall) (ts us : List Wait) (created : Bool)
      → LockStep
          (record { call = c; waits = ts ++ path_created ∷ us })
          (joined (on_path created c) (ts ++ us))
  create_answers :
      (c : LockCall) (ts us : List Wait) (named : Option Text)
      → LockStep
          (record { call = c; waits = ts ++ node_created ∷ us })
          (joined (on_create named c) (ts ++ us))
  children_answer :
      (c : LockCall) (ts us : List Wait) (siblings : Option (List Text))
      → LockStep
          (record { call = c; waits = ts ++ children_listed ∷ us })
          (joined (on_children siblings c) (ts ++ us))
  exists_answers :
      (c : LockCall) (ts us : List Wait) (rc : Rc)
      → LockStep
          (record { call = c; waits = ts ++ existence ∷ us })
          (joined (on_exists rc c) (ts ++ us))
  watch_fires :
      (c : LockCall) (ts us : List Wait) (connected session : Bool)
      → LockStep
          (record { call = c; waits = ts ++ watch ∷ us })
          (joined (on_watch connected session c) (ts ++ us))
  delete_answers :
      (c : LockCall) (ts us : List Wait) (rc : Rc)
      → LockStep
          (record { call = c; waits = ts ++ deletion ∷ us })
          (joined (on_deletion rc c) (ts ++ us))
  times_out :
      (c : LockCall) (ts : List Wait)
      → c.timer ≡ true
      → LockStep (record { call = c; waits = ts }) (joined (wait_timeout c) ts)
  expires :
      (c : LockCall) (ts : List Wait)
      → LockStep
          (record { call = c; waits = ts })
          (record { call = record c { there = false }; waits = ts })

abbrev pub new_call : LockMode → LockCall
new_call mode = record { mode = mode; node = []; there = false; timer = false; settled = none }

pub data Called (mode : LockMode) : Calling → Type 0 where
  begins : Called mode (record { call = new_call mode; waits = path_created ∷ [] })
  steps : (s t : Calling) → Called mode s → LockStep s t → Called mode t
