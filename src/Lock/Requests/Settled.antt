-- ===== src/Lock/Requests/Settled.antt =====
-- contextManager/ZookeeperRWLock.js: the promise of a lock request is settled, or will be.
use flowbroker.Prelude.{
  Bool, true, false, Option, none, some, List, [], ◌∷◌, ◌++◌, ◌≡◌, ◌≢◌, ◌⊎◌, inl, inr, refl, sym,
  ◌∙◌, none≢some, Option-cases,
}
use flowbroker.Prelude.Pending.{Has, Has-left, Has-right, Has-rest}
use flowbroker.Lock.Text.{Text}
use flowbroker.Lock.Watch.{LockMode, node_to_be_watched}
use flowbroker.Lock.Requests.{
  LockEnd, granted, internal_error, waited_too_long, LockCall, Wait, path_created, node_created,
  children_listed, existence, watch, deletion, ok, no_node, error, settle_call, done, on_path,
  on_create, on_children, on_exists, on_watch, on_deletion, wait_timeout, Calling, joined, LockStep,
  path_answers, create_answers, children_answer, exists_answers, watch_fires, delete_answers,
  times_out, expires, Called, begins, steps,
}

-- A wait whose end settles the promise, or starts such a wait or the timer.
abbrev pub settles : Wait → Bool
settles path_created = true
settles node_created = true
settles deletion = true
settles children_listed = false
settles existence = false
settles watch = false

-- The promise is settled, or the wait timer is set, or such a wait is there.
abbrev pub Settles : Calling → Type 0
Settles s = (s.call.settled ≢ none) ⊎ ((s.call.timer ≡ true) ⊎ Has settles s.waits)

settle_call-settled : (e : LockEnd) (c : LockCall) → (settle_call e c).settled ≢ none
unfolding settle_call
settle_call-settled e c h = elim (Option-cases c.settled) [
  | inl n ↦ absurd (none≢some (sym (rw (n, settle_call) at h)))
  | inr (d, n) ↦ absurd (none≢some (sym (rw (n, settle_call) at h) ∙ n))
]

settled-Settles :
    (e : LockEnd) (c : LockCall) (ws : List Wait) → Settles (joined (done (settle_call e c)) ws)
settled-Settles e c ws = inl (settle_call-settled e c)

-- A wait that ends and settles nothing: what settles the promise is still there.
stays-Settles :
    (c c' : LockCall) (ts : List Wait) (t : Wait) (us ws : List Wait)
    → settles t ≡ false
    → c'.settled ≡ c.settled
    → c'.timer ≡ c.timer
    → Settles (record { call = c; waits = ts ++ t ∷ us })
    → Settles (record { call = c'; waits = (ts ++ us) ++ ws })
stays-Settles c c' ts t us ws n e f (inl h) = inl (λ x. h (sym e ∙ x))
stays-Settles c c' ts t us ws n e f (inr (inl h)) = inr (inl (f ∙ h))
stays-Settles c c' ts t us ws n e f (inr (inr h)) =
    inr (inr (Has-left settles (ts ++ us) ws (Has-rest settles ts t us n h)))

-- Another wait that settles it is started.
starts-Settles :
    (c : LockCall) (ws : List Wait) (t : Wait) → settles t ≡ true → Settles (joined (c, t ∷ []) ws)
starts-Settles c ws t h = inr (inr (Has-right settles ws (t ∷ []) (t, inl refl, h)))

children-Settles :
    (c : LockCall) (ts us : List Wait) (siblings : Option (List Text))
    → Settles (record { call = c; waits = ts ++ children_listed ∷ us })
    → Settles (joined (on_children siblings c) (ts ++ us))
unfolding on_children
children-Settles c ts us none h = settled-Settles internal_error c (ts ++ us)
children-Settles c ts us (some siblings) h =
    elim (Option-cases (node_to_be_watched c.mode siblings c.node)) [
      | inl e ↦
          rw (e, on_children) (settled-Settles granted (record c { timer = false }) (ts ++ us))
      | inr (w, e) ↦
          rw (e, on_children)
            (stays-Settles c c ts children_listed us (existence ∷ []) refl refl refl h)
    ]

watch-Settles :
    (c : LockCall) (ts us : List Wait) (connected session : Bool)
    → Settles (record { call = c; waits = ts ++ watch ∷ us })
    → Settles (joined (on_watch connected session c) (ts ++ us))
unfolding on_watch
watch-Settles c ts us true session h = stays-Settles c c ts watch us _ refl refl refl h
watch-Settles c ts us false session h = inl (settle_call-settled internal_error c)

LockStep-Settles : (s t : Calling) → LockStep s t → Settles s → Settles t
unfolding on_path on_create on_exists on_deletion wait_timeout
LockStep-Settles s t (path_answers c ts us true) h = starts-Settles c (ts ++ us) node_created refl
LockStep-Settles s t (path_answers c ts us false) h = settled-Settles internal_error c (ts ++ us)
LockStep-Settles s t (create_answers c ts us none) h = settled-Settles internal_error c (ts ++ us)
LockStep-Settles s t (create_answers c ts us (some node)) h = inr (inl refl)
LockStep-Settles s t (children_answer c ts us siblings) h = children-Settles c ts us siblings h
LockStep-Settles s t (exists_answers c ts us ok) h =
    stays-Settles c c ts existence us (watch ∷ []) refl refl refl h
LockStep-Settles s t (exists_answers c ts us no_node) h =
    stays-Settles c c ts existence us (children_listed ∷ []) refl refl refl h
LockStep-Settles s t (exists_answers c ts us error) h = settled-Settles internal_error c (ts ++ us)
LockStep-Settles s t (watch_fires c ts us connected session) h =
    watch-Settles c ts us connected session h
LockStep-Settles s t (delete_answers c ts us ok) h =
    settled-Settles waited_too_long (record c { there = false }) (ts ++ us)
LockStep-Settles s t (delete_answers c ts us no_node) h =
    settled-Settles internal_error c (ts ++ us)
LockStep-Settles s t (delete_answers c ts us error) h = settled-Settles internal_error c (ts ++ us)
LockStep-Settles s t (times_out c ts e) h =
    starts-Settles (record c { timer = false }) ts deletion refl
LockStep-Settles s t (expires c ts) h = h

-- Behind any answers of ZooKeeper, events of the watches and of the session, in any order, and the wait
-- timer: the promise of a lock request is settled; or the wait timer is set; or one of the answers is
-- waited for that settle it, start the timer, or lead to such an answer.
pub Called-Settles : (mode : LockMode) (s : Calling) → Called mode s → Settles s
Called-Settles mode s begins = inr (inr (path_created, inl refl, refl))
Called-Settles mode s (steps u v r st) = LockStep-Settles u v st (Called-Settles mode u r)
