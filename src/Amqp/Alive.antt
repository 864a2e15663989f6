-- ===== src/Amqp/Alive.antt =====
-- orchestrator/amqp.js: what holds behind any answers and events in any order.
use flowbroker.Prelude.{
  ℕ, suc, Bool, true, false, none, List, [], ◌∷◌, ◌++◌, ◌^◌, ◌≤◌, ◌≡◌, refl, sym, append-nil,
  none≢some, All, All-append, All-In, ◌⊎◌, inl, inr, arith, In, ◌||◌, Option-cases, ◌∙◌,
}
use native.Mathlib.Nat.{pow-suc, one-le-pow, mul-le-mul}
use flowbroker.Amqp.{
  Setting, number, text, numeric, truthy, Link, Pending, connecting, opening, asserting, waiting,
  BrokerAnswer, answered, failed, Ran, starts, send_message, to_queue, at_least_two, with_time,
  next_time, disconnect, reconnect, connect, resume, on_error, on_close, lost, counted,
  at_least_two,
}
use flowbroker.Prelude.Pending.{Has, Has-left, Has-right, Has-rest, All-rest}
use flowbroker.Amqp.Worlds.{
  retries, opens, World, after, Step, resumes, errors, closes, calls, Reached, begin, next,
}

-- The settings are as configured and no disconnect is under way.
abbrev Good : Setting → Link → Type 0
Good max l =
    (l.max_time ≡ max)
    × (2 ≤ numeric (at_least_two l.initial_time))
    × (l.channel_disconnecting ≡ false)
    × (l.connection_disconnecting ≡ false)

abbrev Bounded : Setting → Pending → Type 0
Bounded max (waiting d) = (2 ≤ d) × (d ≤ numeric max)
Bounded max connecting = Unit
Bounded max (opening c) = Unit
Bounded max (asserting ch) = Unit

pow_two : (b n : ℕ) → 2 ≤ b → 2 ≤ b ^ suc n
pow_two b n h = omega (arith, mul-le-mul (one-le-pow n b (omega arith)) h, pow-suc b n)

next_time_bounds :
    (l : Link) (n : ℕ)
    → 2 ≤ numeric l.initial_time
    → 2 ≤ numeric l.max_time
    → l.current_number ≡ suc n
    → (2 ≤ numeric (next_time l)) × (numeric (next_time l) ≤ numeric l.max_time)
unfolding next_time
next_time_bounds l n hi hm e = rw e (ground (arith, pow_two (numeric l.initial_time) n hi))

pub at_least_two_twice : (s : Setting) → at_least_two (at_least_two s) ≡ at_least_two s
at_least_two_twice (number n) = ground arith
at_least_two_twice (text n) = refl

pub truthy_of : (s : Setting) → 2 ≤ numeric (at_least_two s) → truthy s ≡ true
truthy_of (number n) h = ground arith
truthy_of (text n) h = refl

module _ (max configured : Setting) (close_throws : ℕ → Bool) (long : 2 ≤ numeric max) where
  abbrev again : Link → Ran
  again l = reconnect configured close_throws (counted (lost l))

  again_link :
      (l : Link)
      → Good max l
      → Good max (again l).link
        × ((again l).link.connection ≡ none)
        × ((again l).link.channel ≡ none)
  unfolding reconnect disconnect with_time
  again_link l g =
      rw (truthy_of l.initial_time g.1)
        ((g.0, rw (at_least_two_twice l.initial_time) g.1, g.2, g.3), refl, refl)

  again_tasks :
      (l : Link)
      → Good max l
      → (d : ℕ) × ((again l).tasks ≡ waiting d ∷ []) × (2 ≤ d) × (d ≤ numeric max)
  unfolding reconnect disconnect with_time next_time
  again_tasks l g =
      let b =
        next_time_bounds (with_time (counted (lost l))) l.current_number g.1 (rw g.0 long) refl in
      rw (truthy_of l.initial_time g.1) (_, refl, b.0, rw (sym g.0) b.1)

  abbrev Inv : World → Type 0
  Inv w =
      Good max w.link
      × (w.link.connection ≡ none → Has retries w.tasks)
      × (w.link.channel ≡ none → (w.link.connection ≡ none) ⊎ Has opens w.tasks)
      × All (Bounded max) w.tasks

  -- Behind a loss of the connection.
  again-Inv :
      (l : Link) (ts : List Pending) → Good max l → All (Bounded max) ts → Inv (after (again l) ts)
  again-Inv l ts g b =
      let t = again_tasks l g in
      let a = again_link l g in
      (
        a.0,
        λ e. Has-right retries ts (again l).tasks (rw t.1 (waiting t.0, inl refl, refl)),
        λ e. inl a.1,
        All-append (Bounded max) ts (again l).tasks b (rw t.1 ((t.2, t.3), _)),
      )

  connect-starts :
      (l : Link) → Good max l → connect configured close_throws l ≡ starts l connecting none
  unfolding connect
  connect-starts l g = ground (arith, g.2, g.3)

  connect-Inv :
      (l : Link) (ts : List Pending)
      → Good max l
      → (l.channel ≡ none → (l.connection ≡ none) ⊎ Has opens ts)
      → All (Bounded max) ts
      → Inv (after (connect configured close_throws l) ts)
  connect-Inv l ts g o b = rw (connect-starts l g) (
    g,
    λ e. Has-right retries ts (connecting ∷ []) (connecting, inl refl, refl),
    λ e. elim (o e) [ inl n ↦ inl n | inr h ↦ inr (Has-left opens ts (connecting ∷ []) h) ],
    All-append (Bounded max) ts (connecting ∷ []) b _,
  )

  -- A task of the queue's assertion ends.
  idle :
      (l : Link) (ts : List Pending) (c : ℕ) (us : List Pending)
      → Inv (record { link = l; tasks = ts ++ asserting c ∷ us })
      → Inv (record { link = l; tasks = (ts ++ us) ++ [] })
  idle l ts c us (g, r, o, b) = rw (append-nil (ts ++ us)) (
    g,
    λ e. Has-rest retries ts (asserting c) us refl (r e),
    λ e. elim (o e) [ inl n ↦ inl n | inr h ↦ inr (Has-rest opens ts (asserting c) us refl h) ],
    All-rest (Bounded max) ts (asserting c) us b,
  )

  resume-Inv :
      (l : Link) (ts : List Pending) (t : Pending) (us : List Pending) (a : BrokerAnswer)
      → Inv (record { link = l; tasks = ts ++ t ∷ us })
      → Inv (after (resume configured close_throws t a l) (ts ++ us))
  unfolding resume
  resume-Inv l ts connecting us (answered c) (g, r, o, b) = (
    g,
    λ e. elim (none≢some (sym e)) [ ],
    λ e. inr (Has-right opens (ts ++ us) (opening c ∷ []) (opening c, inl refl, refl)),
    All-append (Bounded max) (ts ++ us) (opening c ∷ []) (All-rest (Bounded max) ts connecting us b)
        _,
  )
  resume-Inv l ts connecting us failed (g, r, o, b) =
      again-Inv l (ts ++ us) g (All-rest (Bounded max) ts connecting us b)
  resume-Inv l ts (opening c) us (answered ch) (g, r, o, b) = (
    g,
    λ e.
        Has-left retries (ts ++ us) (asserting ch ∷ [])
          (Has-rest retries ts (opening c) us refl (r e)),
    λ e. elim (none≢some (sym e)) [ ],
    All-append (Bounded max) (ts ++ us) (asserting ch ∷ [])
        (All-rest (Bounded max) ts (opening c) us b) _,
  )
  resume-Inv l ts (opening c) us failed (g, r, o, b) =
      again-Inv l (ts ++ us) g (All-rest (Bounded max) ts (opening c) us b)
  resume-Inv l ts (asserting c) us (answered q) (g, r, o, b) = idle l ts c us (g, r, o, b)
  resume-Inv l ts (asserting c) us failed (g, r, o, b) = idle l ts c us (g, r, o, b)
  resume-Inv l ts (waiting d) us a (g, r, o, b) =
      connect-Inv l (ts ++ us) g
        (λ e. elim (o e) [ inl n ↦ inl n | inr h ↦ inr (Has-rest opens ts (waiting d) us refl h) ])
        (All-rest (Bounded max) ts (waiting d) us b)

  Step-Inv : (v w : World) → Step configured close_throws v w → Inv v → Inv w
  unfolding on_error on_close
  Step-Inv v w (resumes l ts t us a) h = resume-Inv l ts t us a h
  Step-Inv v w (errors u) (g, r, o, b) = again-Inv u.link u.tasks g b
  Step-Inv v w (closes u) (g, r, o, b) = connect-Inv (lost u.link) u.tasks g (λ e. inl refl) b
  Step-Inv v w (calls u) (g, r, o, b) = connect-Inv u.link u.tasks g o b

  Reached-Inv :
      (w : World)
      → 2 ≤ numeric (at_least_two configured)
      → Reached configured close_throws max w
      → Inv w
  Reached-Inv w h begin =
      ((refl, h, refl, refl), λ e. (connecting, inl refl, refl), λ e. inl refl, _)
  Reached-Inv w h (next u v r s) = Step-Inv u w s (Reached-Inv u h r)

-- A wait for a connection, for a channel or for the next try.
abbrev pub progress : Pending → Bool
progress t = retries t || opens t

-- Messages go to the channel, whatever they are.
abbrev pub Sends : Link → Type 0
Sends l = (ch : ℕ) × ((b p : ℕ) → send_message b p l ≡ to_queue ch b p)

Inv-Sends :
    (max configured : Setting) (close_throws : ℕ → Bool) (long : 2 ≤ numeric max) (w : World)
    → Inv max configured close_throws long w
    → Sends w.link ⊎ Has progress w.tasks
unfolding send_message
Inv-Sends max configured close_throws long w (g, r, o, b) = elim (Option-cases w.link.connection) [
  | inl n ↦ let (t, i, p) = r n in inr (t, i, ground arith)
  | inr (c, e) ↦ elim (Option-cases w.link.channel) [
    | inl n ↦ elim (o n) [
      | inl n' ↦ elim (none≢some (sym n' ∙ e)) [ ]
      | inr (t, i, p) ↦ inr (t, i, ground arith)
    ]
    | inr (ch, e') ↦ inl (ch, λ b p. rw (e, e') refl)
  ]
]

-- Behind any answers and events, in any order: a message goes to the channel, or a connection, a
-- channel or the next try is waited for; and each wait for a next try is of 2 seconds at least and
-- of the maximum at most. The maximum is at least 2, and the initial time no 0, and no 0 or 1 given as
-- a text.
pub Reached-Serves :
    (max configured : Setting) (close_throws : ℕ → Bool) (w : World)
    → 2 ≤ numeric max
    → 2 ≤ numeric (at_least_two configured)
    → Reached configured close_throws max w
    → (Sends w.link ⊎ Has progress w.tasks)
      × ((d : ℕ) → In (waiting d) w.tasks → (2 ≤ d) × (d ≤ numeric max))
Reached-Serves max configured close_throws w long h r =
    let i = Reached-Inv max configured close_throws long w h r in
    (
      Inv-Sends max configured close_throws long w i,
      λ d t. All-In (Bounded max) w.tasks (waiting d) i.3 t,
    )
