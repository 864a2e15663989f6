-- ===== src/Amqp/Backoff.antt =====
-- orchestrator/amqp.js: the waits between tries that all fail.
use flowbroker.Prelude.{
  ℕ, zero, suc, Bool, true, List, [], ◌∷◌, ◌++◌, ◌^◌, ◌≡◌, refl, arith, leb, if◌then◌else◌,
}
use flowbroker.Amqp.{
  Setting, number, text, numeric, truthy, Link, Pending, connecting, waiting, failed, at_least_two,
  with_time, next_time, disconnect, reconnect, resume,
}
use flowbroker.Amqp.Alive.{at_least_two_twice}

-- The powers of a base from the exponent `k` on, none above the maximum.
abbrev pub powers : ℕ → ℕ → ℕ → ℕ → List Pending
powers base max k zero = []
powers base max k (suc n) =
    waiting (if leb max (base ^ k) then max else base ^ k) ∷ powers base max (suc k) n

module _ (configured : Setting) (close_throws : ℕ → Bool) where
  -- The waits of `n` tries, of which each fails and the next is made when the wait of the last is over.
  unfoldable pub failed_tries : ℕ → Link → List Pending
  failed_tries zero l = []
  failed_tries (suc n) l =
      let r = resume configured close_throws connecting failed l in r.tasks ++ failed_tries n r.link

  -- A failed try: its wait, and the fields behind it.
  a_try :
      (l : Link)
      → truthy l.initial_time ≡ true
      → let r = resume configured close_throws connecting failed l in
        let e = numeric (at_least_two l.initial_time) ^ suc l.current_number in
        (r.tasks ≡ waiting (if leb (numeric l.max_time) e then numeric l.max_time else e) ∷ [])
        × (r.link.initial_time ≡ at_least_two l.initial_time)
        × (r.link.max_time ≡ l.max_time)
        × (r.link.current_number ≡ suc l.current_number)
  unfolding resume reconnect disconnect with_time next_time
  a_try l h = rw h (ground (arith, h), refl, refl, refl)

  truthy-at_least_two : (s : Setting) → truthy s ≡ true → truthy (at_least_two s) ≡ true
  truthy-at_least_two (number n) h = ground arith
  truthy-at_least_two (text n) h = refl

  -- The waits are the powers of the initial time, or of 2 where that is the number 1, up to the
  -- maximum; the first exponent is one more than the number of the tries that failed before.
  pub failed_tries-powers :
      (n : ℕ) (l : Link)
      → truthy l.initial_time ≡ true
      → failed_tries n l
        ≡ powers
            (numeric (at_least_two l.initial_time))
            (numeric l.max_time)
            (suc l.current_number)
            n
  unfolding failed_tries
  failed_tries-powers zero l h = refl
  failed_tries-powers (suc n) l h =
      let r = resume configured close_throws connecting failed l in
      let (t, i, m, k) = a_try l h in
      let rest = failed_tries-powers n r.link (rw i (truthy-at_least_two l.initial_time h)) in
      simp (t, rest, i, m, k, at_least_two_twice l.initial_time)
