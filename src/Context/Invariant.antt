-- ===== src/Context/Invariant.antt =====
-- Control entries, hold timers and granted locks stay in step.
use flowbroker.Prelude.{
  ℕ, suc, ◌<◌, String, ◌≡◌, refl, sym, ap, ◌∙◌, ◌≢◌, inl, inr, false, Option, none, some, List, [],
  ◌∷◌, In, arith, ◌==◌, eq_iff, nat_eq, Bool-cases,
}
use flowbroker.Prelude.Dict
use flowbroker.Prelude.Dict.{get-put, get-remove}
use flowbroker.Lock.Watch.{LockMode}
use flowbroker.Context.State.{Lock, Entry, Timer, Manager, clear_timeout, forget}

pub In-clear_timeout :
    (t : ℕ) (u : Timer) (ts : List Timer) → In u (clear_timeout t ts) → In u ts × (t ≢ u.id)
unfolding clear_timeout
In-clear_timeout t u [] i = absurd i
In-clear_timeout t u (x ∷ ts) i = elim (Bool-cases (nat_eq t x.id)) [
  | inl e ↦ let (j, d) = In-clear_timeout t u ts (rw e at i) in (inr j, d)
  | inr e ↦ elim (let j : In u (x ∷ clear_timeout t ts) = rw e at i in j) [
    | inl same ↦ (inl same, λ q. absurd (ground (arith, ap (λ (y : Timer). y.id) same)))
    | inr j ↦ let (k, d) = In-clear_timeout t u ts j in (inr k, d)
  ]
]

clear_timeout-In :
    (t : ℕ) (u : Timer) (ts : List Timer) → In u ts → t ≢ u.id → In u (clear_timeout t ts)
unfolding clear_timeout
clear_timeout-In t u [] i d = absurd i
clear_timeout-In t u (x ∷ ts) (inl same) d =
    let off : nat_eq t x.id ≡ false = ground (arith, ap (λ (y : Timer). y.id) same) in
    rw off (inl same)
clear_timeout-In t u (x ∷ ts) (inr i) d = elim (Bool-cases (nat_eq t x.id)) [
  | inl e ↦ rw e (clear_timeout-In t u ts i d)
  | inr e ↦ rw e (inr (clear_timeout-In t u ts i d))
]

In-forget : (p q : String) (qs : List String) → In q (forget p qs) → In q qs × (q ≢ p)
unfolding forget
In-forget p q [] i = absurd i
In-forget p q (x ∷ qs) i = elim (Bool-cases (x == p)) [
  | inl e ↦ let (j, d) = In-forget p q qs (rw e at i) in (inr j, d)
  | inr e ↦ elim (let j : In q (x ∷ forget p qs) = rw e at i in j) [
    | inl same ↦ (inl same, λ r. absurd (ground (arith, eq_iff x p)))
    | inr j ↦ let (k, d) = In-forget p q qs j in (inr k, d)
  ]
]

-- Each control entry has its hold timer set, with its own key and lock; timers have identities of
-- their own; and each granted lock whose node is there will be unlocked by a timer.
pub record Inv (m : Manager) : Type 0 where
  pub armed :
      (key : String) (e : Entry)
      → Dict.get key m.control_map ≡ some e
      → In (record { id = e.timer; key = key; lock = e.lock }) m.timers
  pub fresh : (t : Timer) → In t m.timers → t.id < m.next_timer
  pub unique : (t u : Timer) → In t m.timers → In u m.timers → t.id ≡ u.id → t ≡ u
  pub guarded : (p : String) → In p m.locks → (t : Timer) × In t m.timers × (t.lock.lock_path ≡ p)

-- A timer is cleared together with its control entry and its lock's node.
module _ {m : Manager} (inv : Inv m) (t : Timer) (set : In t m.timers) where
  abbrev pub freed : Manager
  freed = record m {
    control_map = Dict.remove t.key m.control_map;
    timers = clear_timeout t.id m.timers;
    locks = forget t.lock.lock_path m.locks;
  }

  freed_armed :
      (key : String) (e : Entry)
      → Dict.get key freed.control_map ≡ some e
      → In (record { id = e.timer; key = key; lock = e.lock }) freed.timers
  freed_armed key e h = elim (Bool-cases (t.key == key)) [
    | inl same ↦ let gone : ◌≡◌ {A = Option Entry} none (some e) = rw (get-remove, same) at h in cc
    | inr other ↦
        let kept : Dict.get key m.control_map ≡ some e = rw (get-remove, other) at h in
        clear_timeout-In t.id _ m.timers (inv.armed key e kept) (λ same_id.
          let one = ap (λ (y : Timer). y.key) (inv.unique t _ set (inv.armed key e kept) same_id) in
          ground (arith, one, eq_iff t.key key))
  ]

  pub freed-Inv : Inv freed
  freed-Inv = record {
    armed = freed_armed;
    fresh = λ u i. inv.fresh u (In-clear_timeout t.id u m.timers i).0;
    unique = λ u v i j.
        inv.unique u v (In-clear_timeout t.id u m.timers i).0
          (In-clear_timeout t.id v m.timers j).0;
    guarded = λ p i.
        let (j, d) = In-forget t.lock.lock_path p m.locks i in
        let (u, k, e) = inv.guarded p j in
        (
          u,
          clear_timeout-In t.id u m.timers k (λ q.
              d (sym e ∙ ap (λ (y : Timer). y.lock.lock_path) (sym (inv.unique t u set k q)))),
          e,
        );
  }

module _ {m : Manager} (inv : Inv m) where
  -- The next hold timer, set for a lock that was granted.
  abbrev pub guard_lock : String → LockMode → Lock → Manager
  guard_lock key mode lock = record m {
    control_map =
        Dict.put key (record { lock_mode = mode; lock = lock; timer = m.next_timer }) m.control_map;
    timers = record { id = m.next_timer; key = key; lock = lock } ∷ m.timers;
    next_timer = suc m.next_timer;
    locks = lock.lock_path ∷ m.locks;
  }

  guard_lock-armed :
      (key : String) (mode : LockMode) (lock : Lock) (j : String) (e : Entry)
      → Dict.get j (guard_lock key mode lock).control_map ≡ some e
      → In (record { id = e.timer; key = j; lock = e.lock }) (guard_lock key mode lock).timers
  guard_lock-armed key mode lock j e h = elim (Bool-cases (key == j)) [
    | inl same ↦
        let entry : Entry = record { lock_mode = mode; lock = lock; timer = m.next_timer } in
        let new : some entry ≡ some e = rw (get-put, same) at h in
        let q : entry ≡ e = cc in
        let r = (eq_iff key j).0 same in
        inl (sym (λ i. record { id = (q i).timer; key = r i; lock = (q i).lock }))
    | inr other ↦ inr (inv.armed j e (rw (get-put, other) at h))
  ]

  pub guard_lock-Inv :
      (key : String) (mode : LockMode) (lock : Lock) → Inv (guard_lock key mode lock)
  guard_lock-Inv key mode lock = record {
    armed = guard_lock-armed key mode lock;
    fresh = λ u i. elim i [
      | inl same ↦ omega (arith, ap (λ (y : Timer). y.id) same)
      | inr j ↦ omega (arith, inv.fresh u j)
    ];
    unique = λ u v i j q. elim i [
      | inl same ↦ elim j [
        | inl same' ↦ same ∙ sym same'
        | inr j' ↦ absurd (omega (arith, q, ap (λ (y : Timer). y.id) same, inv.fresh v j'))
      ]
      | inr i' ↦ elim j [
        | inl same' ↦ absurd (omega (arith, q, ap (λ (y : Timer). y.id) same', inv.fresh u i'))
        | inr j' ↦ inv.unique u v i' j' q
      ]
    ];
    guarded = λ p i. elim i [
      | inl same ↦ (record { id = m.next_timer; key = key; lock = lock }, inl refl, sym same)
      | inr j ↦ let (u, k, e) = inv.guarded p j in (u, inr k, e)
    ];
  }

  pub writes-Inv : (w : List (String × String)) → Inv (record m { writes = w })
  writes-Inv w = record {
    armed = inv.armed;
    fresh = inv.fresh;
    unique = inv.unique;
    guarded = inv.guarded;
  }
