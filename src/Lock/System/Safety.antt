-- ===== src/Lock/System/Safety.antt =====
-- Readers and writers exclude one another, and a request that is next in line is granted.
use flowbroker.Prelude.{ℕ, ◌<◌, ◌≤◌, ◌≡◌, refl, ap, ◌≢◌, inl, inr, true, ◌∷◌, In, arith}
use native.Mathlib.Decide.{dec_lt}
use flowbroker.Lock.Watch.{LockMode, read, write}
use flowbroker.Lock.Watch.Choice.{LockNode, conflicts, seq_limit}
use flowbroker.Lock.Watch.Next.{node_to_be_watched-none_iff}
use flowbroker.Lock.System.{Zookeeper, System, look, acquire, request, Reach, here, next, IsFresh}
use flowbroker.Lock.System.Invariant.{Inv, Reach-Inv, nodes_are_small}

conflicts_sym : (k l : LockMode) → conflicts k l ≡ true → conflicts l k ≡ true
conflicts_sym read read h = h
conflicts_sym read write h = refl
conflicts_sym write read h = refl
conflicts_sym write write h = refl

module _ (zk : Zookeeper) where
  open zk use {nodes, counter, create, counter-create, in_create}

  seq-lt-limit :
      {low : ℕ} {t : System zk}
      → Inv zk low t
      → (n : LockNode) → In n (nodes t.dir)
      → n.seq < seq_limit
  seq-lt-limit inv n there = omega (arith, inv.numbered n there, inv.room)

  ordered_exclusion :
      {low : ℕ} {t : System zk}
      → 0 < low
      → Inv zk low t
      → (n m : LockNode) → In n (nodes t.dir)
      → In m t.held
      → conflicts m.mode n.mode ≡ true
      → n.seq < m.seq
      → ⊥
  ordered_exclusion pos inv n m there held c lt =
      let zero_seq = (inv.held_ok m held).1 n there c lt in
      omega (arith, inv.numbered n there, zero_seq)

  -- From a data znode whose counter has passed 0 and that no request has used yet, in whatever order
  -- requests are made, looked at, granted, released and lost: two conflicting requests that were
  -- both granted and whose nodes are both there are one request. (Two conflict unless both read.)
  pub mutual_exclusion :
      (s t : System zk)
      → IsFresh zk s
      → 0 < counter s.dir
      → Reach zk s t
      → (n m : LockNode) → In n t.held
      → In m t.held
      → In n (nodes t.dir)
      → In m (nodes t.dir)
      → conflicts n.mode m.mode ≡ true
      → n ≡ m
  mutual_exclusion s t fresh pos r n m hn hm tn tm c =
      let inv = Reach-Inv zk fresh r in
      elim (dec_lt n.seq m.seq) [
        | yes lt ↦ absurd (ordered_exclusion pos inv n m tn hm (conflicts_sym n.mode m.mode c) lt)
        | no p ↦ elim (dec_lt m.seq n.seq) [
          | yes lt ↦ absurd (ordered_exclusion pos inv m n tm hn c lt)
          | no q ↦ inv.unique n m tn tm (omega arith)
        ]
      ]

  grant :
      {s t : System zk}
      → IsFresh zk s
      → Reach zk s t
      → (n : LockNode) → In n (nodes t.dir)
      → ((m : LockNode)
          → In m (nodes t.dir)
          → conflicts n.mode m.mode ≡ true
          → m.seq < n.seq
          → m.seq ≡ 0)
      → Reach zk s (record t { views = (n, nodes t.dir) ∷ t.views; held = n ∷ t.held })
  grant {t} fresh r n there clear =
      let inv = Reach-Inv zk fresh r in
      let small = nodes_are_small (nodes t.dir) (seq-lt-limit inv) in
      let free =
        node_to_be_watched-none_iff (nodes t.dir) small n (seq-lt-limit inv n there) n.mode in
      next (next r (look t n (inv.numbered n there).1))
        (acquire _ n (nodes t.dir) (inl refl) (free.1 clear))

  -- In a reachable state, a request with no conflicting node before it is granted by its next look.
  pub next_in_line_acquires :
      (s t : System zk)
      → IsFresh zk s
      → Reach zk s t
      → (n : LockNode) → In n (nodes t.dir)
      → ((m : LockNode) → In m (nodes t.dir) → conflicts n.mode m.mode ≡ true → n.seq ≤ m.seq)
      → Reach zk s (record t { views = (n, nodes t.dir) ∷ t.views; held = n ∷ t.held })
  next_in_line_acquires s t fresh r n there first =
      grant fresh r n there (λ m i c l. absurd (omega (arith, first m i c)))

  -- A data znode whose counter is still at 0: two write requests, one after the other, are both
  -- granted while both of their nodes are there. (The search never answers the node number 0.)
  pub first_writer_not_excluded :
      (s : System zk)
      → IsFresh zk s
      → counter s.dir ≡ 0
      → (t : System zk) × Reach zk s t
        × (n : LockNode) × (m : LockNode) × In n t.held
        × In m t.held
        × In n (nodes t.dir)
        × In m (nodes t.dir)
        × (conflicts n.mode m.mode ≡ true)
        × (n ≢ m)
  first_writer_not_excluded s fresh at_zero =
      let d1 = create write s.dir in
      let d2 = create write d1 in
      let n0 : LockNode = record { mode = write; seq = counter s.dir } in
      let n1 : LockNode = record { mode = write; seq = counter d1 } in
      let one : counter d1 ≡ 1 = omega (arith, counter-create write s.dir) in
      let n0_there = (in_create write s.dir n0).1 (inl refl) in
      let n1_there = (in_create write d1 n1).1 (inl refl) in
      let r1 = next here (request s write (omega arith)) in
      let r2 = grant fresh r1 n0 n0_there (λ m i c l. omega arith) in
      let r3 = next r2 (request _ write (omega arith)) in
      (
        _,
        grant fresh r3 n1 n1_there (λ m i c l. omega arith),
        n0,
        n1,
        inr (inl refl),
        inl refl,
        (in_create write d1 n0).1 (inr n0_there),
        n1_there,
        refl,
        λ e. absurd (omega (arith, ap (λ (x : LockNode). x.seq) e)),
      )
