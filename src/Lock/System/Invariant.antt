-- ===== src/Lock/System/Invariant.antt =====
-- What holds of every reachable state of the lock requests.
use flowbroker.Prelude.{
  ℕ, suc, ◌≤◌, refl, Bool-cases, nat_eq, map, ◌<◌, ◌≡◌, sym, ap, ◌∙◌, subst, inl, inr, true, none,
  List, [], ◌∷◌, In, arith,
}
use flowbroker.Lock.Watch.{LockMode, node_to_be_watched}
use flowbroker.Lock.Watch.Choice.{LockNode, name_of, seq_limit, conflicts, AllSmall}
use flowbroker.Lock.Watch.Next.{node_to_be_watched-none_iff}
use flowbroker.Lock.System.{
  Zookeeper, System, let_go, Step, request, look, acquire, release, vanish, Reach, here, next,
  IsFresh,
}

In-let_go : (n m : LockNode) (held : List LockNode) → In m (let_go n held) → In m held
unfolding let_go
In-let_go n m [] i = i
In-let_go n m (x ∷ held) i = elim (Bool-cases (nat_eq n.seq x.seq)) [
  | inl e ↦ inr (In-let_go n m held (rw e at i))
  | inr e ↦ elim (let j : In m (x ∷ let_go n held) = rw e at i in j) [
    | inl h ↦ inl h
    | inr h ↦ inr (In-let_go n m held h)
  ]
]

pub nodes_are_small :
    (ns : List LockNode) → ((m : LockNode) → In m ns → m.seq < seq_limit) → AllSmall ns
nodes_are_small [] h = tt
nodes_are_small (m ∷ ns) h = (h m (inl refl), nodes_are_small ns (λ x i. h x (inr i)))

module _ (zk : Zookeeper) where
  open zk use {
    Dir, nodes, counter, create, delete, counter-create, counter-delete, in_create, in_delete,
  }

  -- Every conflicting node before `n` that is still there stands in `view`.
  abbrev Covers : Dir → LockNode → List LockNode → Type 0
  Covers d n view = (m : LockNode) → In m (nodes d) → m.seq < n.seq → In m view

  pub record Inv (low : ℕ) (s : System zk) : Type 0 where
    pub room : counter s.dir < seq_limit
    pub numbered : (m : LockNode) → In m (nodes s.dir) → (low ≤ m.seq) × (m.seq < counter s.dir)
    pub unique : (m n : LockNode) → In m (nodes s.dir) → In n (nodes s.dir) → m.seq ≡ n.seq → m ≡ n
    pub started : low ≤ counter s.dir
    pub view_ok :
        (n : LockNode) (view : List LockNode)
        → In (n, view) s.views
        → (n.seq < counter s.dir) × AllSmall view × Covers s.dir n view
    pub held_ok :
        (n : LockNode)
        → In n s.held
        → (n.seq < counter s.dir)
          × ((m : LockNode)
              → In m (nodes s.dir)
              → conflicts n.mode m.mode ≡ true
              → m.seq < n.seq
              → m.seq ≡ 0)

  IsFresh-Inv : (s : System zk) → IsFresh zk s → Inv (counter s.dir) s
  IsFresh-Inv s f = record {
    room = f.room;
    numbered = λ m i. absurd (rw f.empty at i);
    unique = λ m n i. absurd (rw f.empty at i);
    started = omega arith;
    view_ok = λ n view i. absurd (rw f.no_views at i);
    held_ok = λ n i. absurd (rw f.no_holders at i);
  }

  module _ {low : ℕ} {s : System zk} (inv : Inv low s) where
    request-Inv :
        (k : LockMode)
        → suc (counter s.dir) < seq_limit
        → Inv low (record s { dir = create k s.dir })
    request-Inv k h = record {
      room = rw counter-create (omega arith);
      numbered = λ m i. elim ((in_create k s.dir m).0 i) [
        | inl e ↦ rw (e, counter-create) (omega (arith, inv.started), omega arith)
        | inr j ↦ rw counter-create (omega (arith, inv.numbered m j))
      ];
      unique = λ m n i j e. elim ((in_create k s.dir m).0 i) [
        | inl p ↦ elim ((in_create k s.dir n).0 j) [
          | inl q ↦ p ∙ sym q
          | inr j' ↦ absurd (omega (arith, ap (λ (x : LockNode). x.seq) p, e, inv.numbered n j'))
        ]
        | inr i' ↦ elim ((in_create k s.dir n).0 j) [
          | inl q ↦ absurd (omega (arith, ap (λ (x : LockNode). x.seq) q, e, inv.numbered m i'))
          | inr j' ↦ inv.unique m n i' j' e
        ]
      ];
      started = rw counter-create (omega (arith, inv.started));
      view_ok = λ n view i.
          let (lt, small, covers) = inv.view_ok n view i in
          (
            rw counter-create (omega arith),
            small,
            λ m j l. elim ((in_create k s.dir m).0 j) [
              | inl e ↦ absurd (omega (arith, ap (λ (x : LockNode). x.seq) e))
              | inr j' ↦ covers m j' l
            ],
          );
      held_ok = λ n i.
          let (lt, safe) = inv.held_ok n i in
          (
            rw counter-create (omega arith),
            λ m j c l. elim ((in_create k s.dir m).0 j) [
              | inl e ↦ absurd (omega (arith, ap (λ (x : LockNode). x.seq) e))
              | inr j' ↦ safe m j' c l
            ],
          );
    }

    abbrev ViewOk : LockNode → List LockNode → Type 0
    ViewOk n view = (n.seq < counter s.dir) × AllSmall view × Covers s.dir n view

    abbrev HeldOk : LockNode → Type 0
    HeldOk n =
        (n.seq < counter s.dir)
        × ((m : LockNode)
            → In m (nodes s.dir)
            → conflicts n.mode m.mode ≡ true
            → m.seq < n.seq
            → m.seq ≡ 0)

    look-Inv :
        (n : LockNode)
        → n.seq < counter s.dir
        → Inv low (record s { views = (n, nodes s.dir) ∷ s.views })
    look-Inv n h = record {
      room = inv.room;
      numbered = inv.numbered;
      unique = inv.unique;
      started = inv.started;
      view_ok = λ m view i. elim i [
        | inl e ↦
            subst (λ (p : LockNode × List LockNode). ViewOk p.0 p.1) (sym e)
              (
                h,
                nodes_are_small (nodes s.dir) (λ x j. omega (arith, inv.numbered x j, inv.room)),
                λ x j l. j,
              )
        | inr j ↦ inv.view_ok m view j
      ];
      held_ok = inv.held_ok;
    }

    acquire-Inv :
        (n : LockNode) (view : List LockNode)
        → In (n, view) s.views
        → node_to_be_watched n.mode (map name_of view) (name_of n) ≡ none
        → Inv low (record s { held = n ∷ s.held })
    acquire-Inv n view i e = record {
      room = inv.room;
      numbered = inv.numbered;
      unique = inv.unique;
      started = inv.started;
      view_ok = inv.view_ok;
      held_ok = λ m j. elim j [
        | inl same ↦
            let (lt, small, covers) = inv.view_ok n view i in
            let clear =
              (node_to_be_watched-none_iff view small n (omega (arith, inv.room)) n.mode).0 e in
            subst HeldOk (sym same) (lt, λ x k c l. clear x (covers x k l) c l)
        | inr j' ↦ inv.held_ok m j'
      ];
    }

    release-Inv : (n : LockNode) → Inv low (record s { held = let_go n s.held })
    release-Inv n = record {
      room = inv.room;
      numbered = inv.numbered;
      unique = inv.unique;
      started = inv.started;
      view_ok = inv.view_ok;
      held_ok = λ m j. inv.held_ok m (In-let_go n m s.held j);
    }

    vanish-Inv : (k : LockNode) → Inv low (record s { dir = delete k s.dir })
    vanish-Inv k = record {
      room = rw counter-delete inv.room;
      numbered = λ m i. rw counter-delete (inv.numbered m ((in_delete k s.dir m).0 i).0);
      unique =
          λ m n i j. inv.unique m n ((in_delete k s.dir m).0 i).0 ((in_delete k s.dir n).0 j).0;
      started = rw counter-delete inv.started;
      view_ok = λ n view i.
          let (lt, small, covers) = inv.view_ok n view i in
          (rw counter-delete lt, small, λ m j. covers m ((in_delete k s.dir m).0 j).0);
      held_ok = λ n i.
          let (lt, safe) = inv.held_ok n i in
          (rw counter-delete lt, λ m j. safe m ((in_delete k s.dir m).0 j).0);
    }

  -- Every step keeps the invariant.
  pub Step-Inv : {low : ℕ} {s t : System zk} → Step zk s t → Inv low s → Inv low t
  Step-Inv (request s k h) inv = request-Inv inv k h
  Step-Inv (look s n h) inv = look-Inv inv n h
  Step-Inv (acquire s n view i e) inv = acquire-Inv inv n view i e
  Step-Inv (release s n) inv = release-Inv inv n
  Step-Inv (vanish s n) inv = vanish-Inv inv n

  pub Reach-Inv : {s t : System zk} → IsFresh zk s → Reach zk s t → Inv (counter s.dir) t
  Reach-Inv {s} f here = IsFresh-Inv s f
  Reach-Inv f (next r st) = Step-Inv st (Reach-Inv f r)
