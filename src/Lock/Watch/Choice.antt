-- ===== src/Lock/Watch/Choice.antt =====
-- What the two searches choose, over the names that ZooKeeper gives: mode and sequence number.
use mathlib.Core.List.{foldl}
use flowbroker.Prelude.{
  ℕ, ◌<◌, ◌≤◌, ◌^◌, ◌≡◌, refl, ap, ◌∙◌, ◌⊎◌, Bool-cases, In, All, inl, inr, Bool, true, false, ◌&&◌,
  Option, none, some, List, [], ◌∷◌, map, arith, ltb, if◌then◌else◌, drop,
}
use flowbroker.Lock.Text.{Text, padded}
use flowbroker.Lock.Text.Padded.{text_lt-padded, to_number-padded}
use flowbroker.Lock.Watch.{
  LockMode, read, write, str, exceeds, Scan, start, visit, visit_write_node, is_write_node,
  node_name,
}

-- A lock request's znode, read back from its name.
pub record LockNode : Type 0 where
  pub mode : LockMode
  pub seq : ℕ

abbrev pub name_of : LockNode → Text
name_of n = node_name n.mode n.seq

-- ZooKeeper's counter is a signed 32-bit number.
abbrev pub seq_limit : ℕ
seq_limit = 2 ^ 31

-- A request for `mode` waits for a node of the mode `other`.
abbrev pub conflicts : LockMode → LockMode → Bool
conflicts write other = true
conflicts read write = true
conflicts read read = false

pub drop-name_of : (n : LockNode) → drop 6 (name_of n) ≡ padded 10 n.seq
unfolding node_name
drop-name_of n = elim n.mode as (λ m. drop 6 (node_name m n.seq) ≡ padded 10 n.seq) [
  | read ↦ refl
  | write ↦ refl
]

pub is_write_node-name_of : (n : LockNode) → is_write_node (name_of n) ≡ conflicts read n.mode
unfolding node_name is_write_node
is_write_node-name_of n =
    elim n.mode as (λ m. is_write_node (node_name m n.seq) ≡ conflicts read m) [
      | read ↦ refl
      | write ↦ refl
    ]

-- The search over numbers.
abbrev pub floor : Option LockNode → ℕ
floor none = 0
floor (some m) = m.seq

pick : LockMode → ℕ → Option LockNode → LockNode → Option LockNode
pick mode seq best m =
    if conflicts mode m.mode && (ltb (floor best) m.seq && ltb m.seq seq) then some m else best

abbrev pub scan_of : Option LockNode → Scan
scan_of none = start
scan_of (some m) = record { previous = some (name_of m); previous_value = str (padded 10 m.seq) }

abbrev pub Small : Option LockNode → Type 0
Small none = Unit
Small (some m) = m.seq < seq_limit

exceeds-scan_of :
    (best : Option LockNode) (v : ℕ)
    → Small best
    → v < seq_limit
    → exceeds (padded 10 v) (scan_of best).previous_value ≡ ltb (floor best) v
unfolding exceeds
exceeds-scan_of none v s h = rw (to_number-padded 10 v (omega arith), exceeds)
exceeds-scan_of (some m) v s h = text_lt-padded 10 m.seq v (omega arith) (omega arith)

if-scan_of :
    (b c : Bool) (best : Option LockNode) (m : LockNode)
    → (if c then scan_of (if b then some m else best) else scan_of best)
      ≡ scan_of (if c && b then some m else best)
if-scan_of b true best m = refl
if-scan_of b false best m = refl

visit-scan_of :
    (target : ℕ) (best : Option LockNode) (m : LockNode)
    → Small best
    → m.seq < seq_limit
    → target < seq_limit
    → visit (padded 10 target) (scan_of best) (name_of m) ≡ scan_of (pick write target best m)
unfolding visit pick
visit-scan_of target best m s h t =
    rw
      (
        drop-name_of m,
        exceeds-scan_of best m.seq s h,
        text_lt-padded 10 m.seq target (omega arith) (omega arith),
      )
      (found (ltb (floor best) m.seq && ltb m.seq target))
  where
    found :
        (b : Bool)
        → (if b
            then record { previous = some (name_of m); previous_value = str (padded 10 m.seq) }
            else scan_of best)
          ≡ scan_of (if b then some m else best)
    found true = refl
    found false = refl

visit_write_node-scan_of :
    (target : ℕ) (best : Option LockNode) (m : LockNode)
    → Small best
    → m.seq < seq_limit
    → target < seq_limit
    → visit_write_node (padded 10 target) (scan_of best) (name_of m)
      ≡ scan_of (pick read target best m)
unfolding visit_write_node pick
visit_write_node-scan_of target best m s h t =
    rw (is_write_node-name_of m, visit-scan_of target best m s h t)
      (if-scan_of (ltb (floor best) m.seq && ltb m.seq target) (conflicts read m.mode) best m)

Small-pick :
    (mode : LockMode) (target : ℕ) (best : Option LockNode) (m : LockNode)
    → Small best
    → m.seq < seq_limit
    → Small (pick mode target best m)
unfolding pick
Small-pick mode target best m s h =
    elim (Bool-cases (conflicts mode m.mode && (ltb (floor best) m.seq && ltb m.seq target))) [
      | inl e ↦ rw e h
      | inr e ↦ rw e s
    ]

pub choice : LockMode → ℕ → Option LockNode → List LockNode → Option LockNode
choice mode target best names = foldl (pick mode target) best names

abbrev pub AllSmall : List LockNode → Type 0
AllSmall = All (λ m. m.seq < seq_limit)

module _ (target : ℕ) (t : target < seq_limit) where
  pub foldl-visit :
      (names : List LockNode) (best : Option LockNode)
      → Small best
      → AllSmall names
      → foldl (visit (padded 10 target)) (scan_of best) (map name_of names)
        ≡ scan_of (choice write target best names)
  unfolding choice
  foldl-visit [] best s a = refl
  foldl-visit (m ∷ names) best s a =
      ap (λ sc. foldl (visit (padded 10 target)) sc (map name_of names))
        (visit-scan_of target best m s a.0 t)
      ∙ foldl-visit names (pick write target best m) (Small-pick write target best m s a.0) a.1

  pub foldl-visit_write_node :
      (names : List LockNode) (best : Option LockNode)
      → Small best
      → AllSmall names
      → foldl (visit_write_node (padded 10 target)) (scan_of best) (map name_of names)
        ≡ scan_of (choice read target best names)
  unfolding choice
  foldl-visit_write_node [] best s a = refl
  foldl-visit_write_node (m ∷ names) best s a =
      ap (λ sc. foldl (visit_write_node (padded 10 target)) sc (map name_of names))
        (visit_write_node-scan_of target best m s a.0 t)
      ∙ foldl-visit_write_node names (pick read target best m) (Small-pick read target best m s a.0)
          a.1

-- The choice meets its specification: the highest conflicting number below the target, if any.
module _ (mode : LockMode) (target : ℕ) where
  pick_grows :
      (best : Option LockNode) (m : LockNode) → floor best ≤ floor (pick mode target best m)
  unfolding pick
  pick_grows best m = ground arith

  pick_highest :
      (best : Option LockNode) (m : LockNode)
      → conflicts mode m.mode ≡ true
      → m.seq < target
      → m.seq ≤ floor (pick mode target best m)
  unfolding pick
  pick_highest best m c l = ground arith

  abbrev pub Wanted : LockNode → Type 0
  Wanted m = (conflicts mode m.mode ≡ true) × (0 < m.seq) × (m.seq < target)

  pick_source :
      (best : Option LockNode) (m : LockNode)
      → (pick mode target best m ≡ best) ⊎ (pick mode target best m ≡ some m) × Wanted m
  unfolding pick
  pick_source best m =
      elim (Bool-cases (conflicts mode m.mode && (ltb (floor best) m.seq && ltb m.seq target))) [
        | inl e ↦ rw e (inr (refl, (ground arith, ground arith, ground arith)))
        | inr e ↦ rw e (inl refl)
      ]

  choice_grows :
      (names : List LockNode) (best : Option LockNode)
      → floor best ≤ floor (choice mode target best names)
  unfolding choice
  choice_grows [] best = omega arith
  choice_grows (m ∷ names) best =
      omega (arith, pick_grows best m, choice_grows names (pick mode target best m))

  pub choice_highest :
      (names : List LockNode) (best : Option LockNode) (m : LockNode)
      → In m names
      → conflicts mode m.mode ≡ true
      → m.seq < target
      → m.seq ≤ floor (choice mode target best names)
  unfolding choice
  choice_highest [] best m i c l = elim i [ ]
  choice_highest (n ∷ names) best m (inl e) c l =
      let at_n = pick_highest best n (rw e at c) (rw e at l) in
      omega
        (arith, ap (λ (x : LockNode). x.seq) e, at_n, choice_grows names (pick mode target best n))
  choice_highest (n ∷ names) best m (inr i) c l =
      choice_highest names (pick mode target best n) m i c l

  pub choice_source :
      (names : List LockNode) (best : Option LockNode)
      → (choice mode target best names ≡ best)
        ⊎ ((m : LockNode) × (choice mode target best names ≡ some m) × In m names × Wanted m)
  unfolding choice
  choice_source [] best = inl refl
  choice_source (n ∷ names) best = elim (choice_source names (pick mode target best n)) [
    | inr (m, e, i, w) ↦ inr (m, e, inr i, w)
    | inl kept ↦ elim (pick_source best n) [
      | inl same ↦ inl (kept ∙ same)
      | inr (e, w) ↦ inr (n, kept ∙ e, inl refl, w)
    ]
  ]
