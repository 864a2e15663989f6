-- ===== src/Lock/Watch/Next.antt =====
-- The node that a lock request waits for is the nearest conflicting one before it.
use flowbroker.Prelude.{
  ◌<◌, ◌≤◌, ◌≡◌, sym, ap, ◌∙◌, ◌↔◌, inl, inr, true, false, false≢true, Option, none, some, List,
  map, drop, arith, In, Bool-cases,
}
use mathlib.Core.Option
use flowbroker.Lock.Text.{Text, text_eq, text_eq→≡, padded, text_lt_irrefl}
use flowbroker.Lock.Text.Padded.{text_lt-padded}
use flowbroker.Lock.Watch.{
  LockMode, read, write, unless_target, node_to_be_watched, find_next_elem_to_be_watched_write_case,
  find_next_elem_to_be_watched_read_case,
}
use flowbroker.Lock.Watch.Choice.{
  LockNode, name_of, seq_limit, conflicts, AllSmall, scan_of, choice, choice_source, choice_highest,
  drop-name_of, foldl-visit, foldl-visit_write_node,
}

-- Nodes with different numbers have different names.
name_of_ne :
    (m n : LockNode) → m.seq < n.seq → n.seq < seq_limit → text_eq (name_of m) (name_of n) ≡ false
name_of_ne m n lt h = elim (Bool-cases (text_eq (name_of m) (name_of n))) [
  | inr e ↦ e
  | inl e ↦
      let same = sym (drop-name_of m) ∙ ap (drop 6) (text_eq→≡ _ _ e) ∙ drop-name_of n in
      let less = text_lt-padded 10 m.seq n.seq (omega arith) (omega arith) in
      absurd
        (false≢true (sym (text_lt_irrefl (padded 10 n.seq)) ∙ (rw same at less) ∙ ground arith))
]

pub record IsNext (mode : LockMode) (names : List LockNode) (target m : LockNode) : Type 0 where
  pub listed : In m names
  pub conflict : conflicts mode m.mode ≡ true
  pub positive : 0 < m.seq
  pub below : m.seq < target.seq
  pub highest :
      (n : LockNode)
      → In n names
      → conflicts mode n.mode ≡ true
      → n.seq < target.seq
      → n.seq ≤ m.seq

none≢some : {A : Type 0} {a : A} → ◌≡◌ {A = Option A} none (some a) → ⊥
none≢some e = cc

some_cancel : {A : Type 0} {a b : A} → some a ≡ some b → a ≡ b
some_cancel e = cc

module _ (names : List LockNode) (small : AllSmall names) (target : LockNode)
    (t : target.seq < seq_limit) where
  unless_target-choice :
      (mode : LockMode)
      → unless_target (name_of target) (scan_of (choice mode target.seq none names)).previous
        ≡ Option.map name_of (choice mode target.seq none names)
  unfolding unless_target
  unless_target-choice mode = elim (choice_source mode target.seq names none) [
    | inl e ↦ rw e
    | inr (m, e, i, w) ↦ rw (e, name_of_ne m target w.2 t, unless_target)
  ]

  -- The two searches over names are the choice over numbers.
  node_to_be_watched-eq :
      (mode : LockMode)
      → node_to_be_watched mode (map name_of names) (name_of target)
        ≡ Option.map name_of (choice mode target.seq none names)
  unfolding node_to_be_watched find_next_elem_to_be_watched_write_case
      find_next_elem_to_be_watched_read_case
  node_to_be_watched-eq read =
      rw (drop-name_of target, foldl-visit_write_node target.seq t names none tt small)
        (unless_target-choice read)
  node_to_be_watched-eq write =
      rw (drop-name_of target, foldl-visit target.seq t names none tt small)
        (unless_target-choice write)

  -- A search that answers a name answers that of a listed node, which conflicts with the request,
  -- has a positive number below the target's, and has the highest number of all such nodes.
  pub node_to_be_watched-IsNext :
      (mode : LockMode) (s : Text)
      → node_to_be_watched mode (map name_of names) (name_of target) ≡ some s
      → (m : LockNode) × (s ≡ name_of m) × IsNext mode names target m
  node_to_be_watched-IsNext mode s h = elim (choice_source mode target.seq names none) [
    | inl e ↦
        absurd (none≢some (sym (ap (Option.map name_of) e) ∙ sym (node_to_be_watched-eq mode) ∙ h))
    | inr (m, e, i, w) ↦ (
      m,
      some_cancel (sym h ∙ node_to_be_watched-eq mode ∙ ap (Option.map name_of) e),
      record {
        listed = i;
        conflict = w.0;
        positive = w.1;
        below = w.2;
        highest = λ n j c l. rw e at (choice_highest mode target.seq names none n j c l);
      },
    )
  ]

  -- A search answers nothing exactly when every conflicting node below the target has the number 0.
  pub node_to_be_watched-none_iff :
      (mode : LockMode)
      → (node_to_be_watched mode (map name_of names) (name_of target) ≡ none) ↔ (
          (m : LockNode)
          → In m names
          → conflicts mode m.mode ≡ true
          → m.seq < target.seq
          → m.seq ≡ 0)
  node_to_be_watched-none_iff mode = elim (choice_source mode target.seq names none) [
    | inl e ↦ (
      λ _ m i c l.
          let low = choice_highest mode target.seq names none m i c l in omega (arith, rw e at low),
      λ _. node_to_be_watched-eq mode ∙ ap (Option.map name_of) e,
    )
    | inr (m, e, i, w) ↦ (
      λ none_chosen.
          absurd
            (none≢some (sym none_chosen ∙ node_to_be_watched-eq mode ∙ ap (Option.map name_of) e)),
      λ h. absurd (omega (arith, h m i w.0 w.2, w.1)),
    )
  ]
