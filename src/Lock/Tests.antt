-- ===== src/Lock/Tests.antt =====
-- The lock theorems at concrete inputs, over a list of nodes with a counter in ZooKeeper's place.
use flowbroker.Prelude.{
  ℕ, true, some, map, ap, ◌+◌, ◌≡◌, refl, sym, ◌∙◌, ◌≢◌, ◌↔◌, inl, inr, List, [], ◌∷◌, In, arith,
}
use native.Mathlib.Decide.{ℕ_discrete}
use flowbroker.Lock.Text.{codes, padded, text_lt, text_eq, to_number}
use flowbroker.Lock.Watch.{
  LockMode, read, write, node_to_be_watched, find_next_elem_to_be_watched_read_case,
  find_next_elem_to_be_watched_write_case, visit_write_node, visit, unless_target, node_name,
}
use flowbroker.Lock.Watch.Choice.{LockNode, name_of, conflicts}
use flowbroker.Lock.Watch.Next.{IsNext, node_to_be_watched-IsNext}
use flowbroker.Lock.System.{
  Zookeeper, System, request, look, acquire, release, vanish, let_go, Reach, here, next, IsFresh,
}
use flowbroker.Lock.System.Safety.{
  mutual_exclusion, next_in_line_acquires, first_writer_not_excluded,
}

LockMode-discrete : Discrete LockMode
LockMode-discrete = hlevel

LockNode-discrete : Discrete LockNode
LockNode-discrete = hlevel (LockMode-discrete, ℕ_discrete)

record Dir : Type 0 where
  nodes : List LockNode
  counter : ℕ

erase : LockNode → List LockNode → List LockNode
erase k [] = []
erase k (m ∷ ns) =
    let rest = erase k ns in elim (LockNode-discrete m k) [ yes e ↦ rest | no e ↦ m ∷ rest ]

in_erase : (k n : LockNode) (ns : List LockNode) → In n (erase k ns) ↔ (In n ns × (n ≢ k))
unfolding erase
in_erase k n [] = (λ i. absurd i, λ i. i.0)
in_erase k n (m ∷ ns) =
    elim (LockNode-discrete m k)
      as (λ d.
        In n (elim d [ yes e ↦ erase k ns | no e ↦ m ∷ erase k ns ]) ↔ (In n (m ∷ ns) × (n ≢ k))) [
          | yes e ↦ (
            λ i. let (j, d) = (in_erase k n ns).0 i in (inr j, d),
            λ p. elim p.0 [ inl q ↦ absurd (p.1 (q ∙ e)) | inr j ↦ (in_erase k n ns).1 (j, p.1) ],
          )
          | no e ↦ (
            λ i. elim i [
              | inl q ↦ (inl q, λ r. e (sym q ∙ r))
              | inr j ↦ let (j', d) = (in_erase k n ns).0 j in (inr j', d)
            ],
            λ p. elim p.0 [ inl q ↦ inl q | inr j ↦ inr ((in_erase k n ns).1 (j, p.1)) ],
          )
        ]

abbrev listed : Zookeeper
listed = record {
  Dir = Dir;
  nodes = λ d. d.nodes;
  counter = λ d. d.counter;
  create = λ k d. record {
    nodes = record { mode = k; seq = d.counter } ∷ d.nodes;
    counter = d.counter + 1;
  };
  delete = λ n d. record { nodes = erase n d.nodes; counter = d.counter };
  counter-create = λ k d. refl;
  counter-delete = λ n d. refl;
  in_create = λ k d n. (λ i. i, λ i. i);
  in_delete = λ k d n. in_erase k n d.nodes;
}

-- A data znode that has served requests before, and one that has not.
abbrev used : System listed
used = record { dir = record { nodes = []; counter = 7 }; views = []; held = [] }

abbrev unused : System listed
unused = record { dir = record { nodes = []; counter = 0 }; views = []; held = [] }

used-IsFresh : IsFresh listed used
used-IsFresh = record { empty = refl; no_views = refl; no_holders = refl; room = omega arith }

unused-IsFresh : IsFresh listed unused
unused-IsFresh = record { empty = refl; no_views = refl; no_holders = refl; room = omega arith }

abbrev reader : ℕ → LockNode
reader n = record { mode = read; seq = n }

abbrev writer : ℕ → LockNode
writer n = record { mode = write; seq = n }

-- Two readers, granted, and a writer behind them.
two_readers : Reach listed used (record {
  dir = record { nodes = writer 9 ∷ reader 8 ∷ reader 7 ∷ []; counter = 10 };
  views = (reader 8, writer 9 ∷ reader 8 ∷ reader 7 ∷ []) ∷ (reader 7, reader 7 ∷ []) ∷ [];
  held = reader 8 ∷ reader 7 ∷ [];
})
unfolding node_to_be_watched find_next_elem_to_be_watched_read_case visit_write_node visit
    unless_target node_name padded text_lt text_eq to_number
two_readers =
    next
      (next
        (next
          (next
            (next
              (next (next here (request _ read (omega arith))) (look _ (reader 7) (omega arith)))
              (acquire _ (reader 7) (reader 7 ∷ []) (inl refl) refl))
            (request _ read (omega arith)))
          (request _ write (omega arith)))
        (look _ (reader 8) (omega arith)))
      (acquire _ (reader 8) (writer 9 ∷ reader 8 ∷ reader 7 ∷ []) (inl refl) refl)

-- A writer behind the two readers that gave up, granted.
one_writer : Reach listed used (record {
  dir = record { nodes = writer 9 ∷ []; counter = 10 };
  views =
      (writer 9, writer 9 ∷ [])
      ∷ (reader 8, writer 9 ∷ reader 8 ∷ reader 7 ∷ [])
      ∷ (reader 7, reader 7 ∷ [])
      ∷ [];
  held = writer 9 ∷ [];
})
unfolding LockNode-discrete LockMode-discrete ℕ_discrete let_go erase node_to_be_watched
    find_next_elem_to_be_watched_write_case visit unless_target node_name padded text_lt text_eq
    to_number
one_writer =
    next
      (next
        (next
          (next (next (next two_readers (release _ (reader 7))) (vanish _ (reader 7)))
            (release _ (reader 8)))
          (vanish _ (reader 8)))
        (look _ (writer 9) (omega arith)))
      (acquire _ (writer 9) (writer 9 ∷ []) (inl refl) refl)

mutual_exclusion_example : writer 9 ≡ writer 9
mutual_exclusion_example =
    mutual_exclusion listed used _ used-IsFresh (omega arith) one_writer (writer 9) (writer 9)
      (inl refl) (inl refl) (inl refl) (inl refl) refl

next_in_line_acquires_example : Reach listed used (record {
  dir = record { nodes = reader 7 ∷ []; counter = 8 };
  views = (reader 7, reader 7 ∷ []) ∷ [];
  held = reader 7 ∷ [];
})
next_in_line_acquires_example =
    next_in_line_acquires listed used _ used-IsFresh (next here (request _ read (omega arith)))
      (reader 7) (inl refl)
      (λ m i c. elim i [ inl e ↦ omega (arith, ap (λ (x : LockNode). x.seq) e) | inr j ↦ absurd j ])

first_writer_not_excluded_example :
    (t : System listed) × Reach listed unused t
    × (n : LockNode) × (m : LockNode) × In n t.held
    × In m t.held
    × In n t.dir.nodes
    × In m t.dir.nodes
    × (conflicts n.mode m.mode ≡ true)
    × (n ≢ m)
first_writer_not_excluded_example = first_writer_not_excluded listed unused unused-IsFresh refl

abbrev queue : List LockNode
queue = writer 12 ∷ reader 11 ∷ reader 10 ∷ writer 9 ∷ reader 8 ∷ []

-- The reader 11 waits for the writer 9.
waits :
    node_to_be_watched read (map name_of queue) (name_of (reader 11))
    ≡ some (codes "wlock-0000000009")
unfolding node_to_be_watched find_next_elem_to_be_watched_read_case visit_write_node visit
    unless_target node_name padded text_lt text_eq to_number
waits = refl

node_to_be_watched-IsNext_example :
    (m : LockNode) × (codes "wlock-0000000009" ≡ name_of m) × IsNext read queue (reader 11) m
node_to_be_watched-IsNext_example =
    node_to_be_watched-IsNext queue (omega arith) (reader 11) (omega arith) read
      (codes "wlock-0000000009") waits
