-- ===== src/Lock/Requests/Tests.antt =====
-- Lock requests and the creation of paths, at concrete inputs.
use flowbroker.Prelude.{
  String, Bool, true, false, none, some, List, [], ◌∷◌, ◌==◌, if◌then◌else◌, ◌≡◌, ◌≢◌, refl, arith,
  eq_refl, Bool-cases, inl, inr,
}
use flowbroker.Lock.Text.{codes, text_lt, text_eq, to_number}
use flowbroker.Lock.Watch.{
  write, node_to_be_watched, find_next_elem_to_be_watched_write_case, visit, unless_target,
}
use flowbroker.Lock.Requests.{
  granted, internal_error, LockCall, path_created, children_listed, watch, on_path, Calling, joined,
  path_answers, new_call, Called, begins, steps,
}
use flowbroker.Lock.Requests.Settled.{Settles, Called-Settles}
use flowbroker.Lock.Requests.Late.{Run, late_grant-orphaned}
use flowbroker.Lock.Paths.{
  ZkCode, zk_ok, zk_node_exists, zk_no_node, Znodes, create_path_if_not_exists, path_parts,
}

-- A writer behind the answer to its path.
abbrev creating : Calling
creating = joined (on_path true (new_call write)) []

creating-Called : Called write creating
creating-Called =
    steps (record { call = new_call write; waits = path_created ∷ [] }) creating begins
      (path_answers (new_call write) [] [] true)

Called-Settles_example : Settles creating
Called-Settles_example = Called-Settles write creating creating-Called

-- A writer whose node is the only one.
abbrev alone : LockCall
alone = record {
  mode = write;
  node = codes "wlock-0000000003";
  there = true;
  timer = true;
  settled = none;
}

nobody_before :
    node_to_be_watched write (codes "wlock-0000000003" ∷ []) (codes "wlock-0000000003") ≡ none
unfolding node_to_be_watched find_next_elem_to_be_watched_write_case visit unless_target text_lt
    text_eq to_number
nobody_before = refl

late_grant-orphaned_example :
    ((s : Calling) × Run (record { call = alone; waits = children_listed ∷ [] }) s
      × (s.call.settled ≡ some granted)
      × (s.call.there ≡ false)
      × (s.waits ≡ []))
    × ((s : Calling) × Run (record { call = alone; waits = watch ∷ [] }) s
        × (s.call.settled ≡ some internal_error)
        × (s.call.there ≡ true)
        × (s.call.timer ≡ false)
        × (s.waits ≡ watch ∷ []))
late_grant-orphaned_example =
    late_grant-orphaned alone (codes "wlock-0000000003" ∷ []) refl refl refl nobody_before

-- A list of paths in ZooKeeper's place.
listed_path : String → List String → Bool
listed_path p [] = false
listed_path p (q ∷ qs) = let rest = listed_path p qs in if q == p then true else rest

create_listed : String → List String → ZkCode × List String
create_listed p s = if listed_path p s then (zk_node_exists, s) else (zk_ok, p ∷ s)

listed-create_listed :
    (p q : String) (s : List String)
    → listed_path q s ≡ true
    → listed_path q (create_listed p s).1 ≡ true
unfolding listed_path create_listed
listed-create_listed p q s h = ground (arith, h)

created-create_listed : (p : String) (s : List String) → listed_path p (create_listed p s).1 ≡ true
unfolding listed_path create_listed
created-create_listed p s = ground (arith, eq_refl p)

no_node≢ok : zk_no_node ≢ zk_ok
no_node≢ok e = cc

answered-listed :
    (p : String) (s : List String)
    → (if listed_path p s then zk_ok else zk_no_node) ≡ zk_ok
    → listed_path p s ≡ true
answered-listed p s e = elim (Bool-cases (listed_path p s)) [
  | inl b ↦ b
  | inr b ↦ absurd (no_node≢ok (rw b at e))
]

abbrev listed_paths : Znodes
listed_paths = record {
  Store = List String;
  has = listed_path;
  create = create_listed;
  exists = λ p s. if listed_path p s then zk_ok else zk_no_node;
  create-ok = λ p s e. created-create_listed p s;
  create-exists = λ p s e. created-create_listed p s;
  create-keeps = listed-create_listed;
  exists-has = answered-listed;
}

created_paths :
    (create_path_if_not_exists listed_paths "/locks" "a//b" [])
    ≡ (true, "/locks/a/b" ∷ "/locks/a" ∷ [])
unfolding listed_path create_listed create_path_if_not_exists path_parts
created_paths = refl
