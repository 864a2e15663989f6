-- ===== src/Lock/Watch.antt =====
-- findNextElemToBeWatchedWriteCase and findNextElemToBeWatchedReadCase: which child of the data
-- znode a lock request waits for. The names are texts, and are compared as the source compares them.
pub mod Choice
pub mod Next
use mathlib.Core.List.{foldl}
use flowbroker.Prelude.{
  ℕ, Bool, false, ◌&&◌, Option, none, some, List, [], ◌∷◌, ◌++◌, drop, ltb, nat_eq, if◌then◌else◌,
}
use flowbroker.Lock.Text.{Text, codes, text_lt, text_eq, to_number, padded}

pub data LockMode : Type 0 where
  read write : LockMode

-- `previousValue` starts as the number 0 and becomes a text.
pub data Previous : Type 0 where
  num : ℕ → Previous
  str : Text → Previous

-- `elemValue > previousValue`: by numbers against a number (a text that is no number is not
-- greater), by code units against a text.
unfoldable pub exceeds : Text → Previous → Bool
exceeds elem (num n) = elim (to_number elem) [ none ↦ false | some v ↦ ltb n v ]
exceeds elem (str p) = text_lt p elem

-- The variables of the loop.
pub record Scan : Type 0 where
  pub previous : Option Text
  pub previous_value : Previous

abbrev pub start : Scan
start = record { previous = none; previous_value = num 0 }

-- One round of the write case's `forEach`.
unfoldable pub visit : Text → Scan → Text → Scan
unfolding exceeds
visit target_value sc element =
    if exceeds (drop 6 element) sc.previous_value && text_lt (drop 6 element) target_value
    then record { previous = some element; previous_value = str (drop 6 element) }
    else sc

-- `element.charAt(0) === 'w'`
unfoldable pub is_write_node : Text → Bool
is_write_node [] = false
is_write_node (c ∷ s) = nat_eq c b'w'

-- One round of the read case's `forEach`.
unfoldable pub visit_write_node : Text → Scan → Text → Scan
unfolding is_write_node
visit_write_node target_value sc element =
    if is_write_node element then visit target_value sc element else sc

-- `if (previous === target) return null; return previous`
unfoldable pub unless_target : Text → Option Text → Option Text
unless_target target none = none
unless_target target (some p) = if text_eq p target then none else some p

unfoldable pub find_next_elem_to_be_watched_write_case : List Text → Text → Option Text
find_next_elem_to_be_watched_write_case array target =
    unless_target target (foldl (visit (drop 6 target)) start array).previous

unfoldable pub find_next_elem_to_be_watched_read_case : List Text → Text → Option Text
find_next_elem_to_be_watched_read_case array target =
    unless_target target (foldl (visit_write_node (drop 6 target)) start array).previous

-- The choice that `_try_lock` makes.
unfoldable pub node_to_be_watched : LockMode → List Text → Text → Option Text
node_to_be_watched read children node = find_next_elem_to_be_watched_read_case children node
node_to_be_watched write children node = find_next_elem_to_be_watched_write_case children node

-- `'/rlock-'` or `'/wlock-'`, behind the slash.
unfoldable pub lock_prefix : LockMode → Text
lock_prefix read = codes "rlock-"
lock_prefix write = codes "wlock-"

-- The name that a sequential create answers with: the prefix and the parent's counter in ten digits.
unfoldable pub node_name : LockMode → ℕ → Text
unfolding lock_prefix
node_name mode seq = lock_prefix mode ++ padded 10 seq
