-- ===== src/Json/Laws.antt =====
-- Reading behind an assignment.
use flowbroker.Prelude.{
  ℕ, zero, suc, String, ◌≡◌, refl, Option, none, some, ◌==◌, eq_iff, inl, inr, arith, if◌then◌else◌,
  nat_eq, Bool-cases, Option-cases,
}
use flowbroker.Json.{
  Value, null, boolean, num, str, arr, obj, Items, nil, cons, gap, Fields, end, field, get_field,
  put_field, get_item, put_item, array_index, found, own, assign,
}

pub get_field-put_field :
    (k j : String) (v : Value) (fs : Fields)
    → get_field j (put_field k v fs) ≡ (if k == j then some v else get_field j fs)
unfolding get_field put_field
get_field-put_field k j v end = refl
get_field-put_field k j v (field i w fs) =
    ground (arith, eq_iff k j, eq_iff i k, eq_iff i j, get_field-put_field k j v fs)

pub get_item-put_item :
    (i j : ℕ) (v : Value) (xs : Items)
    → get_item j (put_item i v xs) ≡ (if nat_eq i j then some v else get_item j xs)
unfolding get_item put_item
get_item-put_item zero zero v nil = ground arith
get_item-put_item zero (suc j) v nil = ground arith
get_item-put_item (suc i) zero v nil = ground arith
get_item-put_item (suc i) (suc j) v nil = ground (arith, get_item-put_item i j v nil)
get_item-put_item zero zero v (cons w xs) = ground arith
get_item-put_item zero (suc j) v (cons w xs) = ground arith
get_item-put_item (suc i) zero v (cons w xs) = ground arith
get_item-put_item (suc i) (suc j) v (cons w xs) = ground (arith, get_item-put_item i j v xs)
get_item-put_item zero zero v (gap xs) = ground arith
get_item-put_item zero (suc j) v (gap xs) = ground arith
get_item-put_item (suc i) zero v (gap xs) = ground arith
get_item-put_item (suc i) (suc j) v (gap xs) = ground (arith, get_item-put_item i j v xs)

none≢value : {v : Value} → ◌≡◌ {A = Option Value} none (some v) → ⊥
none≢value h = cc

some-inj : {v w : Value} → some v ≡ some w → v ≡ w
some-inj h = cc

-- A value that was assigned is read under its key.
pub own-assign : (key : String) (v w w' : Value) → assign key v w ≡ some w' → own key w' ≡ found v
unfolding assign own
own-assign key v null w' h = cc
own-assign key v (boolean b) w' h = cc
own-assign key v (num n) w' h = cc
own-assign key v (str s) w' h = cc
own-assign key v (obj fs) w' h =
    let e : obj (put_field key v fs) ≡ w' = cc in
    rw (← e) (ground (arith, get_field-put_field key key v fs, eq_iff key key))
own-assign key v (arr xs fs) w' h = elim (Bool-cases (key == "length")) [
  | inl l ↦ absurd (none≢value (rw (l, assign) at h))
  | inr l ↦ elim (Option-cases (array_index key)) [
    | inl n ↦
        let e : arr xs (put_field key v fs) ≡ w' = some-inj (rw (l, n, assign) at h) in
        rw (← e) (rw (l, n, own) (ground (arith, get_field-put_field key key v fs, eq_iff key key)))
    | inr (i, n) ↦
        let e : arr (put_item i v xs) fs ≡ w' = some-inj (rw (l, n, assign) at h) in
        rw (← e) (rw (l, n, own) (ground (arith, get_item-put_item i i v xs)))
  ]
]
