-- ===== src/Json.antt =====
-- JSON values as the nodes hold them: trees of JavaScript objects, arrays and primitives.
pub mod Laws
use Prim.Native.Char.{code}
use flowbroker.Prelude.{
  ℕ, zero, suc, ◌+◌, ◌-◌, ◌*◌, String, Bool, true, false, ◌&&◌, Option, none, some, ◌==◌, leb,
  nat_eq, if◌then◌else◌,
}
use flowbroker.Prelude.Int.{ℤ, pos}

-- Numbers are taken to be whole. An array may have gaps, behind a write past its end, and fields that
-- are no indices; a parsed text has neither.
mutual
  pub data Value : Type 0 where
    null : Value
    boolean : Bool → Value
    num : ℤ → Value
    str : String → Value
    arr : Items → Fields → Value
    obj : Fields → Value

  pub data Items : Type 0 where
    nil : Items
    cons : Value → Items → Items
    gap : Items → Items

  pub data Fields : Type 0 where
    end : Fields
    field : String → Value → Fields → Fields

unfoldable pub get_field : String → Fields → Option Value
get_field k end = none
get_field k (field j v fs) = if j == k then some v else get_field k fs

unfoldable pub put_field : String → Value → Fields → Fields
put_field k v end = field k v end
put_field k v (field j w fs) = if j == k then field j v fs else field j w (put_field k v fs)

unfoldable pub get_item : ℕ → Items → Option Value
get_item i nil = none
get_item zero (cons v xs) = some v
get_item zero (gap xs) = none
get_item (suc i) (cons v xs) = get_item i xs
get_item (suc i) (gap xs) = get_item i xs

unfoldable pub put_item : ℕ → Value → Items → Items
put_item zero v nil = cons v nil
put_item (suc i) v nil = gap (put_item i v nil)
put_item zero v (cons w xs) = cons v xs
put_item zero v (gap xs) = cons v xs
put_item (suc i) v (cons w xs) = cons w (put_item i v xs)
put_item (suc i) v (gap xs) = gap (put_item i v xs)

unfoldable pub count_items : Items → ℕ
count_items nil = 0
count_items (cons v xs) = suc (count_items xs)
count_items (gap xs) = suc (count_items xs)

abbrev is_digit : ℕ → Bool
is_digit c = leb b'0' c && leb c b'9'

digits_from : Option ℕ → String → Option ℕ
digits_from acc String.[] = acc
digits_from acc (String.◌∷◌ c s) =
    let more =
      digits_from (elim acc [ none ↦ none | some n ↦ some (n * 10 + (code c - b'0')) ]) s in
    if is_digit (code c) then more else none

-- The rest of an index behind its first digit: after a zero there is none.
index_behind : ℕ → String → Option ℕ
unfolding digits_from
index_behind first String.[] = some first
index_behind zero (String.◌∷◌ c s) = none
index_behind (suc first) (String.◌∷◌ c s) = digits_from (some (suc first)) (String.◌∷◌ c s)

-- The array index that a key is, if it is one: a decimal without a leading zero.
unfoldable pub array_index : String → Option ℕ
unfolding index_behind
array_index String.[] = none
array_index (String.◌∷◌ c s) = if is_digit (code c) then index_behind (code c - b'0') s else none

-- The character at an index, as a text, and the number of characters.
unfoldable pub char_at : ℕ → String → Option Value
char_at i String.[] = none
char_at zero (String.◌∷◌ c s) = some (str (String.◌∷◌ c String.[]))
char_at (suc i) (String.◌∷◌ c s) = char_at i s

unfoldable pub length_of : String → ℕ
length_of String.[] = 0
length_of (String.◌∷◌ c s) = suc (length_of s)

-- What reading an own property of a value gives.
pub data Own : Type 0 where
  found : Value → Own
  missing : Own
  type_error : Own

abbrev pub found_or_missing : Option Value → Own
found_or_missing none = missing
found_or_missing (some v) = found v

-- `value.hasOwnProperty(key)` and `value[key]`. On null the call throws.
unfoldable pub own : String → Value → Own
unfolding get_field get_item count_items array_index char_at length_of
own key null = type_error
own key (boolean b) = missing
own key (num n) = missing
own key (str s) =
    if key == "length"
    then found (num (pos (length_of s)))
    else elim (array_index key) [ none ↦ missing | some i ↦ found_or_missing (char_at i s) ]
own key (arr xs fs) =
    if key == "length" then found (num (pos (count_items xs))) else elim (array_index key) [
      | none ↦ found_or_missing (get_field key fs)
      | some i ↦ found_or_missing (get_item i xs)
    ]
own key (obj fs) = found_or_missing (get_field key fs)

-- `value[key] = v`, the changed value; `none` where the assignment throws, as it does on a primitive in
-- strict mode. A write to an array's length is taken to throw.
unfoldable pub assign : String → Value → Value → Option Value
unfolding put_field put_item array_index
assign key v null = none
assign key v (boolean b) = none
assign key v (num n) = none
assign key v (str s) = none
assign key v (arr xs fs) = if key == "length" then none else elim (array_index key) [
  | none ↦ some (arr xs (put_field key v fs))
  | some i ↦ some (arr (put_item i v xs) fs)
]
assign key v (obj fs) = some (obj (put_field key v fs))
