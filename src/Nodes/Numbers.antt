-- ===== src/Nodes/Numbers.antt =====
-- `Number(value)`, and the texts of values in comparisons, as in the nodes under orchestrator/nodes. A number of the model is whole: a text of
-- one with a fraction, or of an infinite one, is not in the model, and reads as NaN.
use Prim.Native.Char.{code}
use Prim.Native.String.{◌++◌}
use flowbroker.Prelude.{
  ℕ, zero, suc, ◌+◌, ◌-◌, ◌*◌, ◌/◌, ◌%◌, ◌^◌, String, Bool, ◌&&◌, ◌||◌, Option, none, some, List,
  [], ◌∷◌, leb, nat_eq, if◌then◌else◌,
}
use flowbroker.Prelude.Int.{ℤ, pos, negsuc, ◌-ℤ◌}
use flowbroker.Json.{Value, null, boolean, num, str, arr, obj, Items, nil, cons, gap}

abbrev codes_of : String → List ℕ
codes_of String.[] = []
codes_of (String.◌∷◌ c s) = code c ∷ codes_of s

-- The blanks and line ends that are trimmed.
abbrev is_trimmed : ℕ → Bool
is_trimmed c =
    (leb 9 c && leb c 13)
    || nat_eq c 32
    || nat_eq c 160
    || nat_eq c 5760
    || (leb 8192 c && leb c 8202)
    || nat_eq c 8232
    || nat_eq c 8233
    || nat_eq c 8239
    || nat_eq c 8287
    || nat_eq c 12288
    || nat_eq c 65279

drop_blanks : List ℕ → List ℕ
drop_blanks [] = []
drop_blanks (c ∷ cs) = let rest = drop_blanks cs in if is_trimmed c then rest else c ∷ cs

-- Without the blanks at the end.
trim_end : List ℕ → List ℕ
trim_end [] = []
trim_end (c ∷ cs) = elim (trim_end cs) [
  | [] ↦ if is_trimmed c then [] else c ∷ []
  | d ∷ ds ↦ c ∷ d ∷ ds
]

-- The value of a letter or digit as one of a radix up to 36; 36 for any other character.
abbrev digit_value : ℕ → ℕ
digit_value c =
    if leb b'0' c && leb c b'9'
    then c - b'0'
    else if leb b'a' c && leb c b'z'
    then c - b'a' + 10
    else if leb b'A' c && leb c b'Z'
    then c - b'A' + 10
    else 36

-- The digits in front: the number that they continue, how many there are by now, and what is behind.
record Digits : Type 0 where
  value : ℕ
  count : ℕ
  rest : List ℕ

read_digits : ℕ → ℕ → ℕ → List ℕ → Digits
read_digits radix value count [] = record { value = value; count = count; rest = [] }
read_digits radix value count (c ∷ cs) =
    let more = read_digits radix (value * radix + digit_value c) (suc count) cs in
    if leb (suc (digit_value c)) radix
    then more
    else record { value = value; count = count; rest = c ∷ cs }

-- All of it is digits, one at least.
abbrev only_digits : Digits → Option ℕ
only_digits d = elim d.count [
  | zero ↦ none
  | suc n ↦ elim d.rest [ [] ↦ some d.value | c ∷ cs ↦ none ]
]

-- `m * 10 ^ up / 10 ^ down`, if it is whole.
unfoldable whole : ℕ → ℕ → ℕ → Option ℕ
whole m up down =
    if nat_eq (m * 10 ^ up % 10 ^ down) 0 then some (m * 10 ^ up / 10 ^ down) else none

-- Behind the digits of the mantissa: nothing, or an exponent.
unfoldable scaled : ℕ → ℕ → List ℕ → Option ℕ
unfolding whole read_digits
scaled m down [] = whole m 0 down
scaled m down (e ∷ []) = none
scaled m down (e ∷ sign ∷ cs) =
    if nat_eq e b'e' || nat_eq e b'E'
    then if nat_eq sign b'-'
      then elim (only_digits (read_digits 10 0 0 cs)) [
        | none ↦ none
        | some x ↦ whole m 0 (down + x)
      ]
      else if nat_eq sign b'+'
      then elim (only_digits (read_digits 10 0 0 cs)) [ none ↦ none | some x ↦ whole m x down ]
      else elim (only_digits (read_digits 10 0 0 (sign ∷ cs))) [
        | none ↦ none
        | some x ↦ whole m x down
      ]
    else none

-- Behind the digits in front of the point.
unfoldable point : Digits → Option ℕ
unfolding scaled read_digits
point d = elim d.rest [
  | [] ↦ elim d.count [ zero ↦ none | suc n ↦ whole d.value 0 0 ]
  | c ∷ cs ↦
      let f = read_digits 10 d.value 0 cs in
      if nat_eq c b'.'
      then elim (d.count + f.count) [ zero ↦ none | suc n ↦ scaled f.value f.count f.rest ]
      else elim d.count [ zero ↦ none | suc n ↦ scaled d.value 0 (c ∷ cs) ]
]

-- The radix of a prefix: `0x`, `0o` or `0b`.
abbrev radix_of : ℕ → Option ℕ
radix_of c =
    if nat_eq c b'x' || nat_eq c b'X'
    then some 16
    else if nat_eq c b'o' || nat_eq c b'O'
    then some 8
    else if nat_eq c b'b' || nat_eq c b'B'
    then some 2
    else none

unfoldable unsigned : List ℕ → Option ℕ
unfolding point read_digits
unsigned (zero_digit ∷ c ∷ cs) = elim (if nat_eq zero_digit b'0' then radix_of c else none) [
  | none ↦ point (read_digits 10 0 0 (zero_digit ∷ c ∷ cs))
  | some radix ↦ only_digits (read_digits radix 0 0 cs)
]
unsigned cs = point (read_digits 10 0 0 cs)

abbrev as_pos : Option ℕ → Option ℤ
as_pos none = none
as_pos (some n) = some (pos n)

abbrev as_neg : Option ℕ → Option ℤ
as_neg none = none
as_neg (some n) = some (pos 0 -ℤ pos n)

-- A sign stands in front of a decimal only.
unfoldable signed : List ℕ → Option ℤ
unfolding unsigned point read_digits
signed [] = some (pos 0)
signed (c ∷ cs) =
    if nat_eq c b'-'
    then as_neg (point (read_digits 10 0 0 cs))
    else if nat_eq c b'+'
    then as_pos (point (read_digits 10 0 0 cs))
    else as_pos (unsigned (c ∷ cs))

-- The number of a text: that of a blank one is 0.
unfoldable pub number_of_text : String → Option ℤ
unfolding signed trim_end drop_blanks
number_of_text s = signed (trim_end (drop_blanks (codes_of s)))

-- The number of an array's element, by the text that it becomes: a text of `true` or of an object is none.
element_number : Value → Option ℤ
unfolding number_of_text
element_number null = some (pos 0)
element_number (boolean b) = none
element_number (num n) = some n
element_number (str s) = number_of_text s
element_number (arr nil fs) = some (pos 0)
element_number (arr (gap nil) fs) = some (pos 0)
element_number (arr (cons v nil) fs) = element_number v
element_number (arr _ fs) = none
element_number (obj fs) = none

-- `Number(value)`, `none` for NaN.
unfoldable pub number_of : Value → Option ℤ
unfolding element_number number_of_text
number_of (boolean b) = some (if b then pos 1 else pos 0)
number_of v = element_number v

abbrev digit_text : ℕ → String
digit_text n =
    if nat_eq n 0
    then "0"
    else if nat_eq n 1
    then "1"
    else if nat_eq n 2
    then "2"
    else if nat_eq n 3
    then "3"
    else if nat_eq n 4
    then "4"
    else if nat_eq n 5
    then "5"
    else if nat_eq n 6
    then "6"
    else if nat_eq n 7
    then "7"
    else if nat_eq n 8
    then "8"
    else "9"

-- The digits of a number, on a fuel above their count.
digits_text : ℕ → ℕ → String
digits_text zero n = ""
digits_text (suc fuel) n =
    let rest = digits_text fuel (n / 10) in
    if leb n 9 then digit_text n else rest ++ digit_text (n % 10)

unfoldable pub int_text : ℤ → String
unfolding digits_text
int_text (pos n) = digits_text (suc n) n
int_text (negsuc n) = "-" ++ digits_text (suc (suc n)) (suc n)

mutual
  -- The text that an element of an array is joined as.
  element_text : Value → String
  element_text null = ""
  element_text (boolean b) = if b then "true" else "false"
  element_text (num n) = int_text n
  element_text (str s) = s
  element_text (arr xs fs) = items_text xs
  element_text (obj fs) = "[object Object]"

  items_text : Items → String
  items_text nil = ""
  items_text (cons v nil) = element_text v
  items_text (cons v xs) = element_text v ++ "," ++ items_text xs
  items_text (gap nil) = ""
  items_text (gap xs) = "," ++ items_text xs

-- The text that a comparison takes a value for, if it takes it for one: an object of a message has no
-- methods of its own.
unfoldable pub primitive_text : Value → Option String
unfolding items_text
primitive_text (str s) = some s
primitive_text (arr xs fs) = some (items_text xs)
primitive_text (obj fs) = some "[object Object]"
primitive_text _ = none
