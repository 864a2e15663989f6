-- ===== src/Nodes/Base/Paths.antt =====
-- `_get` behind `_set`.
use flowbroker.Prelude.{
  String, ◌≡◌, refl, sym, ◌∙◌, ◌≢◌, ◌⊎◌, inl, inr, some, List, [], ◌∷◌, arith, Option-cases,
  none≢some, ==-ne,
}
use flowbroker.Json.{
  Value, obj, Fields, end, put_field, Own, found, missing, type_error, own, assign,
}
use flowbroker.Json.Laws.{own-assign, get_field-put_field}
use flowbroker.Nodes.Base.{pieces, got, get_path, get, set_path, set}

Own-cases : (o : Own) → ((v : Value) × (o ≡ found v)) ⊎ ((o ≡ missing) ⊎ (o ≡ type_error))
Own-cases (found v) = inl (v, refl)
Own-cases missing = inr (inl refl)
Own-cases type_error = inr (inr refl)

-- A write of several steps ends with the assignment of what the inner write left.
set_path-inner :
    (key next : String) (source : List String) (value at at' : Value)
    → set_path (key ∷ next ∷ source) value at ≡ some at'
    → (inner inner' : Value) × (set_path (next ∷ source) value inner ≡ some inner')
      × (assign key inner' at ≡ some at')
unfolding set_path
set_path-inner key next source value at at' h = elim (Own-cases (own key at)) [
  | inr (inr e) ↦ absurd (none≢some (rw (e, set_path) at h))
  | inl (inner, e) ↦ elim (Option-cases (set_path (next ∷ source) value inner)) [
    | inl f ↦ absurd (none≢some (rw (e, f, set_path) at h))
    | inr (inner', f) ↦ (inner, inner', f, rw (e, f, set_path) at h)
  ]
  | inr (inl e) ↦ elim (Option-cases (set_path (next ∷ source) value (obj end))) [
    | inl f ↦ absurd (none≢some (rw (e, f, set_path) at h))
    | inr (inner', f) ↦ (obj end, inner', f, rw (e, f, set_path) at h)
  ]
]

get_path-set_path :
    (key : String) (source : List String) (value at at' : Value)
    → set_path (key ∷ source) value at ≡ some at'
    → get_path (key ∷ source) at' ≡ got value
unfolding get_path
get_path-set_path key [] value at at' h =
    rw (own-assign key value at at' (unfold set_path in h), get_path) refl
get_path-set_path key (next ∷ source) value at at' h =
    let (inner, inner', f, g) = set_path-inner key next source value at at' h in
    rw (own-assign key inner' at at' g, get_path)
      (get_path-set_path next source value inner inner' f)

own-assign_else :
    (key other : String) (v : Value) (fs : Fields) (w : Value)
    → assign key v (obj fs) ≡ some w
    → key ≢ other
    → own other w ≡ own other (obj fs)
unfolding own assign
own-assign_else key other v fs w h ne =
    let e : obj (put_field key v fs) ≡ w = cc in
    rw (← e) (ground (arith, get_field-put_field key other v fs, ==-ne key other ne))

set_path-assign :
    (key : String) (source : List String) (value at at' : Value)
    → set_path (key ∷ source) value at ≡ some at'
    → (v : Value) × (assign key v at ≡ some at')
set_path-assign key [] value at at' h = (value, unfold set_path in h)
set_path-assign key (next ∷ source) value at at' h =
    let (inner, inner', f, g) = set_path-inner key next source value at at' h in (inner', g)

get_path_else :
    (key other : String) (source rest : List String) (value : Value) (fs : Fields) (at' : Value)
    → set_path (key ∷ source) value (obj fs) ≡ some at'
    → key ≢ other
    → get_path (other ∷ rest) at' ≡ get_path (other ∷ rest) (obj fs)
unfolding get_path
get_path_else key other source rest value fs at' h ne =
    let (v, a) = set_path-assign key source value (obj fs) at' h in
    rw (own-assign_else key other v fs at' a ne, get_path) refl

pieces_cases :
    (ks : List String) → (ks ≡ []) ⊎ ((k : String) × (rest : List String) × (ks ≡ k ∷ rest))
pieces_cases [] = inl refl
pieces_cases (k ∷ rest) = inr (k, rest, refl)

first_piece : {j k : String} {js ks : List String} → j ∷ js ≡ k ∷ ks → j ≡ k
first_piece h = cc

-- A write to an object leaves an object.
pub set-obj :
    (field : String) (value : Value) (fs : Fields) (target' : Value)
    → set field value (obj fs) ≡ some target'
    → (fs' : Fields) × (target' ≡ obj fs')
unfolding set assign
set-obj field value fs target' h = elim (pieces_cases (pieces field)) [
  | inl e ↦ absurd (none≢some (rw (e, set) at h))
  | inr (k, ks, e) ↦
      let (v, a) = set_path-assign k ks value (obj fs) target' (rw (e, set) at h) in
      (put_field k v fs, cc)
]

-- The first key of a path.
abbrev pub FirstKey : String → String → Type 0
FirstKey key field = (source : List String) × (pieces field ≡ key ∷ source)

-- A field that is written has a first key.
pub set-FirstKey :
    (field : String) (value target target' : Value)
    → set field value target ≡ some target'
    → (key : String) × FirstKey key field
unfolding set
set-FirstKey field value target target' h = elim (pieces_cases (pieces field)) [
  | inl e ↦ absurd (none≢some (rw (e, set) at h))
  | inr (k, ks, e) ↦ (k, (ks, e))
]

-- A write to an object that returns: the field reads as the value that was written, and every field
-- with another first key reads as before.
pub get-set :
    (field : String) (value : Value) (fs : Fields) (target' : Value)
    → set field value (obj fs) ≡ some target'
    → (get field target' ≡ got value)
      × ((key other other_field : String)
          → FirstKey key field
          → FirstKey other other_field
          → key ≢ other
          → get other_field target' ≡ get other_field (obj fs))
unfolding get set
get-set field value fs target' h = elim (pieces_cases (pieces field)) [
  | inl e ↦ absurd (none≢some (rw (e, set) at h))
  | inr (k, ks, e) ↦
      let done : set_path (k ∷ ks) value (obj fs) ≡ some target' = rw (e, set) at h in
      (
        rw (e, get) (get_path-set_path k ks value (obj fs) target' done),
        λ key other other_field first second ne.
            let same : k ≡ key = first_piece (sym e ∙ first.1) in
            rw (second.1, get)
              (get_path_else k other ks second.0 value fs target' done (λ eq. ne (sym same ∙ eq))),
      )
]
