-- ===== src/Nodes/Http/Loop.antt =====
-- orchestrator/nodes/http/index.js: the loop over the headers of the message's request.
use flowbroker.Prelude.{
  String, none, [], ◌∷◌, ◌==◌, if◌then◌else◌, ◌≡◌, ◌≢◌, ◌⊎◌, inl, inr, refl, sym, ◌∙◌, arith,
  eq_iff, eq_refl, ==-ne, same_text, All, In,
}
use flowbroker.Prelude.Letters.{to_lower_case}
use flowbroker.Prelude.Dict
use flowbroker.Prelude.Dict.{
  Dict, get-put, get-put_else, get-put_self, get-remove, get-remove_else, get-remove_self,
}
use flowbroker.Prelude.Dict.Keys.{Distinct, keys}
use flowbroker.Json.{Value}
use flowbroker.Nodes.Http.{Opts, stored_name, add_header, add_headers}

-- A name that is not that of the content's type or length, in letters of any case.
abbrev pub Plain : String → Type 0
Plain v = (to_lower_case v ≢ "content-type") × (to_lower_case v ≢ "content-length")

abbrev pub Known : Opts → Type 0
Known o = (to_lower_case o.ct_set ≡ "content-type") × (to_lower_case o.cl_set ≡ "content-length")

pub stored_name-Plain : (v : String) → Plain v → stored_name v ≡ v
stored_name-Plain v (t, l) = rw (==-ne _ _ t, ==-ne _ _ l) refl

stored_name_cases :
    (v : String)
    → (stored_name v ≡ v) ⊎ ((stored_name v ≡ "content-type") ⊎ (stored_name v ≡ "content-length"))
stored_name_cases v = elim (same_text (to_lower_case v) "content-type") [
  | inl t ↦ inr (inl (rw t refl))
  | inr t ↦ elim (same_text (to_lower_case v) "content-length") [
    | inl l ↦ inr (inr (rw l refl))
    | inr l ↦ inl (stored_name-Plain v (t, l))
  ]
]

-- A plain name is none that lowers to the one of the content's type or length.
pub Plain-ne_type : (k s : String) → Plain k → to_lower_case s ≡ "content-type" → s ≢ k
Plain-ne_type k s p e same = p.0 (rw same at e)

pub Plain-ne_length : (k s : String) → Plain k → to_lower_case s ≡ "content-length" → s ≢ k
Plain-ne_length k s p e same = p.1 (rw same at e)

pub lower_type : to_lower_case "content-type" ≡ "content-type"
unfolding to_lower_case
lower_type = refl

pub lower_length : to_lower_case "content-length" ≡ "content-length"
unfolding to_lower_case
lower_length = refl

-- A plain name is stored from the header of that name only.
Plain-ne : (k v : String) → Plain k → v ≢ k → stored_name v ≢ k
Plain-ne k v p ne same = elim (stored_name_cases v) [
  | inl e ↦ ne (sym e ∙ same)
  | inr (inl e) ↦ Plain-ne_type k "content-type" p lower_type (sym e ∙ same)
  | inr (inr e) ↦ Plain-ne_length k "content-length" p lower_length (sym e ∙ same)
]

pick_name :
    (v old name : String)
    → to_lower_case old ≡ name
    → to_lower_case (if to_lower_case v == name then v else old) ≡ name
pick_name v old name h = elim (same_text (to_lower_case v) name) [
  | inl e ↦ ground (arith, eq_iff (to_lower_case v) name)
  | inr e ↦ rw (==-ne (to_lower_case v) name e) h
]

add_header-Known : (v : String) (value : Value) (o : Opts) → Known o → Known (add_header v value o)
unfolding add_header
add_header-Known v value o (t, l) =
    (pick_name v o.ct_set "content-type" t, pick_name v o.cl_set "content-length" l)

pub add_headers-Known : (hs : Dict Value) (o : Opts) → Known o → Known (add_headers hs o)
unfolding add_headers
add_headers-Known [] o h = h
add_headers-Known ((v, value) ∷ hs) o h =
    add_headers-Known hs (add_header v value o) (add_header-Known v value o h)

-- No header of the list is stored under a name.
abbrev pub Apart : String → Dict Value → Type 0
Apart k hs = All (λ v. stored_name v ≢ k) (keys hs)

pub add_headers-Apart :
    (k : String) (hs : Dict Value) (o : Opts)
    → Apart k hs
    → Dict.get k (add_headers hs o).headers ≡ Dict.get k o.headers
unfolding add_headers add_header
add_headers-Apart k [] o a = refl
add_headers-Apart k ((v, value) ∷ hs) o a =
    add_headers-Apart k hs (add_header v value o) a.1
    ∙ get-put_else (stored_name v) k value o.headers a.0

not_in-Apart : (k : String) (hs : Dict Value) → Plain k → (In k (keys hs) → ⊥) → Apart k hs
not_in-Apart k [] p out = _
not_in-Apart k ((v, value) ∷ hs) p out =
    (Plain-ne k v p (λ e. out (inl (sym e))), not_in-Apart k hs p (λ i. out (inr i)))

-- The loop stores what the request has for a plain name.
pub add_headers-Plain :
    (k : String) (hs : Dict Value) (o : Opts)
    → Plain k
    → Distinct (keys hs)
    → Dict.get k o.headers ≡ none
    → Dict.get k (add_headers hs o).headers ≡ Dict.get k hs
unfolding add_headers add_header Dict.get
add_headers-Plain k [] o p d e = e
add_headers-Plain k ((v, value) ∷ hs) o p d e = elim (same_text v k) [
  | inl same ↦
      add_headers-Apart k hs (add_header v value o) (not_in-Apart k hs p (λ i. d.0 (rw same i)))
      ∙ rw (stored_name-Plain v (rw same p) ∙ same, same, eq_refl) (get-put_self k value o.headers)
  | inr ne ↦
      add_headers-Plain k hs (add_header v value o) p d.1
        (get-put_else (stored_name v) k value o.headers (Plain-ne k v p ne) ∙ e)
      ∙ rw (==-ne v k ne) refl
]
