-- ===== src/Contexts/Names.antt =====
-- Which contexts share a name.
use Prim.Native.Char.{Char, code}
use Prim.Native.String.{◌++◌}
use text.Mathlib.TextLemmas.{cons-append, nil-append}
use flowbroker.Prelude.{
  String, ◌≡◌, refl, sym, ap, ◌∙◌, false, List, [], ◌∷◌, nat_eq, if◌then◌else◌,
}
use flowbroker.Contexts.{Layer, tenant_layer, flow_layer, node_layer, instance_layer, context_path}

-- A text without a slash.
abbrev pub IsPlain : String → Type 0
IsPlain String.[] = Unit
IsPlain (String.◌∷◌ c s) = (nat_eq (code c) b'/' ≡ false) × IsPlain s

abbrev pub IsPlainLayer : Layer → Type 0
IsPlainLayer (tenant_layer t) = IsPlain t
IsPlainLayer (flow_layer t f) = IsPlain t × IsPlain f
IsPlainLayer (node_layer t f n) = IsPlain t × IsPlain f × IsPlain n
IsPlainLayer (instance_layer t f n i) = IsPlain t × IsPlain f × IsPlain n × IsPlain i

-- The parts of a name: its text up to the first slash, and the parts behind it.
cut : String → String × List String
cut String.[] = ("", [])
cut (String.◌∷◌ c s) =
    let (w, ws) = cut s in if nat_eq (code c) b'/' then ("", w ∷ ws) else (String.◌∷◌ c w, ws)

parts : String → List String
unfolding cut
parts s = let (w, ws) = cut s in w ∷ ws

cut_plain : (s : String) → IsPlain s → cut s ≡ (s, [])
unfolding cut
cut_plain String.[] h = refl
cut_plain (String.◌∷◌ c s) (e, h) = rw (e, cut_plain s h) refl

abbrev slash : Char
slash = "/"

slash_cons : (r : String) → "/" ++ r ≡ String.◌∷◌ slash r
slash_cons r = cons-append slash "" r ∙ ap (λ t. String.◌∷◌ slash t) (nil-append r)

cut_at : (s r : String) → IsPlain s → cut (s ++ ("/" ++ r)) ≡ (s, parts r)
unfolding cut parts
cut_at String.[] r h = rw (nil-append, slash_cons r) refl
cut_at (String.◌∷◌ c s) r (e, h) = rw (cons-append, cut) (rw (e, cut_at s r h) refl)

parts_at : (s r : String) → IsPlain s → parts (s ++ ("/" ++ r)) ≡ s ∷ parts r
unfolding parts
parts_at s r h = rw (cut_at s r h) refl

-- The parts that a layer and a name stand for.
segments : Layer → String → List String
segments (tenant_layer t) name = t ∷ name ∷ []
segments (flow_layer t f) name = t ∷ f ∷ name ∷ []
segments (node_layer t f n) name = t ∷ f ∷ n ∷ name ∷ []
segments (instance_layer t f n i) name = t ∷ f ∷ n ∷ i ∷ name ∷ []

parts_plain : (s : String) → IsPlain s → parts s ≡ s ∷ []
unfolding parts
parts_plain s h = rw (cut_plain s h) refl

parts-context_path :
    (layer : Layer) (name : String)
    → IsPlainLayer layer
    → IsPlain name
    → parts (context_path layer name) ≡ segments layer name
unfolding context_path segments
parts-context_path (tenant_layer t) name pt p =
    parts_at t name pt ∙ ap (λ xs. t ∷ xs) (parts_plain name p)
parts-context_path (flow_layer t f) name (pt, pf) p =
    parts_at t _ pt
    ∙ ap (λ xs. t ∷ xs) (parts_at f name pf ∙ ap (λ xs. f ∷ xs) (parts_plain name p))
parts-context_path (node_layer t f n) name (pt, pf, pn) p =
    parts_at t _ pt
    ∙ ap (λ xs. t ∷ xs)
        (parts_at f _ pf
          ∙ ap (λ xs. f ∷ xs) (parts_at n name pn ∙ ap (λ xs. n ∷ xs) (parts_plain name p)))
parts-context_path (instance_layer t f n i) name (pt, pf, pn, pi) p =
    parts_at t _ pt
    ∙ ap (λ xs. t ∷ xs)
        (parts_at f _ pf
          ∙ ap (λ xs. f ∷ xs)
              (parts_at n _ pn
                ∙ ap (λ xs. n ∷ xs) (parts_at i name pi ∙ ap (λ xs. i ∷ xs) (parts_plain name p))))

segments_inj : (l l' : Layer) (n n' : String) → segments l n ≡ segments l' n' → (l ≡ l') × (n ≡ n')
unfolding segments
segments_inj (tenant_layer t) (tenant_layer t') n n' h = (cc, cc)
segments_inj (tenant_layer t) (flow_layer t' f') n n' h = cc
segments_inj (tenant_layer t) (node_layer t' f' k') n n' h = cc
segments_inj (tenant_layer t) (instance_layer t' f' k' i') n n' h = cc
segments_inj (flow_layer t f) (tenant_layer t') n n' h = cc
segments_inj (flow_layer t f) (flow_layer t' f') n n' h = (cc, cc)
segments_inj (flow_layer t f) (node_layer t' f' k') n n' h = cc
segments_inj (flow_layer t f) (instance_layer t' f' k' i') n n' h = cc
segments_inj (node_layer t f k) (tenant_layer t') n n' h = cc
segments_inj (node_layer t f k) (flow_layer t' f') n n' h = cc
segments_inj (node_layer t f k) (node_layer t' f' k') n n' h = (cc, cc)
segments_inj (node_layer t f k) (instance_layer t' f' k' i') n n' h = cc
segments_inj (instance_layer t f k i) (tenant_layer t') n n' h = cc
segments_inj (instance_layer t f k i) (flow_layer t' f') n n' h = cc
segments_inj (instance_layer t f k i) (node_layer t' f' k') n n' h = cc
segments_inj (instance_layer t f k i) (instance_layer t' f' k' i') n n' h = (cc, cc)

-- Two contexts that have one name are one context: of one layer, with the same tenant, flow, node and
-- instance, and with one name in it. The parts of the names are taken to have no slash.
pub context_path_inj :
    (layer layer' : Layer) (name name' : String)
    → IsPlainLayer layer
    → IsPlainLayer layer'
    → IsPlain name
    → IsPlain name'
    → context_path layer name ≡ context_path layer' name'
    → (layer ≡ layer') × (name ≡ name')
context_path_inj layer layer' name name' pl pl' p p' same = segments_inj layer layer' name name' (
    sym (parts-context_path layer name pl p)
    ∙ ap parts same
    ∙ parts-context_path layer' name' pl' p')

-- With slashes they may be two: a name of the tenant's layer that begins with the id of a flow is a
-- name of that flow's layer.
layers_share :
    (tenant flow_id name : String)
    → context_path (tenant_layer tenant) (flow_id ++ "/" ++ name)
      ≡ context_path (flow_layer tenant flow_id) name
unfolding context_path
layers_share tenant flow_id name = refl
