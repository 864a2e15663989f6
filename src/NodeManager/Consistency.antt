-- ===== src/NodeManager/Consistency.antt =====
-- What is stored is registered.
pub mod Operations
use flowbroker.Prelude.{
  String, ◌≡◌, refl, sym, ◌∙◌, ◌≢◌, ◌⊎◌, inl, inr, true, Option, none, some, List, [], ◌∷◌, ◌==◌,
  eq_iff, In, arith, Bool-cases, Option-cases, same_text, some-inj, none≢some,
}
use flowbroker.Prelude.Dict
use flowbroker.Prelude.Dict.{Dict, get-put_self, get-put_else, get-remove_else}
use flowbroker.Prelude.Dict.Keys.{Distinct}
use flowbroker.NodeManager.{
  Handler, local, remote, Managed, DelAnswers, del_remote_node, AddAnswers, delete_one, drop_remote,
  drop_handler, register, start_node, add_remote_node, get_node,
}

-- Each stored id of a tenant is that of a registered remote node, and is stored once.
pub record Consistent (m : Managed) : Type 0 where
  pub registered :
      (tenant id : String) (stored : List String)
      → Dict.get tenant m.collection ≡ some stored
      → In id stored
      → (c : String) × (get_node id tenant m ≡ some (remote c))
  pub once :
      (tenant : String) (stored : List String)
      → Dict.get tenant m.collection ≡ some stored
      → Distinct stored

pub In-delete_one : (x y : String) (ys : List String) → In y (delete_one x ys) → In y ys
unfolding delete_one
In-delete_one x y [] i = i
In-delete_one x y (z ∷ ys) i = ground (arith, In-delete_one x y ys)

pub Distinct-delete_one :
    (x : String) (ys : List String)
    → Distinct ys
    → Distinct (delete_one x ys) × ((y : String) → In y (delete_one x ys) → x ≢ y)
unfolding delete_one
Distinct-delete_one x [] d = (tt, λ y i. absurd i)
Distinct-delete_one x (z ∷ ys) (new, d) = elim (Bool-cases (z == x)) [
  | inl e ↦ rw e (d, λ y i same. new (rw ((eq_iff z x).0 e) (rw same i)))
  | inr e ↦
      let (d', out) = Distinct-delete_one x ys d in
      rw e (
        (λ i. new (In-delete_one x z ys i), d'),
        λ y i. elim i [ inl same ↦ (λ eq. ground (arith, eq_iff z x)) | inr j ↦ out y j ],
      )
]

-- `get_node` where only one tenant's handlers were changed.
get_node-put :
    (tenant other id : String) (handlers : Dict Handler) (m : Managed) (n : Managed)
    → n.nodes ≡ Dict.put tenant handlers m.nodes
    → ((tenant ≡ other) × (get_node id other n ≡ Dict.get id handlers))
      ⊎ ((tenant ≢ other) × (get_node id other n ≡ get_node id other m))
unfolding get_node
get_node-put tenant other id handlers m n e = elim (same_text tenant other) [
  | inl same ↦
      inl (same, rw e (rw (← same) (rw (get-put_self tenant handlers m.nodes, get_node) refl)))
  | inr ne ↦ inr (ne, rw e (rw (get-put_else tenant other handlers m.nodes ne, get_node) refl))
]

-- Only the tenant's handlers and stored ids have changed.
pub record Changes (tenant : String) (handlers : Dict Handler) (stored : List String)
    (m n : Managed) : Type 0 where
  pub nodes : n.nodes ≡ Dict.put tenant handlers m.nodes
  pub collection :
      (other : String) (ids : List String)
      → Dict.get other n.collection ≡ some ids
      → ((tenant ≡ other) × (ids ≡ stored))
        ⊎ ((tenant ≢ other) × (Dict.get other m.collection ≡ some ids))

pub Changes-Consistent :
    (tenant : String) (handlers : Dict Handler) (stored : List String) (m n : Managed)
    → Changes tenant handlers stored m n
    → ((id : String) → In id stored → (c : String) × (Dict.get id handlers ≡ some (remote c)))
    → Distinct stored
    → Consistent m
    → Consistent n
Changes-Consistent tenant handlers stored m n ch good distinct c = record {
  registered = λ other id ids h i. elim (ch.collection other ids h) [
    | inl (same, is) ↦ elim (get_node-put tenant other id handlers m n ch.nodes) [
      | inl (s, g) ↦ let (x, e) = good id (rw is at i) in (x, g ∙ e)
      | inr (ne, g) ↦ absurd (ne same)
    ]
    | inr (ne, old) ↦ elim (get_node-put tenant other id handlers m n ch.nodes) [
      | inl (s, g) ↦ absurd (ne s)
      | inr (ne', g) ↦ let (x, e) = c.registered other id ids old i in (x, g ∙ e)
    ]
  ];
  once = λ other ids h. elim (ch.collection other ids h) [
    | inl (same, is) ↦ rw is distinct
    | inr (ne, old) ↦ c.once other ids old
  ];
}

pub put_collection :
    (tenant : String) (stored : List String) (collection : Dict (List String)) (other : String)
    (ids : List String)
    → Dict.get other (Dict.put tenant stored collection) ≡ some ids
    → ((tenant ≡ other) × (ids ≡ stored))
      ⊎ ((tenant ≢ other) × (Dict.get other collection ≡ some ids))
put_collection tenant stored collection other ids h = elim (same_text tenant other) [
  | inl same ↦
      inl (same, sym (some-inj (sym (get-put_self tenant stored collection) ∙ (rw (← same) at h))))
  | inr ne ↦ inr (ne, sym (get-put_else tenant other stored collection ne) ∙ h)
]

-- The handlers of a stored id, in the tenant's own map.
pub stored_handler :
    (tenant id : String) (handlers : Dict Handler) (stored : List String) (m : Managed)
    → Dict.get tenant m.nodes ≡ some handlers
    → Dict.get tenant m.collection ≡ some stored
    → Consistent m
    → In id stored
    → (c : String) × (Dict.get id handlers ≡ some (remote c))
unfolding get_node
stored_handler tenant id handlers stored m known opened c i =
    let (x, e) = c.registered tenant id stored opened i in (x, rw (known, get_node) at e)
