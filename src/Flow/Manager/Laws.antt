-- ===== src/Flow/Manager/Laws.antt =====
-- What the flow manager's operations find behind one another.
use flowbroker.Prelude.{
  String, ◌≡◌, refl, sym, ap, ◌∙◌, subst, ◌⊎◌, inl, inr, Bool, true, false, Option, none, some,
  List, ◌==◌, eq_refl, Bool-cases, Option-cases, if◌then◌else◌,
}
use flowbroker.Flow.Nodes.{Node}
use flowbroker.Flow.Parse.{parse}
use flowbroker.Flow.Parse.Heads.{Parsed-cases}
use flowbroker.Flow.Collection.{Collection}
use flowbroker.Flow.Store
use flowbroker.Flow.Store.{Document, Enabled, FlowError, Written, stored, refused}
use flowbroker.Flow.Manager.{
  Failure, unknown_flow_error, resolves, rejects, get, create, insert_written, set, replace_written,
  remove,
}

-- The id that a written document has.
abbrev pub HasId : String → Written → Type 0
HasId id (refused e) = Unit
HasId id (stored d) = d.id ≡ id

create_parsed-HasId :
    (id label : String) (b : Bool) (flow : Option (List Node))
    → HasId id (Store.create_parsed id label b flow)
unfolding Store.create_parsed Store.with_parsed
create_parsed-HasId id label b none = tt
create_parsed-HasId id label b (some flow) = elim (Parsed-cases (parse flow)) [
  | inl (e, h) ↦ rw (h, Store.create_parsed) tt
  | inr (p, h) ↦ rw (h, Store.create_parsed) refl
]

pub Written-cases :
    (w : Written) → ((e : FlowError) × (w ≡ refused e)) ⊎ ((d : Document) × (w ≡ stored d))
Written-cases (refused e) = inl (e, refl)
Written-cases (stored d) = inr (d, refl)

rejects≢resolves : {A : Type 0} {e : Failure} {a : A} → rejects e ≡ resolves a → ⊥
rejects≢resolves h = cc

resolves-inj : {A : Type 0} {a b : A} → resolves a ≡ resolves b → a ≡ b
resolves-inj h = cc

pub create-HasId :
    (id : String) (label : Option String) (enabled : Enabled) (flow : Option (List Node))
    → HasId id (Store.create id label enabled flow)
unfolding Store.create
create-HasId id none enabled flow = tt
create-HasId id (some l) enabled flow = elim (Bool-cases (l == "")) [
  | inl e ↦ rw (e, Store.create) tt
  | inr e ↦ elim (Option-cases (Store.enabled_val enabled)) [
    | inl v ↦ rw (e, v, Store.create) tt
    | inr (b, v) ↦ rw (e, v, Store.create) (create_parsed-HasId id l b flow)
  ]
]

pub set-HasId :
    (old : Document) (label : Option String) (enabled : Enabled) (flow : Option (List Node))
    → HasId old.id (Store.set old label enabled flow)
unfolding Store.set Store.set_fields Store.with_parsed
set-HasId old label enabled none = refl
set-HasId old label enabled (some flow) = elim (Parsed-cases (parse flow)) [
  | inl (e, h) ↦ rw (h, Store.set) tt
  | inr (p, h) ↦ rw (h, Store.set) refl
]

module _ {S : Type 0} (store : Collection S) where
  get-insert :
      (d : Document) (s : S) (j : String)
      → store.find_one d.id s ≡ none
      → get store j true (store.insert d s) ≡ (if d.id == j then resolves d else get store j true s)
  unfolding get
  get-insert d s j fresh = elim (Bool-cases (d.id == j)) [
    | inl e ↦ rw (store.find_one-insert d s j fresh) (rw e refl)
    | inr e ↦ rw (store.find_one-insert d s j fresh) (rw e refl)
  ]

  get-replace :
      (d old : Document) (s : S) (j : String)
      → store.find_one d.id s ≡ some old
      → store.IsUnique s
      → get store j true (store.find_one_and_replace d.id d s)
        ≡ (if d.id == j then resolves d else get store j true s)
  unfolding get
  get-replace d old s j there unique = elim (Bool-cases (d.id == j)) [
    | inl e ↦ rw (store.find_one-replace d old s j there unique) (rw e refl)
    | inr e ↦ rw (store.find_one-replace d old s j there unique) (rw e refl)
  ]

  get-delete :
      (id : String) (s : S) (j : String)
      → store.IsUnique s
      → get store j true (store.find_one_and_delete id s)
        ≡ (if id == j then rejects (unknown_flow_error j) else get store j true s)
  unfolding get
  get-delete id s j unique = elim (Bool-cases (id == j)) [
    | inl e ↦ rw (store.find_one-delete id s j unique) (rw e refl)
    | inr e ↦ rw (store.find_one-delete id s j unique) (rw e refl)
  ]

  -- What an operation that resolved left: `d` is the flow of its id, and the others are as they were.
  pub record Holds (d : Document) (s s' : S) : Type 0 where
    pub there : get store d.id true s' ≡ resolves d
    pub others : (j : String) → (d.id == j) ≡ false → get store j true s' ≡ get store j true s
    pub unique : store.IsUnique s'

  -- A new flow: `create` resolves with what `get` finds under its id from then on.
  pub create-Holds :
      (id : String) (label : Option String) (enabled : Enabled) (flow : Option (List Node))
      (inserted : Bool) (s : S) (d : Document)
      → store.find_one id s ≡ none
      → store.IsUnique s
      → (create store id label enabled flow inserted s).0 ≡ resolves d
      → (d.id ≡ id) × Holds d s (create store id label enabled flow inserted s).1
  unfolding create insert_written
  create-Holds id label enabled flow inserted s d fresh unique h =
      elim (Written-cases (Store.create id label enabled flow)) [
        | inl (e, w) ↦ absurd (rejects≢resolves (rw (w, insert_written) at h))
        | inr (d', w) ↦ elim (Bool-cases inserted) [
          | inr no_ok ↦ absurd (rejects≢resolves (rw (w, no_ok, insert_written) at h))
          | inl done ↦
              let e : d' ≡ d = resolves-inj (rw (w, done, insert_written) at h) in
              let id_is : d'.id ≡ id = rw w at (create-HasId id label enabled flow) in
              let new : store.find_one d'.id s ≡ none = rw id_is fresh in
              (
                rw (← e) id_is,
                rw (← e) (
                    rw (w, done, insert_written)
                      record {
                        there = get-insert d' s d'.id new ∙ rw (eq_refl d'.id) refl;
                        others = λ j ne. get-insert d' s j new ∙ rw ne refl;
                        unique = store.insert-IsUnique d' s new unique;
                      }),
              )
        ]
      ]

  replace_written-Holds :
      (id : String) (w : Written) (replaced : Bool) (s : S) (d old : Document)
      → store.find_one id s ≡ some old
      → store.IsUnique s
      → HasId id w
      → (replace_written store id w replaced s).0 ≡ resolves d
      → (d.id ≡ id) × Holds d s (replace_written store id w replaced s).1
  unfolding replace_written
  replace_written-Holds id (refused e) replaced s d old there unique has h =
      absurd (rejects≢resolves h)
  replace_written-Holds id (stored d') replaced s d old there unique has h =
      elim (Bool-cases replaced) [
        | inr f ↦ absurd (rejects≢resolves (rw (f, replace_written) at h))
        | inl f ↦
            let e : d' ≡ d = resolves-inj (rw (f, replace_written) at h) in
            let here : store.find_one d'.id s ≡ some old =
              subst (λ k. store.find_one k s ≡ some old) (sym has) there in
            let kept : Holds d' s (store.find_one_and_replace d'.id d' s) = record {
              there = get-replace d' old s d'.id here unique ∙ rw (eq_refl d'.id) refl;
              others = λ j ne. get-replace d' old s j here unique ∙ rw ne refl;
              unique = store.replace-IsUnique d' s unique;
            } in
            (
              ap (λ (x : Document). x.id) (sym e) ∙ has,
              rw (← e) (
                  rw (f, replace_written)
                    (subst (λ k. Holds d' s (store.find_one_and_replace k d' s)) has kept)),
            )
      ]

  -- An update: `set` resolves with what `get` finds under the id from then on.
  pub set-Holds :
      (id : String) (label : Option String) (enabled : Enabled) (flow : Option (List Node))
      (found replaced : Bool) (s : S) (d : Document)
      → store.IsUnique s
      → (set store id label enabled flow found replaced s).0 ≡ resolves d
      → (d.id ≡ id) × Holds d s (set store id label enabled flow found replaced s).1
  unfolding set get
  set-Holds id label enabled flow found replaced s d unique h = elim (Bool-cases found) [
    | inr f ↦ absurd (rejects≢resolves (rw (f, set, get) at h))
    | inl f ↦ elim (Option-cases (store.find_one id s)) [
      | inl g ↦ absurd (rejects≢resolves (rw (f, g, set, get) at h))
      | inr (old, g) ↦
          rw (f, g, set, get)
            (replace_written-Holds id (Store.set old label enabled flow) replaced s d old g unique
              (subst (λ k. HasId k (Store.set old label enabled flow))
                (store.find_one-id id old s g) (set-HasId old label enabled flow))
              (rw (f, g, set, get) at h))
    ]
  ]

  -- A removal: it resolves with the flow of the id, and `get` finds none from then on.
  pub get-remove :
      (id : String) (removed : Bool) (s : S) (d : Document)
      → store.IsUnique s
      → (remove store id removed s).0 ≡ resolves d
      → (get store id true s ≡ resolves d)
        × ((j : String)
            → get store j true (remove store id removed s).1
              ≡ (if id == j then rejects (unknown_flow_error j) else get store j true s))
  unfolding remove
  get-remove id removed s d unique h = elim (Bool-cases removed) [
    | inr f ↦ absurd (rejects≢resolves (rw (f, remove) at h))
    | inl f ↦ elim (Option-cases (store.find_one id s)) [
      | inl g ↦ absurd (rejects≢resolves (rw (f, g, remove) at h))
      | inr (flow, g) ↦
          let e : flow ≡ d = resolves-inj (rw (f, g, remove) at h) in
          ((unfold get in rw g (ap resolves e)), λ j. rw (f, g, remove) (get-delete id s j unique))
    ]
  ]
