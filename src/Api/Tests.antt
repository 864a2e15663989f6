-- ===== src/Api/Tests.antt =====
-- The theorems about the routes with a collection that is a list of documents.
use flowbroker.Prelude.{
  String, ◌≡◌, refl, inl, inr, true, Option, none, some, List, [], ◌∷◌, ◌==◌, eq_iff, arith,
  Bool-cases, some-inj, none≢some, if◌then◌else◌,
}
use flowbroker.Flow.Collection.{Collection}
use flowbroker.Flow.Store.{Document, missing}
use flowbroker.Flow.Manager
use flowbroker.Flow.Parse.{parse, add_nodes}
use flowbroker.Flow.Store
use flowbroker.Api.{FlowBody, post_flow, get_flow, get_request}
use flowbroker.Api.{FlowRequest, post_request, put_request, delete_request}
use flowbroker.Api.Refinement.{view, run, run_map}
use flowbroker.Api.Refinement.Runs.{run-Refines}

look : String → List Document → Option Document
look k [] = none
look k (d ∷ ds) = if d.id == k then some d else look k ds

swap_in : Document → List Document → List Document
swap_in d [] = []
swap_in d (e ∷ ds) = if e.id == d.id then d ∷ ds else e ∷ swap_in d ds

take_out : String → List Document → List Document
take_out k [] = []
take_out k (d ∷ ds) = let rest = take_out k ds in if d.id == k then rest else d ∷ rest

look-id : (k : String) (d : Document) (ds : List Document) → look k ds ≡ some d → d.id ≡ k
unfolding look
look-id k d [] h = absurd (none≢some h)
look-id k d (e ∷ ds) h = elim (Bool-cases (e.id == k)) [
  | inl same ↦ let is : e ≡ d = some-inj (rw same at h) in rw (← is) ((eq_iff e.id k).0 same)
  | inr other ↦ look-id k d ds (rw other at h)
]

look-swap_in :
    (d old : Document) (ds : List Document) (j : String)
    → look d.id ds ≡ some old
    → look j (swap_in d ds) ≡ (if d.id == j then some d else look j ds)
unfolding look swap_in
look-swap_in d old [] j h = absurd (none≢some h)
look-swap_in d old (e ∷ ds) j h = elim (Bool-cases (e.id == d.id)) [
  | inl same ↦ ground (arith, eq_iff e.id d.id, eq_iff e.id j, eq_iff d.id j)
  | inr other ↦
      let next = look-swap_in d old ds j (rw other at h) in
      ground (arith, eq_iff e.id d.id, eq_iff e.id j, eq_iff d.id j)
]

look-take_out :
    (k : String) (ds : List Document) (j : String)
    → look j (take_out k ds) ≡ (if k == j then none else look j ds)
unfolding look take_out
look-take_out k [] j = ground arith
look-take_out k (d ∷ ds) j =
    ground (arith, look-take_out k ds j, eq_iff d.id k, eq_iff d.id j, eq_iff k j)

-- `take_out` removes every document of an id, so uniqueness asks nothing.
abbrev listed : Collection (List Document)
listed = record {
  find = λ s. s;
  find_one = look;
  insert = λ d s. d ∷ s;
  find_one_and_replace = λ id d s. swap_in d s;
  find_one_and_delete = take_out;
  delete_many = λ s. [];
  find_by_device = λ id s. s;
  find_by_template = λ id s. s;
  IsUnique = λ s. Unit {0};
  insert-IsUnique = λ d s h u. tt;
  replace-IsUnique = λ d s u. tt;
  delete-IsUnique = λ id s u. tt;
  delete_many-IsUnique = λ s. tt;
  find_one-id = look-id;
  find_one-insert = λ d s j h. unfold look in refl;
  find_one-replace = λ d old s j h u. look-swap_in d old s j h;
  find_one-delete = λ id s j u. look-take_out id s j;
  find_one-delete_many = λ s j. unfold look in refl;
}

abbrev body : FlowBody
body = record { name = some "lamp"; enabled = missing; flow = some [] }

abbrev admin : Option String
admin = some "admin"

abbrev after_post : List Document
after_post = (post_flow listed admin body "f1" true []).1

post_shown : (post_flow listed admin body "f1" true []).0.status ≡ 200
unfolding post_flow get_flow Manager.create Manager.insert_written Store.create Store.create_parsed
    Store.enabled_val parse add_nodes
post_shown = refl

abbrev update : FlowBody
update = record { name = some "light"; enabled = missing; flow = none }

abbrev history : List FlowRequest
history =
    post_request body "f1" true
    ∷ put_request "f1" update true true
    ∷ get_request "f1" true
    ∷ delete_request "f1" true
    ∷ get_request "f1" true
    ∷ []

run-Refines_example :
    ((run listed admin history []).0 ≡ (run_map history (view listed [])).0)
    × (view listed (run listed admin history []).1 ≡ (run_map history (view listed [])).1)
run-Refines_example =
    run-Refines listed admin refl history [] (unfold look in (refl, (tt, (tt, (tt, (tt, tt)))))) tt
