-- ===== src/Api/Refinement/Runs.antt =====
-- The refinement, request by request.
use mathlib.Core.Path.{ap₂, fun_ext}
use flowbroker.Prelude.{
  String, ◌≡◌, refl, sym, ap, ◌∙◌, subst, inl, inr, Bool, true, false, Option, none, some, List, [],
  ◌∷◌, Bool-cases, Option-cases,
}
use flowbroker.Flow.Collection.{Collection}
use flowbroker.Flow.Store
use flowbroker.Flow.Store.{Document, Enabled, Written, stored, refused}
use flowbroker.Flow.Manager
use flowbroker.Flow.Manager.{
  unknown_flow_error, mongo_error, other_error, resolves, rejects, failure_of,
}
use flowbroker.Flow.Manager.Laws.{HasId, create-HasId, set-HasId}
use flowbroker.Api.{
  Response, failed, FlowBody, is_tenant, validate_mandatory_fields, one_response, done_response,
  FlowRequest, get_all_request, delete_all_request, post_request, get_request, delete_request,
  put_request, serve,
}
use flowbroker.Api.Refinement.{
  Flows, view, with, without, write, specified, IsPlainRequest, run, run_map, AllPlain,
}

module _ {S : Type 0} (store : Collection S) (s : S) where
  insert-with :
      (d : Document)
      → store.find_one d.id s ≡ none
      → view store (store.insert d s) ≡ with d (view store s)
  insert-with d new = fun_ext (λ j. store.find_one-insert d s j new)

  replace-with :
      (d old : Document)
      → store.find_one d.id s ≡ some old
      → store.IsUnique s
      → view store (store.find_one_and_replace d.id d s) ≡ with d (view store s)
  replace-with d old there unique = fun_ext (λ j. store.find_one-replace d old s j there unique)

  delete-without :
      (id : String)
      → store.IsUnique s
      → view store (store.find_one_and_delete id s) ≡ without id (view store s)
  delete-without id unique = fun_ext (λ j. store.find_one-delete id s j unique)

  -- A response and a state that stand for a response and a map; the state is unique.
  pub record StandsFor (r : Response × S) (p : Response × Flows) : Type 0 where
    pub answers : r.0 ≡ p.0
    pub views : view store r.1 ≡ p.1
    pub unique : store.IsUnique r.1

  insert_written-StandsFor :
      (w : Written) (ok : Bool)
      → store.IsUnique s
      → ((d : Document) → w ≡ stored d → store.find_one d.id s ≡ none)
      → StandsFor
          (
            one_response (Manager.insert_written store w ok s).0,
            (Manager.insert_written store w ok s).1,
          )
          (write w ok (view store s))
  unfolding Manager.insert_written write one_response failed
  insert_written-StandsFor (refused e) ok unique new = record {
    answers = refl;
    views = refl;
    unique = unique;
  }
  insert_written-StandsFor (stored d) false unique new = record {
    answers = refl;
    views = refl;
    unique = unique;
  }
  insert_written-StandsFor (stored d) true unique new = record {
    answers = refl;
    views = insert-with d (new d refl);
    unique = store.insert-IsUnique d s (new d refl) unique;
  }

  replace_written-StandsFor :
      (id : String) (w : Written) (ok : Bool) (old : Document)
      → store.IsUnique s
      → store.find_one id s ≡ some old
      → HasId id w
      → StandsFor
          (
            one_response (Manager.replace_written store id w ok s).0,
            (Manager.replace_written store id w ok s).1,
          )
          (write w ok (view store s))
  unfolding Manager.replace_written write one_response failed
  replace_written-StandsFor id (refused e) ok old unique there has = record {
    answers = refl;
    views = refl;
    unique = unique;
  }
  replace_written-StandsFor id (stored d) false old unique there has = record {
    answers = refl;
    views = refl;
    unique = unique;
  }
  replace_written-StandsFor id (stored d) true old unique there has = rw (← has) record {
    answers = refl;
    views = replace-with d old (rw has there) unique;
    unique = store.replace-IsUnique d s unique;
  }

  get-StandsFor :
      (id : String) (ok : Bool)
      → store.IsUnique s
      → StandsFor
          (one_response (Manager.get store id ok s), s)
          (specified (get_request id ok) (view store s))
  unfolding Manager.get specified one_response failed
  get-StandsFor id false unique = record { answers = refl; views = refl; unique = unique }
  get-StandsFor id true unique = elim (Option-cases (store.find_one id s)) [
    | inl g ↦
        rw (g, Manager.get, specified) record { answers = refl; views = refl; unique = unique }
    | inr (d, g) ↦
        rw (g, Manager.get, specified) record { answers = refl; views = refl; unique = unique }
  ]

  remove-StandsFor :
      (id : String) (ok : Bool)
      → store.IsUnique s
      → StandsFor
          (one_response (Manager.remove store id ok s).0, (Manager.remove store id ok s).1)
          (specified (delete_request id ok) (view store s))
  unfolding Manager.remove specified one_response failed
  remove-StandsFor id false unique = record { answers = refl; views = refl; unique = unique }
  remove-StandsFor id true unique = elim (Option-cases (store.find_one id s)) [
    | inl g ↦
        rw (g, Manager.remove, specified) record { answers = refl; views = refl; unique = unique }
    | inr (d, g) ↦
        rw (g, Manager.remove, specified)
          record {
            answers = refl;
            views = delete-without id unique;
            unique = store.delete-IsUnique id s unique;
          }
  ]

  set-StandsFor :
      (id : String) (b : FlowBody) (found ok : Bool)
      → store.IsUnique s
      → StandsFor
          (
            one_response (Manager.set store id b.name b.enabled b.flow found ok s).0,
            (Manager.set store id b.name b.enabled b.flow found ok s).1,
          )
          (specified (put_request id b found ok) (view store s))
  unfolding Manager.set Manager.get specified one_response failed
  set-StandsFor id b false ok unique = record { answers = refl; views = refl; unique = unique }
  set-StandsFor id b true ok unique = elim (Option-cases (store.find_one id s)) [
    | inl g ↦
        rw (g, Manager.set, specified) record { answers = refl; views = refl; unique = unique }
    | inr (old, g) ↦
        rw (g, Manager.set, specified)
          (replace_written-StandsFor id (Store.set old b.name b.enabled b.flow) ok old unique g (
            subst (λ k. HasId k (Store.set old b.name b.enabled b.flow))
              (store.find_one-id id old s g) (set-HasId old b.name b.enabled b.flow)))
  ]

  create-StandsFor :
      (b : FlowBody) (id : String) (ok : Bool)
      → store.IsUnique s
      → store.find_one id s ≡ none
      → StandsFor
          (
            one_response (Manager.create store id b.name b.enabled b.flow ok s).0,
            (Manager.create store id b.name b.enabled b.flow ok s).1,
          )
          (write (Store.create id b.name b.enabled b.flow) ok (view store s))
  unfolding Manager.create
  create-StandsFor b id ok unique fresh =
      insert_written-StandsFor (Store.create id b.name b.enabled b.flow) ok unique (λ d e.
        let same : d.id ≡ id = subst (HasId id) e (create-HasId id b.name b.enabled b.flow) in
        rw same fresh)

  remove_all-StandsFor :
      (ok : Bool)
      → store.IsUnique s
      → StandsFor
          (done_response (Manager.remove_all store ok s).0, (Manager.remove_all store ok s).1)
          (specified (delete_all_request ok) (view store s))
  unfolding Manager.remove_all specified done_response
  remove_all-StandsFor false unique = record { answers = refl; views = refl; unique = unique }
  remove_all-StandsFor true unique = record {
    answers = refl;
    views = fun_ext (λ j. store.find_one-delete_many s j);
    unique = store.delete_many-IsUnique s;
  }

  serve-StandsFor :
      (tenant : Option String) (q : FlowRequest)
      → is_tenant tenant ≡ true
      → IsPlainRequest q (view store s)
      → store.IsUnique s
      → StandsFor (serve store tenant q s) (specified q (view store s))
  unfolding serve
  serve-StandsFor tenant (get_all_request ok) t plain unique = absurd plain
  serve-StandsFor tenant (delete_all_request ok) t plain unique =
      rw (t, serve) (remove_all-StandsFor ok unique)
  serve-StandsFor tenant (post_request b id ok) t plain unique =
      elim (Bool-cases (validate_mandatory_fields b)) [
        | inl v ↦
            rw (t, v, serve) (unfold specified in rw v (create-StandsFor b id ok unique plain))
        | inr v ↦
            rw (t, v, serve)
              (unfold specified in rw v record { answers = refl; views = refl; unique = unique })
      ]
  serve-StandsFor tenant (get_request id ok) t plain unique =
      rw (t, serve) (get-StandsFor id ok unique)
  serve-StandsFor tenant (delete_request id ok) t plain unique =
      rw (t, serve) (remove-StandsFor id ok unique)
  serve-StandsFor tenant (put_request id b found ok) t plain unique =
      rw (t, serve) (set-StandsFor id b found ok unique)

-- The flow routes of a tenant refine a map from ids to flows: for any requests, other than the one that
-- lists all flows, of which a POST draws an id that is new then, the responses are those that the map
-- gives, and behind them the collection stands for the map.
pub run-Refines :
    {S : Type 0} (store : Collection S) (tenant : Option String)
    → is_tenant tenant ≡ true
    → (qs : List FlowRequest) (s : S) → AllPlain qs (view store s)
    → store.IsUnique s
    → ((run store tenant qs s).0 ≡ (run_map qs (view store s)).0)
      × (view store (run store tenant qs s).1 ≡ (run_map qs (view store s)).1)
unfolding run run_map
run-Refines store tenant t [] s plain unique = (refl, refl)
run-Refines store tenant t (q ∷ qs) s (plain, rest) unique =
    let step = serve-StandsFor store s tenant q t plain unique in
    let (responses, left) =
      run-Refines store tenant t qs (serve store tenant q s).1
        (subst (AllPlain qs) (sym step.views) rest) step.unique in
    (
      ap₂ (λ r rs. r ∷ rs) step.answers (responses ∙ ap (λ m. (run_map qs m).0) step.views),
      left ∙ ap (λ m. (run_map qs m).1) step.views,
    )
