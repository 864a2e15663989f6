-- ===== src/Api/Flows.antt =====
-- What a client of the flow routes can rely on.
use flowbroker.Prelude.{
  ℕ, String, ◌≡◌, refl, ◌⊎◌, inl, inr, Bool, true, false, Option, List, Bool-cases, Option-cases,
}
use flowbroker.Flow.Nodes.{Node}
use flowbroker.Flow.Collection.{Collection}
use flowbroker.Flow.Store.{Document, Enabled, Written, stored, refused}
use flowbroker.Flow.Store
use flowbroker.Flow.Manager
use flowbroker.Flow.Manager.{
  Failure, invalid_flow_error, unknown_flow_error, mongo_error, other_error, Answer, resolves,
  rejects, insert_written, replace_written,
}
use flowbroker.Api.{
  Response, failed, is_tenant, validate_mandatory_fields, one_response, list_response,
  done_response, FlowRequest, get_all_request, delete_all_request, post_request, get_request,
  delete_request, put_request, serve,
}

Answer-cases :
    {A : Type 0} (a : Answer A) → ((x : A) × (a ≡ resolves x)) ⊎ ((e : Failure) × (a ≡ rejects e))
Answer-cases (resolves x) = inl (x, refl)
Answer-cases (rejects e) = inr (e, refl)

-- The status codes of the routes.
abbrev IsError : ℕ → Type 0
IsError n = (n ≡ 400) ⊎ ((n ≡ 404) ⊎ (n ≡ 500))

-- A response of a route, with the states in front of it and behind.
abbrev pub IsAnswered : {S : Type 0} → S → Response × S → Type 0
IsAnswered s (r, s') = (r.status ≡ 200) ⊎ (IsError r.status × (s' ≡ s))

failed-IsError : (e : Failure) → IsError (failed e).status
unfolding failed
failed-IsError invalid_flow_error = inl refl
failed-IsError (unknown_flow_error id) = inr (inl refl)
failed-IsError mongo_error = inr (inr refl)
failed-IsError other_error = inr (inr refl)

-- An operation that rejects leaves the collection as it was.
abbrev KeepsOnError : {A S : Type 0} → S → Answer A × S → Type 0
KeepsOnError s (resolves a, s') = Unit
KeepsOnError s (rejects e, s') = s' ≡ s

module _ {S : Type 0} (store : Collection S) (s : S) where
  one-IsAnswered :
      (r : Answer Document × S) → KeepsOnError s r → IsAnswered s (one_response r.0, r.1)
  unfolding one_response
  one-IsAnswered (resolves d, s') h = inl refl
  one-IsAnswered (rejects e, s') h = inr (failed-IsError e, h)

  insert_written_keeps : (w : Written) (ok : Bool) → KeepsOnError s (insert_written store w ok s)
  unfolding insert_written
  insert_written_keeps (refused e) ok = refl
  insert_written_keeps (stored d) true = tt
  insert_written_keeps (stored d) false = refl

  replace_written_keeps :
      (id : String) (w : Written) (ok : Bool) → KeepsOnError s (replace_written store id w ok s)
  unfolding replace_written
  replace_written_keeps id (refused e) ok = refl
  replace_written_keeps id (stored d) true = tt
  replace_written_keeps id (stored d) false = refl

  set_keeps :
      (id : String) (label : Option String) (enabled : Enabled) (flow : Option (List Node))
      (found ok : Bool)
      → KeepsOnError s (Manager.set store id label enabled flow found ok s)
  unfolding Manager.set
  set_keeps id label enabled flow found ok = elim (Answer-cases (Manager.get store id found s)) [
    | inl (old, g) ↦
        rw (g, Manager.set) (replace_written_keeps id (Store.set old label enabled flow) ok)
    | inr (e, g) ↦ rw (g, Manager.set) refl
  ]

  remove_keeps : (id : String) (ok : Bool) → KeepsOnError s (Manager.remove store id ok s)
  unfolding Manager.remove
  remove_keeps id false = refl
  remove_keeps id true = elim (Option-cases (store.find_one id s)) [
    | inl e ↦ rw (e, Manager.remove) refl
    | inr (d, e) ↦ rw (e, Manager.remove) tt
  ]

  list-IsAnswered : (r : Answer (List Document)) → IsAnswered s (list_response r, s)
  unfolding list_response
  list-IsAnswered (resolves ds) = inl refl
  list-IsAnswered (rejects e) = inr (inr (inr refl), refl)

  get-IsAnswered : (r : Answer Document) → IsAnswered s (one_response r, s)
  unfolding one_response
  get-IsAnswered (resolves d) = inl refl
  get-IsAnswered (rejects e) = inr (failed-IsError e, refl)

  serve_unknown-IsAnswered :
      (tenant : Option String) (q : FlowRequest)
      → is_tenant tenant ≡ false
      → IsAnswered s (serve store tenant q s)
  unfolding serve
  serve_unknown-IsAnswered tenant (get_all_request ok) e = rw (e, serve) (inr (inl refl, refl))
  serve_unknown-IsAnswered tenant (delete_all_request ok) e = rw (e, serve) (inr (inl refl, refl))
  serve_unknown-IsAnswered tenant (post_request b id ok) e = rw (e, serve) (inr (inl refl, refl))
  serve_unknown-IsAnswered tenant (get_request id ok) e = rw (e, serve) (inr (inl refl, refl))
  serve_unknown-IsAnswered tenant (delete_request id ok) e = rw (e, serve) (inr (inl refl, refl))
  serve_unknown-IsAnswered tenant (put_request id b found ok) e =
      rw (e, serve) (inr (inl refl, refl))

  serve_known-IsAnswered :
      (tenant : Option String) (q : FlowRequest)
      → is_tenant tenant ≡ true
      → IsAnswered s (serve store tenant q s)
  unfolding serve
  serve_known-IsAnswered tenant (get_all_request ok) e =
      rw (e, serve) (list-IsAnswered (Manager.get_all store ok s))
  serve_known-IsAnswered tenant (delete_all_request true) e =
      rw (e, serve) (unfold Manager.remove_all done_response in inl refl)
  serve_known-IsAnswered tenant (delete_all_request false) e =
      rw (e, serve) (unfold Manager.remove_all done_response in inr (inr (inr refl), refl))
  serve_known-IsAnswered tenant (post_request b id ok) e =
      elim (Bool-cases (validate_mandatory_fields b)) [
        | inl v ↦
            rw (e, v, serve)
              (one-IsAnswered _ (
                unfold Manager.create in
                insert_written_keeps (Store.create id b.name b.enabled b.flow) ok))
        | inr v ↦ rw (e, v, serve) (inr (inl refl, refl))
      ]
  serve_known-IsAnswered tenant (get_request id ok) e =
      rw (e, serve) (get-IsAnswered (Manager.get store id ok s))
  serve_known-IsAnswered tenant (delete_request id ok) e =
      rw (e, serve) (one-IsAnswered _ (remove_keeps id ok))
  serve_known-IsAnswered tenant (put_request id b found ok) e =
      rw (e, serve) (one-IsAnswered _ (set_keeps id b.name b.enabled b.flow found ok))

  -- Every request to the flow routes is answered with 200, or with 400, 404 or 500; then the
  -- collection is as it was.
  pub serve-IsAnswered :
      (tenant : Option String) (q : FlowRequest) → IsAnswered s (serve store tenant q s)
  unfolding serve
  serve-IsAnswered tenant q = elim (Bool-cases (is_tenant tenant)) [
    | inl known ↦ serve_known-IsAnswered tenant q known
    | inr unknown ↦ serve_unknown-IsAnswered tenant q unknown
  ]
