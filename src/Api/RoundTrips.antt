-- ===== src/Api/RoundTrips.antt =====
-- What a GET answers behind a POST, a PUT or a DELETE.
use flowbroker.Prelude.{
  String, ◌≡◌, refl, sym, ap, ◌∙◌, subst, inl, inr, Bool, true, false, Option, none, ◌==◌, eq_refl,
  arith, Bool-cases,
}
use flowbroker.Flow.Collection.{Collection}
use flowbroker.Flow.Store.{Document}
use flowbroker.Flow.Manager
use flowbroker.Flow.Manager.{
  Failure, invalid_flow_error, unknown_flow_error, mongo_error, other_error, Answer, resolves,
  rejects,
}
use flowbroker.Flow.Manager.Laws.{create-Holds, set-Holds, get-remove}
use flowbroker.Api.{
  unknown_flow, failed, FlowBody, is_tenant, validate_mandatory_fields, one_response, post_flow,
  get_flow, put_flow, delete_flow,
}

-- A response with status 200 comes from an operation that resolved.
ok_resolved :
    (a : Answer Document) → (one_response a).status ≡ 200 → (d : Document) × (a ≡ resolves d)
unfolding one_response failed
ok_resolved (resolves d) h = (d, refl)
ok_resolved (rejects invalid_flow_error) h = absurd (omega arith)
ok_resolved (rejects (unknown_flow_error id)) h = absurd (omega arith)
ok_resolved (rejects mongo_error) h = absurd (omega arith)
ok_resolved (rejects other_error) h = absurd (omega arith)

module _ {S : Type 0} (store : Collection S) (tenant : Option String) (s : S) where
  -- A POST that is answered with 200, under a new id: a GET of the id is answered with the same flow
  -- from then on, and a GET of another id as before.
  pub get_flow-post_flow :
      (b : FlowBody) (id : String) (inserted : Bool)
      → store.find_one id s ≡ none
      → store.IsUnique s
      → (post_flow store tenant b id inserted s).0.status ≡ 200
      → ((get_flow store tenant id true (post_flow store tenant b id inserted s).1).0
          ≡ (post_flow store tenant b id inserted s).0)
        × ((j : String)
            → (id == j) ≡ false
            → (get_flow store tenant j true (post_flow store tenant b id inserted s).1).0
              ≡ (get_flow store tenant j true s).0)
  unfolding post_flow get_flow
  get_flow-post_flow b id inserted fresh unique h = elim (Bool-cases (is_tenant tenant)) [
    | inr no_tenant ↦ absurd (let e : 400 ≡ 200 = rw (no_tenant, post_flow) at h in omega arith)
    | inl t ↦ elim (Bool-cases (validate_mandatory_fields b)) [
      | inr bad ↦ absurd (let e : 400 ≡ 200 = rw (t, bad, post_flow) at h in omega arith)
      | inl v ↦
          let (d, e) = ok_resolved _ (rw (t, v, post_flow) at h) in
          let (id_is, holds) =
            create-Holds store id b.name b.enabled b.flow inserted s d fresh unique e in
          rw (t, v, post_flow, get_flow)
            (
              ap one_response (
                  subst
                    (λ k.
                      Manager.get store k true
                        (Manager.create store id b.name b.enabled b.flow inserted s).1
                      ≡ resolves d)
                    id_is holds.there
                  ∙ sym e),
              λ j ne. ap one_response (holds.others j (rw id_is ne)),
            )
    ]
  ]

  -- The same of a PUT.
  pub get_flow-put_flow :
      (b : FlowBody) (id : String) (found replaced : Bool)
      → store.IsUnique s
      → (put_flow store tenant id b found replaced s).0.status ≡ 200
      → ((get_flow store tenant id true (put_flow store tenant id b found replaced s).1).0
          ≡ (put_flow store tenant id b found replaced s).0)
        × ((j : String)
            → (id == j) ≡ false
            → (get_flow store tenant j true (put_flow store tenant id b found replaced s).1).0
              ≡ (get_flow store tenant j true s).0)
  unfolding put_flow get_flow
  get_flow-put_flow b id found replaced unique h = elim (Bool-cases (is_tenant tenant)) [
    | inr no_tenant ↦ absurd (let e : 400 ≡ 200 = rw (no_tenant, put_flow) at h in omega arith)
    | inl t ↦
        let (d, e) = ok_resolved _ (rw (t, put_flow) at h) in
        let (id_is, holds) =
          set-Holds store id b.name b.enabled b.flow found replaced s d unique e in
        rw (t, put_flow, get_flow)
          (
            ap one_response (
                subst
                  (λ k.
                    Manager.get store k true
                      (Manager.set store id b.name b.enabled b.flow found replaced s).1
                    ≡ resolves d)
                  id_is holds.there
                ∙ sym e),
            λ j ne. ap one_response (holds.others j (rw id_is ne)),
          )
  ]

  -- A DELETE that is answered with 200 shows the flow that a GET of the id showed; from then on a GET
  -- of the id is answered with 404, and a GET of another id as before.
  pub get_flow-delete_flow :
      (id : String) (removed : Bool)
      → store.IsUnique s
      → (delete_flow store tenant id removed s).0.status ≡ 200
      → ((get_flow store tenant id true s).0 ≡ (delete_flow store tenant id removed s).0)
        × ((get_flow store tenant id true (delete_flow store tenant id removed s).1).0
            ≡ record { status = 404; body = unknown_flow id })
        × ((j : String)
            → (id == j) ≡ false
            → (get_flow store tenant j true (delete_flow store tenant id removed s).1).0
              ≡ (get_flow store tenant j true s).0)
  unfolding delete_flow get_flow
  get_flow-delete_flow id removed unique h = elim (Bool-cases (is_tenant tenant)) [
    | inr no_tenant ↦ absurd (let e : 400 ≡ 200 = rw (no_tenant, delete_flow) at h in omega arith)
    | inl t ↦
        let (d, e) = ok_resolved _ (rw (t, delete_flow) at h) in
        let (shown, gone) = get-remove store id removed s d unique e in
        let none_left : Manager.get store id true (Manager.remove store id removed s).1
            ≡ rejects (unknown_flow_error id) =
          gone id ∙ rw (eq_refl id) refl in
        rw (t, delete_flow, get_flow)
          (
            ap one_response (shown ∙ sym e),
            ap one_response none_left ∙ unfold one_response failed in refl,
            λ j ne.
                let other : Manager.get store j true (Manager.remove store id removed s).1
                    ≡ Manager.get store j true s =
                  gone j ∙ rw ne refl in
                ap one_response other,
          )
  ]
