-- ===== src/Containers/Kubernetes/Halves.antt =====
-- What a `create` and a `remove` make of what an earlier one left halfway.
use flowbroker.Prelude.{String, ◌≡◌, refl, ap, ◌∙◌, true, false, none, some, List, eq_refl}
use flowbroker.Containers.Kubernetes.{
  deployment, service, Cluster, K8sNode, exists_already, refused, no_service, not_found,
  service_not_deleted, deployment_name, create, create_deployment, remove,
}
use flowbroker.Containers.Kubernetes.Names.{retrieve_some}
use flowbroker.Containers.Kubernetes.Ends.{
  CreateLeaves, RemoveLeaves, create-CreateLeaves, remove-RemoveLeaves,
}

module _ (k : Cluster) where
  open k use {State, has, list}

  -- A deployment that is there: `create` resolves and does nothing.
  create_there :
      (node : K8sNode) (s : State) (names : List String)
      → node.api ≡ true
      → list s ≡ some names
      → has deployment (deployment_name node) s ≡ true
      → ((create k node s).0 ≡ exists_already)
        × ((create k node s).1.0.server_address ≡ node.server_address)
        × ((create k node s).1.1 ≡ s)
  unfolding create create_deployment
  create_there node s names on e there =
      let (r, knows) = retrieve_some k node s names on e in
      let listed = knows ∙ there in
      rw (r, create) (rw (listed, create_deployment) (refl, refl, refl))

  remove_missing :
      (node : K8sNode) (s : State) (names : List String)
      → node.api ≡ true
      → list s ≡ some names
      → has deployment (deployment_name node) s ≡ false
      → ((remove k node s).0 ≡ refused not_found) × ((remove k node s).1.1 ≡ s)
  unfolding remove
  remove_missing node s names on e gone =
      let (r, knows) = retrieve_some k node s names on e in
      let missing = knows ∙ gone in rw (r, missing, remove) (refl, refl)

  -- A `create` whose service is refused, and then one for the same node, as it is made anew, while the
  -- deployments are listed: it resolves and does nothing. There is no service but those of before, and the
  -- node has no address.
  pub half_created :
      (node again : K8sNode) (s : State) (names : List String)
      → again.id ≡ node.id
      → again.api ≡ true
      → again.server_address ≡ none
      → (create k node s).0 ≡ refused no_service
      → list (create k node s).1.1 ≡ some names
      → ((create k again (create k node s).1.1).0 ≡ exists_already)
        × ((create k again (create k node s).1.1).1.0.server_address ≡ none)
        × ((q : String)
            → has service q (create k again (create k node s).1.1).1.1 ≡ has service q s)
  half_created node again s names same on bare failed e =
      let s1 = (create k node s).1.1 in
      let left : CreateLeaves k node s (refused no_service) (create k node s).1.0 s1 =
        rw failed at (create-CreateLeaves k node s) in
      let there : has deployment (deployment_name again) s1 ≡ true =
        rw same
          (left.2 deployment (deployment_name node) ∙ rw (eq_refl (deployment_name node)) refl) in
      let (ends, address, still) = create_there again s1 names on e there in
      (ends, address ∙ bare, λ q. ap (has service q) still ∙ left.2 service q)

  -- A `remove` whose service is not deleted, and then another one while the deployments are listed: it does
  -- not find the deployment, and each service is there that was.
  pub half_removed :
      (node again : K8sNode) (s : State) (names : List String)
      → again.id ≡ node.id
      → again.api ≡ true
      → (remove k node s).0 ≡ refused service_not_deleted
      → list (remove k node s).1.1 ≡ some names
      → ((remove k again (remove k node s).1.1).0 ≡ refused not_found)
        × ((q : String)
            → has service q (remove k again (remove k node s).1.1).1.1 ≡ has service q s)
  half_removed node again s names same on failed e =
      let s1 = (remove k node s).1.1 in
      let left : RemoveLeaves k node s (refused service_not_deleted) s1 =
        rw failed at (remove-RemoveLeaves k node s) in
      let gone : has deployment (deployment_name again) s1 ≡ false =
        rw same
          (left.1 deployment (deployment_name node) ∙ rw (eq_refl (deployment_name node)) refl) in
      let (ends, still) = remove_missing again s1 names on e gone in
      (ends, λ q. ap (has service q) still ∙ left.1 service q)
