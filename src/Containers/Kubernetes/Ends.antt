-- ===== src/Containers/Kubernetes/Ends.antt =====
-- What `create` and `remove` leave in the cluster.
use flowbroker.Prelude.{
  String, ◌≡◌, refl, sym, ap, ◌∙◌, inl, inr, Bool, true, false, ◌&&◌, ◌||◌, none, some, List, ◌==◌,
  Bool-cases, if◌then◌else◌,
}
use flowbroker.Prelude.Letters.{includes}
use flowbroker.Containers.Bodies.{deployment_body, service_body, scale_body, container_template}
use flowbroker.Containers.Kubernetes.Names.{
  retrieve-cases, name_in-deployment_body, name_in-service_body,
}
use flowbroker.Containers.Kubernetes.{
  flownode_names, all_but, Kind, deployment, service, same_kind, Cluster, K8sNode, K8sEnd, created,
  exists_already, removed, never, refused, no_api, not_listed, not_deployed, no_service, not_found,
  not_deleted, service_not_deleted, deployment_name, create_service, create_deployment, create,
  remove_service, remove_deployment, remove,
}

module _ (k : Cluster) where
  open k use {State, has, list, post, patch, delete}

  -- What `create` leaves, by the end that it comes to.
  abbrev pub CreateLeaves : K8sNode → State → K8sEnd → K8sNode → State → Type 0
  CreateLeaves node s created node' s' =
      (has deployment (deployment_name node) s ≡ false)
      × (node'.server_address ≡ some (deployment_name node))
      × ((j : Kind) (q : String) → has j q s' ≡ (deployment_name node == q || has j q s))
  CreateLeaves node s exists_already node' s' =
      (has deployment (deployment_name node) s ≡ true)
      × (node'.server_address ≡ node.server_address)
      × (s' ≡ s)
  CreateLeaves node s (refused no_service) node' s' =
      (has deployment (deployment_name node) s ≡ false)
      × (node'.server_address ≡ node.server_address)
      × ((j : Kind) (q : String)
          → has j q s' ≡ (same_kind deployment j && (deployment_name node == q) || has j q s))
  CreateLeaves node s (refused not_deployed) node' s' =
      (has deployment (deployment_name node) s ≡ false)
      × (node'.server_address ≡ node.server_address)
      × (s' ≡ s)
  CreateLeaves node s (refused no_api) node' s' = (node.api ≡ false) × (node' ≡ node) × (s' ≡ s)
  CreateLeaves node s (refused not_listed) node' s' = (list s ≡ none) × (node' ≡ node) × (s' ≡ s)
  CreateLeaves node s _ node' s' = ⊥

  -- Both objects of a name.
  both_posted :
      (j : Kind) (here there : Bool)
      → (same_kind service j && here || (same_kind deployment j && here || there)) ≡ (here || there)
  both_posted deployment true there = refl
  both_posted deployment false there = refl
  both_posted service true there = refl
  both_posted service false there = refl

  -- The node, with names that were listed.
  abbrev knowing : K8sNode → List String → String → K8sNode
  knowing node names target = record node { deployment_names = names; target = target }

  create_deployment_lem :
      (node : K8sNode) (names : List String) (target : String) (s : State)
      → includes (deployment_name node) names ≡ has deployment (deployment_name node) s
      → CreateLeaves node s
          (create_deployment k (knowing node names target) s).0
          (create_deployment k (knowing node names target) s).1.0
          (create_deployment k (knowing node names target) s).1.1
  unfolding create_deployment create_service
  create_deployment_lem node names target s knows =
      let name = deployment_name node in
      let body = deployment_body name (container_template node.id node.image) in
      let s1 = (post deployment body s).1 in
      elim (Bool-cases (includes name names)) [
        | inl there ↦ rw (there, create_deployment) (sym knows ∙ there, refl, refl)
        | inr new ↦ elim (Bool-cases (post deployment body s).0) [
          | inr no_post ↦
              rw (new, no_post, create_deployment)
                (sym knows ∙ new, refl, k.post-refused deployment body s no_post)
          | inl posted ↦
              let after = λ (j : Kind) (q : String).
                k.has-post deployment body name s j q
                  (name_in-deployment_body name node.id node.image) posted in
              elim (Bool-cases (post service (service_body name) s1).0) [
                | inr no_serve ↦
                    rw (new, posted, no_serve, create_deployment, create_service)
                      (
                        sym knows ∙ new,
                        refl,
                        λ j q.
                            ap (has j q) (k.post-refused service (service_body name) s1 no_serve)
                            ∙ after j q,
                      )
                | inl served ↦
                    rw (new, posted, served, create_deployment, create_service)
                      (
                        sym knows ∙ new,
                        refl,
                        λ j q.
                            k.has-post service (service_body name) name s1 j q
                              (name_in-service_body name) served
                            ∙ ap (λ b. same_kind service j && (name == q) || b) (after j q)
                            ∙ both_posted j (name == q) (has j q s),
                      )
              ]
        ]
      ]

  -- What `create` leaves, by its end; it is always settled. It creates: there was no deployment of the node's
  -- name, there are now a deployment and a service of it and the objects of before, and the node has the
  -- name as its address. It finds the deployment: nothing changes. It rejects: nothing changes and the
  -- address is as before, but where the service is refused, and then the deployment is there besides.
  pub create-CreateLeaves :
      (node : K8sNode) (s : State)
      → CreateLeaves node s (create k node s).0 (create k node s).1.0 (create k node s).1.1
  unfolding create
  create-CreateLeaves node s = elim (retrieve-cases k node s) [
    | inl (off, reason, e) ↦ rw (e, reason, create) (off, refl, refl)
    | inr (inl (reason, silent, e)) ↦ rw (e, reason, create) (silent, refl, refl)
    | inr (inr (names, e, knows)) ↦
        rw (e, create)
          (create_deployment_lem node (flownode_names names) (deployment_name node) s knows)
  ]

  -- What `remove` leaves.
  abbrev pub RemoveLeaves : K8sNode → State → K8sEnd → State → Type 0
  RemoveLeaves node s removed s' =
      (has deployment (deployment_name node) s ≡ true)
      × ((j : Kind) (q : String)
          → has j q s' ≡ (if deployment_name node == q then false else has j q s))
  RemoveLeaves node s never s' =
      (has deployment (deployment_name node) s ≡ true)
      × ((patch (deployment_name node) (scale_body (deployment_name node)) s).0 ≡ false)
      × ((j : Kind) (q : String) → has j q s' ≡ has j q s)
  RemoveLeaves node s (refused not_deleted) s' =
      (has deployment (deployment_name node) s ≡ true)
      × ((j : Kind) (q : String) → has j q s' ≡ has j q s)
  RemoveLeaves node s (refused service_not_deleted) s' =
      (has deployment (deployment_name node) s ≡ true)
      × ((j : Kind) (q : String)
          → has j q s'
            ≡ (if same_kind deployment j && (deployment_name node == q) then false else has j q s))
  RemoveLeaves node s (refused not_found) s' =
      (has deployment (deployment_name node) s ≡ false) × (s' ≡ s)
  RemoveLeaves node s (refused no_api) s' = (node.api ≡ false) × (s' ≡ s)
  RemoveLeaves node s (refused not_listed) s' = (list s ≡ none) × (s' ≡ s)
  RemoveLeaves node s _ s' = ⊥

  both_deleted :
      (j : Kind) (here there : Bool)
      → (if same_kind service j && here
          then false
          else (if same_kind deployment j && here then false else there))
        ≡ (if here then false else there)
  both_deleted deployment true there = refl
  both_deleted deployment false there = refl
  both_deleted service true there = refl
  both_deleted service false there = refl

  remove_deployment_lem :
      (node : K8sNode) (names : List String) (s : State)
      → has deployment (deployment_name node) s ≡ true
      → RemoveLeaves node s
          (remove_deployment k (record node { deployment_names = names }) s).0
          (remove_deployment k (record node { deployment_names = names }) s).1.1
  unfolding remove_deployment remove_service
  remove_deployment_lem node names s there =
      let name = deployment_name node in
      let s1 = (patch name (scale_body name) s).1 in
      let s2 = (delete deployment name s1).1 in
      let same = λ (j : Kind) (q : String). k.has-patch name (scale_body name) s j q in
      elim (Bool-cases (patch name (scale_body name) s).0) [
        | inr stuck ↦ rw (stuck, remove_deployment) (there, stuck, same)
        | inl scaled ↦ elim (Bool-cases (delete deployment name s1).0) [
          | inr kept ↦
              rw (scaled, kept, remove_deployment)
                (there, λ j q. ap (has j q) (k.delete-refused deployment name s1 kept) ∙ same j q)
          | inl gone ↦
              let after = λ (j : Kind) (q : String).
                k.has-delete deployment name s1 j q gone
                ∙ ap (λ b. if same_kind deployment j && (name == q) then false else b) (same j q) in
              elim (Bool-cases (delete service name s2).0) [
                | inr kept ↦
                    rw (scaled, gone, kept, remove_deployment, remove_service)
                      (
                        there,
                        λ j q. ap (has j q) (k.delete-refused service name s2 kept) ∙ after j q,
                      )
                | inl both ↦
                    rw (scaled, gone, both, remove_deployment, remove_service)
                      (
                        there,
                        λ j q.
                            k.has-delete service name s2 j q both
                            ∙ ap (λ b. if same_kind service j && (name == q) then false else b)
                                (after j q)
                            ∙ both_deleted j (name == q) (has j q s),
                      )
              ]
        ]
      ]

  -- What `remove` leaves, by its end. It removes: there was a deployment of the node's name, and the objects
  -- are those of before but for the name's deployment and service. It is never settled: there was one, the
  -- patch was refused, and the objects are those of before. It rejects: the objects are those of before,
  -- but where the deletion of the service is refused, and then the deployment is gone.
  pub remove-RemoveLeaves :
      (node : K8sNode) (s : State) → RemoveLeaves node s (remove k node s).0 (remove k node s).1.1
  unfolding remove
  remove-RemoveLeaves node s = elim (retrieve-cases k node s) [
    | inl (off, reason, e) ↦ rw (e, reason, remove) (off, refl)
    | inr (inl (reason, silent, e)) ↦ rw (e, reason, remove) (silent, refl)
    | inr (inr (names, e, knows)) ↦
        elim (Bool-cases (includes (deployment_name node) (flownode_names names))) [
          | inr gone ↦ rw (e, gone, remove) (sym knows ∙ gone, refl)
          | inl there ↦
              rw (e, there, remove)
                (remove_deployment_lem node (all_but (deployment_name node) (flownode_names names))
                  s (sym knows ∙ there))
        ]
  ]
