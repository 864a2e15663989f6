-- ===== src/Containers/Kubernetes/Names.antt =====
-- The names of deployments, and what retrieveDeployments tells of them.
use Prim.Native.String.{◌++◌}
use text.Mathlib.TextLemmas.{cons-append}
use flowbroker.Prelude.{
  String, ◌≡◌, refl, true, false, some, List, [], ◌∷◌, ◌==◌, eq_iff, arith, none, inl, inr, ◌∙◌,
  ◌⊎◌, Bool-cases, Option-cases, if◌then◌else◌,
}
use flowbroker.Prelude.Letters.{starts_with, includes}
use flowbroker.Json.{own, get_field}
use flowbroker.Containers.Bodies.{deployment_body, service_body, container_template, name_in}
use flowbroker.Containers.Kubernetes.{
  flownode_names, all_but, deployment, Cluster, K8sNode, no_api, not_listed, deployment_name,
  retrieve_reason, retrieve_deployments,
}

starts_with-append : (p s : String) → starts_with p (p ++ s) ≡ true
unfolding starts_with
starts_with-append String.[] s = refl
starts_with-append (String.◌∷◌ c p) s = rw cons-append (ground (arith, starts_with-append p s))

includes-flownode_names :
    (q : String) (names : List String)
    → starts_with "flownode-" q ≡ true
    → includes q (flownode_names names) ≡ includes q names
unfolding includes flownode_names
includes-flownode_names q [] h = refl
includes-flownode_names q (x ∷ xs) h = ground (arith, includes-flownode_names q xs h, eq_iff x q)

pub includes-all_but :
    (n q : String) (xs : List String)
    → includes q (all_but n xs) ≡ (if n == q then false else includes q xs)
unfolding includes all_but
includes-all_but n q [] = ground arith
includes-all_but n q (x ∷ xs) =
    ground (arith, includes-all_but n q xs, eq_iff x n, eq_iff n q, eq_iff x q)

pub name_in-deployment_body :
    (n id image : String) → name_in (deployment_body n (container_template id image)) ≡ some n
unfolding name_in own get_field
name_in-deployment_body n id image = refl

pub name_in-service_body : (n : String) → name_in (service_body n) ≡ some n
unfolding name_in own get_field
name_in-service_body n = refl

deployment_name-starts : (node : K8sNode) → starts_with "flownode-" (deployment_name node) ≡ true
deployment_name-starts node = starts_with-append "flownode-" node.id

module _ (k : Cluster) where
  open k use {State, has, list}

  -- The answers of retrieveDeployments.
  pub retrieve-cases :
      (node : K8sNode) (s : State)
      → ((node.api ≡ false)
          × (retrieve_reason node ≡ no_api)
          × (retrieve_deployments k node s ≡ none))
        ⊎ ((retrieve_reason node ≡ not_listed)
            × (list s ≡ none)
            × (retrieve_deployments k node s ≡ none))
        ⊎ ((names : List String) × (retrieve_deployments k node s
              ≡ some (record node { deployment_names = flownode_names names }))
            × (includes (deployment_name node) (flownode_names names)
                ≡ has deployment (deployment_name node) s))
  unfolding retrieve_deployments
  retrieve-cases node s = elim (Bool-cases node.api) [
    | inr off ↦ inl (off, ground arith, ground arith)
    | inl on ↦ elim (Option-cases (list s)) [
      | inl e ↦ inr (inl (ground arith, e, ground arith))
      | inr (names, e) ↦ inr (
          inr (
            names,
            ground arith,
            includes-flownode_names (deployment_name node) names (deployment_name-starts node)
                ∙ k.list-has s names (deployment_name node) e,
          ))
    ]
  ]

  pub retrieve_some :
      (node : K8sNode) (s : State) (names : List String)
      → node.api ≡ true
      → list s ≡ some names
      → (retrieve_deployments k node s
          ≡ some (record node { deployment_names = flownode_names names }))
        × (includes (deployment_name node) (flownode_names names)
            ≡ has deployment (deployment_name node) s)
  unfolding retrieve_deployments
  retrieve_some node s names on e = (
    ground arith,
    includes-flownode_names (deployment_name node) names (deployment_name-starts node)
        ∙ k.list-has s names (deployment_name node) e,
  )
