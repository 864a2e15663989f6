-- ===== src/Containers/Kubernetes.antt =====
-- orchestrator/nodes/kubernetesRemoteNode/index.js: a deployment and a service for a node. The API server is
-- a record of the requests that the code makes, with what is documented of them. Log messages are left
-- out, and so are the fields of the node that are only logged.
pub mod Ends
pub mod Halves
pub mod Names
mod Tests
use Prim.Native.String.{◌++◌}
use flowbroker.Prelude.{
  String, Bool, true, false, ◌&&◌, ◌||◌, Option, none, some, List, [], ◌∷◌, ◌==◌, if◌then◌else◌,
  ◌≡◌,
}
use flowbroker.Prelude.Letters.{starts_with, includes}
use flowbroker.Json.{Value}
use flowbroker.Containers.Bodies.{
  container_template, deployment_body, service_body, scale_body, name_in,
}

unfoldable pub flownode_names : List String → List String
unfolding starts_with
flownode_names [] = []
flownode_names (x ∷ xs) =
    let rest = flownode_names xs in if starts_with "flownode-" x then x ∷ rest else rest

-- `names.filter((name) => name !== gone)`
unfoldable pub all_but : String → List String → List String
all_but gone [] = []
all_but gone (x ∷ xs) = let rest = all_but gone xs in if x == gone then rest else x ∷ rest

pub data Kind : Type 0 where
  deployment service : Kind

abbrev pub same_kind : Kind → Kind → Bool
same_kind deployment deployment = true
same_kind service service = true
same_kind _ _ = false

-- The objects of the namespace. A request that is answered with an error changes nothing; a post is
-- refused where an object of the name is there, and a delete where none is; a patch keeps the objects.
pub record Cluster : Type 1 where
  pub State : Type 0
  pub has : Kind → String → State → Bool
  pub list : State → Option (List String)
  pub post : Kind → Value → State → Bool × State
  pub patch : String → Value → State → Bool × State
  pub delete : Kind → String → State → Bool × State
  pub list-has :
      (s : State) (names : List String) (q : String)
      → list s ≡ some names
      → includes q names ≡ has deployment q s
  pub has-post :
      (k : Kind) (body : Value) (n : String) (s : State) (j : Kind) (q : String)
      → name_in body ≡ some n
      → (post k body s).0 ≡ true
      → has j q (post k body s).1 ≡ (same_kind k j && (n == q) || has j q s)
  pub post-refused :
      (k : Kind) (body : Value) (s : State) → (post k body s).0 ≡ false → (post k body s).1 ≡ s
  pub post_there :
      (k : Kind) (body : Value) (n : String) (s : State)
      → name_in body ≡ some n
      → has k n s ≡ true
      → (post k body s).0 ≡ false
  pub has-patch :
      (n : String) (body : Value) (s : State) (j : Kind) (q : String)
      → has j q (patch n body s).1 ≡ has j q s
  pub has-delete :
      (k : Kind) (n : String) (s : State) (j : Kind) (q : String)
      → (delete k n s).0 ≡ true
      → has j q (delete k n s).1 ≡ (if same_kind k j && (n == q) then false else has j q s)
  pub delete-refused :
      (k : Kind) (n : String) (s : State) → (delete k n s).0 ≡ false → (delete k n s).1 ≡ s
  pub delete_missing :
      (k : Kind) (n : String) (s : State) → has k n s ≡ false → (delete k n s).0 ≡ false

-- The node; `api` is false where no Kubernetes is configured, and `server_address` is `none` where it is
-- undefined.
pub record K8sNode : Type 0 where
  pub id : String
  pub image : String
  pub api : Bool
  pub server_address : Option String
  pub deployment_names : List String
  pub target : String

pub data K8sReason : Type 0 where
  no_api not_listed not_deployed no_service not_found not_deleted service_not_deleted : K8sReason

-- What a promise comes to: created, there before, or removed; or it is never settled.
pub data K8sEnd : Type 0 where
  created exists_already removed never : K8sEnd
  refused : K8sReason → K8sEnd

abbrev pub deployment_name : K8sNode → String
deployment_name node = "flownode-" ++ node.id

-- The constructor, for the address that the caller gives.
unfoldable pub new_k8s_node : Bool → String → String → Option String → K8sNode
new_k8s_node api image id address = record {
  id = id;
  image = image;
  api = api;
  server_address = address;
  deployment_names = [];
  target = "";
}

-- The rejection of retrieveDeployments.
abbrev pub retrieve_reason : K8sNode → K8sReason
retrieve_reason node = if node.api then not_listed else no_api

module _ (k : Cluster) where
  open k use {State, list, post, patch, delete}

  -- retrieveDeployments: the node with the names of its kind, or a rejection.
  unfoldable pub retrieve_deployments : K8sNode → State → Option K8sNode
  unfolding flownode_names
  retrieve_deployments node s =
      if node.api
      then (elim (list s) [
        | none ↦ none
        | some names ↦ some (record node { deployment_names = flownode_names names })
      ])
      else none

  -- createDeployment, behind retrieveDeployments.
  unfoldable pub create_service : K8sNode → State → K8sEnd × (K8sNode × State)
  create_service node s =
      let name = deployment_name node in
      let answer = post service (service_body name) s in
      if answer.0
      then (created, (record node { server_address = some name }, answer.1))
      else (refused no_service, (node, answer.1))

  unfoldable pub create_deployment : K8sNode → State → K8sEnd × (K8sNode × State)
  unfolding create_service includes
  create_deployment node s =
      let name = deployment_name node in
      if includes name node.deployment_names
      then (exists_already, (node, s))
      else (let answer =
            post deployment (deployment_body name (container_template node.id node.image)) s in
          if answer.0
          then create_service node answer.1
          else (refused not_deployed, (node, answer.1)))

  -- create
  unfoldable pub create : K8sNode → State → K8sEnd × (K8sNode × State)
  unfolding retrieve_deployments create_deployment
  create node s = elim (retrieve_deployments node s) [
    | none ↦ (refused (retrieve_reason node), (node, s))
    | some found_node ↦ create_deployment (record found_node { target = deployment_name node }) s
  ]

  -- removeDeployment. The promise of the patch has no `catch`.
  unfoldable pub remove_service : K8sNode → State → K8sEnd × (K8sNode × State)
  remove_service node s =
      let answer = delete service (deployment_name node) s in
      (if answer.0 then removed else refused service_not_deleted, (node, answer.1))

  unfoldable pub remove_deployment : K8sNode → State → K8sEnd × (K8sNode × State)
  unfolding remove_service
  remove_deployment node s =
      let name = deployment_name node in
      let scaled = patch name (scale_body name) s in
      if scaled.0
      then (let answer = delete deployment name scaled.1 in
          if answer.0
          then remove_service node answer.1
          else (refused not_deleted, (node, answer.1)))
      else (never, (node, scaled.1))

  -- remove
  unfoldable pub remove : K8sNode → State → K8sEnd × (K8sNode × State)
  unfolding retrieve_deployments remove_deployment includes all_but
  remove node s = elim (retrieve_deployments node s) [
    | none ↦ (refused (retrieve_reason node), (node, s))
    | some found_node ↦
        let name = deployment_name node in
        if includes name found_node.deployment_names
        then remove_deployment
            (record found_node { deployment_names = all_but name found_node.deployment_names }) s
        else (refused not_found, (found_node, s))
  ]
