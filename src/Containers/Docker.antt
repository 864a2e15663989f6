-- ===== src/Containers/Docker.antt =====
-- orchestrator/nodes/dockerComposeRemoteNode/index.js: a container for a node. Docker is a record of the
-- requests that the code makes of its client, with what is documented of them. The client is taken to be
-- there, as the constructor makes it. The removal that follows an error is not waited for by the code: it
-- is taken to be done before anything else.
pub mod Ends
mod Tests
use Prim.Native.String.{◌++◌}
use flowbroker.Prelude.{
  ℕ, zero, suc, String, Bool, true, false, ◌||◌, Option, none, some, List, [], ◌∷◌, ◌==◌,
  if◌then◌else◌, ◌≡◌,
}
use flowbroker.Prelude.Int.{pos}
use flowbroker.Prelude.Letters.{contains}
use flowbroker.Json.{Value, boolean, num, str, obj, end, field}

-- What a start answers: an error has a message in its body, or no body.
pub data Start : Type 0 where
  started bodiless : Start
  start_error : String → Start

-- The containers by their ids. A new container has a new id; a forced removal takes its container away, and
-- one that is refused, or that has no id, changes nothing. The other requests keep the containers.
pub record Docker : Type 1 where
  pub State : Type 0
  pub has : String → State → Bool
  pub runs : String → State → Bool
  pub joined : (network id : String) → State → Bool
  pub create_image : String → State → Bool × State
  pub create_container : Value → (name : String) → State → Option String × State
  pub start : String → State → Start × State
  pub networks : State → Option (List String)
  pub connect : (network id : String) → State → Bool × State
  pub remove : Option String → State → Bool × State
  pub stats : Option String → State → Option Value
  pub list : State → Option (List (String × String))
  pub has-create_image : (image q : String) (s : State) → has q (create_image image s).1 ≡ has q s
  pub create_container-new :
      (model : Value) (name id : String) (s : State)
      → (create_container model name s).0 ≡ some id
      → has id s ≡ false
  pub has-create_container :
      (model : Value) (name id q : String) (s : State)
      → (create_container model name s).0 ≡ some id
      → has q (create_container model name s).1 ≡ (id == q || has q s)
  pub has-create_container_refused :
      (model : Value) (name q : String) (s : State)
      → (create_container model name s).0 ≡ none
      → has q (create_container model name s).1 ≡ has q s
  pub has-start : (id q : String) (s : State) → has q (start id s).1 ≡ has q s
  pub start-runs :
      (id : String) (s : State) → (start id s).0 ≡ started → runs id (start id s).1 ≡ true
  pub has-connect : (network id q : String) (s : State) → has q (connect network id s).1 ≡ has q s
  pub runs-connect :
      (network id q : String) (s : State) → runs q (connect network id s).1 ≡ runs q s
  pub connect-joined :
      (network id : String) (s : State)
      → (connect network id s).0 ≡ true
      → joined network id (connect network id s).1 ≡ true
  pub has-remove :
      (id q : String) (s : State)
      → (remove (some id) s).0 ≡ true
      → has q (remove (some id) s).1 ≡ (if id == q then false else has q s)
  pub remove-refused :
      (id : String) (s : State) → (remove (some id) s).0 ≡ false → (remove (some id) s).1 ≡ s
  pub remove_none : (q : String) (s : State) → has q (remove none s).1 ≡ has q s

-- The node: `container` is `info.container`.
pub record DockerNode : Type 0 where
  pub userid : String
  pub image : String
  pub network : String
  pub container : Option String
  pub server_address : Option String

unfoldable pub new_docker_node : String → String → String → DockerNode
new_docker_node image id network = record {
  userid = id;
  image = image;
  network = network;
  container = none;
  server_address = none;
}

pub data DockerReason : Type 0 where
  no_image no_container no_networks no_such_network not_connected : DockerReason
  not_started : String → DockerReason

-- What the promise of `create` comes to; `unsettled` where the error has no body, so that the `catch`
-- throws.
pub data DockerEnd : Type 0 where
  created_as : String → DockerEnd
  refused : DockerReason → DockerEnd
  unsettled : DockerEnd

-- `substr(0, count)`
unfoldable pub first_chars : ℕ → String → String
first_chars zero s = String.[]
first_chars (suc n) String.[] = String.[]
first_chars (suc n) (String.◌∷◌ c s) = String.◌∷◌ c (first_chars n s)

-- Is there a network whose name includes a text?
unfoldable pub any_contains : String → List String → Bool
unfolding contains
any_contains network [] = false
any_contains network (n ∷ ns) = let rest = any_contains network ns in contains network n || rest

-- The body of the request for a container.
abbrev pub container_model : String → Value
container_model image = obj (
    field "Image" (str image) (
      field "AttachStdin" (boolean false) (
        field "AttachStdout" (boolean false) (
          field "AttachStderr" (boolean true) (
            field "NetworkDisabled" (boolean false) (
              field "HostConfig"
                (obj (
                  field "AutoRemove" (boolean false) (
                    field "RestartPolicy"
                      (obj (
                        field "Name" (str "on-failure")
                          (field "MaximumRetryCount" (num (pos 3)) end)))
                      end)))
                (field "Tty" (boolean true) end)))))))

-- The first container with an id, and its state.
unfoldable pub find_status : String → List (String × String) → Option String
find_status id [] = none
find_status id ((c, status) ∷ cs) =
    let rest = find_status id cs in if c == id then some status else rest

module _ (d : Docker) where
  open d use {State, create_image, create_container, start, networks, connect}

  -- remove
  unfoldable pub remove_target : DockerNode → Option String → State → Bool × State
  remove_target node none s = d.remove node.container s
  remove_target node (some target) s = d.remove (some target) s

  -- getNetwork. Nothing sets `targetNetwork`.
  unfoldable pub get_network : DockerNode → State → Option (Option String)
  unfolding any_contains
  get_network node s = elim (networks s) [
    | none ↦ none
    | some names ↦
        if node.network == ""
        then some none
        else (if any_contains node.network names then some (some node.network) else some none)
  ]

  -- The `catch` behind the network: the node's container is removed.
  unfoldable pub give_up : DockerReason → DockerNode → State → DockerEnd × (DockerNode × State)
  unfolding remove_target
  give_up reason node s = (refused reason, (node, (remove_target node none s).1))

  unfoldable pub join : String → DockerNode → State → DockerEnd × (DockerNode × State)
  unfolding get_network give_up
  join id node s = elim (get_network node s) [
    | none ↦ give_up no_networks node s
    | some none ↦ give_up no_such_network node s
    | some (some network) ↦
        let answer = connect network id s in
        if answer.0 then (created_as id, (node, answer.1)) else give_up not_connected node answer.1
  ]

  -- Behind the start. Where it was refused the node has no container yet, or an earlier one.
  unfoldable pub started_as : String → DockerNode → State → Start → DockerEnd × (DockerNode × State)
  unfolding join remove_target first_chars
  started_as id node s started =
      join id (record node { container = some id; server_address = some (first_chars 12 id) }) s
  started_as id node s (start_error message) =
      (refused (not_started message), (node, (remove_target node none s).1))
  started_as id node s bodiless = (unsettled, (node, (remove_target node none s).1))

  unfoldable pub start_container : String → DockerNode → State → DockerEnd × (DockerNode × State)
  unfolding started_as
  start_container id node s = started_as id node (start id s).1 (start id s).0

  -- create, with the text of makeId.
  unfoldable pub create : String → DockerNode → State → DockerEnd × (DockerNode × State)
  unfolding start_container
  create suffix node s =
      let pulled = create_image node.image s in
      let name = "flowbroker." ++ node.userid ++ "." ++ suffix in
      if pulled.0
      then (let answer = create_container (container_model node.image) name pulled.1 in
          elim answer.0 [
            | none ↦ (refused no_container, (node, answer.1))
            | some id ↦ start_container id node answer.1
          ])
      else (refused no_image, (node, pulled.1))

  -- stats: `some none` where it resolves without a value.
  unfoldable pub stats_of : DockerNode → Option String → State → Option (Option Value)
  stats_of node (some target) s = elim (d.stats (some target) s) [
    | none ↦ none
    | some v ↦ some (some v)
  ]
  stats_of node none s = elim (d.stats node.container s) [ none ↦ none | some v ↦ some none ]

  -- getStatus, for a container id or the node's own; `none` where it rejects.
  unfoldable pub get_status : DockerNode → String → State → Option String
  unfolding find_status
  get_status node container_id s = elim (d.list s) [
    | none ↦ none
    | some containers ↦ elim (if container_id == "" then node.container else some container_id) [
      | none ↦ none
      | some id ↦ elim (find_status id containers) [
        | none ↦ none
        | some status ↦ if status == "" then none else some status
      ]
    ]
  ]
