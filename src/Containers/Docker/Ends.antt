-- ===== src/Containers/Docker/Ends.antt =====
-- What `create` leaves of containers.
use Prim.Native.String.{◌++◌}
use flowbroker.Prelude.{
  String, ◌≡◌, refl, sym, ap, ◌∙◌, ◌⊎◌, inl, inr, Bool, true, false, ◌||◌, none, some, ◌==◌, eq_iff,
  Bool-cases, Option-cases, arith, if◌then◌else◌,
}
use flowbroker.Containers.Docker.{
  Start, started, bodiless, start_error, Docker, DockerNode, no_image, no_container, not_started,
  DockerEnd, created_as, refused, unsettled, first_chars, container_model, remove_target,
  get_network, give_up, join, started_as, start_container, create,
}

-- A container goes that was not there before.
new_again :
    (id q : String) (before : String → Bool)
    → before id ≡ false
    → (if id == q then false else (id == q || before q)) ≡ before q
new_again id q before new = elim (Bool-cases (id == q)) [
  | inl same ↦ rw same (sym new ∙ ap before ((eq_iff id q).0 same))
  | inr apart ↦ rw apart refl
]

module _ (d : Docker) where
  open d use {State, has, runs, joined, create_container, start, connect, remove}

  -- Exactly one more container.
  abbrev pub OneMore : String → State → State → Type 0
  OneMore id s s' = (has id s ≡ false) × ((q : String) → has q s' ≡ (id == q || has q s))

  abbrev pub Same : State → State → Type 0
  Same s s' = (q : String) → has q s' ≡ has q s

  -- The new container is gone, or Docker refuses to remove it.
  abbrev pub Cleared : String → State → State → Type 0
  Cleared id s s' = Same s s' ⊎ (((remove (some id) s').0 ≡ false) × OneMore id s s')

  -- What `create` leaves, by the end that it comes to.
  abbrev pub DockerLeaves : DockerNode → State → DockerEnd → DockerNode → State → Type 0
  DockerLeaves node s (created_as id) node' s' =
      OneMore id s s'
      × (runs id s' ≡ true)
      × (joined node.network id s' ≡ true)
      × (node'.container ≡ some id)
      × (node'.server_address ≡ some (first_chars 12 id))
  DockerLeaves node s (refused no_image) node' s' = (node' ≡ node) × Same s s'
  DockerLeaves node s (refused no_container) node' s' = (node' ≡ node) × Same s s'
  DockerLeaves node s (refused (not_started m)) node' s' =
      (node' ≡ node) × ((id : String) × OneMore id s s')
  DockerLeaves node s unsettled node' s' = (node' ≡ node) × ((id : String) × OneMore id s s')
  DockerLeaves node s (refused r) node' s' =
      (id : String) × (node'.container ≡ some id) × Cleared id s s'

  -- The networks' answers.
  get_network-cases :
      (node : DockerNode) (s : State)
      → (get_network d node s ≡ none)
        ⊎ (get_network d node s ≡ some none)
        ⊎ (get_network d node s ≡ some (some node.network))
  unfolding get_network
  get_network-cases node s = ground arith

  -- The node behind the start of its container.
  abbrev named : DockerNode → String → DockerNode
  named node id = record node { container = some id; server_address = some (first_chars 12 id) }

  clear : (id : String) (s s1 : State) → OneMore id s s1 → Cleared id s (remove (some id) s1).1
  clear id s s1 more = elim (Bool-cases (remove (some id) s1).0) [
    | inl gone ↦ inl λ q.
        d.has-remove id q s1 gone
        ∙ ap (λ b. if id == q then false else b) (more.1 q)
        ∙ new_again id q (λ p. has p s) more.0
    | inr kept ↦
        let same = d.remove-refused id s1 kept in
        inr
          (ap (λ t. (remove (some id) t).0) same ∙ kept, (more.0, λ q. ap (has q) same ∙ more.1 q))
  ]

  join_lem :
      (node : DockerNode) (id : String) (s s1 : State)
      → OneMore id s s1
      → runs id s1 ≡ true
      → DockerLeaves node s
          (join d id (named node id) s1).0
          (join d id (named node id) s1).1.0
          (join d id (named node id) s1).1.1
  unfolding join give_up remove_target
  join_lem node id s s1 more running = elim (get_network-cases (named node id) s1) [
    | inl e ↦ rw (e, join) (id, refl, clear id s s1 more)
    | inr (inl e) ↦ rw (e, join) (id, refl, clear id s s1 more)
    | inr (inr e) ↦
        let s2 = (connect node.network id s1).1 in
        let more' : OneMore id s s2 =
          (more.0, λ q. d.has-connect node.network id q s1 ∙ more.1 q) in
        elim (Bool-cases (connect node.network id s1).0) [
          | inr apart ↦ rw (e, apart, join) (id, refl, clear id s s2 more')
          | inl together ↦
              rw (e, together, join)
                (
                  more',
                  d.runs-connect node.network id id s1 ∙ running,
                  d.connect-joined node.network id s1 together,
                  refl,
                  refl,
                )
        ]
  ]

  -- A removal without an id.
  nothing_removed :
      (node : DockerNode) (id : String) (s s1 : State)
      → node.container ≡ none
      → OneMore id s s1
      → OneMore id s (remove_target d node none s1).1
  unfolding remove_target
  nothing_removed node id s s1 bare more =
      (more.0, λ q. ap (λ c. has q (remove c s1).1) bare ∙ d.remove_none q s1 ∙ more.1 q)

  started_as_lem :
      (node : DockerNode) (id : String) (s s1 : State) (answer : Start)
      → node.container ≡ none
      → OneMore id s s1
      → (answer ≡ started → runs id s1 ≡ true)
      → DockerLeaves node s
          (started_as d id node s1 answer).0
          (started_as d id node s1 answer).1.0
          (started_as d id node s1 answer).1.1
  unfolding started_as
  started_as_lem node id s s1 started bare more running = join_lem node id s s1 more (running refl)
  started_as_lem node id s s1 (start_error m) bare more running =
      (refl, (id, nothing_removed node id s s1 bare more))
  started_as_lem node id s s1 bodiless bare more running =
      (refl, (id, nothing_removed node id s s1 bare more))

  start_container_lem :
      (node : DockerNode) (id : String) (s s1 : State)
      → node.container ≡ none
      → OneMore id s s1
      → DockerLeaves node s
          (start_container d id node s1).0
          (start_container d id node s1).1.0
          (start_container d id node s1).1.1
  unfolding start_container
  start_container_lem node id s s1 bare more =
      started_as_lem node id s (start id s1).1 (start id s1).0 bare
        (more.0, λ q. d.has-start id q s1 ∙ more.1 q) (d.start-runs id s1)

  -- The end of `create` of a node that has no container yet. It resolves: there is one container more, of
  -- a new id; it runs, in the node's network, and the node has its id, and the first 12 characters as the
  -- address. It rejects since there is no image or container: the containers are the same, and so is the
  -- node. It rejects behind the start, since the networks are not listed, the node's is not among them or
  -- it cannot be joined: the containers are the same, or Docker refuses to remove the new one. The start
  -- fails: the node is the same, and there is one container more, whether it rejects or, where the error has
  -- no body, is never settled.
  pub create-DockerLeaves :
      (node : DockerNode) (suffix : String) (s : State)
      → node.container ≡ none
      → DockerLeaves node s
          (create d suffix node s).0
          (create d suffix node s).1.0
          (create d suffix node s).1.1
  unfolding create
  create-DockerLeaves node suffix s bare =
      let model = container_model node.image in
      let name = "flowbroker." ++ node.userid ++ "." ++ suffix in
      let s0 = (d.create_image node.image s).1 in
      let pulled = λ (q : String). d.has-create_image node.image q s in
      elim (Bool-cases (d.create_image node.image s).0) [
        | inr e ↦ rw (e, create) (refl, pulled)
        | inl e ↦ elim (Option-cases (create_container model name s0).0) [
          | inl f ↦
              rw (e, f, create)
                (refl, λ q. d.has-create_container_refused model name q s0 f ∙ pulled q)
          | inr (id, f) ↦
              rw (e, f, create)
                (start_container_lem node id s (create_container model name s0).1 bare (
                  sym (pulled id) ∙ d.create_container-new model name id s0 f,
                  λ q.
                      d.has-create_container model name id q s0 f
                      ∙ ap (λ b. id == q || b) (pulled q),
                ))
        ]
      ]
