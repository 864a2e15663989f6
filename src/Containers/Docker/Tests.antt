-- ===== src/Containers/Docker/Tests.antt =====
-- A Docker that keeps lists of ids, where a start answers what it is told to.
use flowbroker.Prelude.{
  String, ◌≡◌, refl, sym, ap, ◌∙◌, inl, inr, Bool, true, false, ◌||◌, Option, none, some, List, [],
  ◌∷◌, ◌==◌, eq_refl, arith, if◌then◌else◌, false≢true, Bool-cases, some-inj, none≢some,
}
use flowbroker.Prelude.Letters.{includes}
use flowbroker.Containers.Kubernetes.{all_but}
use flowbroker.Containers.Kubernetes.Names.{includes-all_but}
use flowbroker.Containers.Docker.{
  Start, started, bodiless, start_error, Docker, DockerNode, created_as, unsettled, create,
}
use flowbroker.Containers.Docker.Ends.{DockerLeaves, create-DockerLeaves}

record Ids : Type 0 where
  ids : List String
  running : List String
  joined : List (String × String)

abbrev is_joined : String → String → List (String × String) → Bool
is_joined network id [] = false
is_joined network id ((n, i) ∷ js) =
    let rest = is_joined network id js in
    if n == network then (if i == id then true else rest) else rest

-- The id of a container is its name.
create_named : String → Ids → Option String × Ids
unfolding includes
create_named name s =
    if includes name s.ids then (none, s) else (some name, record s { ids = name ∷ s.ids })

abbrev start_as : Start → String → Ids → Start × Ids
start_as started id s = (started, record s { running = id ∷ s.running })
start_as answer id s = (answer, s)

remove_id : Option String → Ids → Bool × Ids
unfolding includes all_but
remove_id none s = (false, s)
remove_id (some id) s =
    if includes id s.ids then (true, record s { ids = all_but id s.ids }) else (false, s)

create_named-new :
    (name id : String) (s : Ids) → (create_named name s).0 ≡ some id → includes id s.ids ≡ false
unfolding create_named
create_named-new name id s e = elim (Bool-cases (includes name s.ids)) [
  | inl there ↦ absurd (none≢some (rw (there, create_named) at e))
  | inr new ↦ ap (λ n. includes n s.ids) (sym (some-inj (rw (new, create_named) at e))) ∙ new
]

create_named-has :
    (name id q : String) (s : Ids)
    → (create_named name s).0 ≡ some id
    → includes q (create_named name s).1.ids ≡ (id == q || includes q s.ids)
unfolding create_named includes
create_named-has name id q s e = elim (Bool-cases (includes name s.ids)) [
  | inl there ↦ absurd (none≢some (rw (there, create_named) at e))
  | inr new ↦
      rw (new, create_named)
        (ap (λ n. n == q || includes q s.ids) (some-inj (rw (new, create_named) at e)))
]

create_named-refused :
    (name q : String) (s : Ids)
    → (create_named name s).0 ≡ none
    → includes q (create_named name s).1.ids ≡ includes q s.ids
unfolding create_named
create_named-refused name q s e = ground arith

start_as-has :
    (answer : Start) (id q : String) (s : Ids)
    → includes q (start_as answer id s).1.ids ≡ includes q s.ids
start_as-has started id q s = refl
start_as-has bodiless id q s = refl
start_as-has (start_error m) id q s = refl

start_as-runs :
    (answer : Start) (id : String) (s : Ids)
    → (start_as answer id s).0 ≡ started
    → includes id (start_as answer id s).1.running ≡ true
unfolding includes
start_as-runs started id s e = rw (eq_refl id) refl
start_as-runs bodiless id s e = cc
start_as-runs (start_error m) id s e = cc

remove_id-has :
    (id q : String) (s : Ids)
    → (remove_id (some id) s).0 ≡ true
    → includes q (remove_id (some id) s).1.ids ≡ (if id == q then false else includes q s.ids)
unfolding remove_id
remove_id-has id q s ok = elim (Bool-cases (includes id s.ids)) [
  | inl there ↦ rw (there, remove_id) (includes-all_but id q s.ids)
  | inr gone ↦ absurd (false≢true (rw (gone, remove_id) at ok))
]

remove_id-refused :
    (id : String) (s : Ids) → (remove_id (some id) s).0 ≡ false → (remove_id (some id) s).1 ≡ s
unfolding remove_id
remove_id-refused id s e = ground arith

is_joined_self :
    (network id : String) (js : List (String × String))
    → is_joined network id ((network, id) ∷ js) ≡ true
is_joined_self network id js = rw (eq_refl network, eq_refl id) refl

remove_id-none : (q : String) (s : Ids) → includes q (remove_id none s).1.ids ≡ includes q s.ids
unfolding remove_id
remove_id-none q s = refl

abbrev docker_that : Start → Docker
docker_that answer = record {
  State = Ids;
  has = λ q s. includes q s.ids;
  runs = λ q s. includes q s.running;
  joined = λ network id s. is_joined network id s.joined;
  create_image = λ image s. (true, s);
  create_container = λ model name s. create_named name s;
  start = start_as answer;
  networks = λ s. some ("dojot" ∷ []);
  connect = λ network id s. (true, record s { joined = (network, id) ∷ s.joined });
  remove = remove_id;
  stats = λ target s. none;
  list = λ s. some [];
  has-create_image = λ image q s. refl;
  create_container-new = λ model name id s e. create_named-new name id s e;
  has-create_container = λ model name id q s e. create_named-has name id q s e;
  has-create_container_refused = λ model name q s e. create_named-refused name q s e;
  has-start = start_as-has answer;
  start-runs = start_as-runs answer;
  has-connect = λ network id q s. refl;
  runs-connect = λ network id q s. refl;
  connect-joined = λ network id s e. is_joined_self network id s.joined;
  has-remove = remove_id-has;
  remove-refused = remove_id-refused;
  remove_none = remove_id-none;
}

abbrev kelvin : DockerNode
kelvin = record {
  userid = "adminkelvin";
  image = "kelvin:1";
  network = "dojot";
  container = none;
  server_address = none;
}

abbrev no_containers : Ids
no_containers = record { ids = []; running = []; joined = [] }

comes_up :
    (create (docker_that started) "abc0123" kelvin no_containers).0
    ≡ created_as "flowbroker.adminkelvin.abc0123"
unfolding create create_named
comes_up = refl

stays_behind :
    ((create (docker_that bodiless) "abc0123" kelvin no_containers).0 ≡ unsettled)
    × ((create (docker_that bodiless) "abc0123" kelvin no_containers).1.1.ids
        ≡ "flowbroker.adminkelvin.abc0123" ∷ [])
unfolding create create_named remove_id
stays_behind = (refl, refl)

create-DockerLeaves_example :
    DockerLeaves
      (docker_that started)
      kelvin
      no_containers
      (create (docker_that started) "abc0123" kelvin no_containers).0
      (create (docker_that started) "abc0123" kelvin no_containers).1.0
      (create (docker_that started) "abc0123" kelvin no_containers).1.1
create-DockerLeaves_example =
    create-DockerLeaves (docker_that started) kelvin "abc0123" no_containers refl
