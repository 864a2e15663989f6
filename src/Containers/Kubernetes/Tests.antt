-- ===== src/Containers/Kubernetes/Tests.antt =====
-- A cluster that keeps lists of names, in the place of the API server.
use flowbroker.Prelude.{
  String, ◌≡◌, refl, sym, ap, ◌∙◌, inl, inr, Bool, true, false, ◌&&◌, ◌||◌, Option, none, some,
  List, [], ◌∷◌, ◌==◌, arith, if◌then◌else◌, false≢true, Bool-cases, some-inj,
}
use flowbroker.Prelude.Letters.{includes}
use flowbroker.Containers.Bodies.{name_in}
use flowbroker.Containers.Kubernetes.{
  all_but, Kind, deployment, service, same_kind, Cluster, K8sNode, created, exists_already, removed,
  refused, no_service, create, remove,
}
use flowbroker.Containers.Kubernetes.Names.{includes-all_but}
use flowbroker.Containers.Kubernetes.Ends.{
  CreateLeaves, RemoveLeaves, create-CreateLeaves, remove-RemoveLeaves,
}
use flowbroker.Containers.Kubernetes.Halves.{half_created}

record Objects : Type 0 where
  deployments : List String
  services : List String

abbrev is_there : Kind → String → Objects → Bool
unfolding includes
is_there deployment q s = includes q s.deployments
is_there service q s = includes q s.services

abbrev add : Kind → String → Objects → Objects
add deployment n s = record s { deployments = n ∷ s.deployments }
add service n s = record s { services = n ∷ s.services }

abbrev drop_object : Kind → String → Objects → Objects
unfolding all_but
drop_object deployment n s = record s { deployments = all_but n s.deployments }
drop_object service n s = record s { services = all_but n s.services }

post_named : Kind → Option String → Objects → Bool × Objects
unfolding is_there
post_named k none s = (false, s)
post_named k (some n) s = if is_there k n s then (false, s) else (true, add k n s)

delete_named : Kind → String → Objects → Bool × Objects
unfolding is_there drop_object
delete_named k n s = if is_there k n s then (true, drop_object k n s) else (false, s)

is_there-add :
    (k : Kind) (n : String) (s : Objects) (j : Kind) (q : String)
    → is_there j q (add k n s) ≡ (same_kind k j && (n == q) || is_there j q s)
unfolding is_there includes
is_there-add deployment n s deployment q = refl
is_there-add deployment n s service q = refl
is_there-add service n s deployment q = refl
is_there-add service n s service q = refl

is_there-drop_object :
    (k : Kind) (n : String) (s : Objects) (j : Kind) (q : String)
    → is_there j q (drop_object k n s)
      ≡ (if same_kind k j && (n == q) then false else is_there j q s)
unfolding is_there drop_object
is_there-drop_object deployment n s deployment q = includes-all_but n q s.deployments
is_there-drop_object deployment n s service q = refl
is_there-drop_object service n s deployment q = refl
is_there-drop_object service n s service q = includes-all_but n q s.services

post_named-has :
    (k : Kind) (name : Option String) (n : String) (s : Objects) (j : Kind) (q : String)
    → name ≡ some n
    → (post_named k name s).0 ≡ true
    → is_there j q (post_named k name s).1 ≡ (same_kind k j && (n == q) || is_there j q s)
unfolding post_named
post_named-has k none n s j q e ok = cc
post_named-has k (some m) n s j q e ok = elim (Bool-cases (is_there k m s)) [
  | inl there ↦ absurd (false≢true (rw (there, post_named) at ok))
  | inr new ↦
      rw (new, post_named)
        (is_there-add k m s j q
          ∙ ap (λ t. same_kind k j && (t == q) || is_there j q s) (some-inj e))
]

post_named-refused :
    (k : Kind) (name : Option String) (s : Objects)
    → (post_named k name s).0 ≡ false
    → (post_named k name s).1 ≡ s
unfolding post_named
post_named-refused k none s e = refl
post_named-refused k (some n) s e = ground arith

post_named-there :
    (k : Kind) (name : Option String) (n : String) (s : Objects)
    → name ≡ some n
    → is_there k n s ≡ true
    → (post_named k name s).0 ≡ false
unfolding post_named
post_named-there k name n s e there = rw (e, there, post_named) refl

delete_named-has :
    (k : Kind) (n : String) (s : Objects) (j : Kind) (q : String)
    → (delete_named k n s).0 ≡ true
    → is_there j q (delete_named k n s).1
      ≡ (if same_kind k j && (n == q) then false else is_there j q s)
unfolding delete_named
delete_named-has k n s j q ok = elim (Bool-cases (is_there k n s)) [
  | inl there ↦ rw (there, delete_named) (is_there-drop_object k n s j q)
  | inr missing ↦ absurd (false≢true (rw (missing, delete_named) at ok))
]

delete_named-refused :
    (k : Kind) (n : String) (s : Objects)
    → (delete_named k n s).0 ≡ false
    → (delete_named k n s).1 ≡ s
unfolding delete_named
delete_named-refused k n s e = ground arith

delete_named-missing :
    (k : Kind) (n : String) (s : Objects) → is_there k n s ≡ false → (delete_named k n s).0 ≡ false
unfolding delete_named
delete_named-missing k n s e = rw (e, delete_named) refl

list_deployments : Objects → Option (List String)
list_deployments s = some s.deployments

list_deployments-has :
    (s : Objects) (names : List String) (q : String)
    → list_deployments s ≡ some names
    → includes q names ≡ is_there deployment q s
unfolding list_deployments is_there
list_deployments-has s names q e = ap (includes q) (sym (some-inj e))

abbrev kept : Cluster
kept = record {
  State = Objects;
  has = is_there;
  list = list_deployments;
  post = λ k body s. post_named k (name_in body) s;
  patch = λ n body s. (is_there deployment n s, s);
  delete = delete_named;
  list-has = list_deployments-has;
  has-post = λ k body n s j q e ok. post_named-has k (name_in body) n s j q e ok;
  post-refused = λ k body s e. post_named-refused k (name_in body) s e;
  post_there = λ k body n s e there. post_named-there k (name_in body) n s e there;
  has-patch = λ n body s j q. refl;
  has-delete = delete_named-has;
  delete-refused = delete_named-refused;
  delete_missing = delete_named-missing;
}

abbrev kelvin : K8sNode
kelvin = record {
  id = "adminkelvin";
  image = "kelvin:1";
  api = true;
  server_address = none;
  deployment_names = [];
  target = "";
}

abbrev empty_cluster : Objects
empty_cluster = record { deployments = "mongodb" ∷ []; services = [] }

-- A service that is left over.
abbrev with_service : Objects
with_service = record { deployments = []; services = "flownode-adminkelvin" ∷ [] }

-- A node that is up.
abbrev node_is_up : Objects
node_is_up = record {
  deployments = "flownode-adminkelvin" ∷ "mongodb" ∷ [];
  services = "flownode-adminkelvin" ∷ [];
}

creates_and_removes :
    ((create kept kelvin empty_cluster).0 ≡ created)
    × ((remove kept kelvin (create kept kelvin empty_cluster).1.1).0 ≡ removed)
    × ((remove kept kelvin (create kept kelvin empty_cluster).1.1).1.1 ≡ empty_cluster)
unfolding create remove list_deployments post_named name_in delete_named
creates_and_removes = (refl, refl, refl)

create-CreateLeaves_example :
    CreateLeaves kept kelvin empty_cluster
      (create kept kelvin empty_cluster).0
      (create kept kelvin empty_cluster).1.0
      (create kept kelvin empty_cluster).1.1
create-CreateLeaves_example = create-CreateLeaves kept kelvin empty_cluster

remove-RemoveLeaves_example :
    RemoveLeaves kept kelvin node_is_up
      (remove kept kelvin node_is_up).0
      (remove kept kelvin node_is_up).1.1
remove-RemoveLeaves_example = remove-RemoveLeaves kept kelvin node_is_up

service_is_refused : (create kept kelvin with_service).0 ≡ refused no_service
unfolding create list_deployments post_named name_in
service_is_refused = refl

listed_afterwards :
    list_deployments (create kept kelvin with_service).1.1 ≡ some ("flownode-adminkelvin" ∷ [])
unfolding create list_deployments post_named name_in
listed_afterwards = refl

half_created_example :
    ((create kept kelvin (create kept kelvin with_service).1.1).0 ≡ exists_already)
    × ((create kept kelvin (create kept kelvin with_service).1.1).1.0.server_address ≡ none)
    × ((q : String)
        → is_there service q (create kept kelvin (create kept kelvin with_service).1.1).1.1
          ≡ is_there service q with_service)
half_created_example =
    half_created kept kelvin kelvin with_service ("flownode-adminkelvin" ∷ []) refl refl refl
      service_is_refused listed_afterwards
