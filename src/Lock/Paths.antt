-- ===== src/Lock/Paths.antt =====
-- contextManager/ZookeeperHelper.js: the creation of the znodes of a path. ZooKeeper is a record of the
-- two operations that the code calls, with what is documented of them.
use Prim.Native.Char.{code}
use Prim.Native.String.{◌++◌}
use flowbroker.Prelude.{
  String, Bool, true, false, List, [], ◌∷◌, ◌==◌, nat_eq, if◌then◌else◌, ◌≡◌, ◌⊎◌, inl, inr, refl,
  Bool-cases, All, false≢true,
}

-- Result codes: 0, the two that the code asks for, and any other.
pub data ZkCode : Type 0 where
  zk_ok zk_node_exists zk_no_node zk_error : ZkCode

-- A create that answers 0 or ZNODEEXISTS leaves the znode there, and takes none away; an exists that
-- answers 0 is right.
pub record Znodes : Type 1 where
  pub Store : Type 0
  pub has : String → Store → Bool
  pub create : String → Store → ZkCode × Store
  pub exists : String → Store → ZkCode
  pub create-ok : (p : String) (s : Store) → (create p s).0 ≡ zk_ok → has p (create p s).1 ≡ true
  pub create-exists :
      (p : String) (s : Store) → (create p s).0 ≡ zk_node_exists → has p (create p s).1 ≡ true
  pub create-keeps : (p q : String) (s : Store) → has q s ≡ true → has q (create p s).1 ≡ true
  pub exists-has : (p : String) (s : Store) → exists p s ≡ zk_ok → has p s ≡ true

-- The text in front of the first slash, and the parts behind it.
split_slash : String → String × List String
split_slash String.[] = ("", [])
split_slash (String.◌∷◌ c s) =
    let (w, ws) = split_slash s in
    if nat_eq (code c) b'/' then ("", w ∷ ws) else (String.◌∷◌ c w, ws)

-- `path.split('/')`
unfoldable pub path_parts : String → List String
unfolding split_slash
path_parts path = let (w, ws) = split_slash path in w ∷ ws

-- The paths of the parts, each below the one before; empty parts are skipped.
unfoldable pub paths_below : String → List String → List String
paths_below base [] = []
paths_below base (part ∷ parts) =
    let path = base ++ "/" ++ part in
    let rest = paths_below path parts in
    let skipped = paths_below base parts in if part == "" then skipped else path ∷ rest

-- `startsWith('/')`
abbrev starts_with_slash : String → Bool
starts_with_slash String.[] = false
starts_with_slash (String.◌∷◌ c s) = nat_eq (code c) b'/'

module _ (zk : Znodes) where
  open zk use {Store, has, create, exists}

  -- _createNodes: does it resolve, and what ZooKeeper has then.
  unfoldable pub create_nodes : String → List String → Store → Bool × Store
  create_nodes base [] s = (true, s)
  create_nodes base (part ∷ parts) s =
      if part == "" then create_nodes base parts s else elim (create (base ++ "/" ++ part) s).0 [
        | zk_ok ↦ create_nodes (base ++ "/" ++ part) parts (create (base ++ "/" ++ part) s).1
        | zk_node_exists ↦
            create_nodes (base ++ "/" ++ part) parts (create (base ++ "/" ++ part) s).1
        | zk_no_node ↦ (false, (create (base ++ "/" ++ part) s).1)
        | zk_error ↦ (false, (create (base ++ "/" ++ part) s).1)
      ]

  unfoldable pub create_path : String → String → Store → Bool × Store
  unfolding create_nodes path_parts
  create_path base path s = create_nodes base (path_parts path) s

  -- The callback of a_exists.
  unfoldable pub on_exists_code : String → String → Store → ZkCode → Bool × Store
  unfolding create_path
  on_exists_code base path s zk_no_node = create_path base path s
  on_exists_code base path s zk_ok = (true, s)
  on_exists_code base path s zk_node_exists = (false, s)
  on_exists_code base path s zk_error = (false, s)

  unfoldable pub create_path_if_not_exists : String → String → Store → Bool × Store
  unfolding on_exists_code
  create_path_if_not_exists base path s =
      on_exists_code base path s (exists (base ++ "/" ++ path) s)

  -- ZookeeperRWLock.init, for a base path: a prefix that starts with a slash is refused.
  unfoldable pub init : String → String → Store → Bool × Store
  unfolding create_path
  init lib_base_path app_path_prefix s =
      if starts_with_slash app_path_prefix
      then (false, s)
      else create_path "" (lib_base_path ++ "/" ++ app_path_prefix) s

  ZkCode-cases :
      (c : ZkCode) → (c ≡ zk_ok) ⊎ ((c ≡ zk_node_exists) ⊎ ((c ≡ zk_no_node) ⊎ (c ≡ zk_error)))
  ZkCode-cases zk_ok = inl refl
  ZkCode-cases zk_node_exists = inr (inl refl)
  ZkCode-cases zk_no_node = inr (inr (inl refl))
  ZkCode-cases zk_error = inr (inr (inr refl))

  -- What is there stays there, whether the creation ends or not.
  create_nodes-keeps :
      (base : String) (parts : List String) (s : Store) (q : String)
      → has q s ≡ true
      → has q (create_nodes base parts s).1 ≡ true
  unfolding create_nodes
  create_nodes-keeps base [] s q h = h
  create_nodes-keeps base (part ∷ parts) s q h =
      let path = base ++ "/" ++ part in
      let there = zk.create-keeps path q s h in
      elim (Bool-cases (part == "")) [
        | inl e ↦ rw (e, create_nodes) (create_nodes-keeps base parts s q h)
        | inr e ↦ elim (ZkCode-cases (create path s).0) [
          | inl k ↦
              rw (e, k, create_nodes) (create_nodes-keeps path parts (create path s).1 q there)
          | inr (inl k) ↦
              rw (e, k, create_nodes) (create_nodes-keeps path parts (create path s).1 q there)
          | inr (inr (inl k)) ↦ rw (e, k, create_nodes) there
          | inr (inr (inr k)) ↦ rw (e, k, create_nodes) there
        ]
      ]

  -- The first part: skipped, created or there, or refused.
  create_skips :
      (base part : String) (parts : List String) (s : Store)
      → (part == "") ≡ true
      → (create_nodes base (part ∷ parts) s ≡ create_nodes base parts s)
        × (paths_below base (part ∷ parts) ≡ paths_below base parts)
  unfolding create_nodes paths_below
  create_skips base part parts s e = (rw (e, create_nodes) refl, rw (e, paths_below) refl)

  create_goes_on :
      (base part : String) (parts : List String) (s : Store)
      → (part == "") ≡ false
      → ((create (base ++ "/" ++ part) s).0 ≡ zk_ok)
        ⊎ ((create (base ++ "/" ++ part) s).0 ≡ zk_node_exists)
      → create_nodes base (part ∷ parts) s
        ≡ create_nodes (base ++ "/" ++ part) parts (create (base ++ "/" ++ part) s).1
  unfolding create_nodes
  create_goes_on base part parts s e (inl k) = rw (e, k, create_nodes) refl
  create_goes_on base part parts s e (inr k) = rw (e, k, create_nodes) refl

  paths_go_on :
      (base part : String) (parts : List String)
      → (part == "") ≡ false
      → paths_below base (part ∷ parts)
        ≡ (base ++ "/" ++ part) ∷ paths_below (base ++ "/" ++ part) parts
  unfolding paths_below
  paths_go_on base part parts e = rw (e, paths_below) refl

  create_answer :
      (base part : String) (parts : List String) (s : Store)
      → (part == "") ≡ false
      → (create_nodes base (part ∷ parts) s).0 ≡ true
      → ((create (base ++ "/" ++ part) s).0 ≡ zk_ok)
        ⊎ ((create (base ++ "/" ++ part) s).0 ≡ zk_node_exists)
  unfolding create_nodes
  create_answer base part parts s e h = elim (ZkCode-cases (create (base ++ "/" ++ part) s).0) [
    | inl k ↦ inl k
    | inr (inl k) ↦ inr k
    | inr (inr (inl k)) ↦ absurd (false≢true (rw (e, k, create_nodes) at h))
    | inr (inr (inr k)) ↦ absurd (false≢true (rw (e, k, create_nodes) at h))
  ]

  create_there :
      (path : String) (s : Store)
      → ((create path s).0 ≡ zk_ok) ⊎ ((create path s).0 ≡ zk_node_exists)
      → has path (create path s).1 ≡ true
  create_there path s (inl k) = zk.create-ok path s k
  create_there path s (inr k) = zk.create-exists path s k

  create_nodes-creates :
      (base : String) (parts : List String) (s : Store)
      → (create_nodes base parts s).0 ≡ true
      → All (λ p. has p (create_nodes base parts s).1 ≡ true) (paths_below base parts)
  unfolding paths_below
  create_nodes-creates base [] s h = _
  create_nodes-creates base (part ∷ parts) s h = elim (Bool-cases (part == "")) [
    | inl e ↦
        let k = create_skips base part parts s e in
        rw (k.0, k.1) (create_nodes-creates base parts s (rw k.0 at h))
    | inr e ↦
        let path = base ++ "/" ++ part in
        let s' = (create path s).1 in
        let a = create_answer base part parts s e h in
        let k = create_goes_on base part parts s e a in
        rw (k, paths_go_on base part parts e)
          (
            create_nodes-keeps path parts s' path (create_there path s a),
            create_nodes-creates path parts s' (rw k at h),
          )
  ]

  -- The whole path is there, or each of its parts.
  abbrev pub IsThere : String → String → Bool × Store → Type 0
  IsThere base path r =
      (has (base ++ "/" ++ path) r.1 ≡ true)
      ⊎ All (λ p. has p r.1 ≡ true) (paths_below base (path_parts path))

  -- Where it resolves the path is there, and what was there stays.
  abbrev pub Ensures : String → String → Store → Bool × Store → Type 0
  Ensures base path s r =
      (r.0 ≡ true → IsThere base path r) × ((q : String) → has q s ≡ true → has q r.1 ≡ true)

  refused-Ensures : (base path : String) (s : Store) → Ensures base path s (false, s)
  refused-Ensures base path s = (λ h. absurd (false≢true h), λ q h. h)

  create_path-Ensures :
      (base path : String) (s : Store) → Ensures base path s (create_path base path s)
  unfolding create_path
  create_path-Ensures base path s = (
    λ h. inr (create_nodes-creates base (path_parts path) s h),
    λ q. create_nodes-keeps base (path_parts path) s q,
  )

  on_exists_code-Ensures :
      (base path : String) (s : Store) (c : ZkCode)
      → exists (base ++ "/" ++ path) s ≡ c
      → Ensures base path s (on_exists_code base path s c)
  unfolding on_exists_code
  on_exists_code-Ensures base path s zk_ok e =
      (λ h. inl (zk.exists-has (base ++ "/" ++ path) s e), λ q h. h)
  on_exists_code-Ensures base path s zk_no_node e = create_path-Ensures base path s
  on_exists_code-Ensures base path s zk_node_exists e = refused-Ensures base path s
  on_exists_code-Ensures base path s zk_error e = refused-Ensures base path s

  -- `createPathIfNotExists` that resolves: the whole path is there, or each part of it is, below the parts
  -- in front and the base. And whether it resolves or not, whatever was there is there.
  pub create_path_if_not_exists-Ensures :
      (base path : String) (s : Store) → Ensures base path s (create_path_if_not_exists base path s)
  unfolding create_path_if_not_exists
  create_path_if_not_exists-Ensures base path s =
      on_exists_code-Ensures base path s (exists (base ++ "/" ++ path) s) refl
