-- ===== src/Lock/System.antt =====
-- Lock requests of several clients over one data znode, as steps: what ZookeeperRWLock._lock,
-- _try_lock and LockInstance.unlock do, each between two answers of ZooKeeper.
pub mod Invariant
pub mod Safety
use flowbroker.Prelude.{
  ℕ, suc, ◌+◌, ◌<◌, ◌≡◌, ◌≢◌, ◌↔◌, ◌⊎◌, none, List, [], ◌∷◌, map, In, nat_eq, if◌then◌else◌,
}
use flowbroker.Lock.Watch.{LockMode, node_to_be_watched}
use flowbroker.Lock.Watch.Choice.{LockNode, name_of, seq_limit}

-- What the lock code relies on of ZooKeeper, for the children of one data znode, which are lock
-- nodes only. A sequential create appends the parent's counter to the name and then adds one to it.
pub record Zookeeper : Type 1 where
  pub Dir : Type 0
  pub nodes : Dir → List LockNode
  pub counter : Dir → ℕ
  pub create : LockMode → Dir → Dir
  pub delete : LockNode → Dir → Dir
  pub counter-create : (k : LockMode) (d : Dir) → counter (create k d) ≡ counter d + 1
  pub counter-delete : (n : LockNode) (d : Dir) → counter (delete n d) ≡ counter d
  pub in_create :
      (k : LockMode) (d : Dir) (n : LockNode)
      → In n (nodes (create k d)) ↔ ((n ≡ record { mode = k; seq = counter d }) ⊎ In n (nodes d))
  pub in_delete :
      (k : LockNode) (d : Dir) (n : LockNode)
      → In n (nodes (delete k d)) ↔ (In n (nodes d) × (n ≢ k))

module _ (zk : Zookeeper) where
  open zk use {Dir, nodes, counter, create, delete}

  -- `views` holds the answers of `a_get_children` with the request that each belongs to, `held` the
  -- requests whose promise was resolved and whose holder has not called `unlock`.
  pub record System : Type 0 where
    pub dir : Dir
    pub views : List (LockNode × List LockNode)
    pub held : List LockNode

-- The holder lets go of `n`. Numbers are unique.
unfoldable pub let_go : LockNode → List LockNode → List LockNode
let_go n [] = []
let_go n (m ∷ held) = let rest = let_go n held in if nat_eq n.seq m.seq then rest else m ∷ rest

module _ (zk : Zookeeper) where
  open zk use {Dir, nodes, counter, create, delete}

  -- A view may be answered more than once, a request may look at any time, and a node may vanish at
  -- any time (`unlock`, either timeout, or a session that ends), whether its holder knows or not.
  pub data Step : System zk → System zk → Type 0 where
    -- `a_create` of a sequential node, while ZooKeeper's counter has room
    request :
        (s : System zk) (k : LockMode)
        → suc (counter s.dir) < seq_limit
        → Step s (record s { dir = create k s.dir })
    -- `a_get_children` in `_try_lock`
    look :
        (s : System zk) (n : LockNode)
        → n.seq < counter s.dir
        → Step s (record s { views = (n, nodes s.dir) ∷ s.views })
    -- the callback finds no node to watch: the promise resolves
    acquire :
        (s : System zk) (n : LockNode) (view : List LockNode)
        → In (n, view) s.views
        → node_to_be_watched n.mode (map name_of view) (name_of n) ≡ none
        → Step s (record s { held = n ∷ s.held })
    -- the holder calls `unlock`
    release : (s : System zk) (n : LockNode) → Step s (record s { held = let_go n s.held })
    -- the node is deleted
    vanish : (s : System zk) (n : LockNode) → Step s (record s { dir = delete n s.dir })

  pub data Reach (s : System zk) : System zk → Type 0 where
    here : Reach s s
    next : {t u : System zk} → Reach s t → Step t u → Reach s u

  -- No request has been made yet.
  pub record IsFresh (s : System zk) : Type 0 where
    pub empty : nodes s.dir ≡ []
    pub no_views : s.views ≡ []
    pub no_holders : s.held ≡ []
    pub room : counter s.dir < seq_limit
