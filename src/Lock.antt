-- ===== src/Lock.antt =====
-- contextManager/ZookeeperRWLock.js: read/write locks on ZooKeeper sequence nodes.
pub mod Text
pub mod Watch
pub mod System
pub mod Requests
pub mod Paths
mod Tests
