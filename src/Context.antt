-- ===== src/Context.antt =====
-- contextManager/index.js: the service that keeps the contexts. Each handler is run to its answer,
-- with the answers of the lock library and of ZooKeeper as arguments.
pub mod State
pub mod Handlers
pub mod Invariant
pub mod Guarded
pub mod Answers
pub mod Isolation
pub mod Leaks
pub mod Writes
mod Tests
