-- ===== src/Client.antt =====
-- lib/ContextManagerClient.js: the requests that a flow node makes of the context manager.
pub mod State
pub mod Requests
pub mod Invariant
pub mod Steps
pub mod Waiting
pub mod Operations
pub mod Runs
mod Tests
