-- ===== src/Flow.antt =====
-- Flows: parsing and storing them (flowManager.js), starting them on device events (ingestor.js) and
-- running their nodes (executor.js), all under orchestrator/.
pub mod Nodes
pub mod Parse
pub mod Ingest
pub mod Store
pub mod Collection
pub mod Manager
mod Tests
