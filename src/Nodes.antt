-- ===== src/Nodes.antt =====
-- The nodes of a flow: the base class of lib/DataHandlerBase.js and the handlers under
-- orchestrator/nodes/.
pub mod Base
pub mod Outcomes
pub mod GetContext
pub mod Template
pub mod MergeData
pub mod Cron
pub mod Geo
pub mod Email
pub mod Notification
pub mod Http
pub mod Change
pub mod CumulativeSum
pub mod Publish
pub mod Numbers
pub mod Switch
mod Tests
