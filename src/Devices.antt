-- ===== src/Devices.antt =====
-- The ingestor's way from a message about a device to the call that starts its flows.
pub mod Cache
pub mod Events
mod Tests
