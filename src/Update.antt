-- ===== src/Update.antt =====
-- The update service of the anchor: firmware/anchor/src/core/update_*.
pub mod Job
pub mod Queue
pub mod Snapshot
pub mod Image
pub mod Storage
pub mod Smp
pub mod Controller
