-- ===== src/Tests.antt =====
-- Concrete runs: test data, and each theorem with conditions applied where they hold.
pub mod Data
pub mod Jobs
pub mod Queues
pub mod Saved
pub mod Web
pub mod Ranges
pub mod Images
pub mod Passwords
pub mod Staging
pub mod Control
