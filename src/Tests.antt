-- ===== src/Tests.antt =====
-- Runs of the model at concrete inputs.
pub mod World
pub mod Data
pub mod Store
pub mod Batches
pub mod Nodes
pub mod Pools
pub mod Unread
pub mod Auto
pub mod Events
pub mod System
pub mod Failing
pub mod Startup
pub mod Lifecycle
