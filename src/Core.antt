-- ===== src/Core.antt =====
-- primary/src/core.rs and primary/src/synchronizer.rs.
pub mod State
pub mod Synchronizer
pub mod Process
pub mod Run
pub mod Helper
pub mod HeaderWaiter
pub mod Votes
pub mod Fuel
pub mod Steady
pub mod Causal
