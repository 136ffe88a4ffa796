-- ===== src/Worker.antt =====
-- The parts of a worker.
pub mod Messages
pub mod BatchMaker
pub mod QuorumWaiter
pub mod Synchronizer
pub mod Processor
pub mod Helper
pub mod Handlers
