-- ===== src/Consensus.antt =====
-- consensus/src/lib.rs: the ordering of the DAG.
pub mod State
pub mod Leaders
pub mod Order
pub mod Run
pub mod Prune
pub mod Pruned
pub mod Once
