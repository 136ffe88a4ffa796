-- ===== src/Consensus/Once.antt =====
-- No certificate is committed twice: the comment on `last_committed` in consensus/src/lib.rs.
pub mod Slots
pub mod Wf
pub mod Invariant
pub mod Visit
pub mod Leaders
pub mod Parity
pub mod Commit
pub mod Evaluate
pub mod Run
