-- ===== src/Messages.antt =====
-- primary/src/messages.rs: headers, votes and certificates.
pub mod Header
pub mod Vote
pub mod Certificate
pub mod Quorum
pub mod Encoding
