-- ===== src/Network.antt =====
-- The senders of network/src.
pub mod ReliableSender
pub mod Broadcast
