-- ===== src/Listener.antt =====
-- src/listener: what happens to a transaction, from its bytes to the storage.
pub mod Primary
pub mod Manager
pub mod Atomic
pub mod Replay
