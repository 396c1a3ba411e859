-- ===== src/Client.antt =====
-- The decisions of the client, src/client.
pub mod Ownership
pub mod Decode
pub mod Transition
pub mod Session
pub mod Sync
mod Tests
