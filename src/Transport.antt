-- ===== src/Transport.antt =====
-- The policies of the TCP and UDP senders.
pub mod Tcp
pub mod Udp
pub mod Identity
mod Tests
