-- ===== src/Audio.antt =====
-- The audio path: src/server/wd_audio_ring.c and src/server/wd_audio_packetizer.c.
pub mod Ring
pub mod Packet
mod Tests
