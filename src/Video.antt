-- ===== src/Video.antt =====
-- The policy of the video stream: src/server/wd_video_transition.c and the parts of
-- src/server/wd_stream.c and src/server/wd_stream_video.c that apply it.
pub mod Recovery
pub mod Health
pub mod Cadence
pub mod Controller
pub mod Entry
mod Tests
