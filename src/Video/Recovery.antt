-- ===== src/Video/Recovery.antt =====
-- Recovery of a failing video stream in place: the decisions of
-- src/server/wd_video_transition.c, the per-second step of the stream controller in
-- src/server/wd_stream.c, and the latch that src/server/wd_stream_video.c sets.
pub mod Episode
use waydisplay.Prelude.{
  ltb, leb, ◌==◌, ◌/=◌, if◌then◌else◌, u32_max, ℕ, ◌+◌, Bool, true, false, not, ◌&&◌, ◌||◌,
}

-- enum wd_video_recovery_action
pub data RecoveryAction : Type 0 where
  wait presented retry_keyframe fallback_tiles : RecoveryAction

-- wd_video_recovery_decide
unfoldable pub recovery_decide : Bool → ℕ → ℕ → ℕ → ℕ → ℕ → ℕ → RecoveryAction
recovery_decide keyframe_queued recovery_frame_id presented_frame_id wait_seconds timeout_seconds
      attempts maximum_attempts =
    if keyframe_queued && (recovery_frame_id /= 0 && leb recovery_frame_id presented_frame_id)
    then presented
    else if timeout_seconds == 0 || ltb wait_seconds timeout_seconds
    then wait
    else if ltb attempts maximum_attempts
    then retry_keyframe
    else fallback_tiles

-- The three variables that wd_video_recovery_track_keyframe is given.
pub record KeyframeLatch : Type 0 where
  pub queued : Bool
  pub frame_id : ℕ
  pub wait_seconds : ℕ

-- wd_video_recovery_track_keyframe
unfoldable pub track_keyframe : KeyframeLatch → ℕ → KeyframeLatch × Bool
track_keyframe l newly_queued_frame_id =
    if l.queued || newly_queued_frame_id == 0
    then (l, false)
    else (record { queued = true; frame_id = newly_queued_frame_id; wait_seconds = 0 }, true)

-- enum wd_tile_recovery_action
pub data TileRecoveryAction : Type 0 where
  tile_wait complete_presented complete_timeout : TileRecoveryAction

-- wd_tile_recovery_decide
pub tile_recovery_decide : Bool → ℕ → ℕ → ℕ → ℕ → TileRecoveryAction
tile_recovery_decide refresh_sent required_content_epoch presented_content_epoch wait_seconds
      timeout_seconds =
    if not refresh_sent || required_content_epoch == 0
    then tile_wait
    else if leb required_content_epoch presented_content_epoch
    then complete_presented
    else if timeout_seconds /= 0 && leb timeout_seconds wait_seconds
    then complete_timeout
    else tile_wait

-- enum wd_tile_recovery_generation_action
pub data GenerationAction : Type 0 where
  generation_wait transmitted stale : GenerationAction

-- wd_tile_recovery_generation_decide
pub generation_decide : Bool → Bool → ℕ → ℕ → Bool → GenerationAction
generation_decide refresh_started refresh_sent recovery_generation current_generation queues_empty =
    if not refresh_started || (refresh_sent || recovery_generation == 0)
    then generation_wait
    else if recovery_generation /= current_generation
    then stale
    else if queues_empty
    then transmitted
    else generation_wait

-- enum wd_stream_mode
pub data StreamMode : Type 0 where
  tiles video_candidate video_ready video_active video_recovering tile_recovery : StreamMode

-- The fields of struct wd_stream_policy that an in-video recovery reads and writes.
pub record RecoveryState : Type 0 where
  pub stream_mode : StreamMode
  pub attempts : ℕ
  pub latch : KeyframeLatch
  pub client_failure_seconds : ℕ

-- WD_STREAM_VIDEO_RECOVERY_TIMEOUT_SECONDS
abbrev pub recovery_timeout_seconds : ℕ
recovery_timeout_seconds = 4

-- WD_STREAM_VIDEO_RECOVERY_MAX_ATTEMPTS
abbrev pub recovery_max_attempts : ℕ
recovery_max_attempts = 3

abbrev pub no_keyframe : ℕ → KeyframeLatch
no_keyframe w = record { queued = false; frame_id = 0; wait_seconds = w }

-- `attempts++` on a uint32_t below the maximum does not wrap.
unfoldable pub recovery_apply : RecoveryAction → RecoveryState → RecoveryState
recovery_apply presented s = record s {
  stream_mode = video_active;
  attempts = 0;
  latch = no_keyframe 0;
}
recovery_apply retry_keyframe s = record s { attempts = s.attempts + 1; latch = no_keyframe 0 }
recovery_apply fallback_tiles s = record s {
  stream_mode = tile_recovery;
  attempts = 0;
  latch = record { queued = s.latch.queued; frame_id = s.latch.frame_id; wait_seconds = 0 };
}
recovery_apply wait s =
    if ltb s.latch.wait_seconds u32_max
    then record s {
      latch = record {
        queued = s.latch.queued;
        frame_id = s.latch.frame_id;
        wait_seconds = s.latch.wait_seconds + 1;
      };
    }
    else s

abbrev pub is_recovering : StreamMode → Bool
is_recovering video_recovering = true
is_recovering _ = false

-- The VIDEO_RECOVERING branch of wd_stream_policy_update_health_locked, run once a second with
-- the newest frame that the client reports as presented.
unfoldable pub recovery_tick : RecoveryState → ℕ → RecoveryState
unfolding recovery_apply recovery_decide
recovery_tick s presented_frame_id =
    if is_recovering s.stream_mode
    then (let action =
          recovery_decide s.latch.queued s.latch.frame_id presented_frame_id s.latch.wait_seconds
            recovery_timeout_seconds s.attempts recovery_max_attempts in
        let s' = recovery_apply action s in record s' { client_failure_seconds = 0 })
    else s

-- wd_stream_video.c: a video frame was queued on the video channel.
unfoldable pub frame_queued : RecoveryState → Bool → ℕ → RecoveryState
unfolding track_keyframe
frame_queued s keyframe frame_id =
    if is_recovering s.stream_mode && keyframe
    then record s { latch = (track_keyframe s.latch frame_id).0 }
    else s

-- The entry into VIDEO_RECOVERING on client feedback.
unfoldable pub recovery_begin : RecoveryState → RecoveryState
recovery_begin s = record s { stream_mode = video_recovering; attempts = 1; latch = no_keyframe 0 }
