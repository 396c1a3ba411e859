-- ===== src/Video/Health.antt =====
-- Client video health: the classification, the window rule, the failure streak and the feedback
-- flags of src/server/wd_video_transition.c.
pub mod Streak
pub mod Reports
use Prim.Native.Nat.{bit_and}
use waydisplay.Prelude.{leb, ◌==◌, ◌/=◌, if◌then◌else◌, u32_max, ℕ, ◌+◌, Bool, not, ◌&&◌, ◌||◌}

-- enum wd_client_video_health_class
pub data HealthClass : Type 0 where
  idle normal audio_wait decoder_overloaded awaiting_keyframe pipeline_stall hard_failure :
      HealthClass

-- The value of the enumerator.
abbrev pub health_code : HealthClass → ℕ
health_code idle = 0
health_code normal = 1
health_code audio_wait = 2
health_code decoder_overloaded = 3
health_code awaiting_keyframe = 4
health_code pipeline_stall = 5
health_code hard_failure = 6

-- struct wd_client_video_health_metrics
pub record HealthMetrics : Type 0 where
  pub server_frames_tx : ℕ
  pub client_reports : ℕ
  pub client_frames_seen : ℕ
  pub client_frames_decoded : ℕ
  pub client_frames_presented : ℕ
  pub client_decode_failures : ℕ
  pub client_publish_failures : ℕ
  pub client_need_keyframe_drops : ℕ
  pub client_audio_video_sync_holds : ℕ
  pub client_decode_queue_drops : ℕ
  pub client_audio_video_startup_timeouts : ℕ
  pub client_audio_video_startup_hold_ms : ℕ
  pub client_audio_playback_state : ℕ
  pub client_decode_queue_depth : ℕ
  pub client_decode_queue_depth_max : ℕ
  pub client_decode_queue_capacity : ℕ
  pub client_queue_depth : ℕ
  pub client_queue_depth_max : ℕ
  pub client_audio_video_sync_hold_current_ms : ℕ

-- WD_CLIENT_AUDIO_PLAYBACK_BUFFERING and WD_CLIENT_AUDIO_PLAYBACK_PLAYING
abbrev pub playback_buffering : ℕ
playback_buffering = 1

abbrev pub playback_playing : ℕ
playback_playing = 2

-- WD_CLIENT_AUDIO_VIDEO_STARTUP_HOLD_MAX_MS and WD_CLIENT_AUDIO_VIDEO_PLAYING_HOLD_MAX_MS
abbrev pub startup_hold_max_ms : ℕ
startup_hold_max_ms = 1000

abbrev pub playing_hold_max_ms : ℕ
playing_hold_max_ms = 2000

-- The condition for WD_CLIENT_VIDEO_HEALTH_AUDIO_WAIT.
pub waits_for_audio : HealthMetrics → Bool
waits_for_audio m =
    m.client_frames_decoded /= 0
    && (m.client_audio_video_sync_holds /= 0
        && ((m.client_audio_playback_state == playback_buffering
              || m.client_audio_playback_state == playback_playing)
            && (leb m.client_audio_video_startup_hold_ms startup_hold_max_ms
                && (m.client_audio_video_sync_hold_current_ms /= 0
                    && (leb m.client_audio_video_sync_hold_current_ms playing_hold_max_ms
                        && (m.client_queue_depth /= 0 || m.client_queue_depth_max /= 0))))))

-- wd_client_video_health_classify
pub health_classify : HealthMetrics → HealthClass
health_classify m =
    if m.client_reports == 0
    then idle
    else if m.client_decode_failures /= 0 || m.client_publish_failures /= 0
    then hard_failure
    else if m.client_decode_queue_drops /= 0
    then decoder_overloaded
    else if m.client_need_keyframe_drops /= 0
    then awaiting_keyframe
    else if m.server_frames_tx == 0
    then idle
    else if m.client_frames_presented /= 0
    then normal
    else if waits_for_audio m
    then audio_wait
    else if m.client_frames_seen /= 0 || m.client_frames_decoded /= 0
    then pipeline_stall
    else idle

-- wd_video_health_for_window
pub health_for_window : HealthClass → Bool → Bool → HealthClass
health_for_window health visible focused =
    if health_code health == health_code pipeline_stall && (not visible || not focused)
    then idle
    else health

-- struct wd_video_health_streak
pub record HealthStreak : Type 0 where
  pub health : HealthClass
  pub seconds : ℕ

-- wd_video_health_streak_update
pub streak_update : HealthStreak → HealthClass → HealthStreak
streak_update current sample =
    if health_code sample /= health_code pipeline_stall
      && health_code sample /= health_code hard_failure
    then record { health = idle; seconds = 0 }
    else if health_code current.health /= health_code sample
    then record { health = sample; seconds = 1 }
    else if current.seconds /= u32_max
    then record current { seconds = current.seconds + 1 }
    else current

-- enum wd_video_feedback_action
pub data FeedbackAction : Type 0 where
  none_needed recover_in_video fall_back_to_tiles : FeedbackAction

-- wd_video_feedback_action_classify; the masks are DECODE_FAILURE | PUBLISH_FAILURE and
-- DECODE_OVERLOAD | NEEDS_KEYFRAME.
pub feedback_action_classify : ℕ → FeedbackAction
feedback_action_classify flags =
    if bit_and flags 12 /= 0
    then fall_back_to_tiles
    else if bit_and flags 3 /= 0
    then recover_in_video
    else none_needed
