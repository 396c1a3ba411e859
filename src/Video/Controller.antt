-- ===== src/Video/Controller.antt =====
-- The controller step for the video frame rate in src/server/wd_stream.c, run once a second with
-- the decode statistics that the client reported.
pub mod Trap
pub mod Range
use waydisplay.Prelude.{
  ltb, leb, ◌==◌, ◌/=◌, if◌then◌else◌, u32, u64, ℕ, ◌+◌, ◌/◌, Bool, not, ◌||◌, Option, none, some,
}
use waydisplay.Pacing.{default_session_fps, max_session_fps, pacing_reset, PacingState}
use waydisplay.Video.Health.{health_code, HealthClass, normal, decoder_overloaded}
use waydisplay.Video.Cadence.{
  present_overflow_pressure, decode_queue_pressure, window_pressure, window_can_upshift,
  safe_decode_fps, decode_ewma_update, downshift_target, upshift_target,
}

-- The fields of struct wd_stream_policy, and the two counters of struct wd_stats, that the step
-- reads and writes.
pub record CadenceState : Type 0 where
  pub requested_session_fps : ℕ
  pub adaptive_capture_fps : ℕ
  pub video_decode_ewma_ns : ℕ
  pub video_decode_safe_fps : ℕ
  pub video_frame_rate_good_seconds : ℕ
  pub client_render_visible : Bool
  pub client_window_focused : Bool
  pub frame_pacing : PacingState
  pub frame_rate_downshifts : ℕ
  pub frame_rate_upshifts : ℕ

-- The client's statistics in struct wd_stats that the step reads.
pub record DecodeReport : Type 0 where
  pub decode_samples : ℕ
  pub decode_sum_ns : ℕ
  pub queue_overflow_drops : ℕ
  pub frames_presented : ℕ
  pub decode_queue_depth_max : ℕ
  pub decode_queue_capacity : ℕ
  pub decode_queue_drops : ℕ

-- WD_STREAM_FPS_MIN, WD_STREAM_VIDEO_FPS_DEADBAND, WD_STREAM_VIDEO_OVERLOAD_DECREASE_PERCENT,
-- WD_STREAM_VIDEO_FPS_INCREASE_STEP, WD_STREAM_VIDEO_FPS_GOOD_SECONDS_TO_INCREASE,
-- WD_STREAM_VIDEO_DECODE_HEADROOM_PERCENT and WD_STREAM_VIDEO_DECODE_EWMA_*
abbrev pub fps_min : ℕ
fps_min = 5

abbrev pub fps_deadband : ℕ
fps_deadband = 3

abbrev pub overload_decrease_percent : ℕ
overload_decrease_percent = 90

abbrev pub fps_increase_step : ℕ
fps_increase_step = 3

abbrev pub good_seconds_to_increase : ℕ
good_seconds_to_increase = 15

abbrev pub decode_headroom_percent : ℕ
decode_headroom_percent = 85

abbrev pub ewma_new_numerator : ℕ
ewma_new_numerator = 1

abbrev pub ewma_denominator : ℕ
ewma_denominator = 4

-- wd_stream_policy_effective_fps_locked
pub effective_fps : CadenceState → ℕ
effective_fps p =
    let chosen =
      if p.adaptive_capture_fps == 0 then p.requested_session_fps else p.adaptive_capture_fps in
    let some_fps = if chosen == 0 then default_session_fps else chosen in
    let raised = if ltb some_fps fps_min then fps_min else some_fps in
    if ltb max_session_fps raised then max_session_fps else raised

-- The mean decode time of the report, or 0.
abbrev pub average_decode_ns : DecodeReport → ℕ
average_decode_ns r = if r.decode_samples /= 0 then r.decode_sum_ns / r.decode_samples else 0

abbrev pub ewma_after : CadenceState → DecodeReport → ℕ
ewma_after p r =
    if average_decode_ns r /= 0
    then decode_ewma_update p.video_decode_ewma_ns (average_decode_ns r) ewma_new_numerator
        ewma_denominator
    else p.video_decode_ewma_ns

abbrev pub cadence_pressure : CadenceState → DecodeReport → HealthClass → Bool
cadence_pressure p r health =
    window_pressure p.client_render_visible p.client_window_focused
      (present_overflow_pressure r.queue_overflow_drops r.frames_presented)
      (decode_queue_pressure r.decode_queue_depth_max r.decode_queue_capacity)
      (r.decode_queue_drops /= 0 || health_code health == health_code decoder_overloaded)

-- The step down, when the target lies below the current rate.
abbrev pub shift_down : CadenceState → ℕ → CadenceState
shift_down p target = record p {
  video_frame_rate_good_seconds = 0;
  adaptive_capture_fps = target;
  frame_pacing = pacing_reset p.frame_pacing;
  frame_rate_downshifts = u64 (p.frame_rate_downshifts + 1);
}

-- The step up, tried once the window, the health and the count of good seconds allow it.
pub shift_up : CadenceState → DecodeReport → HealthClass → ℕ → CadenceState
shift_up p r health current_fps =
    let good = u32 (p.video_frame_rate_good_seconds + 1) in
    let next =
      upshift_target current_fps p.requested_session_fps p.video_decode_safe_fps fps_deadband
        fps_increase_step in
    if not (window_can_upshift p.client_render_visible p.client_window_focused)
      || (health_code health /= health_code normal
          || (r.frames_presented == 0 || leb p.requested_session_fps current_fps))
    then record p { video_frame_rate_good_seconds = 0 }
    else if ltb good good_seconds_to_increase
    then record p { video_frame_rate_good_seconds = good }
    else if next /= current_fps
    then record p {
      video_frame_rate_good_seconds = 0;
      adaptive_capture_fps = next;
      frame_pacing = pacing_reset p.frame_pacing;
      frame_rate_upshifts = u64 (p.frame_rate_upshifts + 1);
    }
    else record p { video_frame_rate_good_seconds = 0 }

-- What follows once the safe decode rate is known.
pub adjust_rate : CadenceState → DecodeReport → HealthClass → ℕ → CadenceState
unfolding shift_up
adjust_rate p r health current_fps =
    let target =
      downshift_target current_fps p.requested_session_fps p.video_decode_safe_fps
        (cadence_pressure p r health) fps_min fps_deadband overload_decrease_percent in
    if ltb target current_fps then shift_down p target else shift_up p r health current_fps

-- wd_stream_policy_update_video_frame_rate_locked; `none` is the trap of `safe_decode_fps`.
unfoldable pub update_video_frame_rate :
    CadenceState → DecodeReport → HealthClass → Option CadenceState
update_video_frame_rate p r health =
    let ewma = ewma_after p r in
    elim (safe_decode_fps ewma p.requested_session_fps decode_headroom_percent) [
      | none ↦ none
      | some safe ↦ some (
          adjust_rate (record p { video_decode_ewma_ns = ewma; video_decode_safe_fps = safe }) r
            health (effective_fps p))
    ]
