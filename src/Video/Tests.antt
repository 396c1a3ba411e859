-- ===== src/Video/Tests.antt =====
-- The theorems at concrete inputs.
use waydisplay.Prelude.{
  if◌then◌else◌, u32_max, ℕ, ◌*◌, ◌%◌, ◌≤◌, min, max, ◌≡◌, refl, ◌≢◌, ◌↔◌, ◌⊎◌, true, false, none,
  List, [], ◌∷◌, arith,
}
use waydisplay.Pacing.{pacing_reset}
use waydisplay.Video.Recovery.{
  recovery_decide, track_keyframe, no_keyframe, recovery_apply, recovery_tick, frame_queued,
  recovery_begin, video_active, tile_recovery, RecoveryState,
}
use waydisplay.Video.Recovery.Episode.{
  run, recovery_settles, recovery_needs_keyframe, Event, tick, frame, Answered,
}
use waydisplay.Video.Health.{
  idle, normal, decoder_overloaded, pipeline_stall, hard_failure, HealthMetrics,
}
use waydisplay.Video.Health.Streak.{observe, run_length, is_failing, streak_exact}
use waydisplay.Video.Health.Reports.{window_health, window_health_exact}
use waydisplay.Video.Cadence.{safe_decode_fps, decode_ewma_update, downshift_target, upshift_target}
use waydisplay.Video.Cadence.Bounds.{cadence_hysteresis, cadence_bounds}
use waydisplay.Video.Cadence.Decode.{safe_decode_fps_traps, safe_decode_fps_budget, ewma_between}
use waydisplay.Video.Controller.{
  fps_min, effective_fps, adjust_rate, update_video_frame_rate, CadenceState, DecodeReport,
}
use waydisplay.Video.Controller.Trap.{report_traps}
use waydisplay.Video.Controller.Range.{controller_range}
use waydisplay.Video.Entry.{
  video_mode_auto, entry_allowed, control_allows_entry, resume_decide, plan_make, plan_can_commit,
  entry_commits_once, resume_enters, planned, resume_enter, EntryPlan,
}

abbrev failing : RecoveryState
failing = record {
  stream_mode = video_active;
  attempts = 0;
  latch = no_keyframe 0;
  client_failure_seconds = 3;
}

abbrev silent_second : List Event
silent_second = tick 0 ∷ []

-- Thirty seconds in which the client presents nothing, with one keyframe queued.
abbrev silence : List Event
silence =
    tick 0
    ∷ frame true 7
    ∷ tick 0
    ∷ tick 0
    ∷ tick 0
    ∷ tick 0
    ∷ tick 0
    ∷ tick 0
    ∷ tick 0
    ∷ tick 0
    ∷ tick 0
    ∷ tick 0
    ∷ tick 0
    ∷ tick 0
    ∷ tick 0
    ∷ tick 0
    ∷ tick 0
    ∷ tick 0
    ∷ tick 0
    ∷ tick 0
    ∷ tick 0
    ∷ tick 0
    ∷ tick 0
    ∷ tick 0
    ∷ tick 0
    ∷ tick 0
    ∷ tick 0
    ∷ tick 0
    ∷ tick 0
    ∷ tick 0
    ∷ tick 0
    ∷ []

recovery_settles_example :
    ((run (recovery_begin failing) silence).stream_mode ≡ video_active)
    ⊎ ((run (recovery_begin failing) silence).stream_mode ≡ tile_recovery)
recovery_settles_example = recovery_settles failing silence (omega arith)

abbrev answered : List Event
answered = frame true 7 ∷ tick 6 ∷ tick 8 ∷ []

recovery_needs_keyframe_example : Answered answered
unfolding recovery_begin frame_queued track_keyframe recovery_tick recovery_apply recovery_decide
recovery_needs_keyframe_example = recovery_needs_keyframe failing answered refl

streak_exact_test : observe (hard_failure ∷ hard_failure ∷ idle ∷ []) ≡ (
    if is_failing hard_failure
    then record {
      health = hard_failure;
      seconds = min (run_length hard_failure (hard_failure ∷ hard_failure ∷ idle ∷ [])) u32_max;
    }
    else record { health = idle; seconds = 0 })
streak_exact_test = streak_exact hard_failure (hard_failure ∷ idle ∷ [])

abbrev hysteresis_up : ℕ
hysteresis_up = upshift_target 30 60 50 4 5

abbrev hysteresis_down : ℕ
hysteresis_down = downshift_target 30 60 50 false 10 4 75

cadence_hysteresis_test :
    ((hysteresis_up ≤ 30) ⊎ (downshift_target hysteresis_up 60 50 false 10 4 75 ≡ hysteresis_up))
    × ((30 ≤ hysteresis_down) ⊎ (upshift_target hysteresis_down 60 50 4 5 ≡ hysteresis_down))
cadence_hysteresis_test =
    cadence_hysteresis 30 60 50 10 4 5 75 (omega arith) (omega arith) (omega arith) (omega arith)
      (omega arith) (omega arith)

abbrev hard_down : ℕ
hard_down = downshift_target 30 60 50 true 10 4 75

abbrev rate : ℕ
rate = 30

abbrev requested : ℕ
requested = 60

abbrev safe : ℕ
safe = 50

cadence_bounds_test :
    (hard_down ≤ rate)
    × ((hard_down ≡ rate)
        ⊎ (((requested ≡ 0) ⊎ (hard_down ≤ 60)) × ((max 10 1 ≤ hard_down) ⊎ (hard_down ≡ 60))))
    × (rate ≤ hysteresis_up)
    × ((hysteresis_up ≡ rate) ⊎ ((hysteresis_up ≤ 60) × ((safe ≡ 0) ⊎ (hysteresis_up ≤ 50))))
cadence_bounds_test =
    cadence_bounds 30 60 50 10 4 5 75 true (omega arith) (omega arith) (omega arith) (omega arith)
      (omega arith)

abbrev tuned : ℕ
tuned = 40

safe_decode_fps_budget_test :
    (1 ≤ tuned) × (tuned ≤ 60) × ((tuned ≡ 1) ⊎ (tuned * (20_000_000 * 100) ≤ 1_000_000_000 * 80))
unfolding safe_decode_fps
safe_decode_fps_budget_test =
    safe_decode_fps_budget 20_000_000 60 80 (omega arith) (omega arith) (omega arith) (omega arith)
      (omega arith) (omega arith) refl

ewma_between_test :
    (min 8_000 4_000 ≤ decode_ewma_update 8_000 4_000 1 4)
    × (decode_ewma_update 8_000 4_000 1 4 ≤ max 8_000 4_000)
    × (decode_ewma_update 0 4_000 1 4 ≡ 4_000)
ewma_between_test =
    ewma_between 8_000 4_000 1 4 (omega arith) (omega arith) (omega arith) (omega arith)
      (omega arith)

abbrev fresh_cadence : CadenceState
fresh_cadence = record {
  requested_session_fps = 60;
  adaptive_capture_fps = 0;
  video_decode_ewma_ns = 0;
  video_decode_safe_fps = 0;
  video_frame_rate_good_seconds = 0;
  client_render_visible = true;
  client_window_focused = true;
  frame_pacing = record { next_deadline_ns = 0; last_admitted_ns = 0; capture_fps = 0 };
  frame_rate_downshifts = 0;
  frame_rate_upshifts = 0;
}

abbrev forged_report : DecodeReport
forged_report = record {
  decode_samples = 1;
  decode_sum_ns = 0x4000_0000_0000_0000;
  queue_overflow_drops = 0;
  frames_presented = 0;
  decode_queue_depth_max = 0;
  decode_queue_capacity = 0;
  decode_queue_drops = 0;
}

report_traps_example : update_video_frame_rate fresh_cadence forged_report idle ≡ none
report_traps_example =
    report_traps fresh_cadence forged_report idle (omega arith) refl (omega arith) (omega arith)

-- One frame that took 40 ms to decode.
abbrev slow_report : DecodeReport
slow_report = record {
  decode_samples = 1;
  decode_sum_ns = 40_000_000;
  queue_overflow_drops = 0;
  frames_presented = 30;
  decode_queue_depth_max = 0;
  decode_queue_capacity = 0;
  decode_queue_drops = 0;
}

abbrev slowed : CadenceState
slowed =
    adjust_rate
      (record fresh_cadence { video_decode_ewma_ns = 40_000_000; video_decode_safe_fps = 21 })
      slow_report normal (effective_fps fresh_cadence)

controller_range_example :
    (slowed.requested_session_fps ≡ fresh_cadence.requested_session_fps)
    × (slowed.adaptive_capture_fps ≤ fresh_cadence.requested_session_fps)
    × ((slowed.adaptive_capture_fps ≡ fresh_cadence.adaptive_capture_fps)
        ⊎ ((min fps_min fresh_cadence.requested_session_fps ≤ slowed.adaptive_capture_fps)
            × (slowed.video_frame_rate_good_seconds ≡ 0)
            × (slowed.frame_pacing ≡ pacing_reset fresh_cadence.frame_pacing)))
unfolding update_video_frame_rate safe_decode_fps decode_ewma_update
controller_range_example =
    controller_range fresh_cadence slowed slow_report normal (omega arith) (omega arith)
      (omega arith) refl

abbrev client_seconds : HealthMetrics
client_seconds = record {
  server_frames_tx = 30;
  client_reports = 1;
  client_frames_seen = 30;
  client_frames_decoded = 0;
  client_frames_presented = 0;
  client_decode_failures = 2;
  client_publish_failures = 0;
  client_need_keyframe_drops = 0;
  client_audio_video_sync_holds = 0;
  client_decode_queue_drops = 0;
  client_audio_video_startup_timeouts = 0;
  client_audio_video_startup_hold_ms = 0;
  client_audio_playback_state = 0;
  client_decode_queue_depth = 0;
  client_decode_queue_depth_max = 0;
  client_decode_queue_capacity = 0;
  client_queue_depth = 0;
  client_queue_depth_max = 0;
  client_audio_video_sync_hold_current_ms = 0;
}

window_health_exact_test :
    ((window_health client_seconds false false ≡ hard_failure) ↔ (
      (client_seconds.client_reports ≢ 0)
      × ((client_seconds.client_decode_failures ≢ 0)
          ⊎ (client_seconds.client_publish_failures ≢ 0))))
    × ((window_health client_seconds false false ≡ decoder_overloaded) ↔ (
        (client_seconds.client_reports ≢ 0)
        × (client_seconds.client_decode_failures ≡ 0)
        × (client_seconds.client_publish_failures ≡ 0)
        × (client_seconds.client_decode_queue_drops ≢ 0)))
    × ((window_health client_seconds false false ≢ pipeline_stall)
        ⊎ ((false ≡ true)
            × (false ≡ true)
            × (client_seconds.server_frames_tx ≢ 0)
            × (client_seconds.client_frames_presented ≡ 0)
            × ((client_seconds.client_frames_seen ≢ 0)
                ⊎ (client_seconds.client_frames_decoded ≢ 0))))
window_health_exact_test = window_health_exact client_seconds false false

abbrev made : ℕ
made = 7

abbrev entry : EntryPlan
entry = plan_make made true true

entry_commits_once_example :
    ((plan_can_commit entry made true ≡ true)
      ↔ ((true ≡ true) × (true ≡ true) × (true ≡ true) × (made ≡ made)))
    × ((plan_can_commit entry made true ≡ false)
        ⊎ ((entry.frame_content_epoch ≢ 0)
            × (entry.frame_content_epoch ≢ made)
            × (plan_can_commit entry entry.frame_content_epoch false ≡ false)))
entry_commits_once_example =
    entry_commits_once made made true true true false (omega arith) (omega arith)

resume_enters_test :
    ((resume_decide true false false video_mode_auto true true true ≡ resume_enter) ↔ (
      (true ≡ true)
      × (false ≡ false)
      × (false ≡ false)
      × (control_allows_entry video_mode_auto true true true ≡ true)))
    × ((resume_decide true false false video_mode_auto true true true ≢ resume_enter)
        ⊎ (entry_allowed false false 0 false planned ≡ true))
resume_enters_test = resume_enters true false false true true true false video_mode_auto

abbrev decode_ns : ℕ
decode_ns = 0x4000_0000_0000_0000

abbrev headroom : ℕ
headroom = 85

safe_decode_fps_traps_test : (safe_decode_fps 0x4000_0000_0000_0000 60 85 ≡ none) ↔ (
    (requested ≢ 0)
    × (decode_ns ≢ 0)
    × (decode_ns % 0x4000_0000_0000_0000 ≡ 0)
    × (headroom ≢ 0)
    × (headroom ≤ 100))
safe_decode_fps_traps_test = safe_decode_fps_traps decode_ns requested headroom
