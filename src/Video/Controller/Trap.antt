-- ===== src/Video/Controller/Trap.antt =====
-- When the controller step divides by zero.
use waydisplay.Video.Cadence.{safe_decode_fps}
use waydisplay.Prelude.{◌%◌, ◌≡◌, ◌≢◌, none, arith}
use waydisplay.Video.Health.{HealthClass}
use waydisplay.Video.Cadence.Decode.{safe_decode_fps_traps, ewma_first}
use waydisplay.Video.Controller.{
  decode_headroom_percent, ewma_new_numerator, ewma_denominator, average_decode_ns, ewma_after,
  update_video_frame_rate, CadenceState, DecodeReport,
}

-- For a session with a requested rate and without a decode history, a report whose mean decode
-- time is a nonzero multiple of 2^62 nanoseconds makes the controller step divide by zero,
-- whatever the health class.
pub report_traps :
    (p : CadenceState) (r : DecodeReport) (health : HealthClass)
    → p.requested_session_fps ≢ 0
    → p.video_decode_ewma_ns ≡ 0
    → average_decode_ns r ≢ 0
    → average_decode_ns r % 0x4000_0000_0000_0000 ≡ 0
    → update_video_frame_rate p r health ≡ none
unfolding update_video_frame_rate
report_traps p r health q e nz m = ground (arith, seen, trap)
  where
    seen : ewma_after p r ≡ average_decode_ns r
    seen = ground (arith, ewma_first (average_decode_ns r) ewma_new_numerator ewma_denominator)

    trap :
        safe_decode_fps (average_decode_ns r) p.requested_session_fps decode_headroom_percent ≡ none
    trap =
        (safe_decode_fps_traps (average_decode_ns r) p.requested_session_fps
            decode_headroom_percent).1
          (q, nz, m, omega arith, omega arith)
