-- ===== src/Video/Controller/Range.antt =====
-- The range of the frame rate under the controller.
use waydisplay.Prelude.{Option-cases, ℕ, ◌≤◌, min, ◌≡◌, sym, subst, ◌≢◌, ◌⊎◌, inl, inr, some, arith}
use waydisplay.Pacing.{max_session_fps, pacing_reset}
use waydisplay.Video.Health.{HealthClass}
use waydisplay.Video.Cadence.Bounds.{cadence_bounds}
use waydisplay.Video.Cadence.{safe_decode_fps}
use waydisplay.Video.Controller.{
  fps_min, fps_deadband, overload_decrease_percent, fps_increase_step, decode_headroom_percent,
  effective_fps, ewma_after, cadence_pressure, adjust_rate, update_video_frame_rate, CadenceState,
  DecodeReport,
}

effective_fps_range :
    (p : CadenceState) → (fps_min ≤ effective_fps p) × (effective_fps p ≤ max_session_fps)
unfolding effective_fps
effective_fps_range p = ground arith

-- The rate that the step leaves: the old one, or one that a reset of the pacing goes with.
record Adjusted (p p' : CadenceState) : Type 0 where
  same_request : p'.requested_session_fps ≡ p.requested_session_fps
  rate :
      (p'.adaptive_capture_fps ≡ p.adaptive_capture_fps)
      ⊎ ((min fps_min p.requested_session_fps ≤ p'.adaptive_capture_fps)
          × (p'.adaptive_capture_fps ≤ p.requested_session_fps)
          × (p'.video_frame_rate_good_seconds ≡ 0)
          × (p'.frame_pacing ≡ pacing_reset p.frame_pacing))

adjust-Adjusted :
    (p : CadenceState) (r : DecodeReport) (health : HealthClass) (fps : ℕ)
    → fps_min ≤ fps
    → fps ≤ max_session_fps
    → p.requested_session_fps ≢ 0
    → p.requested_session_fps ≤ max_session_fps
    → Adjusted p (adjust_rate p r health fps)
unfolding adjust_rate
adjust-Adjusted p r health fps lo hi q m = ground (
  arith,
  cadence_bounds fps p.requested_session_fps p.video_decode_safe_fps fps_min fps_deadband
      fps_increase_step overload_decrease_percent (cadence_pressure p r health) (omega arith)
      (omega arith) (omega arith) (omega arith) (omega arith),
)

abbrev measured : CadenceState → DecodeReport → ℕ → CadenceState
measured p r safe = record p { video_decode_ewma_ns = ewma_after p r; video_decode_safe_fps = safe }

update_value :
    (p p' : CadenceState) (r : DecodeReport) (health : HealthClass)
    → update_video_frame_rate p r health ≡ some p'
    → (safe : ℕ) × (p' ≡ adjust_rate (measured p r safe) r health (effective_fps p))
unfolding update_video_frame_rate
update_value p p' r health e =
    elim (Option-cases
      (safe_decode_fps (ewma_after p r) p.requested_session_fps decode_headroom_percent)) [
        | inl n ↦ absurd (ground (arith, n))
        | inr (safe, s) ↦ (safe, ground (arith, s))
      ]

-- For a requested rate of 1 to 240 and a rate within it, a step that does not trap keeps the
-- request, and leaves the rate alone or sets it between the minimum of 5 (or the request, if that
-- is less) and the requested rate, with the pacing and the count of good seconds restarted; the
-- rate stays within the request in either case.
pub controller_range :
    (p p' : CadenceState) (r : DecodeReport) (health : HealthClass)
    → p.requested_session_fps ≢ 0
    → p.requested_session_fps ≤ max_session_fps
    → p.adaptive_capture_fps ≤ p.requested_session_fps
    → update_video_frame_rate p r health ≡ some p'
    → (p'.requested_session_fps ≡ p.requested_session_fps)
      × (p'.adaptive_capture_fps ≤ p.requested_session_fps)
      × ((p'.adaptive_capture_fps ≡ p.adaptive_capture_fps)
          ⊎ ((min fps_min p.requested_session_fps ≤ p'.adaptive_capture_fps)
              × (p'.video_frame_rate_good_seconds ≡ 0)
              × (p'.frame_pacing ≡ pacing_reset p.frame_pacing)))
controller_range p p' r health q m a e =
    let (safe, is) = update_value p p' r health e in
    let (lo, hi) = effective_fps_range p in
    let adj : Adjusted (measured p r safe) p' =
      subst (Adjusted (measured p r safe)) (sym is)
        (adjust-Adjusted (measured p r safe) r health (effective_fps p) lo hi q m) in
    ground (arith, adj)
