-- ===== src/Pacing/Tests.antt =====
-- The theorems at concrete inputs.
use waydisplay.Prelude.{ℕ, ◌-◌, ◌*◌, ◌≤◌, List, [], ◌∷◌, arith}
use waydisplay.Pacing.{pacing_reset, nsec_per_sec, frame_interval_ns, PacingState}
use waydisplay.Pacing.Rate.{admissions, rate_bound}

abbrev idle_pacing : PacingState
idle_pacing = record { next_deadline_ns = 0; last_admitted_ns = 0; capture_fps = 0 }

abbrev polls : List ℕ
polls = 1_016_000_000 ∷ 1_017_000_000 ∷ 1_034_000_000 ∷ []

rate_bound_example :
    (1 ≤ admissions (pacing_reset idle_pacing) 60 (1_000_000_000 ∷ polls))
    × ((admissions (pacing_reset idle_pacing) 60 (1_000_000_000 ∷ polls) - 1) * nsec_per_sec
        ≤ (1_034_000_000 - 1_000_000_000) * 60)
unfolding frame_interval_ns
rate_bound_example =
    rate_bound 60 1_000_000_000 1_034_000_000 polls idle_pacing (omega arith) (omega arith)
      (omega arith) (omega arith) (omega arith, (omega arith, (omega arith, tt)))
