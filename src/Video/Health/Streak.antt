-- ===== src/Video/Health/Streak.antt =====
-- The failure streak against the run of equal samples that it stands for.
use waydisplay.Prelude.{
  ◌==◌, if◌then◌else◌, u32_max, ℕ, suc, min, ◌≡◌, refl, Bool, true, false, List, [], ◌∷◌, arith,
}
use waydisplay.Video.Health.{
  health_code, streak_update, HealthClass, idle, pipeline_stall, hard_failure, HealthStreak,
}

-- The streak after samples taken one a second, the newest first.
abbrev pub observe : List HealthClass → HealthStreak
observe [] = record { health = idle; seconds = 0 }
observe (sample ∷ before) = streak_update (observe before) sample

-- How many samples at the front have the given class.
pub run_length : HealthClass → List HealthClass → ℕ
run_length c [] = 0
run_length c (x ∷ xs) = if health_code x == health_code c then suc (run_length c xs) else 0

abbrev pub is_failing : HealthClass → Bool
is_failing pipeline_stall = true
is_failing hard_failure = true
is_failing _ = false

abbrev expected : List HealthClass → HealthStreak
expected [] = record { health = idle; seconds = 0 }
expected (x ∷ xs) =
    if is_failing x
    then record { health = x; seconds = min (run_length x (x ∷ xs)) u32_max }
    else record { health = idle; seconds = 0 }

observe-expected : (xs : List HealthClass) → observe xs ≡ expected xs
unfolding streak_update run_length
observe-expected [] = refl
observe-expected (x ∷ []) = ground arith
observe-expected (x ∷ y ∷ ys) = rw (observe-expected (y ∷ ys)) (ground arith)

-- The streak counts the newest samples that agree: after a failing sample it holds that class and
-- the number of samples since the class last changed, saturating at UINT32_MAX, and after any
-- other sample it is empty.
pub streak_exact :
    (x : HealthClass) (before : List HealthClass)
    → observe (x ∷ before) ≡ (
        if is_failing x
        then record { health = x; seconds = min (run_length x (x ∷ before)) u32_max }
        else record { health = idle; seconds = 0 })
streak_exact x before = observe-expected (x ∷ before)
