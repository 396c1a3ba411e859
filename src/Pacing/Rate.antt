-- ===== src/Pacing/Rate.antt =====
-- The capture rate is a hard upper bound.
use native.Mathlib.Nat.{lt-div-mul-add, mul-le-mul_left, mul-le-mul_right}
use waydisplay.Prelude.{
  if◌then◌else◌, ne_zero_test, eq_ne_test, All, u64_max, IsU16, ℕ, zero, suc, ◌+◌, ◌-◌, ◌*◌, ◌≤◌,
  ◌<◌, ◌≡◌, refl, ◌∙◌, ◌≢◌, ◌⊎◌, inl, inr, true, false, List, [], ◌∷◌, arith,
}
use waydisplay.Pacing.{
  pacing_reset, nsec_per_sec, frame_interval_ns, admitted, pacing_due, PacingState,
}

-- How many of the polls at the given times admit a frame.
pub admissions : PacingState → ℕ → List ℕ → ℕ
admissions s fps [] = 0
admissions s fps (now ∷ polls) =
    let (s', due) = pacing_due s now fps in
    let rest = admissions s' fps polls in if due then suc rest else rest

record Flowing (fps : ℕ) (s : PacingState) : Type 0 where
  started : s.last_admitted_ns ≢ 0
  tuned : s.capture_fps ≡ fps
  ahead : 0 < s.next_deadline_ns

-- The interval is no shorter than the configured rate asks for.
interval_bound : (fps : ℕ) → fps ≢ 0 → IsU16 fps → nsec_per_sec ≤ frame_interval_ns fps * fps
unfolding frame_interval_ns
interval_bound fps nz h =
    rw (ne_zero_test fps nz)
      (omega (arith, lt-div-mul-add {a = nsec_per_sec + fps - 1} {b = fps} (omega arith)))

interval_pos : (fps : ℕ) → fps ≢ 0 → IsU16 fps → 0 < frame_interval_ns fps
interval_pos fps nz h = pos (frame_interval_ns fps) (interval_bound fps nz h)
  where
    pos : (i : ℕ) → nsec_per_sec ≤ i * fps → 0 < i
    pos zero b = absurd (omega arith)
    pos (suc i) b = omega arith

due-Flowing :
    (fps now : ℕ) (s : PacingState)
    → fps ≢ 0
    → Flowing fps s
    → pacing_due s now fps ≡ admitted s now (frame_interval_ns fps)
unfolding pacing_due
due-Flowing fps now s nz h = rw (
  ne_zero_test fps nz,
  ne_zero_test s.last_admitted_ns h.started,
  eq_ne_test s.capture_fps fps h.tuned,
)

-- A poll either leaves the state, or admits a frame and moves the deadline by an interval or more.
poll_cases :
    (now T interval : ℕ) (s : PacingState)
    → T + interval ≤ u64_max
    → 0 < interval
    → now ≤ T
    → 0 < s.next_deadline_ns
    → (admitted s now interval ≡ (s, false))
      ⊎ (((admitted s now interval).1 ≡ true)
          × (s.next_deadline_ns ≤ T)
          × ((admitted s now interval).0.last_admitted_ns ≢ 0)
          × ((admitted s now interval).0.capture_fps ≡ s.capture_fps)
          × (s.next_deadline_ns + interval ≤ (admitted s now interval).0.next_deadline_ns))
poll_cases now T interval s room pos le ahead = ground arith

suc-sub_one : (n : ℕ) → suc n - 1 ≡ n
suc-sub_one n = omega arith

-- One more interval before `n` admissions, and after the first of all.
one_more : (i T d d' n : ℕ) → d ≤ T → d + i ≤ d' → (n ≡ 0) ⊎ (d' + (n - 1) * i ≤ T) → d + n * i ≤ T
one_more i T d d' zero le nd h = omega arith
one_more i T d d' (suc n) le nd (inl e) = absurd (omega arith)
one_more i T d d' (suc n) le nd (inr h) =
    let e : suc n - 1 ≡ n = omega arith in let h' : d' + n * i ≤ T = rw e at h in omega arith

scaled : (m i f n d : ℕ) → n ≤ i * f → m * i ≤ d → m * n ≤ d * f
scaled m i f n d a b =
    let c : m * n ≤ m * (i * f) = mul-le-mul_left m a in
    let e : m * i * f ≤ d * f = mul-le-mul_right f b in omega arith

first_due :
    (fps t0 : ℕ) (s : PacingState)
    → fps ≢ 0
    → IsU16 fps
    → t0 + frame_interval_ns fps ≤ u64_max
    → ((pacing_due (pacing_reset s) t0 fps).1 ≡ true)
      × Flowing fps (pacing_due (pacing_reset s) t0 fps).0
      × ((pacing_due (pacing_reset s) t0 fps).0.next_deadline_ns ≡ t0 + frame_interval_ns fps)
unfolding pacing_reset pacing_due
first_due fps t0 s nz w room =
    let pos = interval_pos fps nz w in rw (ne_zero_test fps nz) (refl, ground arith, ground arith)

-- `n` admissions of a flowing state end `n - 1` intervals behind its deadline.
Flowing-bound :
    (fps T : ℕ) (polls : List ℕ) (s : PacingState)
    → fps ≢ 0
    → IsU16 fps
    → T + frame_interval_ns fps ≤ u64_max
    → All (λ now. now ≤ T) polls
    → Flowing fps s
    → (admissions s fps polls ≡ 0)
      ⊎ (s.next_deadline_ns + (admissions s fps polls - 1) * frame_interval_ns fps ≤ T)
unfolding admissions
Flowing-bound fps T [] s nz w room le h = inl refl
Flowing-bound fps T (now ∷ polls) s nz w room (le, les) h =
    rw (due-Flowing fps now s nz h)
      (elim (poll_cases now T (frame_interval_ns fps) s room (interval_pos fps nz w) le h.ahead) [
        | inl e ↦ rw e (Flowing-bound fps T polls s nz w room les h)
        | inr (t, d, st, tu, nd) ↦ rw t (
            inr (
              rw suc-sub_one (
                one_more (frame_interval_ns fps) T s.next_deadline_ns _ _ d nd (
                  Flowing-bound fps T polls (admitted s now (frame_interval_ns fps)).0 nz w room les
                    (record { started = st; tuned = tu ∙ h.tuned; ahead = omega arith })))))
      ])

-- The configured rate (a nonzero uint16_t) is a hard upper bound on the frames admitted: from a
-- reset on, polls at any times, in any order, of which the first is at `t0` and none is later
-- than `T`, admit a first frame, and `n` frames in all only if the `n - 1` after the first fit at
-- `fps` frames a second into the time from `t0` to `T` (times so far from UINT64_MAX that no
-- deadline saturates).
pub rate_bound :
    (fps t0 T : ℕ) (polls : List ℕ) (s : PacingState)
    → fps ≢ 0
    → IsU16 fps
    → T + frame_interval_ns fps ≤ u64_max
    → t0 ≤ T
    → All (λ now. now ≤ T) polls
    → let n = admissions (pacing_reset s) fps (t0 ∷ polls) in
      (1 ≤ n) × ((n - 1) * nsec_per_sec ≤ (T - t0) * fps)
unfolding admissions
rate_bound fps t0 T polls s nz w room le les =
    let (due, flows, at) = first_due fps t0 s nz w (omega arith) in
    let h = Flowing-bound fps T polls (pacing_due (pacing_reset s) t0 fps).0 nz w room les flows in
    rw due (
      omega arith,
      rw suc-sub_one (
          scaled _ (frame_interval_ns fps) fps nsec_per_sec (T - t0) (interval_bound fps nz w)
            (fits (frame_interval_ns fps) _ at h)),
    )
  where
    fits : (i n : ℕ) {d : ℕ} → d ≡ t0 + i → (n ≡ 0) ⊎ (d + (n - 1) * i ≤ T) → n * i ≤ T - t0
    fits i n {d} e h = let k = one_more i T t0 d n le (omega arith) h in omega arith
