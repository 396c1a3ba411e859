-- ===== src/Video/Cadence/Bounds.antt =====
-- Bounds of the cadence functions and how they fit together.
use waydisplay.Prelude.{
  ltb, leb, ◌==◌, ◌/=◌, if◌then◌else◌, ne_zero_test, u16, IsU16, ℕ, ◌+◌, ◌≤◌, ◌<◌, max, ◌≡◌, ◌≢◌,
  ◌⊎◌, inl, inr, Bool, false, ◌&&◌, arith,
}
use waydisplay.Video.Cadence.{downshift_wanted, downshift_target, upshift_target}

-- The rate stays, or is raised within the requested rate and the rate that decoding can hold.
upshift_cases :
    (fps requested safe deadband step : ℕ)
    → IsU16 fps
    → IsU16 requested
    → IsU16 step
    → let up = upshift_target fps requested safe deadband step in
      (up ≡ fps) ⊎ ((fps < requested) × (up ≤ requested) × ((safe ≡ 0) ⊎ (up ≤ safe)))
unfolding upshift_target
upshift_cases fps requested safe deadband step a b c = ground arith

fps-le-upshift :
    (fps requested safe deadband step : ℕ)
    → IsU16 fps
    → IsU16 requested
    → IsU16 step
    → IsU16 deadband
    → fps ≤ upshift_target fps requested safe deadband step
unfolding upshift_target
fps-le-upshift fps requested safe deadband step a b c d = ground arith

-- A rate that has reached what is requested, or nearly what decoding can hold, is not raised.
upshift_stays :
    (fps requested safe deadband step : ℕ)
    → IsU16 fps
    → IsU16 deadband
    → (requested ≡ 0)
      ⊎ (requested ≤ fps)
      ⊎ ((safe ≢ 0) × (safe < requested) × (safe ≤ fps + deadband))
    → upshift_target fps requested safe deadband step ≡ fps
unfolding upshift_target
upshift_stays fps requested safe deadband step a b h = ground arith

wanted_soft :
    (fps safe deadband overload : ℕ)
    → (downshift_wanted fps safe false deadband overload ≡ fps)
      ⊎ ((safe ≢ 0)
          × (safe + deadband < fps)
          × (downshift_wanted fps safe false deadband overload ≡ safe))
wanted_soft fps safe deadband overload = ground arith

-- The final clamps of wd_video_cadence_downshift_target, as the source writes them.
clamped : ℕ → ℕ → ℕ → ℕ → ℕ
clamped fps requested minimum wanted =
    let minimum_fps = if minimum == 0 then 1 else minimum in
    let raised = if ltb wanted minimum_fps then minimum_fps else wanted in
    let target = if requested /= 0 && ltb requested raised then requested else raised in
    if leb fps target then fps else u16 target

downshift-clamped :
    (fps requested safe minimum deadband overload : ℕ) (hard : Bool)
    → fps ≢ 0
    → downshift_target fps requested safe hard minimum deadband overload
      ≡ clamped fps requested minimum (downshift_wanted fps safe hard deadband overload)
unfolding downshift_target clamped
downshift-clamped fps requested safe minimum deadband overload hard nz = rw (ne_zero_test fps nz)

clamped_cases :
    (fps requested minimum wanted : ℕ)
    → IsU16 fps
    → (clamped fps requested minimum wanted ≡ fps)
      ⊎ ((clamped fps requested minimum wanted < fps)
          × (max minimum 1 ≤ clamped fps requested minimum wanted)
          × (wanted ≤ clamped fps requested minimum wanted)
          × ((requested ≡ 0) ⊎ (clamped fps requested minimum wanted ≤ requested)))
      ⊎ ((clamped fps requested minimum wanted < fps)
          × (requested ≢ 0)
          × (clamped fps requested minimum wanted ≡ requested))
unfolding clamped
clamped_cases fps requested minimum wanted a = ground arith

clamped_stays :
    (fps requested minimum wanted : ℕ)
    → fps ≤ requested
    → fps ≤ wanted
    → clamped fps requested minimum wanted ≡ fps
unfolding clamped
clamped_stays fps requested minimum wanted r w = ground arith

clamped_bounds :
    (fps requested minimum wanted : ℕ)
    → IsU16 fps
    → (clamped fps requested minimum wanted ≤ fps)
      × ((clamped fps requested minimum wanted ≡ fps)
          ⊎ (((requested ≡ 0) ⊎ (clamped fps requested minimum wanted ≤ requested))
              × ((max minimum 1 ≤ clamped fps requested minimum wanted)
                  ⊎ (clamped fps requested minimum wanted ≡ requested))))
clamped_bounds fps requested minimum wanted a =
    ground (arith, clamped_cases fps requested minimum wanted a)

lowered_stays :
    (fps requested safe minimum deadband step wanted : ℕ)
    → IsU16 fps
    → IsU16 deadband
    → (wanted ≡ fps) ⊎ ((safe ≢ 0) × (safe + deadband < fps) × (wanted ≡ safe))
    → clamped fps requested minimum wanted < fps
    → upshift_target (clamped fps requested minimum wanted) requested safe deadband step
      ≡ clamped fps requested minimum wanted
lowered_stays fps requested safe minimum deadband step wanted a d w less =
    upshift_stays (clamped fps requested minimum wanted) requested safe deadband step (omega arith)
      d (ground (arith, clamped_cases fps requested minimum wanted a))

raised_stays :
    (up requested safe minimum deadband overload : ℕ)
    → up ≢ 0
    → up ≤ requested
    → (safe ≡ 0) ⊎ (up ≤ safe)
    → downshift_target up requested safe false minimum deadband overload ≡ up
raised_stays up requested safe minimum deadband overload nz r s =
    rw (downshift-clamped up requested safe minimum deadband overload false nz) (
      clamped_stays up requested minimum (downshift_wanted up safe false deadband overload) r
        (ground (arith, wanted_soft up safe deadband overload)))

either : (a b : ℕ) {P : Type 0} → (a < b → P) → (b ≤ a) ⊎ P
either a b {P} f = elim (side a b) [ inl lt ↦ inr (f lt) | inr le ↦ inl le ]
  where
    side : (a b : ℕ) → (a < b) ⊎ (b ≤ a)
    side a b = omega arith

-- An upshift and a downshift never undo one another on the same measurement: for a nonzero rate
-- and without a hard overload, a rate that was just raised is not lowered, and a rate that was
-- just lowered is not raised (all rates in 16 bits).
pub cadence_hysteresis :
    (fps requested safe minimum deadband step overload : ℕ)
    → IsU16 fps
    → IsU16 requested
    → IsU16 safe
    → IsU16 deadband
    → IsU16 step
    → fps ≢ 0
    → let up = upshift_target fps requested safe deadband step in
      let down = downshift_target fps requested safe false minimum deadband overload in
      ((up ≤ fps) ⊎ (downshift_target up requested safe false minimum deadband overload ≡ up))
      × ((fps ≤ down) ⊎ (upshift_target down requested safe deadband step ≡ down))
cadence_hysteresis fps requested safe minimum deadband step overload a b c d e nz =
    (either _ _ raised, either _ _ lowered)
  where
    up : ℕ
    up = upshift_target fps requested safe deadband step

    raised : fps < up → downshift_target up requested safe false minimum deadband overload ≡ up
    raised less = elim (upshift_cases fps requested safe deadband step a b e) [
      | inl same ↦ absurd (omega arith)
      | inr (_, r, s) ↦ raised_stays up requested safe minimum deadband overload (omega arith) r s
    ]

    lowered :
        downshift_target fps requested safe false minimum deadband overload < fps
        → upshift_target
            (downshift_target fps requested safe false minimum deadband overload)
            requested
            safe
            deadband
            step
          ≡ downshift_target fps requested safe false minimum deadband overload
    lowered = rw (downshift-clamped fps requested safe minimum deadband overload false nz) (
        lowered_stays fps requested safe minimum deadband step
          (downshift_wanted fps safe false deadband overload) a d
          (wanted_soft fps safe deadband overload))

-- From a nonzero rate (all rates in 16 bits) a downshift never raises the rate, and where it
-- lowers the rate the result is within the requested rate (if there is one) and is no lower than
-- the minimum unless it is the requested rate. An upshift never lowers the rate, and where it
-- raises it, stays within the requested rate and the rate that decoding can hold.
pub cadence_bounds :
    (fps requested safe minimum deadband step overload : ℕ) (hard : Bool)
    → IsU16 fps
    → IsU16 requested
    → IsU16 deadband
    → IsU16 step
    → fps ≢ 0
    → let up = upshift_target fps requested safe deadband step in
      let down = downshift_target fps requested safe hard minimum deadband overload in
      (down ≤ fps)
      × ((down ≡ fps)
          ⊎ (((requested ≡ 0) ⊎ (down ≤ requested))
              × ((max minimum 1 ≤ down) ⊎ (down ≡ requested))))
      × (fps ≤ up)
      × ((up ≡ fps) ⊎ ((up ≤ requested) × ((safe ≡ 0) ⊎ (up ≤ safe))))
cadence_bounds fps requested safe minimum deadband step overload hard a b d e nz =
    let (lower, stop) =
      clamped_bounds fps requested minimum (downshift_wanted fps safe hard deadband overload) a in
    (
      rw down_is lower,
      rw down_is stop,
      fps-le-upshift fps requested safe deadband step a b e d,
      ground (arith, upshift_cases fps requested safe deadband step a b e),
    )
  where
    down_is :
        downshift_target fps requested safe hard minimum deadband overload
        ≡ clamped fps requested minimum (downshift_wanted fps safe hard deadband overload)
    down_is = downshift-clamped fps requested safe minimum deadband overload hard nz
