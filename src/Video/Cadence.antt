-- ===== src/Video/Cadence.antt =====
-- The cadence functions of src/server/wd_video_transition.c.
pub mod Bounds
pub mod Decode
use waydisplay.Prelude.{
  ltb, leb, ◌==◌, ◌/=◌, if◌then◌else◌, u16, u32, u64, ℕ, ◌+◌, ◌-◌, ◌*◌, ◌/◌, Bool, ◌&&◌, ◌||◌,
  Option, none, some,
}

-- wd_video_present_overflow_pressure
pub present_overflow_pressure : ℕ → ℕ → Bool
present_overflow_pressure replaced frames_presented =
    leb 4 replaced && (frames_presented == 0 || leb (frames_presented / 20) replaced)

-- wd_video_decode_queue_pressure
pub decode_queue_pressure : ℕ → ℕ → Bool
decode_queue_pressure peak_depth capacity = capacity /= 0 && leb capacity peak_depth

-- wd_video_cadence_window_pressure
pub window_pressure : Bool → Bool → Bool → Bool → Bool → Bool
window_pressure visible focused sustained_present_pressure decode_queue_peak decode_queue_drops =
    decode_queue_drops
    || (visible && (sustained_present_pressure || (focused && decode_queue_peak)))

-- wd_video_cadence_window_can_upshift
pub window_can_upshift : Bool → Bool → Bool
window_can_upshift visible focused = visible && focused

-- wd_video_safe_decode_fps. `none` stands for the trap of a division by zero: the divisor
-- `average_decode_ns * 100` is a uint64_t product, which wraps.
unfoldable pub safe_decode_fps : ℕ → ℕ → ℕ → Option ℕ
safe_decode_fps average_decode_ns requested_fps headroom_percent =
    if requested_fps == 0
    then some 0
    else if average_decode_ns == 0 || (headroom_percent == 0 || ltb 100 headroom_percent)
    then some requested_fps
    else (let divisor = u64 (average_decode_ns * 100) in
        let quotient = u64 (1_000_000_000 * headroom_percent) / divisor in
        let positive = if quotient == 0 then 1 else quotient in
        if divisor == 0
        then none
        else some (u16 (if ltb requested_fps positive then requested_fps else positive)))

-- wd_video_decode_ewma_update
unfoldable pub decode_ewma_update : ℕ → ℕ → ℕ → ℕ → ℕ
decode_ewma_update current_ewma_ns sample_ns new_sample_numerator denominator =
    if sample_ns == 0
    then current_ewma_ns
    else if current_ewma_ns == 0
        || (denominator == 0 || (new_sample_numerator == 0 || leb denominator new_sample_numerator))
    then sample_ns
    else u64 (
        u64 (current_ewma_ns * (denominator - new_sample_numerator))
        + u64 (sample_ns * new_sample_numerator))
      / denominator

-- The target before the final clamps of wd_video_cadence_downshift_target.
abbrev pub downshift_wanted : ℕ → ℕ → Bool → ℕ → ℕ → ℕ
downshift_wanted current_fps safe_fps hard_overload deadband_fps overload_percent =
    if hard_overload
    then (let percent =
          if overload_percent == 0 || leb 100 overload_percent then 75 else overload_percent in
        let reduced = u32 (current_fps * percent) / 100 in
        if safe_fps /= 0 && ltb safe_fps reduced then safe_fps else reduced)
    else if safe_fps /= 0 && ltb (safe_fps + deadband_fps) current_fps
    then safe_fps
    else current_fps

-- wd_video_cadence_downshift_target
pub downshift_target : ℕ → ℕ → ℕ → Bool → ℕ → ℕ → ℕ → ℕ
downshift_target current requested_fps safe_fps hard_overload minimum deadband_fps
      overload_percent =
    let current_fps = if current == 0 then requested_fps else current in
    let minimum_fps = if minimum == 0 then 1 else minimum in
    let wanted =
      downshift_wanted current_fps safe_fps hard_overload deadband_fps overload_percent in
    let raised = if ltb wanted minimum_fps then minimum_fps else wanted in
    let target = if requested_fps /= 0 && ltb requested_fps raised then requested_fps else raised in
    if leb current_fps target then current_fps else u16 target

-- wd_video_cadence_upshift_target
pub upshift_target : ℕ → ℕ → ℕ → ℕ → ℕ → ℕ
upshift_target current_fps requested_fps safe_fps deadband_fps step =
    if current_fps == 0 || (requested_fps == 0 || leb requested_fps current_fps)
    then current_fps
    else if safe_fps /= 0
        && (ltb safe_fps requested_fps && leb safe_fps (u32 (current_fps + deadband_fps)))
    then current_fps
    else (let increase_step = if step == 0 then 1 else step in
        let raised = u32 (current_fps + increase_step) in
        let safe = if safe_fps /= 0 && ltb safe_fps raised then safe_fps else raised in
        u16 (if ltb requested_fps safe then requested_fps else safe))

-- wd_video_failure_resume_fps
pub failure_resume_fps : ℕ → ℕ → ℕ
failure_resume_fps requested_fps previous_video_fps =
    if previous_video_fps /= 0 && ltb previous_video_fps requested_fps
    then previous_video_fps
    else requested_fps
