-- ===== src/Video/Cadence/Decode.antt =====
-- The rate that decoding can hold.
use native.Mathlib.Nat.{
  div-mul-le_self, mul-le-mul_right, le_trans, div-lt_iff_lt-mul, le-div_iff_mul-le,
}
use waydisplay.Prelude.{
  u64_max, u64, IsU16, ℕ, ◌+◌, ◌-◌, ◌*◌, ◌/◌, ◌%◌, ◌≤◌, ◌<◌, min, max, ◌≡◌, ◌≢◌, ◌↔◌, ◌⊎◌, inl, inr,
  none, some, arith,
}
use waydisplay.Video.Cadence.{safe_decode_fps, decode_ewma_update}

-- The divisor's wrap, and when it is zero.
divisor_zero : (average : ℕ) → (u64 (average * 100) ≡ 0) ↔ (average % 0x4000_0000_0000_0000 ≡ 0)
divisor_zero average = (λ h. omega arith, λ h. omega arith)

-- The safe rate divides by zero exactly for a session with a rate, a headroom in range, and an
-- average decode time that is a nonzero multiple of 2^62 nanoseconds.
pub safe_decode_fps_traps :
    (average requested headroom : ℕ)
    → (safe_decode_fps average requested headroom ≡ none) ↔ (
        (requested ≢ 0)
        × (average ≢ 0)
        × (average % 0x4000_0000_0000_0000 ≡ 0)
        × (headroom ≢ 0)
        × (headroom ≤ 100))
unfolding safe_decode_fps
safe_decode_fps_traps average requested headroom =
    (ground (arith, (divisor_zero average).0), ground (arith, (divisor_zero average).1))

budget_cases :
    (average requested headroom : ℕ) {fps : ℕ}
    → IsU16 requested
    → requested ≢ 0
    → average ≢ 0
    → average * 100 ≤ u64_max
    → headroom ≢ 0
    → headroom ≤ 100
    → safe_decode_fps average requested headroom ≡ some fps
    → (1 ≤ fps)
      × (fps ≤ requested)
      × ((fps ≡ 1) ⊎ (fps ≤ 1_000_000_000 * headroom / (average * 100)))
unfolding safe_decode_fps
budget_cases average requested headroom w nz ne room hp hl e = ground arith

-- For a session with a rate, a headroom of 1 to 100 and a decode time whose divisor does not
-- wrap, the safe rate is at least 1, at most the requested rate, and above 1 only if decoding
-- that many frames takes at most the headroom's share of a second.
pub safe_decode_fps_budget :
    (average requested headroom : ℕ) {fps : ℕ}
    → IsU16 requested
    → requested ≢ 0
    → average ≢ 0
    → average * 100 ≤ u64_max
    → headroom ≢ 0
    → headroom ≤ 100
    → safe_decode_fps average requested headroom ≡ some fps
    → (1 ≤ fps)
      × (fps ≤ requested)
      × ((fps ≡ 1) ⊎ (fps * (average * 100) ≤ 1_000_000_000 * headroom))
safe_decode_fps_budget average requested headroom {fps} w nz ne room hp hl e =
    let (low, high, cases) = budget_cases average requested headroom w nz ne room hp hl e in
    (
      low,
      high,
      elim cases [
        | inl one ↦ inl one
        | inr le ↦ inr (
            le_trans (mul-le-mul_right (average * 100) le)
              (div-mul-le_self (1_000_000_000 * headroom) (average * 100)))
      ],
    )

weighted :
    (a b lo hi n k d : ℕ)
    → lo ≤ a
    → lo ≤ b
    → a ≤ hi
    → b ≤ hi
    → k + n ≡ d
    → (lo * d ≤ a * k + b * n) × (a * k + b * n ≤ hi * d)
weighted a b lo hi n k d la lb ha hb e =
    let p = mul-le-mul_right k la in
    let q = mul-le-mul_right n lb in
    let r = mul-le-mul_right k ha in
    let s = mul-le-mul_right n hb in rw (← e) (omega arith, omega arith)

mean_between : (x lo hi d : ℕ) → 0 < d → lo * d ≤ x → x ≤ hi * d → (lo ≤ x / d) × (x / d ≤ hi)
mean_between x lo hi d pos l h =
    let below : x / d < hi + 1 = (div-lt_iff_lt-mul pos).1 (omega arith) in
    ((le-div_iff_mul-le pos).1 l, omega arith)

ewma_value :
    (current sample numerator denominator : ℕ)
    → current ≢ 0
    → sample ≢ 0
    → numerator ≢ 0
    → numerator < denominator
    → current * (denominator - numerator) + sample * numerator ≤ u64_max
    → decode_ewma_update current sample numerator denominator
      ≡ (current * (denominator - numerator) + sample * numerator) / denominator
unfolding decode_ewma_update
ewma_value current sample numerator denominator c s n d room = ground arith

pub ewma_first :
    (sample numerator denominator : ℕ) → decode_ewma_update 0 sample numerator denominator ≡ sample
unfolding decode_ewma_update
ewma_first sample numerator denominator = ground arith

-- The first sample is taken as it is, and later ones move the average towards the sample, never
-- past it (for nonzero times, a weight strictly between 0 and 1, and averages whose weighted sum
-- fits into 64 bits).
pub ewma_between :
    (current sample numerator denominator : ℕ)
    → current ≢ 0
    → sample ≢ 0
    → numerator ≢ 0
    → numerator < denominator
    → max current sample * denominator ≤ u64_max
    → (min current sample ≤ decode_ewma_update current sample numerator denominator)
      × (decode_ewma_update current sample numerator denominator ≤ max current sample)
      × (decode_ewma_update 0 sample numerator denominator ≡ sample)
ewma_between current sample numerator denominator c s n d room =
    let (lower, upper) =
      weighted current sample (min current sample) (max current sample) numerator
        (denominator - numerator) denominator (omega arith) (omega arith) (omega arith)
        (omega arith) (omega arith) in
    let (lo, hi) =
      mean_between (current * (denominator - numerator) + sample * numerator) (min current sample)
        (max current sample) denominator (omega arith) lower upper in
    let value = ewma_value current sample numerator denominator c s n d (omega arith) in
    (rw value lo, rw value hi, ewma_first sample numerator denominator)
