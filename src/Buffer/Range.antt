-- ===== src/Buffer/Range.antt =====
-- The rows of a frame lie in its buffer: wd_frame_cpu_range_valid of src/common/wd_frame.c.
use native.Mathlib.Nat.{le-div_iff_mul-le}
use waydisplay.Prelude.{
  ltb, leb, ◌==◌, if◌then◌else◌, Bool-cases, size_max, u64, IsU32, ℕ, ◌+◌, ◌-◌, ◌*◌, ◌/◌, ◌≤◌, ◌<◌,
  ◌≡◌, ◌↔◌, inl, inr, Bool, true, false, ◌&&◌, ◌||◌, arith,
}
use waydisplay.Buffer.{Layout}

-- wd_frame_cpu_range_valid, for a buffer that is not null.
unfoldable pub cpu_range_valid : Layout → ℕ → ℕ → ℕ → ℕ → Bool
cpu_range_valid b offset width height stride =
    let row_bytes = u64 (width * 4) in
    let bytes = u64 ((height - 1) * stride + row_bytes) in
    if width == 0 || (height == 0 || ltb stride row_bytes)
    then false
    else if ltb 1 height && ltb ((size_max - row_bytes) / stride) (height - 1)
    then false
    else leb offset b.size && leb bytes (b.size - offset)

all_pass :
    (a c d e : Bool)
    → (if a then false else if c then false else d && e) ≡ true
    → (a ≡ false) × (c ≡ false) × (d ≡ true) × (e ≡ true)
all_pass a c d e h = ground (arith, h)

module _ (b : Layout) (offset width height stride : ℕ) (w : IsU32 width) (s : IsU32 stride)
    (fits : b.size ≤ size_max) where
  abbrev InBuffer : Type 0
  InBuffer =
      (0 < width)
      × (0 < height)
      × (width * 4 ≤ stride)
      × (offset + (height - 1) * stride + width * 4 ≤ b.size)

  no_wrap :
      0 < stride
      → (ltb 1 height && ltb ((size_max - width * 4) / stride) (height - 1)) ≡ false
      → (height - 1) * stride + width * 4 ≤ size_max
  no_wrap pos ok = elim (Bool-cases (ltb 1 height)) [
    | inl several ↦
        let le : height - 1 ≤ (size_max - width * 4) / stride = ground (arith, ok, several) in
        let m : (height - 1) * stride ≤ size_max - width * 4 = (le-div_iff_mul-le pos).0 le in
        omega arith
    | inr one ↦ let e : height - 1 ≡ 0 = ground (arith, one) in rw e (omega arith)
  ]

  passes_check :
      0 < stride
      → (height - 1) * stride + width * 4 ≤ size_max
      → (ltb 1 height && ltb ((size_max - width * 4) / stride) (height - 1)) ≡ false
  passes_check pos small =
      let m : (height - 1) * stride ≤ size_max - width * 4 = omega arith in
      let le : height - 1 ≤ (size_max - width * 4) / stride = (le-div_iff_mul-le pos).1 m in
      ground (arith, le)

  -- For a width and a stride of 32 bits, wd_frame_cpu_range_valid accepts a frame exactly if it has
  -- pixels, its rows do not overlap, and its last row ends in the buffer: its products and sums of 64
  -- bits never mislead it.
  pub range_exact : (cpu_range_valid b offset width height stride ≡ true) ↔ InBuffer
  unfolding cpu_range_valid
  range_exact =
      let row : u64 (width * 4) ≡ width * 4 = omega arith in
      (
        λ ok.
            let (shape, rows, start, ends) =
              all_pass (width == 0 || (height == 0 || ltb stride (width * 4)))
                (ltb 1 height && ltb ((size_max - width * 4) / stride) (height - 1))
                (leb offset b.size)
                (leb (u64 ((height - 1) * stride + width * 4)) (b.size - offset)) (rw row at ok) in
            let pw : 0 < width = ground (arith, shape) in
            let row_fits : width * 4 ≤ stride = ground (arith, shape) in
            let small = no_wrap (omega arith) rows in
            let bytes : u64 ((height - 1) * stride + width * 4)
                ≡ (height - 1) * stride + width * 4 =
              omega (arith, small) in
            (pw, ground (arith, shape), row_fits, ground (arith, start, rw bytes at ends)),
        λ (pw, ph, row_fits, ends).
            let small : (height - 1) * stride + width * 4 ≤ size_max = omega (arith, ends, fits) in
            let bytes : u64 ((height - 1) * stride + width * 4)
                ≡ (height - 1) * stride + width * 4 =
              omega (arith, small) in
            rw (row, bytes, passes_check (omega (arith, pw, row_fits)) small)
              (ground (arith, pw, ph, row_fits, ends)),
      )
