-- ===== src/Audio/Ring/Start.antt =====
-- A ring that was just initialized.
use native.Mathlib.Nat.{mod-eq_of_lt, mul-le-mul, mul-div_cancel, le-div_iff_mul-le}
use waydisplay.Prelude.{
  ltb, ◌==◌, ◌/=◌, le→ltb, eq_ne_test, ne_zero_ne, replicate, length-replicate, u32_max, size_max,
  u64, ℕ, ◌*◌, ◌/◌, ◌≤◌, ◌<◌, ◌≡◌, refl, ◌⊎◌, inl, inr, true, false, ◌&&◌, ◌||◌, some, [], arith,
}
use waydisplay.Audio.Ring.{size_multiply, ring_init, PcmRing}
use waydisplay.Audio.Ring.Frames.{entries, queue, IsValid}

size_multiply_lem : (a b : ℕ) → a * b ≤ size_max → size_multiply a b ≡ some (a * b)
unfolding size_multiply
size_multiply_lem a b h =
    let e : u64 (a * b) ≡ a * b = mod-eq_of_lt (omega arith) in rw (guard_open, e) refl
  where
    guard_open : (a /= 0 && ltb (size_max / a) b) ≡ false
    guard_open = elim (positive a) [
      | inl z ↦ rw (eq_ne_test a 0 z) refl
      | inr p ↦
          let le : b ≤ size_max / a = (le-div_iff_mul-le p).1 (omega arith) in
          rw (ne_zero_ne a (omega arith)) (le→ltb _ _ le)
    ]
      where
        positive : (n : ℕ) → (n ≡ 0) ⊎ (0 < n)
        positive n = omega arith

module _ {A : Type 0} (silence : A) where
  -- wd_audio_pcm_ring_init of a nonzero 32-bit number of frames and one or two channels succeeds
  -- if its allocations do, and yields a well-formed ring of that size with an empty queue.
  pub init-IsValid :
      (capacity_frames channels : ℕ)
      → 0 < capacity_frames
      → capacity_frames ≤ u32_max
      → 0 < channels
      → channels ≤ 2
      → (r : PcmRing A) × (ring_init silence capacity_frames channels true ≡ some r)
        × (r.capacity_frames ≡ capacity_frames)
        × (r.channels ≡ channels)
        × IsValid silence r
        × (queue silence r ≡ [])
  unfolding ring_init queue entries
  init-IsValid capacity_frames channels pos word some_channels two =
      let bound : capacity_frames * channels ≤ u32_max * 2 = mul-le-mul word two in
      let count : capacity_frames * channels * 4 / 4 ≡ capacity_frames * channels =
        mul-div_cancel (capacity_frames * channels) (omega arith) in
      let stamps : capacity_frames * 8 / 8 ≡ capacity_frames =
        mul-div_cancel capacity_frames (omega arith) in
      (
        record {
          samples = replicate (capacity_frames * channels) silence;
          pts_samples = replicate capacity_frames 0;
          capacity_frames = capacity_frames;
          channels = channels;
          read_frame = 0;
          write_frame = 0;
          overruns = 0;
        },
        rw
            (
              accepted,
              size_multiply_lem capacity_frames channels (omega arith),
              size_multiply_lem (capacity_frames * channels) 4 (omega arith),
              size_multiply_lem capacity_frames 8 (omega arith),
              count,
              stamps,
            )
            refl,
        refl,
        refl,
        record {
          capacity_pos = pos;
          capacity_word = word;
          channels_pos = some_channels;
          channels_two = two;
          samples_all = length-replicate (capacity_frames * channels) silence;
          pts_all = length-replicate capacity_frames 0;
          behind = omega arith;
          full = omega arith;
          word = omega arith;
        },
        refl,
      )
    where
      accepted : (capacity_frames == 0 || (channels == 0 || ltb 2 channels)) ≡ false
      accepted = ground arith
