-- ===== src/Audio/Ring/Frames.antt =====
-- The frames of the ring as a list, and the slots that they stand in.
use native.Mathlib.Nat.{mod-lt, mod-eq_of_lt, mul-le-mul, mul-le-mul_right}
use waydisplay.Prelude.{
  length, is_nil, get_or, u32_max, u32, u64, IsU64, ℕ, zero, suc, ◌+◌, ◌-◌, ◌*◌, ◌%◌, ◌≤◌, ◌<◌, ◌≡◌,
  refl, ap, ◌≢◌, ◌⊎◌, inl, inr, false, List, [], ◌∷◌, ◌++◌, arith,
}
use waydisplay.Audio.Ring.{slice, slot_of, PcmRing}

-- The blocks of two slots do not meet.
pub blocks_apart : (a b ch : ℕ) → a ≢ b → (a * ch + ch ≤ b * ch) ⊎ (b * ch + ch ≤ a * ch)
blocks_apart a b ch ne = elim (sides a b ne) [
  | inl lt ↦ let m : (a + 1) * ch ≤ b * ch = mul-le-mul_right ch lt in inl (omega arith)
  | inr lt ↦ let m : (b + 1) * ch ≤ a * ch = mul-le-mul_right ch lt in inr (omega arith)
]
  where
    sides : (a b : ℕ) → a ≢ b → (a + 1 ≤ b) ⊎ (b + 1 ≤ a)
    sides a b ne = omega arith

module _ {A : Type 0} (silence : A) where
  pub record IsValid (r : PcmRing A) : Type 0 where
    pub capacity_pos : 0 < r.capacity_frames
    pub capacity_word : r.capacity_frames ≤ u32_max
    pub channels_pos : 0 < r.channels
    pub channels_two : r.channels ≤ 2
    pub samples_all : length r.samples ≡ r.capacity_frames * r.channels
    pub pts_all : length r.pts_samples ≡ r.capacity_frames
    pub behind : r.read_frame ≤ r.write_frame
    pub full : r.write_frame ≤ r.read_frame + r.capacity_frames
    pub word : IsU64 r.write_frame

  -- What stands at a position.
  abbrev pub entry_at : PcmRing A → ℕ → ℕ × List A
  entry_at r position = (
    get_or r.pts_samples (slot_of r position) 0,
    slice silence r.samples (slot_of r position * r.channels) r.channels,
  )

  unfoldable pub entries : PcmRing A → ℕ → ℕ → List (ℕ × List A)
  entries r position zero = []
  entries r position (suc n) = entry_at r position ∷ entries r (position + 1) n

  -- The queue that the ring holds: time stamps and samples, the oldest first.
  unfoldable pub queue : PcmRing A → List (ℕ × List A)
  queue r = entries r r.read_frame (r.write_frame - r.read_frame)

  pub slot_of-mod :
      (r : PcmRing A) (p : ℕ)
      → 0 < r.capacity_frames
      → r.capacity_frames ≤ u32_max
      → IsU64 p
      → slot_of r p ≡ p % r.capacity_frames
  unfolding slot_of
  slot_of-mod r p pos w h =
      let l : p % r.capacity_frames < r.capacity_frames = mod-lt p pos in
      let e : u64 p ≡ p = mod-eq_of_lt h in
      let f : u32 (p % r.capacity_frames) ≡ p % r.capacity_frames = mod-eq_of_lt (omega arith) in
      rw e f

  pub length-entries : (r : PcmRing A) (p n : ℕ) → length (entries r p n) ≡ n
  unfolding entries
  length-entries r p zero = refl
  length-entries r p (suc n) = ap suc (length-entries r (p + 1) n)

  pub entries-append :
      (r : PcmRing A) (p a b : ℕ) → entries r p (a + b) ≡ entries r p a ++ entries r (p + a) b
  unfolding entries
  entries-append r p zero b =
      let e : p + 0 ≡ p = omega arith in let e' : 0 + b ≡ b = omega arith in rw (e, e') refl
  entries-append r p (suc a) b =
      let e : p + suc a ≡ p + 1 + a = omega arith in
      let e' : suc a + b ≡ suc (a + b) = omega arith in
      rw (e, e') (ap (λ l. entry_at r p ∷ l) (entries-append r (p + 1) a b))

  -- The entries do not depend on the counters.
  pub entries_counters :
      (r : PcmRing A) (read write overruns p n : ℕ)
      → entries (record r { read_frame = read; write_frame = write; overruns = overruns }) p n
        ≡ entries r p n
  unfolding entries slot_of
  entries_counters r read write overruns p zero = refl
  entries_counters r read write overruns p (suc n) =
      ap (λ l. entry_at r p ∷ l) (entries_counters r read write overruns (p + 1) n)

  -- The arrays of a well-formed ring are allocated.
  pub stored :
      (r : PcmRing A) → IsValid r → (is_nil r.samples ≡ false) × (is_nil r.pts_samples ≡ false)
  stored r h =
      let a : 1 * 1 ≤ r.capacity_frames * r.channels = mul-le-mul h.capacity_pos h.channels_pos in
      (
        present r.samples (omega (arith, h.samples_all)),
        present r.pts_samples (rw h.pts_all h.capacity_pos),
      )
    where
      present : {X : Type 0} (xs : List X) → 0 < length xs → is_nil xs ≡ false
      present [] lt = absurd (omega arith)
      present (x ∷ xs) lt = refl
