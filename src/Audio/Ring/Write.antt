-- ===== src/Audio/Ring/Write.antt =====
-- A write appends to the queue.
use mathlib.Core.List.{append-nil, append_assoc}
use native.Mathlib.Nat.{mod-lt, mul-le-mul_right}
use waydisplay.Prelude.{
  length, length-set, get_or-set_self, get_or-set_ne, u32_max, u64, IsU64, slot_ne, ℕ, zero, suc,
  ◌+◌, ◌*◌, ◌≤◌, ◌<◌, ◌≡◌, refl, sym, ap, ap₂, ◌∙◌, ◌≢◌, List, [], ◌∷◌, ◌++◌, arith,
}
use waydisplay.Audio.Ring.{slot_of, put_frame, put_frames, PcmRing}
use waydisplay.Audio.Ring.Memory.{length-blit, slice-blit_ne, slice-blit_self}
use waydisplay.Audio.Ring.Frames.{blocks_apart, entry_at, entries, slot_of-mod, entries-append}

module _ {A : Type 0} (silence : A) where
  pub record Shape (r : PcmRing A) : Type 0 where
    pub capacity_pos : 0 < r.capacity_frames
    pub capacity_word : r.capacity_frames ≤ u32_max
    pub samples_all : length r.samples ≡ r.capacity_frames * r.channels
    pub pts_all : length r.pts_samples ≡ r.capacity_frames

  put-Shape :
      (r : PcmRing A) (p : ℕ) (frame : List A) (pts : ℕ) → Shape r → Shape (put_frame r p frame pts)
  unfolding put_frame
  put-Shape r p frame pts h = record {
    capacity_pos = h.capacity_pos;
    capacity_word = h.capacity_word;
    samples_all = length-blit r.samples (slot_of r p * r.channels) frame ∙ h.samples_all;
    pts_all = length-set r.pts_samples (slot_of r p) pts ∙ h.pts_all;
  }

  slot_lt : (r : PcmRing A) (p : ℕ) → Shape r → IsU64 p → slot_of r p < r.capacity_frames
  slot_lt r p h w =
      rw (slot_of-mod silence r p h.capacity_pos h.capacity_word w) (mod-lt p h.capacity_pos)

  entry_at-put :
      (r : PcmRing A) (p : ℕ) (frame : List A) (pts : ℕ)
      → Shape r
      → IsU64 p
      → length frame ≡ r.channels
      → entry_at silence (put_frame r p frame pts) p ≡ (pts, frame)
  unfolding put_frame slot_of
  entry_at-put r p frame pts h w e =
      let lt = slot_lt r p h w in
      let block : suc (slot_of r p) * r.channels ≤ r.capacity_frames * r.channels =
        mul-le-mul_right r.channels lt in
      ap₂ (λ a b. (a, b))
        (get_or-set_self r.pts_samples (slot_of r p) pts 0 (omega (arith, h.pts_all)))
        (slice-blit_self r.samples (slot_of r p * r.channels) frame r.channels silence e
          (omega (arith, h.samples_all)))

  entry_at-put_ne :
      (r : PcmRing A) (p j : ℕ) (frame : List A) (pts : ℕ)
      → Shape r
      → IsU64 p
      → length frame ≡ r.channels
      → j < p
      → p < j + r.capacity_frames
      → entry_at silence (put_frame r p frame pts) j ≡ entry_at silence r j
  unfolding put_frame slot_of
  entry_at-put_ne r p j frame pts h w e lt near =
      let ne : slot_of r p ≢ slot_of r j = (λ q. slot_ne r.capacity_frames j p lt near (
        sym (slot_of-mod silence r j h.capacity_pos h.capacity_word (omega arith))
        ∙ sym q
        ∙ slot_of-mod silence r p h.capacity_pos h.capacity_word w)) in
      let apart = blocks_apart (slot_of r p) (slot_of r j) r.channels ne in
      ap₂ (λ a b. (a, b)) (get_or-set_ne r.pts_samples (slot_of r p) (slot_of r j) pts 0 ne)
        (slice-blit_ne r.samples (slot_of r p * r.channels) frame (slot_of r j * r.channels)
          r.channels silence (omega (arith, e)))

  entries-put :
      (r : PcmRing A) (p j n : ℕ) (frame : List A) (pts : ℕ)
      → Shape r
      → IsU64 p
      → length frame ≡ r.channels
      → j + n ≤ p
      → p < j + r.capacity_frames
      → entries silence (put_frame r p frame pts) j n ≡ entries silence r j n
  unfolding entries
  entries-put r p j zero frame pts h w e le near = refl
  entries-put r p j (suc n) frame pts h w e le near =
      ap₂ ◌∷◌ (entry_at-put_ne r p j frame pts h w e (omega arith) near)
        (entries-put r p (j + 1) n frame pts h w e (omega arith) (omega arith))

  -- What `left` rounds from round `frame` on append.
  pub stamped : (ℕ → List A) → ℕ → ℕ → ℕ → List (ℕ × List A)
  stamped source first_pts frame zero = []
  stamped source first_pts frame (suc left) =
      (u64 (first_pts + frame), source frame) ∷ stamped source first_pts (frame + 1) left

  pub stamped-ext :
      (f g : ℕ → List A) (first_pts frame left : ℕ)
      → ((i : ℕ) → i < frame + left → f i ≡ g i)
      → stamped f first_pts frame left ≡ stamped g first_pts frame left
  unfolding stamped
  stamped-ext f g first_pts frame zero h = refl
  stamped-ext f g first_pts frame (suc left) h =
      ap₂ ◌∷◌ (ap (λ l. (u64 (first_pts + frame), l)) (h frame (omega arith)))
        (stamped-ext f g first_pts (frame + 1) left (λ i lt. h i (omega arith)))

  pub length-stamped :
      (source : ℕ → List A) (first_pts frame n : ℕ) → length (stamped source first_pts frame n) ≡ n
  unfolding stamped
  length-stamped source first_pts frame zero = refl
  length-stamped source first_pts frame (suc n) =
      ap suc (length-stamped source first_pts (frame + 1) n)

  entries-put_self :
      (r : PcmRing A) (p j n : ℕ) (frame : List A) (pts : ℕ)
      → Shape r
      → IsU64 p
      → length frame ≡ r.channels
      → j + n ≡ p
      → p < j + r.capacity_frames
      → entries silence (put_frame r p frame pts) j (n + 1)
        ≡ entries silence r j n ++ (pts, frame) ∷ []
  unfolding entries
  entries-put_self r p j n frame pts h w e at near =
      entries-append silence (put_frame r p frame pts) j n 1
      ∙ ap₂ ◌++◌ (entries-put r p j n frame pts h w e (omega arith) near)
          (rw at (ap (λ x. x ∷ []) (entry_at-put r p frame pts h w e)))

  pub entries-put_frames :
      (r : PcmRing A) (left frame : ℕ) (source : ℕ → List A) (first_pts j n : ℕ)
      → Shape r
      → ((i : ℕ) → length (source i) ≡ r.channels)
      → j + n ≡ r.write_frame + frame
      → n + left ≤ r.capacity_frames
      → IsU64 (j + n + left)
      → entries silence (put_frames r left frame source first_pts) j (n + left)
        ≡ entries silence r j n ++ stamped source first_pts frame left
  unfolding put_frames stamped put_frame
  entries-put_frames r zero frame source first_pts j n h e at fits w =
      let f : n + 0 ≡ n = omega arith in rw f (sym (append-nil (entries silence r j n)))
  entries-put_frames r (suc left) frame source first_pts j n h e at fits w =
      let p = r.write_frame + frame in
      let pts = u64 (first_pts + frame) in
      let f : n + suc left ≡ n + 1 + left = omega arith in
      rw f (
        entries-put_frames (put_frame r p (source frame) pts) left (frame + 1) source first_pts j
          (n + 1) (put-Shape r p (source frame) pts h) e (omega arith) (omega arith) (omega arith)
        ∙ ap (λ l. l ++ stamped source first_pts (frame + 1) left)
            (entries-put_self r p j n (source frame) pts h (omega arith) (e frame) at (omega arith))
        ∙ append_assoc (entries silence r j n) ((pts, source frame) ∷ [])
            (stamped source first_pts (frame + 1) left))

  -- The loop changes nothing but the arrays, and no length.
  pub put_frames_keeps :
      (r : PcmRing A) (left frame : ℕ) (source : ℕ → List A) (first_pts : ℕ)
      → let r' = put_frames r left frame source first_pts in
        (r'.capacity_frames ≡ r.capacity_frames)
        × (r'.channels ≡ r.channels)
        × (r'.read_frame ≡ r.read_frame)
        × (r'.write_frame ≡ r.write_frame)
        × (r'.overruns ≡ r.overruns)
        × (length r'.samples ≡ length r.samples)
        × (length r'.pts_samples ≡ length r.pts_samples)
  unfolding put_frames put_frame
  put_frames_keeps r zero frame source first_pts = (refl, refl, refl, refl, refl, refl, refl)
  put_frames_keeps r (suc left) frame source first_pts =
      let p = r.write_frame + frame in
      let r1 = put_frame r p (source frame) (u64 (first_pts + frame)) in
      let (a, b, c, d, o, s, t) = put_frames_keeps r1 left (frame + 1) source first_pts in
      (
        a,
        b,
        c,
        d,
        o,
        s ∙ length-blit r.samples (slot_of r p * r.channels) (source frame),
        t ∙ length-set r.pts_samples (slot_of r p) (u64 (first_pts + frame)),
      )
