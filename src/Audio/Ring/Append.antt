-- ===== src/Audio/Ring/Append.antt =====
-- A write as a step of a bounded queue.
use native.Mathlib.Nat.{mod-eq_of_lt}
use waydisplay.Prelude.{
  ltb, lt→ltb, le→ltb, length, u32, u64, sub32, sub64, IsU64, ℕ, ◌+◌, ◌-◌, ◌*◌, ◌≤◌, ◌<◌, ◌≡◌, refl,
  ap₂, ◌∙◌, ◌⊎◌, inl, inr, Bool, true, false, ◌||◌, List, ◌++◌, arith,
}
use waydisplay.Audio.Ring.{slice, put_frames, write_source, unusable, ring_write, PcmRing}
use waydisplay.Audio.Ring.Memory.{length-slice}
use waydisplay.Audio.Ring.Frames.{entries, queue, length-entries, entries_counters, stored, IsValid}
use waydisplay.Audio.Ring.Write.{stamped, length-stamped, entries-put_frames, put_frames_keeps}

module _ {A : Type 0} (silence : A) where
  -- The step of a bounded queue that is given the items: it takes all of them, or, where they do
  -- not fit, none, and counts an overrun.
  pub Appends : PcmRing A → List (ℕ × List A) → PcmRing A × Bool → Type 0
  Appends r items (r', accepted) =
      IsValid silence r'
      × (((length (queue silence r) + length items ≤ r.capacity_frames)
            × (accepted ≡ true)
            × (queue silence r' ≡ queue silence r ++ items)
            × (r'.overruns ≡ r.overruns))
          ⊎ ((r.capacity_frames < length (queue silence r) + length items)
              × (accepted ≡ false)
              × (queue silence r' ≡ queue silence r)
              × (r'.overruns ≡ u64 (r.overruns + 1))))

  -- The test for room is exact.
  room_test :
      (r : PcmRing A) (frames : ℕ)
      → IsValid silence r
      → (ltb r.capacity_frames (sub64 r.write_frame r.read_frame)
          || ltb (sub32 r.capacity_frames (u32 (sub64 r.write_frame r.read_frame))) frames)
        ≡ ltb r.capacity_frames (r.write_frame - r.read_frame + frames)
  room_test r frames h =
      let a = h.behind in
      let b = h.full in
      let c = h.capacity_word in
      let w = h.word in
      let e : sub64 r.write_frame r.read_frame ≡ r.write_frame - r.read_frame = omega arith in
      let f : sub32 r.capacity_frames (u32 (r.write_frame - r.read_frame))
          ≡ r.capacity_frames - (r.write_frame - r.read_frame) =
        omega arith in
      rw (e, f) (ground arith)

  accepted-IsValid :
      (r : PcmRing A) (frames : ℕ) (source : ℕ → List A) (first_pts : ℕ)
      → IsValid silence r
      → IsU64 (r.write_frame + frames)
      → r.write_frame - r.read_frame + frames ≤ r.capacity_frames
      → IsValid silence (record (put_frames r frames 0 source first_pts) {
        write_frame = u64 (r.write_frame + frames);
      })
  accepted-IsValid r frames source first_pts h w fits =
      let (a, b, c, d, o, s, t) = put_frames_keeps silence r frames 0 source first_pts in
      let e : u64 (r.write_frame + frames) ≡ r.write_frame + frames = mod-eq_of_lt w in
      let behind = h.behind in
      record {
        capacity_pos = rw a h.capacity_pos;
        capacity_word = rw a h.capacity_word;
        channels_pos = rw b h.channels_pos;
        channels_two = rw b h.channels_two;
        samples_all = rw (a, b) (s ∙ h.samples_all);
        pts_all = rw a (t ∙ h.pts_all);
        behind = rw (c, e) (omega arith);
        full = rw (a, c, e) (omega arith);
        word = rw e w;
      }

  accepted_queue :
      (r : PcmRing A) (frames : ℕ) (source : ℕ → List A) (first_pts : ℕ)
      → IsValid silence r
      → ((i : ℕ) → length (source i) ≡ r.channels)
      → IsU64 (r.write_frame + frames)
      → r.write_frame - r.read_frame + frames ≤ r.capacity_frames
      → queue silence (record (put_frames r frames 0 source first_pts) {
        write_frame = u64 (r.write_frame + frames);
      })
        ≡ queue silence r ++ stamped silence source first_pts 0 frames
  unfolding queue
  accepted_queue r frames source first_pts h len w fits =
      let (a, b, c, d, o, s, t) = put_frames_keeps silence r frames 0 source first_pts in
      let r' = put_frames r frames 0 source first_pts in
      let e : u64 (r.write_frame + frames) ≡ r.write_frame + frames = mod-eq_of_lt w in
      let behind = h.behind in
      let n : u64 (r.write_frame + frames) - r'.read_frame ≡ r.write_frame - r.read_frame + frames =
        omega arith in
      entries_counters silence r' r'.read_frame (u64 (r.write_frame + frames)) r'.overruns
        r'.read_frame (u64 (r.write_frame + frames) - r'.read_frame)
      ∙ ap₂ (λ p k. entries silence r' p k) c n
      ∙ (entries-put_frames silence r frames 0 source first_pts r.read_frame
          (r.write_frame - r.read_frame)
          (record {
            capacity_pos = h.capacity_pos;
            capacity_word = h.capacity_word;
            samples_all = h.samples_all;
            pts_all = h.pts_all;
          })
          len (omega arith) fits (omega arith))

  overrun-IsValid :
      (r : PcmRing A) (n : ℕ) → IsValid silence r → IsValid silence (record r { overruns = n })
  overrun-IsValid r n h = record {
    capacity_pos = h.capacity_pos;
    capacity_word = h.capacity_word;
    channels_pos = h.channels_pos;
    channels_two = h.channels_two;
    samples_all = h.samples_all;
    pts_all = h.pts_all;
    behind = h.behind;
    full = h.full;
    word = h.word;
  }

  pub write_source-Appends :
      (r : PcmRing A) (frames : ℕ) (source : ℕ → List A) (first_pts : ℕ)
      → IsValid silence r
      → ((i : ℕ) → length (source i) ≡ r.channels)
      → IsU64 (r.write_frame + frames)
      → Appends r
          (stamped silence source first_pts 0 frames)
          (write_source r frames source first_pts)
  unfolding write_source Appends queue
  write_source-Appends r frames source first_pts h e w =
      let n = length-entries silence r r.read_frame (r.write_frame - r.read_frame) in
      let m = length-stamped silence source first_pts 0 frames in
      rw (room_test r frames h, n, m)
        (elim (fits_cases (r.write_frame - r.read_frame + frames) r.capacity_frames) [
          | inl fits ↦ rw (le→ltb _ _ fits) (
            accepted-IsValid r frames source first_pts h w fits,
            inl (
              fits,
              refl,
              accepted_queue r frames source first_pts h e w fits,
              (put_frames_keeps silence r frames 0 source first_pts).4,
            ),
          )
          | inr over ↦ rw (lt→ltb _ _ over) (
            overrun-IsValid r (u64 (r.overruns + 1)) h,
            inr (
              over,
              refl,
              entries_counters silence r r.read_frame r.write_frame (u64 (r.overruns + 1))
                  r.read_frame (r.write_frame - r.read_frame),
              refl,
            ),
          )
        ])
    where
      fits_cases : (a b : ℕ) → (a ≤ b) ⊎ (b < a)
      fits_cases a b = omega arith

  pub usable :
      (r : PcmRing A) (frames : ℕ)
      → IsValid silence r
      → 0 < frames
      → frames ≤ r.capacity_frames
      → unusable r frames ≡ false
  usable r frames h pos fits =
      let (present, stamps) = stored silence r h in rw (present, stamps) (ground arith)

  -- wd_audio_pcm_ring_write of a usable number of frames is the step of a bounded queue that is
  -- given the frames of the buffer in order, frame `i` with the time stamp `first_pts + i` (modulo
  -- 2^64): it appends all of them behind what is queued, or, exactly when they do not fit, none,
  -- leaves the queue as it is and counts an overrun. The ring stays well-formed. The write counter
  -- must be short of its wrap at 2^64.
  pub ring_write-Appends :
      (r : PcmRing A) (samples : List A) (frames first_pts : ℕ)
      → IsValid silence r
      → 0 < frames
      → frames ≤ r.capacity_frames
      → IsU64 (r.write_frame + frames)
      → Appends r
          (stamped silence
            (λ i. slice silence samples (i * r.channels) r.channels)
            first_pts
            0
            frames)
          (ring_write silence r samples frames first_pts)
  unfolding ring_write
  ring_write-Appends r samples frames first_pts h pos fits w = rw (usable r frames h pos fits) (
      write_source-Appends r frames (λ i. slice silence samples (i * r.channels) r.channels)
        first_pts h (λ i. length-slice silence samples (i * r.channels) r.channels) w)
