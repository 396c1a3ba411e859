-- ===== src/Audio/Ring/Read.antt =====
-- A read takes from the front of the queue.
use mathlib.Core.List.{append-nil, append_assoc}
use native.Mathlib.Nat.{mod-eq_of_lt}
use waydisplay.Prelude.{
  ◌==◌, ◌/=◌, if◌then◌else◌, lt→ltb, le→ltb, ne_zero_test, length, u64, sub64, ℕ, zero, suc, ◌+◌,
  ◌-◌, ◌≤◌, ◌<◌, ◌≡◌, refl, sym, ap, ◌∙◌, subst, ◌⊎◌, inl, inr, Bool, true, false, ◌&&◌, none, some,
  List, [], ◌∷◌, ◌++◌, arith,
}
use waydisplay.Audio.Ring.{gather, ring_read, PcmRing, Gathered}
use waydisplay.Audio.Ring.Frames.{
  entry_at, entries, queue, length-entries, entries-append, entries_counters, stored, IsValid,
}

module _ {A : Type 0} where
  -- The samples of queued frames, one after the other.
  pub samples_of : List (ℕ × List A) → List A
  samples_of [] = []
  samples_of ((pts, frame) ∷ rest) = frame ++ samples_of rest

  -- The time stamps go up by one, from `pts` on.
  pub consecutive_from : ℕ → List (ℕ × List A) → Bool
  consecutive_from pts [] = true
  consecutive_from pts ((next, _) ∷ rest) = next == u64 (pts + 1) && consecutive_from next rest

  -- What a read of these frames returns through its pointers.
  pub Returns : List (ℕ × List A) → Gathered A → Type 0
  Returns [] g = Unit
  Returns ((pts, frame) ∷ rest) g =
      (g.first ≡ pts)
      × (g.contiguous ≡ consecutive_from pts rest)
      × (g.output ≡ frame ++ samples_of rest)

module _ {A : Type 0} (silence : A) where
  -- What a round after the first makes of what is gathered.
  gathered_next : PcmRing A → ℕ → Gathered A → Gathered A
  gathered_next r p g =
      let (pts, frame) = entry_at silence r p in
      record {
        first = g.first;
        previous = pts;
        contiguous = (if pts /= u64 (g.previous + 1) then false else g.contiguous);
        output = g.output ++ frame;
      }

  gather_next :
      (r : PcmRing A) (left frame : ℕ) (g : Gathered A)
      → 0 < frame
      → gather silence r (suc left) frame g
        ≡ gather silence r left (frame + 1) (gathered_next r (r.read_frame + frame) g)
  unfolding gather gathered_next
  gather_next r left frame g pos = rw (ne_zero_test frame (omega arith)) refl

  contiguous_next :
      (x y : ℕ) (c k : Bool) → ((if x /= y then false else c) && k) ≡ (c && (x == y && k))
  contiguous_next x y c k = ground arith

  gather_later :
      (r : PcmRing A) (left frame : ℕ) (g : Gathered A)
      → 0 < frame
      → let g' = gather silence r left frame g in
        let es = entries silence r (r.read_frame + frame) left in
        (g'.first ≡ g.first)
        × (g'.contiguous ≡ (g.contiguous && consecutive_from g.previous es))
        × (g'.output ≡ g.output ++ samples_of es)
  unfolding gather entries consecutive_from samples_of gathered_next
  gather_later r zero frame g pos = (refl, and_true_right g.contiguous, sym (append-nil g.output))
    where
      and_true_right : (b : Bool) → b ≡ (b && true)
      and_true_right b = ground arith
  gather_later r (suc left) frame g pos =
      let p = r.read_frame + frame in
      let e : p + 1 ≡ r.read_frame + (frame + 1) = omega arith in
      let (a, b, c) = gather_later r left (frame + 1) (gathered_next r p g) (omega arith) in
      let (pts, xs) = entry_at silence r p in
      let rest = entries silence r (r.read_frame + (frame + 1)) left in
      rw (gather_next r left frame g pos, e)
        (
          a,
          b ∙ contiguous_next pts (u64 (g.previous + 1)) g.contiguous (consecutive_from pts rest),
          c ∙ append_assoc g.output xs (samples_of rest),
        )

  gather-Returns :
      (r : PcmRing A) (n : ℕ)
      → Returns (entries silence r r.read_frame (suc n)) (
          gather silence r
            (suc n)
            0
            (record { first = 0; previous = 0; contiguous = true; output = [] }))
  unfolding gather entries Returns
  gather-Returns r n =
      let e : r.read_frame + 0 ≡ r.read_frame = omega arith in
      let f : r.read_frame + (0 + 1) ≡ r.read_frame + 0 + 1 = omega arith in
      let (pts, xs) = entry_at silence r (r.read_frame + 0) in
      let g1 : Gathered A = record {
        first = pts;
        previous = pts;
        contiguous = true;
        output = xs;
      } in
      let start : Gathered A = record { first = 0; previous = 0; contiguous = true; output = [] } in
      subst (λ p. Returns (entries silence r p (suc n)) (gather silence r (suc n) 0 start)) e
        (subst (λ p. Returns ((pts, xs) ∷ entries silence r p n) (gather silence r n 1 g1)) f
          (gather_later r n 1 g1 (omega arith)))

  read-IsValid :
      (r : PcmRing A) (frames : ℕ)
      → IsValid silence r
      → r.read_frame + frames ≤ r.write_frame
      → IsValid silence (record r { read_frame = u64 (r.read_frame + frames) })
  read-IsValid r frames h le =
      let w = h.word in
      let full = h.full in
      let e : u64 (r.read_frame + frames) ≡ r.read_frame + frames = mod-eq_of_lt (omega arith) in
      record {
        capacity_pos = h.capacity_pos;
        capacity_word = h.capacity_word;
        channels_pos = h.channels_pos;
        channels_two = h.channels_two;
        samples_all = h.samples_all;
        pts_all = h.pts_all;
        behind = rw e le;
        full = rw e (omega arith);
        word = h.word;
      }

  queued_cases :
      (r : PcmRing A)
      → IsValid silence r
      → sub64 r.write_frame r.read_frame ≡ length (queue silence r)
  unfolding queue
  queued_cases r h =
      let a = h.behind in
      let w = h.word in
      omega (arith, length-entries silence r r.read_frame (r.write_frame - r.read_frame))

  queue-split :
      (r : PcmRing A) (frames : ℕ)
      → IsValid silence r
      → r.read_frame + frames ≤ r.write_frame
      → queue silence r
        ≡ entries silence r r.read_frame frames
          ++ queue silence (record r { read_frame = u64 (r.read_frame + frames) })
  unfolding queue
  queue-split r frames h le =
      let w = h.word in
      let e : u64 (r.read_frame + frames) ≡ r.read_frame + frames = mod-eq_of_lt (omega arith) in
      let n : r.write_frame - r.read_frame
          ≡ frames + (r.write_frame - u64 (r.read_frame + frames)) =
        omega (arith, e) in
      ap (entries silence r r.read_frame) n
      ∙ entries-append silence r r.read_frame frames (r.write_frame - u64 (r.read_frame + frames))
      ∙ ap (λ l. entries silence r r.read_frame frames ++ l)
          (ap (λ p. entries silence r p (r.write_frame - u64 (r.read_frame + frames))) (sym e)
            ∙ sym (
                entries_counters silence r (u64 (r.read_frame + frames)) r.write_frame r.overruns
                  (u64 (r.read_frame + frames)) (r.write_frame - u64 (r.read_frame + frames))))

  length-queue : (r : PcmRing A) → length (queue silence r) ≡ r.write_frame - r.read_frame
  unfolding queue
  length-queue r = length-entries silence r r.read_frame (r.write_frame - r.read_frame)

  -- wd_audio_pcm_ring_read is the step of a queue that is asked for `frames` frames: it takes them
  -- from the front and returns their samples in order, the time stamp of the first, and whether the
  -- time stamps go up by one; for no frames, or for more than are queued, it returns nothing and
  -- leaves the ring as it is. The ring stays well-formed.
  pub ring_read_takes :
      (r : PcmRing A) (frames : ℕ)
      → IsValid silence r
      → let (r', out) = ring_read silence r frames in
        IsValid silence r'
        × (((taken : List (ℕ × List A)) × (g : Gathered A) × (out ≡ some g)
              × Returns taken g
              × (length taken ≡ frames)
              × (0 < frames)
              × (queue silence r ≡ taken ++ queue silence r'))
            ⊎ (((frames ≡ 0) ⊎ (length (queue silence r) < frames)) × (out ≡ none) × (r' ≡ r)))
  unfolding ring_read
  ring_read_takes r zero h =
      let (present, stamps) = stored silence r h in
      rw (present, stamps) (h, inr (inl refl, refl, refl))
  ring_read_takes r (suc n) h =
      let (present, stamps) = stored silence r h in
      let pos : 0 < suc n = omega arith in
      let behind = h.behind in
      rw (present, stamps, ne_zero_test (suc n) (omega arith), queued_cases r h, length-queue r)
        (elim (within (suc n) (r.write_frame - r.read_frame)) [
          | inl le ↦ rw (le→ltb _ _ le) (
            read-IsValid r (suc n) h (omega arith),
            inl (
              entries silence r r.read_frame (suc n),
              _,
              refl,
              gather-Returns r n,
              length-entries silence r r.read_frame (suc n),
              pos,
              queue-split r (suc n) h (omega arith),
            ),
          )
          | inr lt ↦ rw (lt→ltb _ _ lt) (h, inr (inr lt, refl, refl))
        ])
    where
      within : (n q : ℕ) → (n ≤ q) ⊎ (q < n)
      within n q = omega arith
