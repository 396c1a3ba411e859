-- ===== src/Audio/Ring/Capture.antt =====
-- The write of captured frames, which converts them to the channels of the ring.
use waydisplay.Prelude.{
  ltb, ◌==◌, ◌/=◌, Bool-cases, length, length-replicate, IsU64, ℕ, ◌+◌, ◌*◌, ◌≤◌, ◌<◌, ◌≡◌, subst,
  ◌⊎◌, inl, inr, Bool, true, false, not, ◌&&◌, ◌||◌, some, List, arith,
}
use waydisplay.Audio.Ring.{write_source, capture_frame, write_capture, PcmRing}
use waydisplay.Audio.Ring.Memory.{length-slice}
use waydisplay.Audio.Ring.Frames.{IsValid}
use waydisplay.Audio.Ring.Write.{stamped, stamped-ext}
use waydisplay.Audio.Ring.Conversion.{frame_at, converted, capture_frame-converted}
use waydisplay.Audio.Ring.Append.{Appends, write_source-Appends, usable}

module _ {A : Type 0} (silence : A) (mean : A → A → A) where
  -- The conversions that the ring knows.
  unfoldable pub Converts : PcmRing A → ℕ → Type 0
  Converts r source_channels =
      (source_channels ≡ r.channels) ⊎ ((source_channels ≡ 2) × (r.channels ≡ 1))

  length-capture_frame :
      (r : PcmRing A) (samples : List A) (source_channels : ℕ) (silent : Bool) (i : ℕ)
      → Converts r source_channels
      → length (capture_frame silence mean r samples source_channels silent i) ≡ r.channels
  unfolding capture_frame Converts
  length-capture_frame r samples source_channels true i c = length-replicate r.channels silence
  length-capture_frame r samples source_channels false i c =
      elim (Bool-cases (source_channels == r.channels)) [
        | inl e ↦ rw e (length-slice silence samples (i * source_channels) r.channels)
        | inr e ↦ rw e (ground arith)
      ]

  accepted_format :
      (r : PcmRing A) (source_channels : ℕ) (silent : Bool)
      → IsValid silence r
      → Converts r source_channels
      → ((source_channels == 0 || (ltb 2 source_channels || (not silent && false))) ≡ false)
        × ((not silent
              && (source_channels /= r.channels && not (source_channels == 2 && r.channels == 1)))
            ≡ false)
  unfolding Converts
  accepted_format r source_channels silent h c =
      let p = h.channels_pos in let q = h.channels_two in (ground arith, ground arith)

  -- wd_audio_pcm_ring_write_capture of a usable number of frames, in the channels of the ring or in
  -- stereo for a mono ring, with samples for all of them, is the step of a bounded queue: it appends
  -- all of the frames in order, or, exactly when they do not fit, none, and counts an overrun. Frame
  -- `i` has the time stamp `first_pts + i` (modulo 2^64), and its samples follow those of the frames
  -- before it in the list of the ring's samples of the capture: zeroes, for a silent one; the
  -- capture's own, for as many channels; and the means of each two of them, for stereo into mono.
  -- The write counter must be short of its wrap at 2^64.
  pub write_capture-Appends :
      (r : PcmRing A) (samples : List A) (frames source_channels first_pts : ℕ) (silent : Bool)
      → IsValid silence r
      → 0 < frames
      → frames ≤ r.capacity_frames
      → IsU64 (r.write_frame + frames)
      → Converts r source_channels
      → frames * source_channels ≤ length samples
      → Appends silence r
          (stamped silence
            (frame_at r.channels
              (converted silence mean r.channels samples frames source_channels silent))
            first_pts
            0
            frames)
          (write_capture silence mean r (some samples) frames source_channels silent first_pts)
  unfolding write_capture Converts
  write_capture-Appends r samples frames source_channels first_pts silent h pos fits w c enough =
      let (a, b) = accepted_format r source_channels silent h c in
      let source = capture_frame silence mean r samples source_channels silent in
      let spec =
        frame_at r.channels
          (converted silence mean r.channels samples frames source_channels silent) in
      let same = stamped-ext silence source spec first_pts 0 frames (λ i lt.
        capture_frame-converted silence mean r samples frames source_channels silent i c enough
          (omega arith)) in
      rw (usable silence r frames h pos fits, a, b)
        (subst (λ items. Appends silence r items (write_source r frames source first_pts)) same
          (write_source-Appends silence r frames source first_pts h
            (λ i. length-capture_frame r samples source_channels silent i c) w))
