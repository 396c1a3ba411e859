-- ===== src/Audio/Ring.antt =====
-- src/server/wd_audio_ring.c: the ring of PCM frames between the capture thread and the encoder.
-- A float is a value of a parameter `A`: samples are only moved, but for the 0.0f of silence and
-- the mean of two channels, which are parameters. `[]` is the null pointer of an array; the arguments `ring`, `samples`
-- and `planes` are not null. The operations are those of one thread at a time.
pub mod Memory
pub mod Frames
pub mod Write
pub mod Read
pub mod Append
pub mod Capture
pub mod Conversion
pub mod Start
pub mod Planar
pub mod Size
use waydisplay.Prelude.{
  ltb, leb, ◌==◌, ◌/=◌, if◌then◌else◌, is_nil, get_or, set, replicate, u32_max, size_max, u32, u64,
  sub32, sub64, ℕ, zero, suc, ◌+◌, ◌-◌, ◌*◌, ◌/◌, ◌%◌, Bool, true, false, not, ◌&&◌, ◌||◌, Option,
  none, some, List, [], ◌∷◌, ◌++◌, map,
}

-- struct wd_audio_pcm_ring
pub record PcmRing (A : Type 0) : Type 0 where
  pub samples : List A
  pub pts_samples : List ℕ
  pub capacity_frames : ℕ
  pub channels : ℕ
  pub read_frame : ℕ
  pub write_frame : ℕ
  pub overruns : ℕ

-- `memcpy` to and from an array at an offset.
pub blit : {A : Type 0} → List A → ℕ → List A → List A
blit destination offset [] = destination
blit destination offset (x ∷ xs) = blit (set destination offset x) (offset + 1) xs

pub slice : {A : Type 0} → A → List A → ℕ → ℕ → List A
slice d source offset zero = []
slice d source offset (suc n) = get_or source offset d ∷ slice d source (offset + 1) n

-- wd_audio_size_multiply
pub size_multiply : ℕ → ℕ → Option ℕ
size_multiply a b = if a /= 0 && ltb (size_max / a) b then none else some (u64 (a * b))

-- What the loop of wd_audio_pcm_ring_read has gathered.
pub record Gathered (A : Type 0) : Type 0 where
  pub first : ℕ
  pub previous : ℕ
  pub contiguous : Bool
  pub output : List A

module _ {A : Type 0} where
  -- wd_audio_pcm_ring_finish
  pub ring_finish : PcmRing A → PcmRing A
  ring_finish r = record {
    samples = [];
    pts_samples = [];
    capacity_frames = 0;
    channels = 0;
    read_frame = 0;
    write_frame = 0;
    overruns = 0;
  }

  -- wd_audio_pcm_ring_reset
  pub ring_reset : PcmRing A → PcmRing A
  ring_reset r = record r { read_frame = 0; write_frame = 0 }

  -- wd_audio_pcm_ring_drop_all
  pub drop_all : PcmRing A → PcmRing A
  drop_all r = record r { read_frame = r.write_frame }

  -- `(uint32_t)(position % capacity_frames)` of a 64-bit position.
  pub slot_of : PcmRing A → ℕ → ℕ
  slot_of r position = u32 (u64 position % r.capacity_frames)

  -- One round of the three write loops: the frame's samples and its time stamp.
  pub put_frame : PcmRing A → ℕ → List A → ℕ → PcmRing A
  put_frame r position frame pts = record r {
    samples = blit r.samples (slot_of r position * r.channels) frame;
    pts_samples = set r.pts_samples (slot_of r position) pts;
  }

  -- The loop, with `left` rounds to go; `source` gives the samples of a frame.
  pub put_frames : PcmRing A → ℕ → ℕ → (ℕ → List A) → ℕ → PcmRing A
  put_frames r zero frame source first_pts = r
  put_frames r (suc left) frame source first_pts =
      put_frames (put_frame r (r.write_frame + frame) (source frame) (u64 (first_pts + frame))) left
        (frame + 1) source first_pts

  -- The part that the three write functions share: the test for room, the loop and the release.
  pub write_source : PcmRing A → ℕ → (ℕ → List A) → ℕ → PcmRing A × Bool
  write_source r frames source first_pts =
      let queued = sub64 r.write_frame r.read_frame in
      let written = put_frames r frames 0 source first_pts in
      if ltb r.capacity_frames queued || ltb (sub32 r.capacity_frames (u32 queued)) frames
      then (record r { overruns = u64 (r.overruns + 1) }, false)
      else (record written { write_frame = u64 (r.write_frame + frames) }, true)

  abbrev pub unusable : PcmRing A → ℕ → Bool
  unusable r frames =
      is_nil r.samples || (is_nil r.pts_samples || (frames == 0 || ltb r.capacity_frames frames))

  -- wd_audio_pcm_ring_queued_frames
  pub queued_frames : PcmRing A → ℕ
  queued_frames r =
      let queued = if leb r.read_frame r.write_frame then r.write_frame - r.read_frame else 0 in
      if ltb u32_max queued then u32_max else u32 queued

module _ {A : Type 0} (silence : A) where
  -- wd_audio_pcm_ring_init; `allocates` says whether both allocations succeed. A float has 4 bytes
  -- and a time stamp 8.
  pub ring_init : ℕ → ℕ → Bool → Option (PcmRing A)
  unfolding size_multiply
  ring_init capacity_frames channels allocates =
      if capacity_frames == 0 || (channels == 0 || ltb 2 channels)
      then none
      else elim (size_multiply capacity_frames channels) [
        | none ↦ none
        | some sample_count ↦ elim (size_multiply sample_count 4) [
          | none ↦ none
          | some sample_bytes ↦ elim (size_multiply capacity_frames 8) [
            | none ↦ none
            | some pts_bytes ↦
                (if allocates
                  then some (record {
                    samples = replicate (sample_bytes / 4) silence;
                    pts_samples = replicate (pts_bytes / 8) 0;
                    capacity_frames = capacity_frames;
                    channels = channels;
                    read_frame = 0;
                    write_frame = 0;
                    overruns = 0;
                  })
                  else none)
          ]
        ]
      ]

  -- wd_audio_pcm_ring_write
  pub ring_write : PcmRing A → List A → ℕ → ℕ → PcmRing A × Bool
  unfolding write_source
  ring_write r samples frames first_pts =
      if unusable r frames
      then (r, false)
      else write_source r frames (λ frame. slice silence samples (frame * r.channels) r.channels)
          first_pts

  -- The samples of a captured frame in wd_audio_pcm_ring_write_capture.
  pub capture_frame : (A → A → A) → PcmRing A → List A → ℕ → Bool → ℕ → List A
  capture_frame mean r samples source_channels silent frame =
      if silent
      then replicate r.channels silence
      else if source_channels == r.channels
      then slice silence samples (frame * source_channels) r.channels
      else mean (get_or samples (frame * 2) silence) (get_or samples (frame * 2 + 1) silence) ∷ []

  -- wd_audio_pcm_ring_write_capture
  pub write_capture :
      (A → A → A) → PcmRing A → Option (List A) → ℕ → ℕ → Bool → ℕ → PcmRing A × Bool
  unfolding write_source capture_frame
  write_capture mean r samples frames source_channels silent first_pts =
      let given : List A = elim samples [ none ↦ [] | some xs ↦ xs ] in
      let missing : Bool = elim samples [ none ↦ true | some _ ↦ false ] in
      if unusable r frames
        || (source_channels == 0 || (ltb 2 source_channels || (not silent && missing)))
      then (r, false)
      else if not silent
          && (source_channels /= r.channels && not (source_channels == 2 && r.channels == 1))
      then (r, false)
      else write_source r frames (capture_frame mean r given source_channels silent) first_pts

  -- wd_audio_pcm_ring_write_planar; the planes are those of the ring's channels.
  pub write_planar : PcmRing A → List (List A) → ℕ → ℕ → PcmRing A × Bool
  unfolding write_source
  write_planar r planes frames first_pts =
      if unusable r frames
      then (r, false)
      else write_source r frames (λ frame. map (λ plane. get_or plane frame silence) planes)
          first_pts

  pub gather : PcmRing A → ℕ → ℕ → Gathered A → Gathered A
  gather r zero frame g = g
  gather r (suc left) frame g =
      let slot = slot_of r (r.read_frame + frame) in
      let pts = get_or r.pts_samples slot 0 in
      gather r left (frame + 1) (record {
        first = (if frame == 0 then pts else g.first);
        previous = pts;
        contiguous =
            (if frame == 0
              then g.contiguous
              else if pts /= u64 (g.previous + 1)
              then false
              else g.contiguous);
        output = g.output ++ slice silence r.samples (slot * r.channels) r.channels;
      })

  -- wd_audio_pcm_ring_read: the frames that it returns, and what it writes through its pointers.
  pub ring_read : PcmRing A → ℕ → PcmRing A × Option (Gathered A)
  unfolding gather
  ring_read r frames =
      let g =
        gather r frames 0 (record { first = 0; previous = 0; contiguous = true; output = [] }) in
      if is_nil r.samples || (is_nil r.pts_samples || frames == 0)
      then (r, none)
      else if ltb (sub64 r.write_frame r.read_frame) frames
      then (r, none)
      else (record r { read_frame = u64 (r.read_frame + frames) }, some g)
