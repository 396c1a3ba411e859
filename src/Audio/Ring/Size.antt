-- ===== src/Audio/Ring/Size.antt =====
-- The count of queued frames, and the emptied ring.
use waydisplay.Prelude.{length, ◌-◌, ◌≡◌, refl, [], arith}
use waydisplay.Audio.Ring.{drop_all, queued_frames, PcmRing}
use waydisplay.Audio.Ring.Frames.{entries, queue, length-entries, IsValid}

module _ {A : Type 0} (silence : A) where
  -- In a well-formed ring the count of queued frames is the length of the queue, and dropping all
  -- frames leaves a well-formed ring with an empty queue, in which nothing is counted.
  pub queued_frames_exact :
      (r : PcmRing A)
      → IsValid silence r
      → (queued_frames r ≡ length (queue silence r))
        × IsValid silence (drop_all r)
        × (queue silence (drop_all r) ≡ [])
        × (queued_frames (drop_all r) ≡ 0)
  unfolding queued_frames queue drop_all entries
  queued_frames_exact r h =
      let behind = h.behind in
      let full = h.full in
      let word = h.capacity_word in
      let n = length-entries silence r r.read_frame (r.write_frame - r.read_frame) in
      let none_left : r.write_frame - r.write_frame ≡ 0 = omega arith in
      (
        rw n (ground arith),
        record {
          capacity_pos = h.capacity_pos;
          capacity_word = h.capacity_word;
          channels_pos = h.channels_pos;
          channels_two = h.channels_two;
          samples_all = h.samples_all;
          pts_all = h.pts_all;
          behind = omega arith;
          full = omega arith;
          word = h.word;
        },
        rw none_left refl,
        ground arith,
      )
