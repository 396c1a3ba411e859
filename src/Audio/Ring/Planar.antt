-- ===== src/Audio/Ring/Planar.antt =====
-- The write of frames that come as one array for each channel.
use waydisplay.Prelude.{
  length, get_or, IsU64, ℕ, suc, ◌+◌, ◌≤◌, ◌<◌, ◌≡◌, refl, ap, ◌∙◌, List, [], ◌∷◌, map,
}
use waydisplay.Audio.Ring.{write_planar, PcmRing}
use waydisplay.Audio.Ring.Frames.{IsValid}
use waydisplay.Audio.Ring.Write.{stamped}
use waydisplay.Audio.Ring.Append.{Appends, write_source-Appends, usable}

length-map : {A B : Type 0} (f : A → B) (xs : List A) → length (map f xs) ≡ length xs
length-map f [] = refl
length-map f (x ∷ xs) = ap suc (length-map f xs)

module _ {A : Type 0} (silence : A) where
  -- wd_audio_pcm_ring_write_planar of a usable number of frames, with a plane for each channel of
  -- the ring, is the step of a bounded queue that is given, as frame `i`, entry `i` of each plane in
  -- the order of the planes, with the time stamp `first_pts + i` (modulo 2^64): it appends all
  -- frames, or, exactly when they do not fit, none, and counts an overrun. The write counter must
  -- be short of its wrap at 2^64.
  pub write_planar-Appends :
      (r : PcmRing A) (planes : List (List A)) (frames first_pts : ℕ)
      → IsValid silence r
      → 0 < frames
      → frames ≤ r.capacity_frames
      → IsU64 (r.write_frame + frames)
      → length planes ≡ r.channels
      → Appends silence r
          (stamped silence (λ i. map (λ plane. get_or plane i silence) planes) first_pts 0 frames)
          (write_planar silence r planes frames first_pts)
  unfolding write_planar
  write_planar-Appends r planes frames first_pts h pos fits w all_planes =
      rw (usable silence r frames h pos fits) (
        write_source-Appends silence r frames (λ i. map (λ plane. get_or plane i silence) planes)
          first_pts h (λ i. length-map (λ plane. get_or plane i silence) planes ∙ all_planes) w)
