-- ===== src/Audio/Tests.antt =====
-- The theorems at concrete inputs: a mono ring of four frames, whose samples are numbers, and packets.
use waydisplay.Prelude.{
  ltb, if◌then◌else◌, length, get_or, ℕ, ◌*◌, ◌<◌, ◌≡◌, refl, ◌⊎◌, inr, Bool, true, false, none,
  some, List, [], ◌∷◌, ◌++◌, map, arith,
}
use waydisplay.Audio.Ring.{
  slice, drop_all, queued_frames, ring_init, ring_write, write_capture, write_planar, ring_read,
  PcmRing, Gathered,
}
use waydisplay.Audio.Ring.Frames.{queue, IsValid}
use waydisplay.Audio.Ring.Write.{stamped}
use waydisplay.Audio.Ring.Append.{Appends, ring_write-Appends}
use waydisplay.Audio.Ring.Conversion.{frame_at, converted}
use waydisplay.Audio.Ring.Capture.{Converts, write_capture-Appends}
use waydisplay.Audio.Ring.Planar.{write_planar-Appends}
use waydisplay.Audio.Ring.Size.{queued_frames_exact}
use waydisplay.Audio.Ring.Start.{init-IsValid}
use waydisplay.Audio.Ring.Read.{Returns, ring_read_takes}
use waydisplay.Audio.Packet.{
  packetizer_begin, make_packet, make_eos, no_packet_yet, AudioPacketizer, PacketOutcome,
  frame_decoded, frame_broken,
}
use waydisplay.Audio.Packet.Valid.{Passes, packets_pass}
use waydisplay.Audio.Packet.Timeline.{restarts, Frame}
use waydisplay.Audio.Packet.Expected.{restarts_expected, timeline_exact}

-- Two frames are queued, around the end of the array.
abbrev wrapped : PcmRing ℕ
wrapped = record {
  samples = 11 ∷ 0 ∷ 0 ∷ 10 ∷ [];
  pts_samples = 101 ∷ 0 ∷ 0 ∷ 100 ∷ [];
  capacity_frames = 4;
  channels = 1;
  read_frame = 3;
  write_frame = 5;
  overruns = 0;
}

wrapped-IsValid : IsValid 0 wrapped
wrapped-IsValid = record {
  capacity_pos = omega arith;
  capacity_word = omega arith;
  channels_pos = omega arith;
  channels_two = omega arith;
  samples_all = refl;
  pts_all = refl;
  behind = omega arith;
  full = omega arith;
  word = omega arith;
}

ring_write-Appends_example :
    Appends 0 wrapped
      (stamped 0 (λ i. slice 0 (12 ∷ 13 ∷ []) (i * 1) 1) 102 0 2)
      (ring_write 0 wrapped (12 ∷ 13 ∷ []) 2 102)
ring_write-Appends_example =
    ring_write-Appends 0 wrapped (12 ∷ 13 ∷ []) 2 102 wrapped-IsValid (omega arith) (omega arith)
      (omega arith)

abbrev two : ℕ
two = 2

ring_read_takes_example :
    IsValid 0 (ring_read 0 wrapped 2).0
    × (((taken : List (ℕ × List ℕ)) × (g : Gathered ℕ) × ((ring_read 0 wrapped 2).1 ≡ some g)
          × Returns taken g
          × (length taken ≡ two)
          × (0 < 2)
          × (queue 0 wrapped ≡ taken ++ queue 0 (ring_read 0 wrapped 2).0))
        ⊎ (((two ≡ 0) ⊎ (length (queue 0 wrapped) < 2))
            × ((ring_read 0 wrapped 2).1 ≡ none)
            × ((ring_read 0 wrapped 2).0 ≡ wrapped)))
ring_read_takes_example = ring_read_takes 0 wrapped 2 wrapped-IsValid

abbrev lower_of : ℕ → ℕ → ℕ
lower_of a b = if ltb a b then a else b

-- A stereo capture of two frames.
abbrev stereo : List ℕ
stereo = 20 ∷ 30 ∷ 50 ∷ 40 ∷ []

write_capture-Appends_example :
    Appends 0 wrapped
      (stamped 0 (frame_at 1 (converted 0 lower_of 1 stereo 2 2 false)) 102 0 2)
      (write_capture 0 lower_of wrapped (some stereo) 2 2 false 102)
unfolding Converts
write_capture-Appends_example =
    write_capture-Appends 0 lower_of wrapped stereo 2 2 102 false wrapped-IsValid (omega arith)
      (omega arith) (omega arith) (inr (refl, refl)) (omega arith)

abbrev frames_of_ring : ℕ
frames_of_ring = 480

init-IsValid_test :
    (r : PcmRing ℕ) × (ring_init 0 frames_of_ring two true ≡ some r)
    × (r.capacity_frames ≡ frames_of_ring)
    × (r.channels ≡ two)
    × IsValid 0 r
    × (queue 0 r ≡ [])
init-IsValid_test =
    init-IsValid 0 frames_of_ring two (omega arith) (omega arith) (omega arith) (omega arith)

abbrev one_plane : List (List ℕ)
one_plane = (12 ∷ 13 ∷ []) ∷ []

write_planar-Appends_test :
    Appends 0 wrapped
      (stamped 0 (λ i. map (λ plane. get_or plane i 0) one_plane) 102 0 2)
      (write_planar 0 wrapped one_plane 2 102)
write_planar-Appends_test =
    write_planar-Appends 0 wrapped one_plane 2 102 wrapped-IsValid (omega arith) (omega arith)
      (omega arith) refl

queued_frames_exact_test :
    (queued_frames wrapped ≡ length (queue 0 wrapped))
    × IsValid 0 (drop_all wrapped)
    × (queue 0 (drop_all wrapped) ≡ [])
    × (queued_frames (drop_all wrapped) ≡ 0)
queued_frames_exact_test = queued_frames_exact 0 wrapped wrapped-IsValid

abbrev begun : AudioPacketizer
begun = packetizer_begin 7 42 3 9

packets_pass_test :
    Passes begun 80 (make_packet begun 4800 480 80) × Passes begun 0 (make_eos begun 4800)
packets_pass_test =
    packets_pass begun refl (omega arith) 4800 480 80 refl (omega arith) (omega arith) (omega arith)

abbrev sent_frame : ℕ → ℕ → Bool → PacketOutcome → Frame
sent_frame pts duration lost outcome = record {
  pts_samples = pts;
  duration_samples = duration;
  data_size = 80;
  marked = false;
  lost = lost;
  resets = true;
  outcome = outcome;
}

-- The second packet is lost, the fourth has another duration, and the sixth is not decoded.
abbrev some_missing : List Frame
some_missing =
    sent_frame 0 480 false frame_decoded
    ∷ sent_frame 480 480 true frame_decoded
    ∷ sent_frame 960 480 false frame_decoded
    ∷ sent_frame 1440 960 false frame_decoded
    ∷ sent_frame 2400 480 false frame_decoded
    ∷ sent_frame 2880 480 false frame_broken
    ∷ sent_frame 3360 480 false frame_decoded
    ∷ sent_frame 3840 480 false frame_decoded
    ∷ []

timeline_exact_example :
    restarts 480 begun no_packet_yet some_missing
    ≡ true ∷ true ∷ false ∷ true ∷ false ∷ true ∷ false ∷ []
unfolding restarts_expected make_packet
timeline_exact_example = timeline_exact 480 7 42 3 9 some_missing
