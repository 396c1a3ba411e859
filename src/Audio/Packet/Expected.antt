-- ===== src/Audio/Packet/Expected.antt =====
-- Where the client has to restart its timeline, by the frames alone.
use mathlib.Core.Bool.{or-true, or-false}
use waydisplay.Prelude.{
  ◌/=◌, if◌then◌else◌, Bool-cases, u64, IsU64, ℕ, ◌+◌, ◌≡◌, refl, ap₂, ◌∙◌, ◌⊎◌, inl, inr, Bool,
  true, false, not, ◌&&◌, ◌||◌, none, some, List, [], ◌∷◌, arith,
}
use waydisplay.Audio.Packet.Gaps.{made, made_mark}
use waydisplay.Audio.Packet.Timeline.{
  marked_for, packet_for, restarts, restarts_due, sequence_marked, restarts_exact, Frame,
}
use waydisplay.Audio.Packet.{
  packetizer_begin, breaks_off, behind_packet, no_packet_yet, AudioPacketizer, frame_decoded,
  frame_broken, output_lost,
}

-- `fresh` is whether a discontinuity was marked since the last packet that was made, or none was
-- made, and `last_end` the time at which that one ended. A packet breaks off that is fresh or does not
-- start at that time. The client restarts at a packet that breaks off, and at the first packet behind
-- one that is missing, once a packet was decoded. A packet is missing that is lost, that has not the
-- duration of the configuration, or that is not decoded. A frame of which no packet is made leaves
-- its mark only.
unfoldable pub restarts_expected :
    ℕ → AudioPacketizer → (fresh : Bool) → ℕ → (missing started : Bool) → List Frame → List Bool
restarts_expected frame_samples p fresh last_end missing started [] = []
restarts_expected frame_samples p fresh last_end missing started (f ∷ fs) = elim (packet_for p f) [
  | none ↦
      restarts_expected frame_samples (marked_for p f) (fresh || f.marked) last_end missing started
        fs
  | some (p', _) ↦
      let breaks = (fresh || f.marked) || (f.pts_samples /= last_end) in
      let due = breaks || (missing && started) in
      let ended = f.pts_samples + f.duration_samples in
      let without = restarts_expected frame_samples p' false ended true started fs in
      if f.lost
      then without
      else due
        ∷ (if due && not f.resets
            then []
            else if f.duration_samples /= frame_samples
            then without
            else elim f.outcome [
              | frame_decoded ↦ restarts_expected frame_samples p' false ended false true fs
              | frame_broken ↦ without
              | output_lost ↦ []
            ])
]

-- What the packetizer knows of its last packet.
Knows : AudioPacketizer → Bool → ℕ → Type 0
Knows p fresh last_end =
    ((p.force_discontinuity ≡ true) × (fresh ≡ true))
    ⊎ ((p.force_discontinuity ≡ false)
        × (fresh ≡ false)
        × (p.have_expected_pts ≡ true)
        × (p.expected_pts_samples ≡ last_end))

Knows-marked :
    (p : AudioPacketizer) (fresh : Bool) (last_end : ℕ) (f : Frame)
    → Knows p fresh last_end
    → Knows (marked_for p f) (fresh || f.marked) last_end
unfolding Knows
Knows-marked p fresh last_end f k = elim (Bool-cases f.marked) [
  | inl m ↦ rw (m, or-true fresh) (inl (refl, refl))
  | inr m ↦ rw (m, or-false fresh) k
]

breaks_exact :
    (p : AudioPacketizer) (fresh : Bool) (last_end pts_samples : ℕ)
    → Knows p fresh last_end
    → breaks_off p pts_samples ≡ (fresh || (pts_samples /= last_end))
unfolding Knows
breaks_exact p fresh last_end pts_samples (inl (force, e)) = rw (force, e) refl
breaks_exact p fresh last_end pts_samples (inr (force, e, have, same)) =
    rw (force, e, have, same) refl

module _ (frame_samples : ℕ) where
  expected :
      (p : AudioPacketizer) (fresh : Bool) (last_end : ℕ) (missing started : Bool) (fs : List Frame)
      → IsU64 p.sequence
      → Knows p fresh last_end
      → restarts_due frame_samples p missing started fs
        ≡ restarts_expected frame_samples p fresh last_end missing started fs
  unfolding restarts_due restarts_expected Knows
  expected p fresh last_end missing started [] w k = refl
  expected p fresh last_end missing started (f ∷ fs) w k =
      let q = marked_for p f in
      let wq : IsU64 q.sequence = sequence_marked frame_samples p f w in
      let kq = Knows-marked p fresh last_end f k in
      elim (made q f.pts_samples f.duration_samples f.data_size wq) [
        | inl e ↦
            rw (restarts_due, restarts_expected, e)
              (expected q (fresh || f.marked) last_end missing started fs wq kq)
        | inr (more, _, ends, e) ↦
            let p' = behind_packet q f.pts_samples f.duration_samples in
            let ended = f.pts_samples + f.duration_samples in
            let whole : u64 (f.pts_samples + f.duration_samples) ≡ ended = omega arith in
            let k' : Knows p' false ended = inr (refl, refl, refl, whole) in
            let mark =
              made_mark q f.pts_samples f.duration_samples f.data_size
              ∙ breaks_exact q (fresh || f.marked) last_end f.pts_samples kq in
            let without = expected p' false ended true started fs (omega arith) k' in
            let decoded = expected p' false ended false true fs (omega arith) k' in
            let due =
              ((fresh || f.marked) || (f.pts_samples /= last_end)) || (missing && started) in
            rw (restarts_due, restarts_expected, e, mark)
              (ap₂
                (λ without decoded.
                  if f.lost
                  then without
                  else due
                    ∷ (if due && not f.resets
                        then []
                        else if f.duration_samples /= frame_samples
                        then without
                        else elim f.outcome [
                          | frame_decoded ↦ decoded
                          | frame_broken ↦ without
                          | output_lost ↦ []
                        ]))
                without decoded)
      ]

  -- With an Opus decoder and a client that is configured for the stream, from the begin of a stream
  -- to any frames, marks, losses, durations, and outcomes of decoder and output, and no end of the
  -- stream: the client restarts its timeline just at the first packet, at those that the capture
  -- marks or that do not start where the packet made before them ended, and at those behind a missing
  -- one, as far as a packet was decoded before; neither the marks that the packetizer sets nor the
  -- gaps that the client finds add another restart. Missing is a packet that is lost, whose duration
  -- is not that of the configuration, or that is not decoded. The restarts end where the output tears
  -- the playback down.
  pub timeline_exact :
      (session_id connection_token audio_epoch media_clock_id : ℕ) (fs : List Frame)
      → let begun = packetizer_begin session_id connection_token audio_epoch media_clock_id in
        restarts frame_samples begun no_packet_yet fs
        ≡ restarts_expected frame_samples begun true 0 false false fs
  unfolding Knows
  timeline_exact session_id connection_token audio_epoch media_clock_id fs =
      let begun = packetizer_begin session_id connection_token audio_epoch media_clock_id in
      restarts_exact frame_samples session_id connection_token audio_epoch media_clock_id fs
      ∙ expected begun true 0 false false fs (omega arith) (inl (refl, refl))
