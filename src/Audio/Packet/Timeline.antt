-- ===== src/Audio/Packet/Timeline.antt =====
-- The client restarts its timeline where it has to.
use waydisplay.Prelude.{
  ◌/=◌, if◌then◌else◌, Bool-cases, IsU64, ℕ, ◌≡◌, refl, ap₂, inl, inr, Bool, true, false, not, ◌&&◌,
  ◌||◌, Option, none, some, List, [], ◌∷◌, arith,
}
use waydisplay.Audio.Packet.Gaps.{
  Agree, Agree-start, Agree-mark_discontinuity, made_header, made, restart_exact, no_end,
  Agree-delivered, Agree-lost, Agree-cleared, kept_order, Agree-kept, follow_made,
}
use waydisplay.Audio.Packet.{
  is_discontinuity, packetizer_begin, mark_discontinuity, behind_packet, make_packet, no_packet_yet,
  restarts_at, after_packet, clear_for_discontinuity, follow_packet, AudioPacketHeader,
  AudioPacketizer, PacketOrder, PacketOutcome, frame_decoded, frame_broken, output_lost,
}

-- One frame of the capture: whether it was marked before, whether its packet is lost, and if not,
-- whether the client can reset its output for it and what becomes of it.
pub record Frame : Type 0 where
  pub pts_samples : ℕ
  pub duration_samples : ℕ
  pub data_size : ℕ
  pub marked : Bool
  pub lost : Bool
  pub resets : Bool
  pub outcome : PacketOutcome

abbrev pub marked_for : AudioPacketizer → Frame → AudioPacketizer
marked_for p f = if f.marked then mark_discontinuity p else p

abbrev pub packet_for : AudioPacketizer → Frame → Option (AudioPacketizer × AudioPacketHeader)
packet_for p f = make_packet (marked_for p f) f.pts_samples f.duration_samples f.data_size

-- Whether the client restarts, for each packet that reaches it while it is configured.
unfoldable pub restarts : ℕ → AudioPacketizer → PacketOrder → List Frame → List Bool
restarts frame_samples p o [] = []
restarts frame_samples p o (f ∷ fs) = elim (packet_for p f) [
  | none ↦ restarts frame_samples (marked_for p f) o fs
  | some (p', h) ↦
      if f.lost
      then restarts frame_samples p' o fs
      else restarts_at o h ∷ elim (follow_packet frame_samples o h f.resets f.outcome) [
        | none ↦ []
        | some next ↦ restarts frame_samples p' next fs
      ]
]

-- Whether it has to: at a packet with the mark of a discontinuity, and at the first packet behind
-- one that is missing, once a packet was decoded. A packet is missing that is lost, that has not the
-- duration of the configuration, or that is not decoded.
unfoldable pub restarts_due :
    ℕ → AudioPacketizer → (missing started : Bool) → List Frame → List Bool
restarts_due frame_samples p missing started [] = []
restarts_due frame_samples p missing started (f ∷ fs) = elim (packet_for p f) [
  | none ↦ restarts_due frame_samples (marked_for p f) missing started fs
  | some (p', h) ↦
      let due = is_discontinuity h || (missing && started) in
      let without = restarts_due frame_samples p' true started fs in
      if f.lost
      then without
      else due
        ∷ (if due && not f.resets
            then []
            else if f.duration_samples /= frame_samples
            then without
            else elim f.outcome [
              | frame_decoded ↦ restarts_due frame_samples p' false true fs
              | frame_broken ↦ without
              | output_lost ↦ []
            ])
]

Agree-marked :
    (p : AudioPacketizer) (o : PacketOrder) (missing started : Bool) (f : Frame)
    → Agree p o missing started
    → Agree (marked_for p f) o missing started
Agree-marked p o missing started f v = elim (Bool-cases f.marked) [
  | inl m ↦ rw m (Agree-mark_discontinuity p o missing started v)
  | inr m ↦ rw m v
]

module _ (frame_samples : ℕ) where
  pub sequence_marked :
      (p : AudioPacketizer) (f : Frame) → IsU64 p.sequence → IsU64 (marked_for p f).sequence
  sequence_marked p f w = elim (Bool-cases f.marked) [ inl m ↦ rw m w | inr m ↦ rw m w ]

  -- The packets behind one that reaches the client.
  came_on :
      (p : AudioPacketizer) (o : PacketOrder) (due started resets other : Bool)
      (outcome : PacketOutcome) (next : PacketOrder) (fs : List Frame)
      → ((o' : PacketOrder)
          → Agree p o' true started
          → restarts frame_samples p o' fs ≡ restarts_due frame_samples p true started fs)
      → (restarts frame_samples p next fs ≡ restarts_due frame_samples p false true fs)
      → Agree p o true started
      → elim (if due && not resets
          then none
          else if other
          then some (kept_order due o)
          else elim outcome [
            | frame_decoded ↦ some next
            | frame_broken ↦ some (clear_for_discontinuity (kept_order due o))
            | output_lost ↦ none
          ]) [ none ↦ [] | some o' ↦ restarts frame_samples p o' fs ]
        ≡ (if due && not resets
            then []
            else if other
            then restarts_due frame_samples p true started fs
            else elim outcome [
              | frame_decoded ↦ restarts_due frame_samples p false true fs
              | frame_broken ↦ restarts_due frame_samples p true started fs
              | output_lost ↦ []
            ])
  came_on p o due started resets other outcome next fs missing decoded v =
      elim (Bool-cases (due && not resets)) [
        | inl torn ↦ rw torn refl
        | inr fine ↦ rw fine (by_outcome other outcome)
      ]
    where
      kept : Agree p (kept_order due o) true started
      kept = Agree-kept p o due started v

      by_outcome :
          (other : Bool) (outcome : PacketOutcome)
          → elim (if other then some (kept_order due o) else elim outcome [
            | frame_decoded ↦ some next
            | frame_broken ↦ some (clear_for_discontinuity (kept_order due o))
            | output_lost ↦ none
          ]) [ none ↦ [] | some o' ↦ restarts frame_samples p o' fs ]
            ≡ (if other then restarts_due frame_samples p true started fs else elim outcome [
              | frame_decoded ↦ restarts_due frame_samples p false true fs
              | frame_broken ↦ restarts_due frame_samples p true started fs
              | output_lost ↦ []
            ])
      by_outcome true outcome = missing (kept_order due o) kept
      by_outcome false frame_decoded = decoded
      by_outcome false frame_broken =
          missing (clear_for_discontinuity (kept_order due o))
            (Agree-cleared p (kept_order due o) started kept)
      by_outcome false output_lost = refl

  follows :
      (p : AudioPacketizer) (o : PacketOrder) (missing started : Bool) (fs : List Frame)
      → IsU64 p.sequence
      → Agree p o missing started
      → restarts frame_samples p o fs ≡ restarts_due frame_samples p missing started fs
  unfolding restarts restarts_due made_header
  follows p o missing started [] w v = refl
  follows p o missing started (f ∷ fs) w v =
      let q = marked_for p f in
      let wq : IsU64 q.sequence = sequence_marked p f w in
      let vq = Agree-marked p o missing started f v in
      elim (made q f.pts_samples f.duration_samples f.data_size wq) [
        | inl e ↦ rw (restarts, restarts_due, e) (follows q o missing started fs wq vq)
        | inr (more, fits, _, e) ↦
            let p' = behind_packet q f.pts_samples f.duration_samples in
            let h = made_header q f.pts_samples f.duration_samples f.data_size in
            let behind =
              Agree-lost q f.pts_samples f.duration_samples f.data_size o missing started more vq in
            elim (Bool-cases f.lost) [
              | inl gone ↦
                  rw (restarts, restarts_due, e, gone)
                    (follows p' o true started fs (omega arith) behind)
              | inr came ↦
                  let due = is_discontinuity h || (missing && started) in
                  let exact : restarts_at o h ≡ due =
                    restart_exact q f.pts_samples f.duration_samples f.data_size o missing started
                      more vq in
                  let next : PacketOrder = after_packet h in
                  rw
                    (
                      restarts,
                      restarts_due,
                      e,
                      came,
                      follow_made frame_samples o h f.resets f.outcome due exact
                          (no_end q f.pts_samples f.duration_samples f.data_size) fits,
                    )
                    (ap₂ ◌∷◌ exact (
                      came_on p' o due started f.resets (f.duration_samples /= frame_samples)
                        f.outcome next fs (λ o' v'. follows p' o' true started fs (omega arith) v')
                        (follows p' next false true fs (omega arith)
                          (Agree-delivered q f.pts_samples f.duration_samples f.data_size))
                        behind))
            ]
      ]

  -- The client restarts where the marks of the packets and the missing ones make it.
  pub restarts_exact :
      (session_id connection_token audio_epoch media_clock_id : ℕ) (fs : List Frame)
      → let begun = packetizer_begin session_id connection_token audio_epoch media_clock_id in
        restarts frame_samples begun no_packet_yet fs
        ≡ restarts_due frame_samples begun false false fs
  restarts_exact session_id connection_token audio_epoch media_clock_id fs =
      follows (packetizer_begin session_id connection_token audio_epoch media_clock_id)
        no_packet_yet false false fs (omega arith)
        (Agree-start (packetizer_begin session_id connection_token audio_epoch media_clock_id))
