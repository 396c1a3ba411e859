-- ===== src/Audio/Packet/Valid.antt =====
-- The client's test passes what the packetizer makes.
use waydisplay.Prelude.{
  if◌then◌else◌, le→ltb, ne_test, u64_max, u64, ℕ, ◌+◌, ◌-◌, ◌≤◌, ◌<◌, ◌≡◌, refl, ◌⊎◌, inl, inr,
  Bool, true, false, Option, none, some, arith,
}
use waydisplay.Audio.Packet.{
  audio_header_size, audio_packet_max_bytes, packet_discontinuity, packet_end_of_stream,
  frame_samples_is_valid, audio_packet_is_valid, has_no_stream, packet_header, breaks_off,
  make_packet, make_eos, AudioPacketHeader, AudioPacketizer,
}

-- There is a header, with the next number, that the client's test passes at the size of its message.
abbrev pub Passes : AudioPacketizer → ℕ → Option (AudioPacketizer × AudioPacketHeader) → Type 0
Passes p data_size none = ⊥
Passes p data_size (some (p', h)) =
    (audio_packet_is_valid h (audio_header_size + data_size) ≡ true)
    × ((h.sequence ≡ p.sequence + 1) × (p'.sequence ≡ h.sequence))

low_flag : (b : Bool) → (if b then packet_discontinuity else 0) < 2
low_flag true = omega arith
low_flag false = omega arith

module _ (p : AudioPacketizer) (stream : has_no_stream p ≡ false)
    (room : p.sequence < u64_max) where
  -- A header that fits its kind and its size passes.
  header_passes :
      (pts_samples duration_samples data_size flags : ℕ)
      → flags < 4
      → data_size ≤ audio_packet_max_bytes
      → ((flags < 2) × ((frame_samples_is_valid duration_samples ≡ true) × (0 < data_size)))
        ⊎ ((flags ≡ 2) × ((duration_samples ≡ 0) × (data_size ≡ 0)))
      → audio_packet_is_valid
          (packet_header p pts_samples duration_samples data_size flags)
          (audio_header_size + data_size)
        ≡ true
  unfolding audio_packet_is_valid
  header_passes pts_samples duration_samples data_size flags low small kind =
      let next : u64 (p.sequence + 1) ≡ p.sequence + 1 = omega arith in
      let rest : audio_header_size + data_size - audio_header_size ≡ data_size = omega arith in
      rw (next, rest) (ground arith)

  -- For a stream that has begun and has numbers left, a frame of a valid duration whose data fits
  -- the limit and whose end is in range gets a packet, and any time an end of stream; the client's
  -- test passes both at the size they are sent with, and each takes the next number.
  pub packets_pass :
      (pts_samples duration_samples data_size : ℕ)
      → frame_samples_is_valid duration_samples ≡ true
      → 0 < data_size
      → data_size ≤ audio_packet_max_bytes
      → pts_samples + duration_samples ≤ u64_max
      → Passes p data_size (make_packet p pts_samples duration_samples data_size)
        × Passes p 0 (make_eos p pts_samples)
  unfolding make_packet make_eos
  packets_pass pts_samples duration_samples data_size valid some_data small ends =
      let next : u64 (p.sequence + 1) ≡ p.sequence + 1 = omega arith in
      rw
        (
          stream,
          valid,
          ne_test data_size 0 (omega arith),
          le→ltb audio_packet_max_bytes data_size small,
          le→ltb (u64_max - pts_samples) duration_samples (omega arith),
          ne_test p.sequence u64_max (omega arith),
        )
        (
          (
            header_passes pts_samples duration_samples data_size
                (if breaks_off p pts_samples then packet_discontinuity else 0)
                (omega (arith, low_flag (breaks_off p pts_samples))) small
                (inl (low_flag (breaks_off p pts_samples), (valid, some_data))),
            (next, refl),
          ),
          (
            header_passes pts_samples 0 0 packet_end_of_stream (omega arith) (omega arith)
                (inr (refl, (refl, refl))),
            (next, refl),
          ),
        )
