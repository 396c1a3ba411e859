-- ===== src/Audio/Packet.antt =====
-- The headers of audio packets: src/server/wd_audio_packetizer.c, which numbers them, the test of
-- include/waydisplay/wd_protocol.h that the client applies, and the part of
-- src/client/audio_playback.cpp that follows their order. Pointers are not null; a header is cleared
-- and filled, so that it is a result here.
pub mod Valid
pub mod Gaps
pub mod Timeline
pub mod Expected
use waydisplay.Prelude.{
  ltb, ◌==◌, ◌/=◌, if◌then◌else◌, u64_max, u64, ℕ, ◌+◌, ◌-◌, ◌/◌, ◌%◌, Bool, true, false, not, ◌&&◌,
  ◌||◌, Option, none, some,
}

-- struct wd_audio_packet_payload_header
pub record AudioPacketHeader : Type 0 where
  pub session_id : ℕ
  pub connection_token : ℕ
  pub audio_epoch : ℕ
  pub media_clock_id : ℕ
  pub sequence : ℕ
  pub pts_samples : ℕ
  pub duration_samples : ℕ
  pub flags : ℕ
  pub data_size : ℕ

-- The size of the packed header.
abbrev pub audio_header_size : ℕ
audio_header_size = 49

-- WD_AUDIO_PACKET_MAX_PAYLOAD_BYTES
abbrev pub audio_packet_max_bytes : ℕ
audio_packet_max_bytes = 16384

-- WD_AUDIO_PACKET_DISCONTINUITY
abbrev pub packet_discontinuity : ℕ
packet_discontinuity = 1

-- WD_AUDIO_PACKET_END_OF_STREAM
abbrev pub packet_end_of_stream : ℕ
packet_end_of_stream = 2

abbrev pub is_discontinuity : AudioPacketHeader → Bool
is_discontinuity h = h.flags % 2 /= 0

abbrev pub is_end_of_stream : AudioPacketHeader → Bool
is_end_of_stream h = h.flags / 2 % 2 /= 0

-- wd_audio_frame_samples_is_valid
abbrev pub frame_samples_is_valid : ℕ → Bool
frame_samples_is_valid n =
    (n == 120) || (n == 240) || (n == 480) || (n == 960) || (n == 1920) || (n == 2880)

-- wd_audio_packet_payload_size_is_valid; the flags above the two are `flags / 4`.
unfoldable pub audio_packet_is_valid : AudioPacketHeader → ℕ → Bool
audio_packet_is_valid h tcp_payload_size =
    if ltb tcp_payload_size audio_header_size
      || (h.session_id == 0)
      || (h.connection_token == 0)
      || (h.audio_epoch == 0)
      || (h.media_clock_id == 0)
      || (h.sequence == 0)
      || (h.flags / 4 /= 0)
    then false
    else if (h.data_size /= tcp_payload_size - audio_header_size)
        || ltb audio_packet_max_bytes h.data_size
    then false
    else if is_end_of_stream h
    then (h.flags == packet_end_of_stream) && (h.data_size == 0) && (h.duration_samples == 0)
    else (h.data_size /= 0) && frame_samples_is_valid h.duration_samples

-- struct wd_audio_packetizer
pub record AudioPacketizer : Type 0 where
  pub session_id : ℕ
  pub connection_token : ℕ
  pub audio_epoch : ℕ
  pub media_clock_id : ℕ
  pub sequence : ℕ
  pub expected_pts_samples : ℕ
  pub have_expected_pts : Bool
  pub force_discontinuity : Bool

-- wd_audio_packetizer_begin
abbrev pub packetizer_begin : ℕ → ℕ → ℕ → ℕ → AudioPacketizer
packetizer_begin session_id connection_token audio_epoch media_clock_id = record {
  session_id = session_id;
  connection_token = connection_token;
  audio_epoch = audio_epoch;
  media_clock_id = media_clock_id;
  sequence = 0;
  expected_pts_samples = 0;
  have_expected_pts = false;
  force_discontinuity = true;
}

-- wd_audio_packetizer_mark_discontinuity
abbrev pub mark_discontinuity : AudioPacketizer → AudioPacketizer
mark_discontinuity p = record p { force_discontinuity = true; have_expected_pts = false }

-- The test of the identity that both makers start with.
abbrev pub has_no_stream : AudioPacketizer → Bool
has_no_stream p =
    (p.session_id == 0)
    || (p.connection_token == 0)
    || (p.audio_epoch == 0)
    || (p.media_clock_id == 0)

-- The header of a packet, with the next number of the sequence.
abbrev pub packet_header : AudioPacketizer → ℕ → ℕ → ℕ → ℕ → AudioPacketHeader
packet_header p pts_samples duration_samples data_size flags = record {
  session_id = p.session_id;
  connection_token = p.connection_token;
  audio_epoch = p.audio_epoch;
  media_clock_id = p.media_clock_id;
  sequence = u64 (p.sequence + 1);
  pts_samples = pts_samples;
  duration_samples = duration_samples;
  flags = flags;
  data_size = data_size;
}

-- The test for a discontinuity in wd_audio_packetizer_make_packet.
abbrev pub breaks_off : AudioPacketizer → ℕ → Bool
breaks_off p pts_samples =
    p.force_discontinuity || (p.have_expected_pts && (pts_samples /= p.expected_pts_samples))

-- The guard of wd_audio_packetizer_make_packet.
abbrev pub packet_refused : AudioPacketizer → ℕ → ℕ → ℕ → Bool
packet_refused p pts_samples duration_samples data_size =
    has_no_stream p
    || not (frame_samples_is_valid duration_samples)
    || (data_size == 0)
    || ltb audio_packet_max_bytes data_size
    || ltb (u64_max - pts_samples) duration_samples
    || (p.sequence == u64_max)

-- The packetizer behind a packet.
abbrev pub behind_packet : AudioPacketizer → ℕ → ℕ → AudioPacketizer
behind_packet p pts_samples duration_samples = record p {
  sequence = u64 (p.sequence + 1);
  force_discontinuity = false;
  have_expected_pts = true;
  expected_pts_samples = u64 (pts_samples + duration_samples);
}

-- wd_audio_packetizer_make_packet
unfoldable pub make_packet :
    AudioPacketizer → ℕ → ℕ → ℕ → Option (AudioPacketizer × AudioPacketHeader)
make_packet p pts_samples duration_samples data_size =
    if packet_refused p pts_samples duration_samples data_size
    then none
    else some (
      behind_packet p pts_samples duration_samples,
      packet_header p pts_samples duration_samples data_size
          (if breaks_off p pts_samples then packet_discontinuity else 0),
    )

-- wd_audio_packetizer_make_eos
unfoldable pub make_eos : AudioPacketizer → ℕ → Option (AudioPacketizer × AudioPacketHeader)
make_eos p pts_samples =
    if has_no_stream p || (p.sequence == u64_max)
    then none
    else some (
      record p {
        sequence = u64 (p.sequence + 1);
        have_expected_pts = false;
        force_discontinuity = true;
      },
      packet_header p pts_samples 0 0 packet_end_of_stream,
    )

-- The fields of struct ClientAudioPlayback by which the client follows the packets.
pub record PacketOrder : Type 0 where
  pub expected_sequence : ℕ
  pub expected_pts_samples : ℕ
  pub have_expected_pts : Bool

-- The fields of a playback that is configured.
abbrev pub no_packet_yet : PacketOrder
no_packet_yet = record {
  expected_sequence = 0;
  expected_pts_samples = 0;
  have_expected_pts = false;
}

-- Whether client_audio_playback_handle_packet restarts the timeline at a packet.
abbrev pub restarts_at : PacketOrder → AudioPacketHeader → Bool
restarts_at o h =
    is_discontinuity h
    || ((o.expected_sequence /= 0) && (h.sequence /= o.expected_sequence))
    || (o.have_expected_pts && (h.pts_samples /= o.expected_pts_samples))

-- What client_audio_playback_handle_packet expects behind a packet that it has decoded.
abbrev pub after_packet : AudioPacketHeader → PacketOrder
after_packet h = record {
  expected_sequence = u64 (h.sequence + 1);
  expected_pts_samples = u64 (h.pts_samples + h.duration_samples);
  have_expected_pts = true;
}

-- What clear_for_discontinuity_locked leaves, when the output can be reset.
abbrev pub clear_for_discontinuity : PacketOrder → PacketOrder
clear_for_discontinuity o = record o { expected_pts_samples = 0; have_expected_pts = false }

-- What the decoder and the output make of a packet: it is decoded, and played or too late; the
-- decoder, its range of samples or the output refuses it; or the output fails in a way that tears
-- the playback down.
pub data PacketOutcome : Type 0 where
  frame_decoded frame_broken output_lost : PacketOutcome

-- client_audio_playback_handle_packet from the tests for gaps on, for a packet that has passed the
-- tests of its size and its stream, with an Opus decoder: what the client expects next; `none` is a
-- playback that is no longer configured. `resets` is whether the output can be reset for a restart,
-- and `frame_samples` is that of the configuration.
unfoldable pub follow_packet :
    ℕ → PacketOrder → AudioPacketHeader → Bool → PacketOutcome → Option PacketOrder
follow_packet frame_samples o h resets outcome =
    if restarts_at o h && not resets
    then none
    else (let kept = if restarts_at o h then clear_for_discontinuity o else o in
        if is_end_of_stream h
        then elim outcome [
          | frame_decoded ↦ some (record kept { expected_sequence = u64 (h.sequence + 1) })
          | frame_broken ↦ some (record kept { expected_sequence = u64 (h.sequence + 1) })
          | output_lost ↦ none
        ]
        else if (h.duration_samples /= frame_samples)
            || ltb (u64_max - h.pts_samples) h.duration_samples
        then some kept
        else elim outcome [
          | frame_decoded ↦ some (after_packet h)
          | frame_broken ↦ some (clear_for_discontinuity kept)
          | output_lost ↦ none
        ])
