-- ===== src/Lib.antt =====
-- waydisplay sends a Wayland desktop to a client, as tiles or as a video stream, with audio and a
-- shared clipboard. This library models the policies of the server and the formats that both ends
-- share: the code that decides, counts and encodes, without the sockets, threads and libraries
-- around it.
--
-- The parts and their files. A definition is named after the C function in the comment above it.
--   Video: src/server/wd_video_transition.c. Recovery is the episode in which a failing stream asks
--     for keyframes before it falls back to tiles, with the branch of src/server/wd_stream.c that
--     applies the decision once a second and the latch of src/server/wd_stream_video.c. Health
--     classifies the reports of the client. Cadence holds the functions on frame rates, and
--     Controller the step of src/server/wd_stream.c that reads the decode statistics, calls them
--     and resets the pacing. Entry is the way into the video mode.
--   Pacing: src/server/wd_frame_pacing.c, which admits frames; Controller resets it.
--   Selection: clipboard text. Utf8 and Wire are src/common/wd_selection.c and the packed header of
--     include/waydisplay/wd_protocol.h, Capture is src/server/wd_selection_capture.c, which
--     collects what a source writes and normalizes it with Utf8, and Delivery is
--     src/server/wd_selection_delivery.c, which keeps the text for the client.
--   Audio: src/server/wd_audio_ring.c, the ring between the capture thread and the encoder, and in
--     Packet the headers that src/server/wd_audio_packetizer.c makes, with the checks of the client:
--     those of include/waydisplay/wd_protocol.h, and how src/client/audio_playback.cpp follows the
--     packets, in which what its decoder and its output make of a packet is an argument.
--   Transport: include/waydisplay/wd_async_tcp_policy.h and src/server/wd_async_udp_accounting.c,
--     the decisions of the senders about messages and packets; in Identity the numbers of a
--     connection, src/server/wd_connection_identity.c, from a reader of random bytes that is an
--     argument, with the states that it is in.
--   Tile: the grid of src/common/wd_tile.c; in Snapshot the record of the tiles that a unit of work
--     covers, src/server/wd_tile_work_snapshot.c; in Readback the rectangles of damaged tiles that
--     src/server/wd_readback_regions.c reads back; in Delivery and Choice the delivery status of a
--     frame and the choice of the next region, of src/server/wd_tile_policy.c.
--   Encode: src/server/wd_encode_completion_queue.c, the queue of finished encode jobs.
--   Dirty: src/server/wd_dirty_region_scheduler.c, which picks the dirty region that is sent next.
--     Heap holds the entries by age and Bits the set of queued regions; the operations stand in
--     Dirty, and Take, Enqueue and Forget describe them by the flags and the ages alone.
--   Client: in Ownership the word of src/client/stream_ownership.c by which threads agree whether
--     tiles or the video own the picture; in Decode the queue of frames in front of the decoder, by
--     src/client/video_decode_queue_policy.c and the two functions of src/client/client_net.cpp
--     that fill and empty it; in Transition the phases of src/client/video_transition.c;
--     in Sync the waits of src/client/audio_video_sync.c;
--     in Session the phases and descriptors of src/client/client_session.c.
--   Keyframe: the check of a recovery keyframe in src/client/video_keyframe_recovery.c. AnnexB reads
--     the NAL units of H.264 and H.265 and Av1 the OBUs, each against a relation that says what the
--     bytes are; Check chooses by the codec. Repair is src/server/wd_hevc_annexb.c, which mends an
--     escaped start code before the server sends the unit.
--   Buffer: src/common/wd_buffer.c, whose callers share a counter, as a relation between its states;
--     References shows when the buffer is freed. Range and Frame are src/common/wd_frame.c.
--   Bandwidth: the plan of src/server/wd_bandwidth_plan.c.
--   Prelude: tests on numbers, C arrays as lists and machine words, for all parts.
--
-- How the code is written here. A struct is a record and an operation a function from the old
-- state to the new one, with its result beside it. A word is a native number with the wrap of its
-- width written out (u16, u32, u64, sub32, sub64 of Prelude/Words). `return false` and a null
-- pointer are `none`, as is the trap of a division by zero in Cadence. Time is an argument, and so
-- are the outcomes of an allocation, of a duplicated descriptor and of a send on a socket. Pointer
-- arguments are not null. Loops are recursion on a list, on a count, or on fuel: Utf8.valid_from
-- has a round for each byte, Capture.grow a round for each byte required, of which one at least is
-- gained in a round, and Bandwidth.lower_to_cap one round more than the bitrate, which each round
-- lowers. In Dirty a sift towards the root has a round for each index, a sift towards the leaves
-- and a prune one for each entry, and a search one for each word. The loops of Readback have a
-- round for each row and for each column, those of Keyframe for each byte, and the one on a size
-- field 11, since its shift grows by 7 and ends at 64; an exact read in Identity has one for each
-- byte and each interruption. The reads of Keyframe are checked: one outside of the data would be
-- `none`. The array of the heap is the list of its entries in use, and a word of the set is the
-- function from a bit to its value. Threads in Client act one at a time, in the order of a
-- schedule, and those in Buffer in any order; an act is one atomic access with what the thread
-- does before the next. An `int` in Readback is the word that represents it.
--
-- Not modelled: logging and telemetry; the atomics of the ring, whose operations are taken one at a
-- time; the byte that terminates a captured text; the token bucket of the bandwidth plan and the
-- demand estimates of the tile policy, which count in floating point; the pixels of a tile and the
-- bytes of a buffer; sockets, io_uring, wlroots, encoders and the rest of the
-- C++ client.
pub mod Prelude
pub mod Video
pub mod Pacing
pub mod Selection
pub mod Audio
pub mod Transport
pub mod Tile
pub mod Bandwidth
pub mod Encode
pub mod Dirty
pub mod Client
pub mod Keyframe
pub mod Buffer
