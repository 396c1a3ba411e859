-- ===== src/Client/Decode.antt =====
-- src/client/video_decode_queue_policy.c and the queue that it governs: enqueue_video_message and
-- pop_media_packet of src/client/client_net.cpp, between the network thread and the video decoder.
-- Each runs under the lock of the queue. A message is what its header says of it: whether it is a
-- keyframe, whether it is an end of stream or a resize, and what the validation of a keyframe's
-- bitstream finds; its number tells the messages apart.
pub mod History
pub mod Unbroken
use waydisplay.Prelude.{
  leb, ◌==◌, ◌/=◌, if◌then◌else◌, length, u16_max, ℕ, min, Bool, true, false, not, ◌&&◌, Option,
  none, some, List, [], ◌∷◌, ◌++◌,
}

-- enum wd_client_video_decode_queue_action
pub data QueueAction : Type 0 where
  enqueue_packet drop_until_keyframe recover_overflow : QueueAction

-- struct wd_client_video_decode_queue_plan
pub record QueuePlan : Type 0 where
  pub action : QueueAction
  pub clear_queue : Bool
  pub wait_for_keyframe : Bool
  pub reset_decoder_before : Bool

-- wd_client_video_decode_queue_plan_compute
unfoldable pub queue_plan : ℕ → ℕ → Bool → Bool → Bool → QueuePlan
queue_plan queued_packets capacity waiting_for_keyframe keyframe control_frame =
    let plan : QueuePlan = record {
      action = enqueue_packet;
      clear_queue = false;
      wait_for_keyframe = waiting_for_keyframe;
      reset_decoder_before = false;
    } in
    if capacity == 0
    then record plan {
      action = recover_overflow;
      clear_queue = queued_packets /= 0;
      wait_for_keyframe = true;
    }
    else if control_frame
    then record plan { clear_queue = true; wait_for_keyframe = true }
    else if keyframe
    then record plan {
      clear_queue = true;
      wait_for_keyframe = false;
      reset_decoder_before = waiting_for_keyframe;
    }
    else if waiting_for_keyframe
    then record plan { action = drop_until_keyframe }
    else if leb capacity queued_packets
    then record plan { action = recover_overflow; clear_queue = true; wait_for_keyframe = true }
    else plan

-- What the policy reads of a message.
pub record VideoMessage : Type 0 where
  pub number : ℕ
  pub keyframe : Bool
  pub control : Bool
  pub usable : Bool

-- struct ClientMediaPacket
pub record MediaPacket : Type 0 where
  pub message : VideoMessage
  pub reset_video_decoder_before : Bool

-- The fields of the session: video_decode_queue and video_decode_wait_keyframe.
pub record DecodeQueue : Type 0 where
  pub packets : List MediaPacket
  pub wait_keyframe : Bool

-- WD_CLIENT_VIDEO_DECODE_INPUT_QUEUE_CAPACITY
abbrev pub input_queue_capacity : ℕ
input_queue_capacity = 4

-- What enqueue_video_message does with its plan, for a message that has a buffer.
abbrev pub follow_plan : DecodeQueue → QueuePlan → VideoMessage → DecodeQueue
follow_plan q plan m =
    let kept = if plan.clear_queue then [] else q.packets in
    elim plan.action [
      | enqueue_packet ↦ record {
        packets =
            kept
            ++ record { message = m; reset_video_decoder_before = plan.reset_decoder_before } ∷ [];
        wait_keyframe = plan.wait_for_keyframe;
      }
      | drop_until_keyframe ↦ record { packets = kept; wait_keyframe = plan.wait_for_keyframe }
      | recover_overflow ↦ record { packets = kept; wait_keyframe = plan.wait_for_keyframe }
    ]

-- enqueue_video_message, while the workers run.
unfoldable pub enqueue_video : DecodeQueue → VideoMessage → DecodeQueue
unfolding queue_plan
enqueue_video q m =
    let depth = min (length q.packets) u16_max in
    if q.wait_keyframe && m.keyframe && not m.control && not m.usable
    then q
    else follow_plan q (queue_plan depth input_queue_capacity q.wait_keyframe m.keyframe m.control)
        m

-- pop_media_packet, which waits while the queue is empty.
abbrev pub pop_packet : DecodeQueue → DecodeQueue × Option MediaPacket
pop_packet q = elim q.packets [ [] ↦ (q, none) | p ∷ ps ↦ (record q { packets = ps }, some p) ]

-- clear_video_decode_queue
abbrev pub clear_decode_queue : DecodeQueue
clear_decode_queue = record { packets = []; wait_keyframe = false }
