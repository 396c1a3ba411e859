-- ===== src/Client/Transition.antt =====
-- src/client/video_transition.c: by which phases the client decides whether the decoder gets a
-- payload.
pub mod Accepts
use waydisplay.Prelude.{if◌then◌else◌, Bool, true, false, not, ◌&&◌}

-- enum wd_client_video_phase; `other_phase` is a value that is none of them.
pub data VideoPhase : Type 0 where
  tiles_phase awaiting_keyframe video_phase other_phase : VideoPhase

-- struct wd_client_video_transition_decision
pub record TransitionDecision : Type 0 where
  pub next_phase : VideoPhase
  pub reset_decoder : Bool
  pub accept_payload : Bool

abbrev pub is_video_phase : VideoPhase → Bool
is_video_phase video_phase = true
is_video_phase tiles_phase = false
is_video_phase awaiting_keyframe = false
is_video_phase other_phase = false

abbrev pub is_tiles_phase : VideoPhase → Bool
is_tiles_phase tiles_phase = true
is_tiles_phase awaiting_keyframe = false
is_tiles_phase video_phase = false
is_tiles_phase other_phase = false

abbrev pub is_awaiting : VideoPhase → Bool
is_awaiting awaiting_keyframe = true
is_awaiting tiles_phase = false
is_awaiting video_phase = false
is_awaiting other_phase = false

-- What the packet's header and the content epoch say.
pub record PacketFacts : Type 0 where
  pub content_epoch_advanced : Bool
  pub end_of_stream : Bool
  pub resize : Bool
  pub keyframe : Bool
  pub has_payload : Bool

-- wd_client_video_transition_decide
unfoldable pub transition_decide : VideoPhase → PacketFacts → TransitionDecision
transition_decide phase x =
    let start : TransitionDecision = record {
      next_phase = tiles_phase;
      reset_decoder = false;
      accept_payload = false;
    } in
    if not (is_tiles_phase phase) && not (is_awaiting phase) && not (is_video_phase phase)
    then record start { reset_decoder = true }
    else if x.resize
    then record start { next_phase = awaiting_keyframe; reset_decoder = is_video_phase phase }
    else if x.end_of_stream
    then record start { next_phase = tiles_phase; reset_decoder = not (is_tiles_phase phase) }
    else let decision : TransitionDecision =
        if x.content_epoch_advanced
        then record start { reset_decoder = not (is_awaiting phase) }
        else start in
      let now = if x.content_epoch_advanced then awaiting_keyframe else phase in
      if not x.has_payload
      then record decision { next_phase = now }
      else if not (is_video_phase now) && not x.keyframe
      then record decision { next_phase = awaiting_keyframe }
      else record decision { next_phase = video_phase; accept_payload = true }
