-- ===== src/Client/Sync.antt =====
-- src/client/audio_video_sync.c, by which a picture waits for the sound, and the conversion of
-- include/waydisplay/wd_media_clock.h that it uses.
pub mod Exact
use waydisplay.Prelude.{
  ltb, leb, ◌==◌, ◌/=◌, if◌then◌else◌, u32_max, u64_max, u64, ℕ, ◌+◌, ◌-◌, ◌*◌, ◌/◌, ◌%◌, min, Bool,
  false, not, ◌&&◌, ◌||◌,
}

-- WD_CLIENT_VIDEO_AUDIO_EARLY_MS
abbrev pub early_ms : ℕ
early_ms = 15

-- WD_CLIENT_VIDEO_AUDIO_LATE_MS
abbrev pub late_ms : ℕ
late_ms = 30

-- WD_CLIENT_VIDEO_AUDIO_MAX_RETRY_MS
abbrev pub max_retry_ms : ℕ
max_retry_ms = 20

-- wd_media_usec_to_samples
unfoldable pub usec_to_samples : ℕ → ℕ → ℕ
usec_to_samples pts_usec sample_rate =
    let seconds = pts_usec / 1000000 in
    let remainder = pts_usec % 1000000 in
    let whole = u64 (seconds * sample_rate) in
    let fraction = u64 (remainder * sample_rate) / 1000000 in
    if sample_rate == 0
    then 0
    else if ltb (u64_max / sample_rate) seconds
    then u64_max
    else if ltb (u64_max - whole) fraction
    then u64_max
    else whole + fraction

-- enum wd_client_audio_video_sync_decision
pub data SyncDecision : Type 0 where
  present_picture hold_picture drop_picture : SyncDecision

-- A signed number: its sign, `true` below zero, and its magnitude.
abbrev pub Signed : Type 0
Signed = Bool × ℕ

-- struct wd_client_audio_video_sync_plan
pub record SyncPlan : Type 0 where
  pub decision : SyncDecision
  pub delta_samples : Signed
  pub retry_after_ms : ℕ

-- The wait of a picture that is `wait_samples` too early.
unfoldable pub retry_after : ℕ → ℕ → ℕ
retry_after wait_samples sample_rate =
    let whole_seconds = wait_samples / sample_rate in
    let remainder_samples = wait_samples % sample_rate in
    let whole_ms = if ltb (u32_max / 1000) whole_seconds then u32_max else whole_seconds * 1000 in
    let remainder_ms = (remainder_samples * 1000 + sample_rate - 1) / sample_rate in
    let wait_ms = min max_retry_ms (whole_ms + remainder_ms) in if wait_ms == 0 then 1 else wait_ms

-- wd_client_audio_video_sync_plan_compute
unfoldable pub sync_plan : ℕ → ℕ → ℕ → SyncPlan
sync_plan video_pts_usec audio_playhead_samples sample_rate =
    let video_samples = usec_to_samples video_pts_usec sample_rate in
    let early = sample_rate * early_ms / 1000 in
    let late = sample_rate * late_ms / 1000 in
    let ahead = leb audio_playhead_samples video_samples in
    let positive_delta =
      if ahead
      then video_samples - audio_playhead_samples
      else audio_playhead_samples - video_samples in
    let clamped_delta = min positive_delta 0x7fff_ffff_ffff_ffff in
    let plan : SyncPlan = record {
      decision = present_picture;
      delta_samples = (not ahead, clamped_delta);
      retry_after_ms = 0;
    } in
    if sample_rate == 0
    then record { decision = present_picture; delta_samples = (false, 0); retry_after_ms = 0 }
    else if ltb audio_playhead_samples video_samples
        && ltb early (video_samples - audio_playhead_samples)
    then record plan {
      decision = hold_picture;
      retry_after_ms = retry_after (video_samples - audio_playhead_samples - early) sample_rate;
    }
    else if ltb video_samples audio_playhead_samples
        && ltb late (audio_playhead_samples - video_samples)
    then record plan { decision = drop_picture }
    else plan

-- wd_client_audio_video_sync_decide
abbrev pub sync_decide : ℕ → ℕ → ℕ → SyncDecision
sync_decide video_pts_usec audio_playhead_samples sample_rate =
    (sync_plan video_pts_usec audio_playhead_samples sample_rate).decision

-- wd_client_audio_video_sync_should_drop
unfoldable pub should_drop : SyncDecision → ℕ → Bool
should_drop drop_picture decoded_queue_depth = ltb 1 decoded_queue_depth
should_drop present_picture decoded_queue_depth = false
should_drop hold_picture decoded_queue_depth = false

-- enum wd_client_audio_startup_gate_decision
pub data GateDecision : Type 0 where
  gate_ready gate_hold gate_timeout : GateDecision

-- wd_client_audio_startup_gate_decide
pub gate_decide : (configured playing waiting : Bool) → ℕ → ℕ → GateDecision
gate_decide configured playing waiting wait_elapsed_ms max_wait_ms =
    if not configured || playing || not waiting
    then gate_ready
    else if (max_wait_ms /= 0) && leb max_wait_ms wait_elapsed_ms
    then gate_timeout
    else gate_hold
