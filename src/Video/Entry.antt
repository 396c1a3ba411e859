-- ===== src/Video/Entry.antt =====
-- Entry into the video mode, and the epochs that separate streams, in
-- src/server/wd_video_transition.c.
use Prim.Native.Nat.{bit_and}
use waydisplay.Prelude.{
  leb, ◌==◌, ◌/=◌, if◌then◌else◌, u64, IsU64, ℕ, ◌+◌, ◌≡◌, ◌≢◌, ◌↔◌, ◌⊎◌, Bool, true, false, not,
  ◌&&◌, ◌||◌, arith,
}

-- enum wd_video_recovery_class
pub data RecoveryClass : Type 0 where
  no_recovery planned failure : RecoveryClass

abbrev pub is_planned : RecoveryClass → Bool
is_planned planned = true
is_planned _ = false

-- WD_VIDEO_MODE_AUTO, WD_VIDEO_MODE_OFF, WD_VIDEO_MODE_FORCE
abbrev pub video_mode_auto : ℕ
video_mode_auto = 0

abbrev pub video_mode_off : ℕ
video_mode_off = 1

abbrev pub video_mode_force : ℕ
video_mode_force = 2

-- wd_video_entry_allowed
pub entry_allowed : Bool → Bool → ℕ → Bool → RecoveryClass → Bool
entry_allowed bootstrap_pending recovery_active retry_cooldown_seconds video_forced recovery_class =
    if bootstrap_pending || recovery_active
    then false
    else if retry_cooldown_seconds == 0
    then true
    else video_forced && is_planned recovery_class

-- wd_video_session_bootstrap_required; WD_CLIENT_CAP_VIDEO_STREAM is bit 0.
pub session_bootstrap_required : ℕ → ℕ → Bool
session_bootstrap_required requested_mode client_capabilities =
    requested_mode /= video_mode_off
    && (leb requested_mode video_mode_force && bit_and client_capabilities 1 /= 0)

-- wd_video_control_allows_entry
pub control_allows_entry : ℕ → Bool → Bool → Bool → Bool
control_allows_entry requested_mode video_negotiated channel_connected encoder_available =
    requested_mode /= video_mode_off
    && (leb requested_mode video_mode_force
        && (video_negotiated && (channel_connected && encoder_available)))

-- wd_video_auto_mode_wait_for_recovery
pub auto_mode_wait_for_recovery : Bool → ℕ → Bool → Bool → Bool → Bool
auto_mode_wait_for_recovery recovering requested_mode video_negotiated channel_connected
      encoder_available =
    recovering
    && control_allows_entry requested_mode video_negotiated channel_connected encoder_available

-- enum wd_planned_video_resume_action
pub data ResumeAction : Type 0 where
  resume_wait resume_enter resume_clear : ResumeAction

-- wd_planned_video_resume_decide
pub resume_decide : Bool → Bool → Bool → ℕ → Bool → Bool → Bool → ResumeAction
resume_decide resume_requested recovery_active bootstrap_pending requested_mode video_negotiated
      channel_connected encoder_available =
    if not resume_requested
    then resume_wait
    else if not
        (control_allows_entry requested_mode video_negotiated channel_connected encoder_available)
    then resume_clear
    else if recovery_active || bootstrap_pending
    then resume_wait
    else resume_enter

-- wd_next_nonzero_epoch
pub next_nonzero_epoch : ℕ → ℕ
next_nonzero_epoch current_epoch =
    let next = u64 (current_epoch + 1) in if next == 0 then 1 else next

-- struct wd_video_entry_plan
pub record EntryPlan : Type 0 where
  pub source_content_epoch : ℕ
  pub frame_content_epoch : ℕ
  pub commit_on_queue : Bool

-- wd_video_entry_plan_make
pub plan_make : ℕ → Bool → Bool → EntryPlan
plan_make current_epoch waiting_for_first_keyframe frame_is_keyframe =
    if waiting_for_first_keyframe && frame_is_keyframe
    then record {
      source_content_epoch = current_epoch;
      frame_content_epoch = next_nonzero_epoch current_epoch;
      commit_on_queue = true;
    }
    else record {
      source_content_epoch = current_epoch;
      frame_content_epoch = current_epoch;
      commit_on_queue = false;
    }

-- wd_video_entry_plan_can_commit
pub plan_can_commit : EntryPlan → ℕ → Bool → Bool
plan_can_commit plan current_epoch queue_succeeded =
    plan.commit_on_queue
    && (queue_succeeded
        && (plan.source_content_epoch == current_epoch
            && plan.frame_content_epoch == next_nonzero_epoch current_epoch))

-- For 64-bit epochs: a plan can commit exactly if it was made for a first keyframe, its frame was
-- queued, and no epoch began in between; the epoch that it then opens is not 0, is another one
-- than it was made in, and the plan cannot commit again there.
pub entry_commits_once :
    (made now : ℕ) (waiting keyframe queued again : Bool)
    → IsU64 made
    → IsU64 now
    → let plan = plan_make made waiting keyframe in
      ((plan_can_commit plan now queued ≡ true)
        ↔ ((waiting ≡ true) × (keyframe ≡ true) × (queued ≡ true) × (made ≡ now)))
      × ((plan_can_commit plan now queued ≡ false)
          ⊎ ((plan.frame_content_epoch ≢ 0)
              × (plan.frame_content_epoch ≢ made)
              × (plan_can_commit plan plan.frame_content_epoch again ≡ false)))
unfolding plan_make plan_can_commit next_nonzero_epoch
entry_commits_once made now waiting keyframe queued again w v =
    ((ground arith, ground arith), ground arith)

-- A planned pause resumes video exactly when that was asked for, neither a recovery nor the
-- bootstrap is in progress, and the control state allows video; an entry without a retry cooldown
-- is then allowed.
pub resume_enters :
    (requested recovering bootstrap negotiated channel encoder forced : Bool) (mode : ℕ)
    → let action = resume_decide requested recovering bootstrap mode negotiated channel encoder in
      ((action ≡ resume_enter) ↔ (
        (requested ≡ true)
        × (recovering ≡ false)
        × (bootstrap ≡ false)
        × (control_allows_entry mode negotiated channel encoder ≡ true)))
      × ((action ≢ resume_enter) ⊎ (entry_allowed bootstrap recovering 0 forced planned ≡ true))
unfolding resume_decide entry_allowed
resume_enters requested recovering bootstrap negotiated channel encoder forced mode =
    ((ground arith, ground arith), ground arith)
