-- ===== src/Client/Sync/Exact.antt =====
-- When a picture is held, dropped or shown.
use waydisplay.Prelude.{
  ltb, if◌then◌else◌, u64_max, IsU32, ℕ, ◌+◌, ◌-◌, ◌*◌, ◌/◌, ◌%◌, ◌≤◌, ◌<◌, min, ◌≡◌, ◌⊎◌,
}
use waydisplay.Client.Sync.{
  early_ms, late_ms, max_retry_ms, SyncDecision, present_picture, hold_picture, drop_picture,
}

-- The samples up to a time, as far as 64 bits go.
abbrev pub samples_at : ℕ → ℕ → ℕ
samples_at pts_usec sample_rate = min u64_max (pts_usec * sample_rate / 1000000)

module _ (pts_usec rate : ℕ) (pos : 0 < rate) (word : IsU32 rate) where
  seconds : ℕ
  seconds = pts_usec / 1000000

  remainder : ℕ
  remainder = pts_usec % 1000000

-- The wait is the least number of milliseconds, 1 at least, in which the sound plays `wait` samples,
-- or the longest wait when that is less.
abbrev pub LeastWait : ℕ → ℕ → ℕ → Type 0
LeastWait wait rate retry =
    (1 ≤ retry)
    × (retry ≤ max_retry_ms)
    × ((retry ≡ max_retry_ms) ⊎ (wait * 1000 ≤ retry * rate))
    × ((retry - 1) * rate < wait * 1000)

abbrev pub early_samples : ℕ → ℕ
early_samples rate = rate * early_ms / 1000

-- The decision by the picture's samples and those of the sound.
abbrev pub due_decision : ℕ → ℕ → ℕ → SyncDecision
due_decision video playhead rate =
    if ltb (playhead + early_samples rate) video
    then hold_picture
    else if ltb (video + rate * late_ms / 1000) playhead
    then drop_picture
    else present_picture

-- How long each decision waits.
unfoldable pub RetryFits : SyncDecision → ℕ → ℕ → ℕ → Type 0
RetryFits hold_picture wait rate retry = LeastWait wait rate retry
RetryFits present_picture wait rate retry = retry ≡ 0
RetryFits drop_picture wait rate retry = retry ≡ 0
