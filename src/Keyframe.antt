-- ===== src/Keyframe.antt =====
-- The client's check of a recovery keyframe, src/client/video_keyframe_recovery.c: the bytes of an
-- access unit, from which a fresh decoder must be able to start.
pub mod AnnexB
pub mod Av1
pub mod Check
pub mod Repair
mod Tests
use waydisplay.Prelude.{Option, none, some}

-- enum wd_client_video_keyframe_result
pub data Verdict : Type 0 where
  valid : Verdict
  invalid_bitstream : Verdict
  missing_parameter_sets : Verdict
  missing_random_access : Verdict

-- A chain of reads, of which one outside of the data gives `none`.
infixl 5 ◌>>=◌
abbrev pub ◌>>=◌ {ℓ κ} : {A : Type ℓ} {B : Type κ} → Option A → (A → Option B) → Option B
some a >>= f = f a
none >>= f = none
