-- ===== src/Keyframe/Check.antt =====
-- wd_client_video_keyframe_validate of src/client/video_keyframe_recovery.c: the checks by codec.
use waydisplay.Prelude.{
  ◌==◌, ◌/=◌, if◌then◌else◌, Bool-cases, length, ℕ, ◌≡◌, refl, inl, inr, ◌&&◌, ◌||◌, Option, some,
  List,
}
use waydisplay.Keyframe.{Verdict, valid, invalid_bitstream}
use waydisplay.Keyframe.AnnexB.{annexb_validate}
use waydisplay.Keyframe.AnnexB.Accepts.{keyframe_exact}
use waydisplay.Keyframe.Av1.{av1_validate}
use waydisplay.Keyframe.Av1.Sound.{av1_sound}

abbrev pub codec_h265 : ℕ
codec_h265 = 1

abbrev pub codec_h264 : ℕ
codec_h264 = 2

abbrev pub codec_av1 : ℕ
codec_av1 = 4

-- wd_client_video_keyframe_validate
unfoldable pub keyframe_validate : ℕ → List ℕ → Option Verdict
unfolding annexb_validate av1_validate
keyframe_validate codec bytes =
    if length bytes == 0 || (codec /= codec_h264 && (codec /= codec_h265 && codec /= codec_av1))
    then some invalid_bitstream
    else if codec == codec_av1
    then av1_validate bytes
    else annexb_validate (codec == codec_h265) bytes

-- Whatever the codec and the bytes, there is a verdict.
pub keyframe_validate_total :
    (codec : ℕ) (bytes : List ℕ) → (v : Verdict) × (keyframe_validate codec bytes ≡ some v)
unfolding keyframe_validate
keyframe_validate_total codec bytes =
    elim (Bool-cases
      (length bytes == 0 || (codec /= codec_h264 && (codec /= codec_h265 && codec /= codec_av1)))) [
        | inl none_such ↦ (invalid_bitstream, rw none_such refl)
        | inr known ↦ elim (Bool-cases (codec == codec_av1)) [
          | inl av1 ↦ elim (av1_sound bytes) [
            | inl (ok, rest) ↦ (valid, rw (known, av1) ok)
            | inr (v, returns, other) ↦ (v, rw (known, av1) returns)
          ]
          | inr annexb ↦
              let (v, returns) = (keyframe_exact (codec == codec_h265) bytes).0 in
              (v, rw (known, annexb) returns)
        ]
      ]
