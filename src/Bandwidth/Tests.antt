-- ===== src/Bandwidth/Tests.antt =====
-- The theorems at concrete inputs: a link of 1 MB a second.
use waydisplay.Prelude.{leb, ◌≤◌, ◌≡◌, ◌⊎◌, true, not, ◌||◌, arith}
use waydisplay.Bandwidth.{
  audio_percent, percent_of, audio_wire_bytes, audio_select_bitrate, plan_build, plan_is_valid,
  tiles_mode, video_mode,
}
use waydisplay.Bandwidth.Plan.{plan_valid_iff, selected_plan_valid}

plan_valid_iff_test :
    plan_is_valid (plan_build 1_000_000 video_mode true 128_000) video_mode
    ≡ (not true || leb (audio_wire_bytes 128_000) (percent_of 1_000_000 audio_percent))
plan_valid_iff_test = plan_valid_iff 1_000_000 video_mode true 128_000 (omega arith)

selected_plan_valid_example :
    (plan_is_valid
        (plan_build 10_000 tiles_mode true (audio_select_bitrate 10_000 128_000 4_000))
        tiles_mode
      ≡ true)
    × ((audio_select_bitrate 10_000 128_000 4_000 ≡ 0)
        ⊎ ((4_000 ≤ audio_select_bitrate 10_000 128_000 4_000)
            × (audio_select_bitrate 10_000 128_000 4_000 ≤ 128_000)))
selected_plan_valid_example =
    selected_plan_valid 10_000 128_000 4_000 tiles_mode (omega arith) (omega arith)
