-- ===== src/Bandwidth.antt =====
-- The split of the link's bandwidth in src/server/wd_bandwidth_plan.c, but for the token bucket at
-- its end, which counts in floating point.
pub mod Plan
mod Tests
use waydisplay.Prelude.{
  ltb, leb, ◌==◌, ◌/=◌, if◌then◌else◌, u32_max, u32, u64, ℕ, zero, suc, ◌+◌, ◌-◌, ◌*◌, ◌/◌, ◌%◌,
  Bool, false, ◌&&◌, ◌||◌,
}

-- WD_BANDWIDTH_*_PERCENT
abbrev pub video_percent : ℕ
video_percent = 75

abbrev pub tile_fresh_percent : ℕ
tile_fresh_percent = 70

abbrev pub tile_repair_percent : ℕ
tile_repair_percent = 5

abbrev pub audio_percent : ℕ
audio_percent = 10

abbrev pub control_percent : ℕ
control_percent = 10

abbrev pub overhead_percent : ℕ
overhead_percent = 5

abbrev pub audio_transport_allowance_percent : ℕ
audio_transport_allowance_percent = 20

-- wd_percent_of_u64
pub percent_of : ℕ → ℕ → ℕ
percent_of value percent =
    let whole = value / 100 in
    let rem = value % 100 in u64 (u64 (whole * percent) + u64 (rem * percent) / 100)

-- wd_bandwidth_audio_wire_bytes_per_second
pub audio_wire_bytes : ℕ → ℕ
audio_wire_bytes bitrate =
    if bitrate == 0
    then 0
    else (let payload = (bitrate + 7) / 8 in
        u64 (payload + percent_of payload audio_transport_allowance_percent))

-- The loop of wd_bandwidth_audio_select_bitrate on fuel: a round lowers `selected`.
pub lower_to_cap : ℕ → ℕ → ℕ → ℕ → ℕ
lower_to_cap zero selected minimum cap = selected
lower_to_cap (suc fuel) selected minimum cap =
    let rest = lower_to_cap fuel (if leb 1000 selected then selected - 1000 else 0) minimum cap in
    if leb minimum selected && ltb cap (audio_wire_bytes (u32 selected)) then rest else selected

-- Where the loop of wd_bandwidth_audio_select_bitrate starts.
pub first_selected : ℕ → ℕ → ℕ
first_selected cap preferred =
    let payload = u64 (cap * 100 / (100 + audio_transport_allowance_percent)) in
    let selected = if ltb (u32_max / 8) payload then u32_max else payload * 8 in
    let bounded = if ltb preferred selected then preferred else selected in bounded - bounded % 1000

-- wd_bandwidth_audio_select_bitrate
pub audio_select_bitrate : ℕ → ℕ → ℕ → ℕ
unfolding lower_to_cap first_selected
audio_select_bitrate link preferred minimum =
    let cap = percent_of link audio_percent in
    let start = first_selected cap preferred in
    let selected = lower_to_cap (start + 1) start minimum cap in
    if link == 0 || (preferred == 0 || (minimum == 0 || ltb preferred minimum))
    then 0
    else if ltb cap (audio_wire_bytes minimum)
    then 0
    else if leb (audio_wire_bytes preferred) cap
    then preferred
    else if leb minimum selected
    then u32 selected
    else 0

-- enum wd_bandwidth_mode
pub data BandwidthMode : Type 0 where
  tiles_mode video_mode : BandwidthMode

-- struct wd_bandwidth_plan
pub record BandwidthPlan : Type 0 where
  pub link : ℕ
  pub overhead : ℕ
  pub control : ℕ
  pub audio_required : ℕ
  pub audio_cap : ℕ
  pub audio_reserved : ℕ
  pub fresh_tile : ℕ
  pub repair : ℕ
  pub video : ℕ

-- wd_bandwidth_plan_build
pub plan_build : ℕ → BandwidthMode → Bool → ℕ → BandwidthPlan
plan_build link mode audio_enabled audio_bitrate =
    let required = if audio_enabled then audio_wire_bytes audio_bitrate else 0 in
    let cap = percent_of link audio_percent in
    let reserved = if audio_enabled then (if ltb required cap then required else cap) else 0 in
    record {
      link = link;
      overhead = percent_of link overhead_percent;
      control = percent_of link control_percent;
      audio_required = required;
      audio_cap = cap;
      audio_reserved = reserved;
      fresh_tile = elim mode [ video_mode ↦ 0 | tiles_mode ↦ percent_of link tile_fresh_percent ];
      repair = elim mode [ video_mode ↦ 0 | tiles_mode ↦ percent_of link tile_repair_percent ];
      video = elim mode [ video_mode ↦ percent_of link video_percent | tiles_mode ↦ 0 ];
    }

-- wd_bandwidth_plan_media_bytes
pub plan_media_bytes : BandwidthPlan → BandwidthMode → ℕ
plan_media_bytes p video_mode = p.video
plan_media_bytes p tiles_mode = u64 (p.fresh_tile + p.repair)

-- wd_bandwidth_plan_is_valid; the sum is an unsigned __int128, which the fields do not exceed.
pub plan_is_valid : BandwidthPlan → BandwidthMode → Bool
plan_is_valid p mode =
    let allocated =
      p.overhead
      + p.control
      + p.audio_cap
      + elim mode [ video_mode ↦ p.video | tiles_mode ↦ p.fresh_tile + p.repair ] in
    if ltb p.audio_cap p.audio_reserved || p.audio_reserved /= p.audio_required
    then false
    else leb allocated p.link
