-- ===== src/Bandwidth/Plan.antt =====
-- A plan never gives away more than the link.
use waydisplay.Prelude.{
  ltb, leb, ◌==◌, if◌then◌else◌, u32, IsU32, IsU64, ℕ, zero, suc, ◌+◌, ◌-◌, ◌≤◌, ◌<◌, ◌≡◌, refl,
  ◌∙◌, ◌⊎◌, inl, inr, Bool, true, false, not, ◌&&◌, ◌||◌, arith,
}
use waydisplay.Bandwidth.{
  video_percent, tile_fresh_percent, tile_repair_percent, audio_percent, control_percent,
  overhead_percent, percent_of, audio_wire_bytes, lower_to_cap, first_selected,
  audio_select_bitrate, plan_build, plan_is_valid, BandwidthMode, tiles_mode, video_mode,
}

-- The percentages of a plan fit.
shares :
    (link : ℕ)
    → IsU64 link
    → percent_of link overhead_percent
        + percent_of link control_percent
        + percent_of link audio_percent
        + percent_of link video_percent
      ≤ link
unfolding percent_of
shares link w = omega arith

tile_shares :
    (link : ℕ)
    → IsU64 link
    → percent_of link tile_fresh_percent + percent_of link tile_repair_percent
      ≤ percent_of link video_percent
unfolding percent_of
tile_shares link w = omega arith

-- A plan as it is built for a link, a 64-bit number of bytes a second, is valid exactly if audio
-- is off or its wire rate fits the share of audio.
pub plan_valid_iff :
    (link : ℕ) (mode : BandwidthMode) (audio_enabled : Bool) (audio_bitrate : ℕ)
    → IsU64 link
    → plan_is_valid (plan_build link mode audio_enabled audio_bitrate) mode
      ≡ (not audio_enabled || leb (audio_wire_bytes audio_bitrate) (percent_of link audio_percent))
unfolding plan_is_valid plan_build
plan_valid_iff link video_mode false audio_bitrate w = let s = shares link w in ground arith
plan_valid_iff link video_mode true audio_bitrate w = let s = shares link w in ground arith
plan_valid_iff link tiles_mode false audio_bitrate w =
    let s = shares link w in let t = tile_shares link w in ground arith
plan_valid_iff link tiles_mode true audio_bitrate w =
    let s = shares link w in let t = tile_shares link w in ground arith

lower_exact :
    (fuel selected minimum cap : ℕ)
    → 0 < minimum
    → selected < fuel
    → IsU32 selected
    → let s = lower_to_cap fuel selected minimum cap in
      (s ≤ selected) × ((s < minimum) ⊎ (audio_wire_bytes s ≤ cap))
unfolding lower_to_cap
lower_exact zero selected minimum cap pos fuel w = absurd (omega arith)
lower_exact (suc fuel) selected minimum cap pos enough w =
    let e : u32 selected ≡ selected = omega arith in
    let below = if leb 1000 selected then selected - 1000 else 0 in
    elim (stops selected minimum cap (audio_wire_bytes selected)) [
      | inl (goes_on, lt) ↦
          let (le, end) = lower_exact fuel below minimum cap pos (ground arith) (ground arith) in
          rw (e, goes_on) (ground arith, end)
      | inr (stops_here, end) ↦ rw (e, stops_here) (omega arith, end)
    ]
  where
    stops :
        (s m c wire : ℕ)
        → (((leb m s && ltb c wire) ≡ true) × (m ≤ s))
          ⊎ (((leb m s && ltb c wire) ≡ false) × ((s < m) ⊎ (wire ≤ c)))
    stops s m c wire = ground arith

first_le : (cap preferred : ℕ) → first_selected cap preferred ≤ preferred
unfolding first_selected
first_le cap preferred = ground arith

wire_zero : audio_wire_bytes 0 ≡ 0
unfolding audio_wire_bytes
wire_zero = refl

Feasible : ℕ → ℕ → ℕ → ℕ → Type 0
Feasible cap preferred minimum bitrate =
    (bitrate ≡ 0) ⊎ ((minimum ≤ bitrate) × (bitrate ≤ preferred) × (audio_wire_bytes bitrate ≤ cap))

-- The choice between the preferred bitrate, what the loop leaves, and none.
choose-Feasible :
    (link cap preferred minimum s : ℕ)
    → s ≤ preferred
    → IsU32 preferred
    → (s < minimum) ⊎ (audio_wire_bytes s ≤ cap)
    → Feasible cap preferred minimum (
        if link == 0 || (preferred == 0 || (minimum == 0 || ltb preferred minimum))
        then 0
        else if ltb cap (audio_wire_bytes minimum)
        then 0
        else if leb (audio_wire_bytes preferred) cap
        then preferred
        else if leb minimum s
        then u32 s
        else 0)
unfolding Feasible
choose-Feasible link cap preferred minimum s le w end =
    let e : u32 s ≡ s = omega arith in rw e (ground arith)

select-Feasible :
    (link preferred minimum : ℕ)
    → IsU32 preferred
    → Feasible
        (percent_of link audio_percent)
        preferred
        minimum
        (audio_select_bitrate link preferred minimum)
unfolding audio_select_bitrate Feasible
select-Feasible link preferred zero w =
    let refused : (link == 0 || (preferred == 0 || true)) ≡ true = ground arith in
    rw refused (inl refl)
select-Feasible link preferred (suc minimum) w =
    let cap = percent_of link audio_percent in
    let start = first_selected cap preferred in
    let start_le = first_le cap preferred in
    let (le, end) =
      lower_exact (start + 1) start (suc minimum) cap (omega arith) (omega arith) (omega arith) in
    choose-Feasible link cap preferred (suc minimum) _ (omega arith) w end

plan_from_Feasible :
    (link preferred minimum bitrate : ℕ) (mode : BandwidthMode)
    → IsU64 link
    → Feasible (percent_of link audio_percent) preferred minimum bitrate
    → (plan_is_valid (plan_build link mode true bitrate) mode ≡ true)
      × ((bitrate ≡ 0) ⊎ ((minimum ≤ bitrate) × (bitrate ≤ preferred)))
unfolding Feasible
plan_from_Feasible link preferred minimum bitrate mode w (inl zero_rate) = (
  plan_valid_iff link mode true bitrate w ∙ rw (zero_rate, wire_zero) (ground arith),
  inl zero_rate,
)
plan_from_Feasible link preferred minimum bitrate mode w (inr (lo, hi, fits)) =
    (plan_valid_iff link mode true bitrate w ∙ ground arith, inr (lo, hi))

-- For a 64-bit link rate and a 32-bit preferred bitrate, the selected bitrate is 0 or lies
-- between the minimum and the preferred one, and in either case the plan with audio at the
-- selected bitrate is valid, in both modes.
pub selected_plan_valid :
    (link preferred minimum : ℕ) (mode : BandwidthMode)
    → IsU64 link
    → IsU32 preferred
    → let bitrate = audio_select_bitrate link preferred minimum in
      (plan_is_valid (plan_build link mode true bitrate) mode ≡ true)
      × ((bitrate ≡ 0) ⊎ ((minimum ≤ bitrate) × (bitrate ≤ preferred)))
selected_plan_valid link preferred minimum mode w w' =
    plan_from_Feasible link preferred minimum (audio_select_bitrate link preferred minimum) mode w
      (select-Feasible link preferred minimum w')
