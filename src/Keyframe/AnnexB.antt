-- ===== src/Keyframe/AnnexB.antt =====
-- The H.264 and H.265 part of wd_client_video_keyframe_validate in
-- src/client/video_keyframe_recovery.c: start codes, NAL units and their types. Each read of the
-- data is checked: `none` is a read outside of it.
pub mod Codes
pub mod Units
pub mod Visit
pub mod Loop
pub mod Accepts
use waydisplay.Prelude.{
  ltb, leb, ◌==◌, ◌/=◌, if◌then◌else◌, length, get_elem?, ℕ, zero, suc, ◌+◌, ◌-◌, ◌/◌, ◌%◌, Bool,
  true, false, not, ◌&&◌, ◌||◌, Option, none, some, List,
}
use waydisplay.Keyframe.{
  ◌>>=◌, Verdict, valid, invalid_bitstream, missing_parameter_sets, missing_random_access,
}

-- What wd_start_code_size reads behind two zero bytes.
unfoldable pub code_tail : List ℕ → ℕ → ℕ → ℕ → Option ℕ
code_tail bytes size pos third =
    if third == 1
    then some 3
    else if leb 4 (size - pos) && third == 0
    then (do fourth ← get_elem? bytes (pos + 3); some (if fourth == 1 then 4 else 0))
    else some 0

-- wd_start_code_size
unfoldable pub start_code_size : List ℕ → ℕ → ℕ → Option ℕ
unfolding code_tail
start_code_size bytes size pos = if ltb size pos || ltb (size - pos) 3 then some 0 else (do
  first ← get_elem? bytes pos
  second ← get_elem? bytes (pos + 1)
  third ← get_elem? bytes (pos + 2)
  if first /= 0 || second /= 0 then some 0 else code_tail bytes size pos third)

-- The bits of `present`: for H.265 the VPS, the SPS and the PPS, for H.264 the SPS and the PPS.
pub record Present : Type 0 where
  pub bit0 : Bool
  pub bit1 : Bool
  pub bit2 : Bool

-- `(present & required) == required`
abbrev pub has_required : Bool → Present → Bool
has_required hevc p = p.bit0 && (p.bit1 && (not hevc || p.bit2))

-- How the loop goes on behind a NAL unit.
pub data Step : Type 0 where
  stop : Verdict → Step
  resume : Present → Bool → Step

-- A unit of the type, of H.265.
unfoldable pub hevc_unit : ℕ → Present → Bool → Step
hevc_unit type p random_access =
    let present : Present = record {
      bit0 = p.bit0 || type == 32;
      bit1 = p.bit1 || type == 33;
      bit2 = p.bit2 || type == 34;
    } in
    if leb type 31
    then if not (has_required true present) || (ltb type 16 || ltb 21 type)
      then stop (
          if not (has_required true present) then missing_parameter_sets else missing_random_access)
      else resume present true
    else resume present random_access

-- A unit of the type, of H.264.
unfoldable pub avc_unit : ℕ → Present → Bool → Step
avc_unit type p random_access =
    let present : Present = record {
      bit0 = p.bit0 || type == 7;
      bit1 = p.bit1 || type == 8;
      bit2 = p.bit2;
    } in
    if type == 1 || type == 5
    then if not (has_required false present) || type /= 5
      then stop (
          if not (has_required false present)
          then missing_parameter_sets
          else missing_random_access)
      else resume present true
    else resume present random_access

abbrev pub unit_type : Bool → ℕ → ℕ
unit_type hevc header = if hevc then header / 2 % 64 else header % 32

unfoldable pub take_unit : Bool → ℕ → Present → Bool → Step
unfolding hevc_unit avc_unit
take_unit hevc header p random_access =
    if hevc
    then hevc_unit (unit_type true header) p random_access
    else avc_unit (unit_type false header) p random_access

-- The body of the loop for the unit from `nal` up to `next`.
unfoldable pub read_unit : Bool → List ℕ → ℕ → ℕ → Present → Bool → Option Step
unfolding take_unit
read_unit hevc bytes nal next p random_access =
    if ltb (next - nal) (if hevc then 3 else 2) then some (stop invalid_bitstream) else (do
      first ← get_elem? bytes nal
      second ← (if hevc then get_elem? bytes (nal + 1) else some 1)
      some (
          if first / 128 % 2 /= 0 || (hevc && second % 8 == 0)
          then stop invalid_bitstream
          else take_unit hevc first p random_access))

-- `while (next < size && wd_start_code_size(data, size, next) == 0)`, with `left` bytes to the end.
unfoldable pub unit_end : List ℕ → ℕ → ℕ → ℕ → Option ℕ
unfolding start_code_size
unit_end bytes size zero next = some next
unit_end bytes size (suc left) next =
    let rest = unit_end bytes size left (next + 1) in
    (do prefix ← start_code_size bytes size next; if prefix == 0 then rest else some next)

-- Where the loop stands, or what it returns.
pub data Place : Type 0 where
  at_byte : ℕ → Present → Bool → Place
  returned : Verdict → Place

abbrev pub place_of : ℕ → Step → Place
place_of next (stop v) = returned v
place_of next (resume p random_access) = at_byte next p random_access

-- An iteration of the loop on the bytes.
unfoldable pub scan_byte : Bool → List ℕ → ℕ → ℕ → Present → Bool → Option Place
unfolding read_unit unit_end start_code_size
scan_byte hevc bytes size pos p random_access = do
  prefix ← start_code_size bytes size pos
  if prefix == 0
      then (do
        byte ← get_elem? bytes pos
        some (if byte /= 0 then returned invalid_bitstream else at_byte (pos + 1) p random_access))
      else (do
        next ← unit_end bytes size (size - (pos + prefix)) (pos + prefix)
        step ← read_unit hevc bytes (pos + prefix) next p random_access
        some (place_of next step))

-- What follows the loop.
unfoldable pub final_verdict : Bool → Present → Bool → Verdict
final_verdict hevc p random_access =
    if not (has_required hevc p)
    then missing_parameter_sets
    else if random_access
    then valid
    else missing_random_access

-- `while (pos < size)`. Each iteration passes a byte, so that as many as there are bytes are
-- enough; `none` is also what it gives when the fuel is used up before.
unfoldable pub scan_bytes : Bool → List ℕ → ℕ → ℕ → ℕ → Present → Bool → Option Verdict
unfolding scan_byte final_verdict
scan_bytes hevc bytes size zero pos p random_access =
    if ltb pos size then none else some (final_verdict hevc p random_access)
scan_bytes hevc bytes size (suc fuel) pos p random_access =
    if ltb pos size
    then elim (scan_byte hevc bytes size pos p random_access) [
      | none ↦ none
      | some (returned v) ↦ some v
      | some (at_byte next p' random') ↦ scan_bytes hevc bytes size fuel next p' random'
    ]
    else some (final_verdict hevc p random_access)

abbrev pub none_present : Present
none_present = record { bit0 = false; bit1 = false; bit2 = false }

-- The H.264 and H.265 part of wd_client_video_keyframe_validate, for data that is not empty.
unfoldable pub annexb_validate : Bool → List ℕ → Option Verdict
unfolding scan_bytes
annexb_validate hevc bytes =
    scan_bytes hevc bytes (length bytes) (length bytes) 0 none_present false
