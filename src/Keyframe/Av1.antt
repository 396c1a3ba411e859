-- ===== src/Keyframe/Av1.antt =====
-- The AV1 part of wd_client_video_keyframe_validate in src/client/video_keyframe_recovery.c: the
-- OBUs of a temporal unit. Each read of the data is checked: `none` is a read outside of it.
pub mod Size
pub mod Obus
pub mod Visit
pub mod Sound
use waydisplay.Prelude.{
  ltb, leb, ◌==◌, ◌/=◌, if◌then◌else◌, length, get_elem?, size_max, ℕ, zero, suc, ◌+◌, ◌-◌, ◌*◌,
  ◌/◌, ◌%◌, ◌^◌, Bool, true, false, not, ◌&&◌, ◌||◌, Option, none, some, List,
}
use waydisplay.Keyframe.{
  ◌>>=◌, Verdict, valid, invalid_bitstream, missing_parameter_sets, missing_random_access,
}

-- What the loop on the bytes of a size gives: the position behind it and the size.
pub data SizeRead : Type 0 where
  bad_size : SizeRead
  size_is : ℕ → ℕ → SizeRead

-- The `do` loop on the bytes of `payload_size`, at `shift`. `|=` adds, since the bits of the parts
-- do not overlap. After ten iterations the shift is 70, so that 11 are enough.
unfoldable pub read_size : List ℕ → ℕ → ℕ → ℕ → ℕ → ℕ → Option SizeRead
read_size bytes size zero pos shift payload_size = none
read_size bytes size (suc fuel) pos shift payload_size =
    if leb size pos || leb 64 shift then some bad_size else (do
      part ← get_elem? bytes pos
      let part_size = part % 0x80
      let payload = payload_size + part_size * 2 ^ shift
      if ltb (size_max / 2 ^ shift) part_size
          then some bad_size
          else if part / 0x80 % 2 == 0
          then some (size_is (pos + 1) payload)
          else read_size bytes size fuel (pos + 1) (shift + 7) payload)

-- The extension byte, if the header announces one; the position behind it.
unfoldable pub read_extension : List ℕ → ℕ → ℕ → ℕ → Option SizeRead
read_extension bytes size header pos =
    if header / 4 % 2 == 0
    then some (size_is pos 0)
    else if leb size pos
    then some bad_size
    else (do
      extension ← get_elem? bytes pos
      some (if extension % 8 /= 0 then bad_size else size_is (pos + 1) 0))

-- The size of the payload: what the size field says, or the rest of the data.
unfoldable pub read_payload : List ℕ → ℕ → ℕ → ℕ → Option SizeRead
unfolding read_size
read_payload bytes size header pos =
    if header / 2 % 2 == 0 then some (size_is pos (size - pos)) else (do
      read ← read_size bytes size 11 pos 0 0
      some (elim read [
        | bad_size ↦ bad_size
        | size_is next payload ↦
            if ltb (size - next) payload then bad_size else size_is next payload
      ]))

-- The local variables of wd_av1_keyframe_validate.
pub record Found : Type 0 where
  pub sequence : Bool
  pub key_header : Bool
  pub picture : Bool

pub data Av1Step : Type 0 where
  reject : Verdict → Av1Step
  keep : Found → Av1Step

-- A frame header or a frame, by its first payload byte.
unfoldable pub take_frame : ℕ → ℕ → Found → Av1Step
take_frame type first found =
    if first / 0x20 /= 0
    then reject missing_random_access
    else keep (record found { key_header = true; picture = found.picture || type == 6 })

-- The payload of an OBU of the type.
unfoldable pub take_payload : List ℕ → ℕ → ℕ → ℕ → Found → Option Av1Step
unfolding take_frame
take_payload bytes type pos payload found =
    if type == 1
    then some
        (if payload == 0 then reject invalid_bitstream else keep (record found { sequence = true }))
    else if type == 3 || type == 6
    then (if payload == 0
        then some (reject invalid_bitstream)
        else if not found.sequence
        then some (reject missing_parameter_sets)
        else (do first ← get_elem? bytes pos; some (take_frame type first found)))
    else some (
        keep (
          if type == 4 && found.key_header then record found { picture = payload /= 0 } else found))

-- Where the loop stands, or what it returns.
pub data Av1Place : Type 0 where
  at_obu : ℕ → Found → Av1Place
  rejected : Verdict → Av1Place

abbrev pub place_behind : ℕ → Av1Step → Av1Place
place_behind next (reject v) = rejected v
place_behind next (keep found) = at_obu next found

abbrev pub obu_type : ℕ → ℕ
obu_type header = header / 8 % 16

-- An iteration of the loop on the OBUs.
unfoldable pub scan_obu : List ℕ → ℕ → ℕ → Found → Option Av1Place
unfolding read_extension read_payload take_payload
scan_obu bytes size pos found = do
  header ← get_elem? bytes pos
  if header % 2 /= 0 || (header / 0x80 /= 0 || obu_type header == 0)
      then some (rejected invalid_bitstream)
      else (do
        extended ← read_extension bytes size header (pos + 1)
        elim extended [
          | bad_size ↦ some (rejected invalid_bitstream)
          | size_is behind_header _ ↦ (do
            sized ← read_payload bytes size header behind_header
            elim sized [
              | bad_size ↦ some (rejected invalid_bitstream)
              | size_is start payload ↦ (do
                step ← take_payload bytes (obu_type header) start payload found
                some (place_behind (start + payload) step))
            ])
        ])

-- What follows the loop.
unfoldable pub av1_verdict : Found → Verdict
av1_verdict found =
    if not found.sequence
    then missing_parameter_sets
    else if found.key_header && found.picture
    then valid
    else missing_random_access

-- `while (pos < size)`. Each iteration passes the header of an OBU, so that as many as there are
-- bytes are enough.
unfoldable pub scan_obus : List ℕ → ℕ → ℕ → ℕ → Found → Option Verdict
unfolding scan_obu av1_verdict
scan_obus bytes size zero pos found = if ltb pos size then none else some (av1_verdict found)
scan_obus bytes size (suc fuel) pos found =
    if ltb pos size
    then elim (scan_obu bytes size pos found) [
      | none ↦ none
      | some (rejected v) ↦ some v
      | some (at_obu next found') ↦ scan_obus bytes size fuel next found'
    ]
    else some (av1_verdict found)

abbrev pub nothing_found : Found
nothing_found = record { sequence = false; key_header = false; picture = false }

-- wd_av1_keyframe_validate
unfoldable pub av1_validate : List ℕ → Option Verdict
unfolding scan_obus
av1_validate bytes = scan_obus bytes (length bytes) (length bytes) 0 nothing_found
