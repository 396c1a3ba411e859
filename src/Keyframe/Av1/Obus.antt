-- ===== src/Keyframe/Av1/Obus.antt =====
-- The OBUs of a temporal unit, as a relation between the bytes and what the check sees of them.
use waydisplay.Prelude.{
  ◌==◌, ◌/=◌, if◌then◌else◌, length, get_or, ℕ, ◌+◌, ◌-◌, ◌/◌, ◌%◌, ◌≤◌, ◌<◌, ◌≡◌, ◌≢◌, ◌⊎◌, true,
  not, ◌&&◌, ◌||◌, List, [], ◌∷◌,
}
use waydisplay.Keyframe.{invalid_bitstream, missing_parameter_sets}
use waydisplay.Keyframe.Av1.{take_frame, obu_type, Found, Av1Step, reject, keep}
use waydisplay.Keyframe.Av1.Size.{leb_value, IsSize}

-- What the check sees of an OBU: its type, the size of its payload, and the first byte of it.
pub record Obu : Type 0 where
  pub kind : ℕ
  pub payload_size : ℕ
  pub first : ℕ

-- The header at the position ends before `next`, with the extension byte if it has one.
abbrev pub HeaderEnds : List ℕ → ℕ → ℕ → Type 0
HeaderEnds bytes pos next =
    ((get_or bytes pos 0 / 4 % 2 ≡ 0) × (next ≡ pos + 1))
    ⊎ ((get_or bytes pos 0 / 4 % 2 ≢ 0)
        × (pos + 1 < length bytes)
        × (get_or bytes (pos + 1) 0 % 8 ≡ 0)
        × (next ≡ pos + 2))

-- The payload of the OBU whose header is given: by the size field, or to the end of the data.
abbrev pub PayloadIs : List ℕ → ℕ → ℕ → ℕ → ℕ → Type 0
PayloadIs bytes header pos start payload =
    ((header / 2 % 2 ≡ 0) × (start ≡ pos) × (payload ≡ length bytes - pos))
    ⊎ ((header / 2 % 2 ≢ 0)
        × ((n : ℕ) × IsSize bytes pos n × (start ≡ pos + n) × (payload ≡ leb_value bytes pos n)))

pub record ObuAt (bytes : List ℕ) (pos next : ℕ) (o : Obu) : Type 0 where
  pub in_data : pos < length bytes
  pub forbidden_bits : (get_or bytes pos 0 % 2 ≡ 0) × (get_or bytes pos 0 / 0x80 ≡ 0) × (o.kind ≢ 0)
  pub kind_is : o.kind ≡ obu_type (get_or bytes pos 0)
  pub behind_header : ℕ
  pub header_ends : HeaderEnds bytes pos behind_header
  pub start : ℕ
  pub payload_is : PayloadIs bytes (get_or bytes pos 0) behind_header start o.payload_size
  pub ends : next ≡ start + o.payload_size
  pub fits : next ≤ length bytes
  pub first_is : o.first ≡ get_or bytes start 0

-- From the position on, the data is the given OBUs.
pub data Obus (bytes : List ℕ) : ℕ → List Obu → Type 0 where
  no_more : Obus bytes (length bytes) []
  obu :
      (pos next : ℕ) (o : Obu) (rest : List Obu)
      → ObuAt bytes pos next o
      → Obus bytes next rest
      → Obus bytes pos (o ∷ rest)

-- The step of the check for an OBU.
unfoldable pub obu_step : Obu → Found → Av1Step
unfolding take_frame
obu_step o found =
    if o.kind == 1
    then if o.payload_size == 0
      then reject invalid_bitstream
      else keep (record found { sequence = true })
    else if o.kind == 3 || o.kind == 6
    then if o.payload_size == 0
      then reject invalid_bitstream
      else if not found.sequence
      then reject missing_parameter_sets
      else take_frame o.kind o.first found
    else keep (
        if o.kind == 4 && found.key_header
        then record found { picture = o.payload_size /= 0 }
        else found)
