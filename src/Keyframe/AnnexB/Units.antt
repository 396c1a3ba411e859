-- ===== src/Keyframe/AnnexB/Units.antt =====
-- Access units as sequences of NAL units, which the loop of the check follows.
use waydisplay.Prelude.{
  ◌==◌, ◌/=◌, if◌then◌else◌, lt→ltb, le→ltb, length, get_elem?-in_range, ℕ, ◌+◌, ◌-◌, ◌/◌, ◌%◌, ◌≤◌,
  ◌<◌, ◌≡◌, refl, ◌≢◌, Bool, true, false, not, ◌&&◌, ◌||◌, some, List, [], ◌∷◌, arith,
}
use waydisplay.Keyframe.{Verdict, invalid_bitstream}
use waydisplay.Keyframe.AnnexB.{
  hevc_unit, avc_unit, unit_type, take_unit, read_unit, final_verdict, Present, Step, stop, resume,
}
use waydisplay.Keyframe.AnnexB.Codes.{byte, code_at, IsEnd}

abbrev pub min_size : Bool → ℕ
min_size hevc = if hevc then 3 else 2

-- The bits of the header of a unit that its standard fixes.
abbrev pub header_ok : Bool → List ℕ → ℕ → Bool
header_ok hevc bytes nal =
    byte bytes nal / 128 % 2 == 0 && (not hevc || byte bytes (nal + 1) % 8 /= 0)

-- From the position on, the bytes are start codes with units of the given types, with zero bytes
-- between them.
pub data Units (hevc : Bool) (bytes : List ℕ) : ℕ → List ℕ → Type 0 where
  finished : Units hevc bytes (length bytes) []
  padding :
      (pos : ℕ) (types : List ℕ)
      → pos < length bytes
      → code_at bytes pos ≡ 0
      → byte bytes pos ≡ 0
      → Units hevc bytes (pos + 1) types
      → Units hevc bytes pos types
  unit :
      (pos next : ℕ) (types : List ℕ)
      → code_at bytes pos ≢ 0
      → IsEnd bytes (pos + code_at bytes pos) next
      → pos + code_at bytes pos + min_size hevc ≤ next
      → header_ok hevc bytes (pos + code_at bytes pos) ≡ true
      → Units hevc bytes next types
      → Units hevc bytes pos (unit_type hevc (byte bytes (pos + code_at bytes pos)) ∷ types)

abbrev pub type_step : Bool → ℕ → Present → Bool → Step
type_step hevc type p random_access =
    if hevc then hevc_unit type p random_access else avc_unit type p random_access

-- The verdict on the units, by their types.
unfoldable pub judge : Bool → Present → Bool → List ℕ → Verdict
unfolding final_verdict
judge hevc p random_access [] = final_verdict hevc p random_access
judge hevc p random_access (type ∷ types) = elim (type_step hevc type p random_access) [
  | stop v ↦ v
  | resume p' random' ↦ judge hevc p' random' types
]

take_value :
    (hevc : Bool) (header : ℕ) (p : Present) (r : Bool)
    → take_unit hevc header p r ≡ type_step hevc (unit_type hevc header) p r
unfolding take_unit
take_value true header p r = refl
take_value false header p r = refl

pub read_value :
    (hevc : Bool) (bytes : List ℕ) (nal next : ℕ) (p : Present) (r : Bool)
    → next ≤ length bytes
    → nal + min_size hevc ≤ next
    → read_unit hevc bytes nal next p r
      ≡ some (
          if header_ok hevc bytes nal
          then type_step hevc (unit_type hevc (byte bytes nal)) p r
          else stop invalid_bitstream)
unfolding read_unit
read_value true bytes nal next p r le room =
    rw
      (
        le→ltb (next - nal) 3 (omega arith),
        get_elem?-in_range bytes nal 0 (omega arith),
        get_elem?-in_range bytes (nal + 1) 0 (omega arith),
        take_value true (byte bytes nal) p r,
      )
      (ground arith)
read_value false bytes nal next p r le room =
    rw
      (
        le→ltb (next - nal) 2 (omega arith),
        get_elem?-in_range bytes nal 0 (omega arith),
        take_value false (byte bytes nal) p r,
      )
      (ground arith)

pub read_short :
    (hevc : Bool) (bytes : List ℕ) (nal next : ℕ) (p : Present) (r : Bool)
    → next < nal + min_size hevc
    → nal ≤ next
    → read_unit hevc bytes nal next p r ≡ some (stop invalid_bitstream)
unfolding read_unit
read_short true bytes nal next p r short le = rw (lt→ltb (next - nal) 3 (omega arith)) refl
read_short false bytes nal next p r short le = rw (lt→ltb (next - nal) 2 (omega arith)) refl
