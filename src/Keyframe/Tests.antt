-- ===== src/Keyframe/Tests.antt =====
-- The theorems at concrete inputs.
use waydisplay.Prelude.{
  length, drop, ℕ, ◌+◌, ◌≡◌, refl, ◌≢◌, ◌↔◌, ◌⊎◌, true, false, some, List, [], ◌∷◌,
}
use waydisplay.Keyframe.{Verdict, valid, invalid_bitstream, missing_parameter_sets}
use waydisplay.Keyframe.AnnexB.{annexb_validate}
use waydisplay.Keyframe.AnnexB.Codes.{code_at}
use waydisplay.Keyframe.Repair.{nal_header, annexb_repair, unrepairable, rewritten}
use waydisplay.Keyframe.Repair.Prefix.{repair_exact}
use waydisplay.Keyframe.Av1.{av1_validate}
use waydisplay.Keyframe.Av1.Obus.{Obu, Obus}
use waydisplay.Keyframe.Av1.Sound.{all_admitted, has_frame, ends_with_picture, av1_sound}
use waydisplay.Keyframe.AnnexB.Units.{Units}
use waydisplay.Keyframe.AnnexB.Accepts.{decodable, has_picture, keyframe_exact}

-- An SPS, a PPS and an IDR picture of H.264.
abbrev idr_bytes : List ℕ
idr_bytes =
    0 ∷ 0 ∷ 0 ∷ 1 ∷ 0x67 ∷ 0x42 ∷ 0 ∷ 0 ∷ 1 ∷ 0x68 ∷ 0xce ∷ 0 ∷ 0 ∷ 0 ∷ 1 ∷ 0x65 ∷ 0x88 ∷ 0x84 ∷ []

idr_test : annexb_validate false idr_bytes ≡ some valid
unfolding annexb_validate
idr_test = refl

-- Without the PPS.
no_pps_test :
    annexb_validate false (0 ∷ 0 ∷ 1 ∷ 0x67 ∷ 0x42 ∷ 0 ∷ 0 ∷ 1 ∷ 0x65 ∷ 0x88 ∷ [])
    ≡ some missing_parameter_sets
unfolding annexb_validate
no_pps_test = refl

length_prefixed_test :
    annexb_validate false (0 ∷ 0 ∷ 0 ∷ 2 ∷ 0x67 ∷ 0x42 ∷ []) ≡ some invalid_bitstream
unfolding annexb_validate
length_prefixed_test = refl

keyframe_exact_example :
    ((v : Verdict) × (annexb_validate false idr_bytes ≡ some v))
    × ((annexb_validate false idr_bytes ≡ some valid) ↔ (
        (types : List ℕ) × Units false idr_bytes 0 types
        × (decodable false [] types ≡ true)
        × (has_picture false types ≡ true)))
keyframe_exact_example = keyframe_exact false idr_bytes

-- A sequence header of two bytes, and a frame that reaches to the end.
abbrev key_unit : List ℕ
key_unit = 0x12 ∷ 0 ∷ 0x0a ∷ 2 ∷ 0 ∷ 0 ∷ 0x30 ∷ 0x10 ∷ 0xff ∷ []

key_unit_test : av1_validate key_unit ≡ some valid
unfolding av1_validate
key_unit_test = refl

-- The size field of a payload that the data does not hold.
truncated_test : av1_validate (0x0a ∷ 0x83 ∷ 0 ∷ 0 ∷ []) ≡ some invalid_bitstream
unfolding av1_validate
truncated_test = refl

av1_sound_example :
    ((av1_validate key_unit ≡ some valid)
      × ((obus : List Obu) × Obus key_unit 0 obus
          × ((all_admitted false obus ≡ true)
              × (has_frame obus ≡ true)
              × (ends_with_picture false false obus ≡ true))))
    ⊎ ((v : Verdict) × (av1_validate key_unit ≡ some v) × (v ≢ valid))
av1_sound_example = av1_sound key_unit

-- A VPS behind an escaped start code.
abbrev escaped_bytes : List ℕ
escaped_bytes = 0 ∷ 0 ∷ 3 ∷ 0 ∷ 1 ∷ 0x40 ∷ 1 ∷ 0x0c ∷ []

-- A second candidate makes the unit ambiguous.
ambiguous_test :
    annexb_repair (0 ∷ 0 ∷ 3 ∷ 1 ∷ 0x40 ∷ 1 ∷ 0 ∷ 0 ∷ 3 ∷ 1 ∷ 0x42 ∷ 1 ∷ []) ≡ unrepairable
unfolding annexb_repair nal_header
ambiguous_test = refl

abbrev repaired_bytes : List ℕ
repaired_bytes = 0 ∷ 0 ∷ 0 ∷ 1 ∷ 0x40 ∷ 1 ∷ 0x0c ∷ []

escaped_test : annexb_repair escaped_bytes ≡ rewritten repaired_bytes
unfolding annexb_repair nal_header
escaped_test = refl

repair_exact_example :
    (length repaired_bytes + 1 ≡ length escaped_bytes)
    × (code_at repaired_bytes 0 ≢ 0)
    × (drop (code_at repaired_bytes 0) repaired_bytes
        ≡ drop (code_at repaired_bytes 0 + 1) escaped_bytes)
    × (nal_header (drop (code_at repaired_bytes 0) repaired_bytes) ≡ true)
repair_exact_example = repair_exact escaped_bytes repaired_bytes escaped_test
