-- ===== src/Keyframe/AnnexB/Visit.antt =====
-- What an iteration of the loop of the check makes of a position.
use waydisplay.Prelude.{
  ltb, ◌==◌, ◌/=◌, if◌then◌else◌, ltb→lt, ltb→le, Bool-cases, ne_zero_test, length,
  get_elem?-in_range, ℕ, ◌+◌, ◌-◌, ◌≤◌, ◌<◌, ◌≡◌, refl, ◌∙◌, ◌≢◌, ◌⊎◌, inl, inr, Bool, true, Option,
  some, List, arith,
}
use waydisplay.Keyframe.{invalid_bitstream}
use waydisplay.Keyframe.AnnexB.{
  unit_type, read_unit, place_of, scan_byte, Present, Step, stop, Place, at_byte, returned,
}
use waydisplay.Keyframe.AnnexB.Codes.{
  byte, code_at, start_code_value, code_at-le, unit_end-IsEnd, IsEnd-unique, IsEnd,
}
use waydisplay.Keyframe.AnnexB.Units.{min_size, header_ok, type_step, read_value, read_short}

-- A NAL unit stands at the position.
pub record IsUnit (hevc : Bool) (bytes : List ℕ) (pos next : ℕ) : Type 0 where
  pub code : code_at bytes pos ≢ 0
  pub extent : IsEnd bytes (pos + code_at bytes pos) next
  pub room : pos + code_at bytes pos + min_size hevc ≤ next
  pub header : header_ok hevc bytes (pos + code_at bytes pos) ≡ true

module _ (hevc : Bool) (bytes : List ℕ) where
  abbrev pub type_at : ℕ → ℕ
  type_at pos = unit_type hevc (byte bytes (pos + code_at bytes pos))

  abbrev pub visit : ℕ → Present → Bool → Option Place
  visit pos p r = scan_byte hevc bytes (length bytes) pos p r

  pub visit_padding :
      (pos : ℕ) (p : Present) (r : Bool)
      → pos < length bytes
      → code_at bytes pos ≡ 0
      → visit pos p r
        ≡ some (if byte bytes pos /= 0 then returned invalid_bitstream else at_byte (pos + 1) p r)
  unfolding scan_byte
  visit_padding pos p r lt zero_code =
      rw (start_code_value bytes pos, zero_code, get_elem?-in_range bytes pos 0 lt) refl

  visit_code :
      (pos next : ℕ) (p : Present) (r : Bool) (step : Step)
      → code_at bytes pos ≢ 0
      → IsEnd bytes (pos + code_at bytes pos) next
      → read_unit hevc bytes (pos + code_at bytes pos) next p r ≡ some step
      → visit pos p r ≡ some (place_of next step)
  unfolding scan_byte
  visit_code pos next p r step code ends reads =
      let le = code_at-le bytes pos code in
      let (found, returns, ends') =
        unit_end-IsEnd bytes (length bytes - (pos + code_at bytes pos)) (pos + code_at bytes pos)
          (omega (arith, le)) in
      let same = IsEnd-unique bytes (pos + code_at bytes pos) found next ends' ends in
      rw (start_code_value bytes pos, ne_zero_test (code_at bytes pos) code, returns, same, reads)
        refl

  -- A unit is passed, with its type taken into account.
  pub visit_unit :
      (pos next : ℕ) (p : Present) (r : Bool)
      → IsUnit hevc bytes pos next
      → visit pos p r ≡ some (place_of next (type_step hevc (type_at pos) p r))
  visit_unit pos next p r u =
      visit_code pos next p r (type_step hevc (type_at pos) p r) u.code u.extent (
        read_value hevc bytes (pos + code_at bytes pos) next p r u.extent.before u.room
        ∙ rw u.header refl)

  -- What stands at a position: a zero byte between the units, a unit, or an error.
  pub visit-cases :
      (pos : ℕ) (p : Present) (r : Bool)
      → pos < length bytes
      → ((code_at bytes pos ≡ 0)
          × (byte bytes pos ≡ 0)
          × (visit pos p r ≡ some (at_byte (pos + 1) p r)))
        ⊎ (((next : ℕ) × IsUnit hevc bytes pos next)
            ⊎ (visit pos p r ≡ some (returned invalid_bitstream)))
  visit-cases pos p r lt = elim (Bool-cases (code_at bytes pos == 0)) [
    | inl zero_code ↦
        let no_code : code_at bytes pos ≡ 0 = ground (arith, zero_code) in
        let value = visit_padding pos p r lt no_code in
        elim (Bool-cases (byte bytes pos /= 0)) [
          | inl nonzero ↦ inr (inr (value ∙ rw nonzero refl))
          | inr is_zero ↦ inl (no_code, ground (arith, is_zero), value ∙ rw is_zero refl)
        ]
    | inr has_code ↦
        let code : code_at bytes pos ≢ 0 = λ z. ground (arith, has_code, z) in
        let le = code_at-le bytes pos code in
        let (next, returns, ends) =
          unit_end-IsEnd bytes (length bytes - (pos + code_at bytes pos)) (pos + code_at bytes pos)
            (omega (arith, le)) in
        let nal = pos + code_at bytes pos in
        elim (Bool-cases (ltb next (nal + min_size hevc))) [
          | inl short ↦ inr (
              inr (
                visit_code pos next p r (stop invalid_bitstream) code ends
                  (read_short hevc bytes nal next p r (ltb→lt _ _ short) ends.after)))
          | inr room ↦
              let enough = ltb→le next (nal + min_size hevc) room in
              let value = read_value hevc bytes nal next p r ends.before enough in
              elim (Bool-cases (header_ok hevc bytes nal)) [
                | inl good ↦ inr (
                    inl (next, record { code = code; extent = ends; room = enough; header = good }))
                | inr bad ↦ inr (
                    inr (
                      visit_code pos next p r (stop invalid_bitstream) code ends
                        (value ∙ rw bad refl)))
              ]
        ]
  ]
