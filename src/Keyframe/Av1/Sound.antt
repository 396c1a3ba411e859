-- ===== src/Keyframe/Av1/Sound.antt =====
-- Which AV1 temporal units pass.
use waydisplay.Prelude.{
  ◌==◌, ◌/=◌, if◌then◌else◌, lt→ltb, le→ltb, Bool-cases, first_or_later, length, ℕ, zero, suc, ◌+◌,
  ◌/◌, ◌≤◌, ◌<◌, ◌≡◌, refl, sym, ap, ◌∙◌, subst, ◌≢◌, ◌⊎◌, inl, inr, Bool, true, false, not, ◌&&◌,
  ◌||◌, some, List, [], ◌∷◌, arith,
}
use waydisplay.Keyframe.{
  Verdict, valid, invalid_bitstream, missing_parameter_sets, missing_random_access,
}
use waydisplay.Keyframe.Av1.{
  place_behind, scan_obu, av1_verdict, scan_obus, nothing_found, av1_validate, Found, reject, keep,
  rejected,
}
use waydisplay.Keyframe.Av1.Visit.{scan_obu-cases}
use waydisplay.Keyframe.Av1.Obus.{obu_step, Obu, ObuAt, Obus, no_more, obu}

-- A frame header or a frame.
abbrev pub is_frame : Obu → Bool
is_frame o = o.kind == 3 || o.kind == 6

-- A sequence header or a frame that has a payload; for a frame, show_existing_frame and frame_type
-- are 0, which is a key frame, and a sequence header is before it.
abbrev pub admits : Obu → Bool → Bool
admits o sequence =
    (o.kind /= 1 || o.payload_size /= 0)
    && (not (is_frame o) || (o.payload_size /= 0 && (sequence && o.first / 0x20 == 0)))

abbrev pub all_admitted : Bool → List Obu → Bool
all_admitted sequence [] = true
all_admitted sequence (o ∷ rest) = admits o sequence && all_admitted (sequence || o.kind == 1) rest

abbrev pub has_frame : List Obu → Bool
has_frame [] = false
has_frame (o ∷ rest) = is_frame o || has_frame rest

-- Whether there is a picture behind the OBU: a frame carries one, and a tile group behind a frame
-- header does if it has a payload.
abbrev pub shows_picture : Obu → Bool → Bool → Bool
shows_picture o key_header picture =
    if o.kind == 6 then true else if o.kind == 4 && key_header then o.payload_size /= 0 else picture

abbrev pub ends_with_picture : Bool → Bool → List Obu → Bool
ends_with_picture key_header picture [] = picture
ends_with_picture key_header picture (o ∷ rest) =
    ends_with_picture (key_header || is_frame o) (shows_picture o key_header picture) rest

-- What the check has found behind an OBU that it admits.
abbrev passed : Obu → Found → Found
passed o found = record {
  sequence = found.sequence || o.kind == 1;
  key_header = found.key_header || is_frame o;
  picture = shows_picture o found.key_header found.picture;
}

keep_found :
    (a b : Found)
    → a.sequence ≡ b.sequence
    → a.key_header ≡ b.key_header
    → a.picture ≡ b.picture
    → keep a ≡ keep b
keep_found a b e f g = rw (e, f, g) refl

step_admitted :
    (o : Obu) (found : Found)
    → admits o found.sequence ≡ true
    → obu_step o found ≡ keep (passed o found)
unfolding obu_step
step_admitted o found ok = elim (Bool-cases (o.kind == 1)) [
  | inl sequence ↦
      let full : (o.payload_size == 0) ≡ false = ground arith in
      let value : obu_step o found ≡ keep (record found { sequence = true }) =
        rw (sequence, full) refl in
      value
      ∙ keep_found (record found { sequence = true }) (passed o found) (ground arith) (ground arith)
          (ground arith)
  | inr other ↦ elim (Bool-cases (is_frame o)) [
    | inl frame ↦
        let full : (o.payload_size == 0) ≡ false = ground arith in
        let behind_sequence : found.sequence ≡ true = ground arith in
        let key : (o.first / 0x20 /= 0) ≡ false = ground arith in
        let value : obu_step o found
            ≡ keep (record found { key_header = true; picture = found.picture || o.kind == 6 }) =
          rw (other, frame, full, behind_sequence, key) refl in
        value
        ∙ keep_found (record found { key_header = true; picture = found.picture || o.kind == 6 })
            (passed o found) (ground arith) (ground arith) (ground arith)
    | inr rest ↦ elim (Bool-cases (o.kind == 4 && found.key_header)) [
      | inl group ↦
          let value : obu_step o found ≡ keep (record found { picture = o.payload_size /= 0 }) =
            rw (other, rest, group) refl in
          value
          ∙ keep_found (record found { picture = o.payload_size /= 0 }) (passed o found)
              (ground arith) (ground arith) (ground arith)
      | inr ignored ↦
          let value : obu_step o found ≡ keep found = rw (other, rest, ignored) refl in
          value ∙ keep_found found (passed o found) (ground arith) (ground arith) (ground arith)
    ]
  ]
]

refusal : Obu → Found → Verdict
refusal o found =
    if o.payload_size == 0
    then invalid_bitstream
    else if not found.sequence
    then missing_parameter_sets
    else missing_random_access

step_refused :
    (o : Obu) (found : Found)
    → admits o found.sequence ≡ false
    → (obu_step o found ≡ reject (refusal o found)) × (refusal o found ≢ valid)
unfolding obu_step refusal
step_refused o found bad = (ground (arith, bad), λ e. ground (arith, e))

-- The OBUs pass, behind what is found.
abbrev Passes : Found → List Obu → Type 0
Passes found obus =
    (all_admitted found.sequence obus ≡ true)
    × (found.key_header || has_frame obus ≡ true)
    × (ends_with_picture found.key_header found.picture obus ≡ true)

pass_on :
    (o : Obu) (found : Found) (rest : List Obu)
    → admits o found.sequence ≡ true
    → Passes (passed o found) rest
    → Passes found (o ∷ rest)
pass_on o found rest ok (a, b, c) = (rw (ok, a) refl, ground (arith, b), c)

-- The loop ends with a verdict, and if the data is valid, it is OBUs that pass.
abbrev Av1Outcome : List ℕ → ℕ → ℕ → Found → Type 0
Av1Outcome bytes fuel pos found =
    (v : Verdict) × (scan_obus bytes (length bytes) fuel pos found ≡ some v)
    × (v ≡ valid → (obus : List Obu) × Obus bytes pos obus × Passes found obus)

module _ (bytes : List ℕ) where
  av1_end : (fuel pos : ℕ) (found : Found) → pos ≡ length bytes → Av1Outcome bytes fuel pos found
  unfolding scan_obus av1_verdict
  av1_end fuel pos found e = (
    av1_verdict found,
    returns fuel,
    λ ok. (
      [],
      subst (λ n. Obus bytes n []) (sym e) no_more,
      (refl, ground (arith, ok), ground (arith, ok)),
    ),
  )
    where
      returns : (f : ℕ) → scan_obus bytes (length bytes) f pos found ≡ some (av1_verdict found)
      returns zero = rw (le→ltb pos (length bytes) (omega (arith, e))) refl
      returns (suc f) = rw (le→ltb pos (length bytes) (omega (arith, e))) refl

  av1_stop :
      (fuel pos : ℕ) (found : Found) (v : Verdict)
      → pos < length bytes
      → scan_obu bytes (length bytes) pos found ≡ some (rejected v)
      → v ≢ valid
      → Av1Outcome bytes (suc fuel) pos found
  unfolding scan_obus
  av1_stop fuel pos found v lt e bad =
      (v, rw (lt→ltb pos (length bytes) lt, e) refl, λ ok. absurd (bad ok))

  av1_next :
      (fuel pos next : ℕ) (found : Found) (o : Obu)
      → ObuAt bytes pos next o
      → scan_obu bytes (length bytes) pos found ≡ some (place_behind next (obu_step o found))
      → admits o found.sequence ≡ true
      → Av1Outcome bytes fuel next (passed o found)
      → Av1Outcome bytes (suc fuel) pos found
  unfolding scan_obus
  av1_next fuel pos next found o at e ok (v, returns, sound) =
      let step = step_admitted o found ok in
      (
        v,
        rw (lt→ltb pos (length bytes) at.in_data, e, step) returns,
        λ good.
            let (rest, follow, passes) = sound good in
            (o ∷ rest, obu pos next o rest at follow, pass_on o found rest ok passes),
      )

  av1_outcome :
      (fuel pos : ℕ) (found : Found)
      → pos ≤ length bytes
      → length bytes ≤ pos + fuel
      → Av1Outcome bytes fuel pos found
  av1_outcome zero pos found le enough = av1_end zero pos found (omega arith)
  av1_outcome (suc fuel) pos found le enough = elim (first_or_later pos (length bytes) le) [
    | inl last ↦ av1_end (suc fuel) pos found last
    | inr lt ↦ elim (scan_obu-cases bytes pos found lt) [
      | inl bad ↦ av1_stop fuel pos found invalid_bitstream lt bad (λ e. ground (arith, e))
      | inr (next, o, at, later, e) ↦ elim (Bool-cases (admits o found.sequence)) [
        | inl ok ↦
            av1_next fuel pos next found o at e ok
              (av1_outcome fuel next (passed o found) at.fits (omega (arith, later)))
        | inr bad ↦
            let (step, not_valid) = step_refused o found bad in
            av1_stop fuel pos found (refusal o found) lt (e ∙ rw step refl) not_valid
      ]
    ]
  ]

valid_or_not : (v : Verdict) → (v ≡ valid) ⊎ (v ≢ valid)
valid_or_not valid = inl refl
valid_or_not invalid_bitstream = inr (λ e. ground (arith, e))
valid_or_not missing_parameter_sets = inr (λ e. ground (arith, e))
valid_or_not missing_random_access = inr (λ e. ground (arith, e))

-- On any bytes, the AV1 check reads nothing outside of the data and ends with a verdict. Either the
-- data is found valid, and it consists of OBUs to its end, whose headers, extensions and size
-- fields are well formed and whose payloads lie in the data, in which each frame starts with the
-- bits of a shown key frame and has a sequence header before it, there is a frame or frame header,
-- and the last frame, or tile group behind a frame header, carries a picture; or the verdict is
-- another one.
pub av1_sound :
    (bytes : List ℕ)
    → ((av1_validate bytes ≡ some valid)
        × ((obus : List Obu) × Obus bytes 0 obus
            × ((all_admitted false obus ≡ true)
                × (has_frame obus ≡ true)
                × (ends_with_picture false false obus ≡ true))))
      ⊎ ((v : Verdict) × (av1_validate bytes ≡ some v) × (v ≢ valid))
unfolding av1_validate
av1_sound bytes =
    let (v, returns, sound) =
      av1_outcome bytes (length bytes) 0 nothing_found (omega arith) (omega arith) in
    elim (valid_or_not v) [
      | inl ok ↦ inl (returns ∙ ap some ok, sound ok)
      | inr other ↦ inr (v, returns, other)
    ]
