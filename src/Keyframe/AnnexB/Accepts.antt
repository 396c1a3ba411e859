-- ===== src/Keyframe/AnnexB/Accepts.antt =====
-- Which access units pass: by the types of their NAL units, and by their bytes.
use waydisplay.Prelude.{
  leb, ◌==◌, Bool-cases, and_true, length, ℕ, ◌≡◌, refl, sym, ap, ◌∙◌, ◌↔◌, inl, inr, Bool, true,
  false, not, ◌&&◌, ◌||◌, some, List, [], ◌∷◌, arith,
}
use waydisplay.Keyframe.{Verdict, valid}
use waydisplay.Keyframe.AnnexB.{
  hevc_unit, avc_unit, final_verdict, none_present, annexb_validate, Present,
}
use waydisplay.Keyframe.AnnexB.Units.{judge, Units}
use waydisplay.Keyframe.AnnexB.Loop.{scan-judge, scan-Outcome}

abbrev pub contains : ℕ → List ℕ → Bool
contains t [] = false
contains t (u ∷ us) = contains t us || u == t

-- The parameter sets of the standard are among the units: the VPS, SPS and PPS of H.265, the SPS
-- and PPS of H.264.
abbrev pub ready : Bool → List ℕ → Bool
ready true units = contains 32 units && (contains 33 units && contains 34 units)
ready false units = contains 7 units && contains 8 units

abbrev pub is_picture : Bool → ℕ → Bool
is_picture true t = leb t 31
is_picture false t = t == 1 || t == 5

-- An IRAP picture of H.265, an IDR picture of H.264.
abbrev pub is_random_access : Bool → ℕ → Bool
is_random_access true t = leb 16 t && leb t 21
is_random_access false t = t == 5

-- Behind the units `before`, each picture is a random-access one and has the parameter sets before
-- it.
abbrev pub decodable : Bool → List ℕ → List ℕ → Bool
decodable hevc before [] = true
decodable hevc before (t ∷ types) =
    (not (is_picture hevc t) || (is_random_access hevc t && ready hevc before))
    && decodable hevc (t ∷ before) types

abbrev pub has_picture : Bool → List ℕ → Bool
has_picture hevc [] = false
has_picture hevc (t ∷ types) = is_picture hevc t || has_picture hevc types

abbrev is_valid : Verdict → Bool
is_valid valid = true
is_valid _ = false

-- The bits tell which parameter sets are among the units.
abbrev Tracks : Bool → Present → List ℕ → Type 0
Tracks true p before =
    (p.bit0 ≡ contains 32 before) × (p.bit1 ≡ contains 33 before) × (p.bit2 ≡ contains 34 before)
Tracks false p before = (p.bit0 ≡ contains 7 before) × (p.bit1 ≡ contains 8 before)

judge_hevc :
    (types before : List ℕ) (p : Present) (r : Bool)
    → Tracks true p before
    → (r ≡ true → ready true before ≡ true)
    → is_valid (judge true p r types)
      ≡ (decodable true before types && (r || has_picture true types))
unfolding judge final_verdict hevc_unit
judge_hevc [] before p r tracks k = ground (arith, k)
judge_hevc (t ∷ types) before p r (a, b, c) k =
    let p' : Present = record {
      bit0 = p.bit0 || t == 32;
      bit1 = p.bit1 || t == 33;
      bit2 = p.bit2 || t == 34;
    } in
    elim (Bool-cases (leb t 31)) [
      | inl picture ↦ elim (Bool-cases (is_random_access true t && ready true before)) [
        | inl good ↦ ground (
          arith,
          judge_hevc types (t ∷ before) p' true (ground arith, ground arith, ground arith)
              (λ e. ground arith),
        )
        | inr bad ↦ ground arith
      ]
      | inr other ↦ ground (
        arith,
        judge_hevc types (t ∷ before) p' r (ground arith, ground arith, ground arith)
            (λ e. ground (arith, k e)),
      )
    ]

judge_avc :
    (types before : List ℕ) (p : Present) (r : Bool)
    → Tracks false p before
    → (r ≡ true → ready false before ≡ true)
    → is_valid (judge false p r types)
      ≡ (decodable false before types && (r || has_picture false types))
unfolding judge final_verdict avc_unit
judge_avc [] before p r tracks k = ground (arith, k)
judge_avc (t ∷ types) before p r (a, b) k =
    let p' : Present = record { bit0 = p.bit0 || t == 7; bit1 = p.bit1 || t == 8; bit2 = p.bit2 } in
    elim (Bool-cases (t == 1 || t == 5)) [
      | inl picture ↦ elim (Bool-cases (is_random_access false t && ready false before)) [
        | inl good ↦ ground (
          arith,
          judge_avc types (t ∷ before) p' true (ground arith, ground arith) (λ e. ground arith),
        )
        | inr bad ↦ ground arith
      ]
      | inr other ↦ ground (
        arith,
        judge_avc types (t ∷ before) p' r (ground arith, ground arith) (λ e. ground (arith, k e)),
      )
    ]

judge-is_valid :
    (hevc : Bool) (types : List ℕ)
    → is_valid (judge hevc none_present false types)
      ≡ (decodable hevc [] types && has_picture hevc types)
judge-is_valid true types =
    judge_hevc types [] none_present false (refl, refl, refl) (λ e. ground (arith, e))
judge-is_valid false types =
    judge_avc types [] none_present false (refl, refl) (λ e. ground (arith, e))

valid_of : (v : Verdict) → is_valid v ≡ true → v ≡ valid
valid_of v e = ground (arith, e)

some_injective : (v w : Verdict) → some v ≡ some w → v ≡ w
some_injective v w e = ground (arith, e)

-- On any bytes, for H.264 and for H.265, the check of wd_client_video_keyframe_validate reads
-- nothing outside of the data and ends with a verdict. The data is valid exactly if it consists of
-- start codes and NAL units with zero bytes between them, where each unit reaches to the next start
-- code or to the end, has its standard's smallest size and a well-formed header, there is a picture,
-- and every picture is a random-access one behind all of its parameter sets.
pub keyframe_exact :
    (hevc : Bool) (bytes : List ℕ)
    → ((v : Verdict) × (annexb_validate hevc bytes ≡ some v))
      × ((annexb_validate hevc bytes ≡ some valid) ↔ (
          (types : List ℕ) × Units hevc bytes 0 types
          × (decodable hevc [] types ≡ true)
          × (has_picture hevc types ≡ true)))
unfolding annexb_validate
keyframe_exact hevc bytes =
    let (v, returns, units) =
      scan-Outcome hevc bytes (length bytes) 0 none_present false (omega arith) (omega arith) in
    (
      (v, returns),
      (
        λ ok.
            let (types, all) = units (some_injective v valid (sym returns ∙ ok)) in
            let follows =
              scan-judge hevc bytes 0 types (length bytes) none_present false (omega arith) all in
            let good : judge hevc none_present false types ≡ valid =
              some_injective _ valid (sym follows ∙ ok) in
            let (a, b) = and_true _ _ (sym (judge-is_valid hevc types) ∙ ap is_valid good) in
            (types, all, a, b),
        λ (types, all, a, b).
            scan-judge hevc bytes 0 types (length bytes) none_present false (omega arith) all
            ∙ ap some (valid_of _ (judge-is_valid hevc types ∙ rw (a, b) refl)),
      ),
    )
