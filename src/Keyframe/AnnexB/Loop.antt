-- ===== src/Keyframe/AnnexB/Loop.antt =====
-- The loop of the check reads no byte outside of the data, and follows the NAL units.
use mathlib.Core.Bool.{true≢false}
use waydisplay.Prelude.{
  lt→ltb, le→ltb, eq_ne_test, first_or_later, length, ℕ, zero, suc, ◌+◌, ◌≤◌, ◌<◌, ◌≡◌, refl, sym,
  ap, ◌∙◌, subst, ◌≢◌, inl, inr, Bool, true, false, Option, some, List, [], ◌∷◌, arith,
}
use waydisplay.Keyframe.{Verdict, valid, invalid_bitstream}
use waydisplay.Keyframe.AnnexB.{
  hevc_unit, avc_unit, place_of, final_verdict, scan_bytes, Present, Step, stop, resume, at_byte,
  returned,
}
use waydisplay.Keyframe.AnnexB.Codes.{byte, code_at, code_at-le}
use waydisplay.Keyframe.AnnexB.Units.{type_step, judge, Units, finished, padding, unit}
use waydisplay.Keyframe.AnnexB.Visit.{
  type_at, visit, visit_padding, visit_unit, visit-cases, IsUnit,
}

module _ (hevc : Bool) (bytes : List ℕ) where
  abbrev scan : ℕ → ℕ → Present → Bool → Option Verdict
  scan fuel pos p r = scan_bytes hevc bytes (length bytes) fuel pos p r

  scan_end :
      (fuel pos : ℕ) (p : Present) (r : Bool)
      → length bytes ≤ pos
      → scan fuel pos p r ≡ some (final_verdict hevc p r)
  unfolding scan_bytes
  scan_end zero pos p r le = rw (le→ltb pos (length bytes) le) refl
  scan_end (suc fuel) pos p r le = rw (le→ltb pos (length bytes) le) refl

  scan_on :
      (fuel pos next : ℕ) (p p' : Present) (r r' : Bool)
      → pos < length bytes
      → visit hevc bytes pos p r ≡ some (at_byte next p' r')
      → scan (suc fuel) pos p r ≡ scan fuel next p' r'
  unfolding scan_bytes
  scan_on fuel pos next p p' r r' lt step = rw (lt→ltb pos (length bytes) lt, step) refl

  scan_return :
      (fuel pos : ℕ) (p : Present) (r : Bool) (v : Verdict)
      → pos < length bytes
      → visit hevc bytes pos p r ≡ some (returned v)
      → scan (suc fuel) pos p r ≡ some v
  unfolding scan_bytes
  scan_return fuel pos p r v lt step = rw (lt→ltb pos (length bytes) lt, step) refl

  unit_advances : (pos next : ℕ) → IsUnit hevc bytes pos next → (pos < length bytes) × (pos < next)
  unit_advances pos next u =
      let le = code_at-le bytes pos u.code in
      let some_code : 0 < code_at bytes pos = ground (arith, u.code) in
      (omega (arith, le), omega (arith, u.extent.after))

  -- The loop on what follows, for an outcome of the step of a unit.
  abbrev after_step : ℕ → ℕ → Step → Option Verdict
  after_step fuel next (stop v) = some v
  after_step fuel next (resume p r) = scan fuel next p r

  scan_unit :
      (fuel pos next : ℕ) (p : Present) (r : Bool)
      → IsUnit hevc bytes pos next
      → scan (suc fuel) pos p r ≡ after_step fuel next (type_step hevc (type_at hevc bytes pos) p r)
  scan_unit fuel pos next p r u =
      go (type_step hevc (type_at hevc bytes pos) p r) (visit_unit hevc bytes pos next p r u)
    where
      go :
          (step : Step)
          → visit hevc bytes pos p r ≡ some (place_of next step)
          → scan (suc fuel) pos p r ≡ after_step fuel next step
      go (stop v) e = scan_return fuel pos p r v (unit_advances pos next u).0 e
      go (resume p' r') e = scan_on fuel pos next p p' r r' (unit_advances pos next u).0 e

  abbrev judge_step : Step → List ℕ → Verdict
  judge_step (stop v) types = v
  judge_step (resume p r) types = judge hevc p r types

  after-judge :
      (fuel next : ℕ) (types : List ℕ) (step : Step)
      → ((p : Present) (r : Bool) → scan fuel next p r ≡ some (judge hevc p r types))
      → after_step fuel next step ≡ some (judge_step step types)
  after-judge fuel next types (stop v) later = refl
  after-judge fuel next types (resume p r) later = later p r

  judge_unit :
      (type : ℕ) (types : List ℕ) (p : Present) (r : Bool)
      → judge_step (type_step hevc type p r) types ≡ judge hevc p r (type ∷ types)
  unfolding judge
  judge_unit type types p r =
      elim (type_step hevc type p r)
        as (λ step.
          judge_step step types
          ≡ (elim step [ stop v ↦ v | resume p' r' ↦ judge hevc p' r' types ])) [
            | stop v ↦ refl
            | resume p' r' ↦ refl
          ]

  -- The verdict on the data is the one on its units.
  pub scan-judge :
      (pos : ℕ) (types : List ℕ) (fuel : ℕ) (p : Present) (r : Bool)
      → length bytes ≤ pos + fuel
      → Units hevc bytes pos types
      → scan fuel pos p r ≡ some (judge hevc p r types)
  unfolding judge
  scan-judge _ _ fuel p r enough finished = scan_end fuel (length bytes) p r (omega arith)
  scan-judge _ _ zero p r enough (padding pos types lt code z rest) = absurd (omega arith)
  scan-judge _ _ (suc fuel) p r enough (padding pos types lt code z rest) =
      scan_on fuel pos (pos + 1) p p r r lt
        (visit_padding hevc bytes pos p r lt code ∙ rw (eq_ne_test (byte bytes pos) 0 z) refl)
      ∙ scan-judge (pos + 1) types fuel p r (omega arith) rest
  scan-judge _ _ zero p r enough (unit pos next types code ends room header rest) =
      let u : IsUnit hevc bytes pos next = record {
        code = code;
        extent = ends;
        room = room;
        header = header;
      } in
      absurd (omega (arith, unit_advances pos next u))
  scan-judge _ _ (suc fuel) p r enough (unit pos next types code ends room header rest) =
      let u : IsUnit hevc bytes pos next = record {
        code = code;
        extent = ends;
        room = room;
        header = header;
      } in
      let lt = unit_advances pos next u in
      scan_unit fuel pos next p r u
      ∙ after-judge fuel next types (type_step hevc (type_at hevc bytes pos) p r)
          (λ p' r'. scan-judge next types fuel p' r' (omega arith) rest)
      ∙ ap some (judge_unit (type_at hevc bytes pos) types p r)

  -- The loop ends with a verdict, and if the data is valid, with it being units to the end.
  abbrev pub Outcome : ℕ → ℕ → Present → Bool → Type 0
  Outcome fuel pos p r =
      (v : Verdict) × (scan_bytes hevc bytes (length bytes) fuel pos p r ≡ some v)
      × (v ≡ valid → (types : List ℕ) × Units hevc bytes pos types)

  stops_with : Step → Bool
  stops_with (stop valid) = true
  stops_with (stop _) = false
  stops_with (resume _ _) = false

  never_stops : (type : ℕ) (p : Present) (r : Bool) → stops_with (type_step hevc type p r) ≡ false
  unfolding hevc_unit avc_unit stops_with
  never_stops type p r = ground arith

  not_valid :
      (v : Verdict) (p : Present) (type : ℕ) (r : Bool)
      → type_step hevc type p r ≡ stop v
      → v ≢ valid
  unfolding stops_with
  not_valid v p type r e ok =
      true≢false (sym (ap stops_with (e ∙ ap stop ok)) ∙ never_stops type p r)

  unit-Outcome :
      (fuel pos next : ℕ) (p : Present) (r : Bool)
      → IsUnit hevc bytes pos next
      → ((p' : Present) (r' : Bool) → Outcome fuel next p' r')
      → Outcome (suc fuel) pos p r
  unit-Outcome fuel pos next p r u later = go (type_step hevc (type_at hevc bytes pos) p r) refl
    where
      go :
          (step : Step)
          → type_step hevc (type_at hevc bytes pos) p r ≡ step
          → Outcome (suc fuel) pos p r
      go (stop v) e = (
        v,
        scan_unit fuel pos next p r u ∙ rw e refl,
        λ ok. absurd (not_valid v p (type_at hevc bytes pos) r e ok),
      )
      go (resume p' r') e =
          let (v, returns, units) = later p' r' in
          (
            v,
            scan_unit fuel pos next p r u ∙ rw e returns,
            λ ok.
                let (types, rest) = units ok in
                (
                  type_at hevc bytes pos ∷ types,
                  unit pos next types u.code u.extent u.room u.header rest,
                ),
          )

  end-Outcome : (fuel pos : ℕ) (p : Present) (r : Bool) → pos ≡ length bytes → Outcome fuel pos p r
  end-Outcome fuel pos p r last = (
    final_verdict hevc p r,
    scan_end fuel pos p r (omega (arith, last)),
    λ ok. ([], subst (λ n. Units hevc bytes n []) (sym last) finished),
  )

  pub scan-Outcome :
      (fuel pos : ℕ) (p : Present) (r : Bool)
      → pos ≤ length bytes
      → length bytes ≤ pos + fuel
      → Outcome fuel pos p r
  scan-Outcome zero pos p r le enough = end-Outcome zero pos p r (omega arith)
  scan-Outcome (suc fuel) pos p r le enough = elim (first_or_later pos (length bytes) le) [
    | inl last ↦ end-Outcome (suc fuel) pos p r last
    | inr lt ↦ elim (visit-cases hevc bytes pos p r lt) [
      | inl (code, z, step) ↦
          let (v, returns, units) = scan-Outcome fuel (pos + 1) p r (omega arith) (omega arith) in
          (
            v,
            scan_on fuel pos (pos + 1) p p r r lt step ∙ returns,
            λ ok. let (types, rest) = units ok in (types, padding pos types lt code z rest),
          )
      | inr (inl (next, u)) ↦
          let adv = unit_advances pos next u in
          unit-Outcome fuel pos next p r u
            (λ p' r'. scan-Outcome fuel next p' r' u.extent.before (omega arith))
      | inr (inr bad) ↦ (
        invalid_bitstream,
        scan_return fuel pos p r invalid_bitstream lt bad,
        λ ok. absurd (ground (arith, ok)),
      )
    ]
  ]
