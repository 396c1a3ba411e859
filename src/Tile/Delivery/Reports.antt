-- ===== src/Tile/Delivery/Reports.antt =====
-- What is reported of a frame, by the calls alone.
use mathlib.Core.List.{append-nil}
use mathlib.Core.Bool.{or-true, or-false, or_assoc}
use waydisplay.Prelude.{
  ltb, ◌==◌, if◌then◌else◌, Bool-cases, eq_ne_test, ne_zero_ne, u32_max, u32, sub32, ℕ, ◌+◌, ◌-◌,
  ◌≤◌, ◌≡◌, refl, sym, ap, ◌∙◌, subst, inl, inr, Bool, true, false, not, ◌&&◌, ◌||◌, Option, none,
  List, [], ◌∷◌, ◌++◌, arith,
}
use waydisplay.Tile.Delivery.{
  status_ready, status_add, status_complete, status_seal, call_status, keep_report, run_calls,
  no_delivery, InOrder, Status, Call, add, complete, seal,
}

abbrev pub sealed_in : List Call → Bool
sealed_in [] = false
sealed_in (add ∷ cs) = sealed_in cs
sealed_in (complete _ ∷ cs) = sealed_in cs
sealed_in (seal ∷ cs) = true

-- The tiles that are not completed behind the calls, when `n` were not before; a completion when
-- there are none does nothing.
abbrev pub outstanding : ℕ → List Call → ℕ
outstanding n [] = n
outstanding n (add ∷ cs) = outstanding (n + 1) cs
outstanding n (complete _ ∷ cs) = outstanding (n - 1) cs
outstanding n (seal ∷ cs) = outstanding n cs

-- Whether one of the completions fails, of tiles that were not completed.
abbrev pub some_fail : ℕ → List Call → Bool
some_fail n [] = false
some_fail n (add ∷ cs) = some_fail (n + 1) cs
some_fail n (complete success ∷ cs) = (ltb 0 n && not success) || some_fail (n - 1) cs
some_fail n (seal ∷ cs) = some_fail n cs

-- All that is to be reported in a status.
abbrev pub due : Status → List Bool
due s = if s.sealed && s.pending == 0 then s.failed ∷ [] else []

nothing_due : (s : Status) (l : List Bool) → (s.sealed && s.pending == 0) ≡ false → due s ++ l ≡ l
nothing_due s l e = rw e refl

ready_due : (s : Status) (l : List Bool) → keep_report (status_ready s) l ≡ due s ++ l
unfolding status_ready
ready_due s l = elim (Bool-cases s.sealed) [
  | inr waits ↦ rw waits refl
  | inl is_sealed ↦ elim (Bool-cases (s.pending == 0)) [
    | inl done ↦ rw (is_sealed, done, eq_ne_test s.pending 0 (ground (arith, done))) refl
    | inr more ↦ rw (is_sealed, more, ne_zero_ne s.pending (λ z. ground (arith, more, z))) refl
  ]
]

abbrev Due : Status → List Call → Status × Option Bool → Type 0
Due s cs now = due s ++ keep_report now.1 (run_calls now.0 cs).1 ≡ due (run_calls now.0 cs).0

late_call :
    (s : Status) (success : Bool) → (s.pending == 0) ≡ true → status_complete s success ≡ (s, none)
unfolding status_complete
late_call s success late = rw late refl

counted_call :
    (s : Status) (success : Bool)
    → (s.pending == 0) ≡ false
    → let t : Status = record s { pending = sub32 s.pending 1; failed = s.failed || not success } in
      status_complete s success ≡ (t, status_ready t)
unfolding status_complete
counted_call s success sent = rw sent refl

-- The reports of the calls, behind what was due before, are what is due in the end.
reports_due :
    (s : Status) (n : ℕ) (cs : List Call)
    → s.pending ≤ n
    → n ≤ u32_max
    → InOrder s.sealed n cs
    → due s ++ (run_calls s cs).1 ≡ due (run_calls s cs).0
unfolding run_calls call_status status_add status_seal
reports_due s n [] le fits order = append-nil (due s)
reports_due s n (add ∷ cs) le fits (open_yet, lt, order) =
    let t : Status = record s { pending = u32 (s.pending + 1) } in
    nothing_due s _ (ground (arith, open_yet))
    ∙ sym (nothing_due t _ (ground (arith, open_yet)))
    ∙ reports_due t (n + 1) cs (omega arith) (omega arith) order
reports_due s n (complete success ∷ cs) le fits order = elim (Bool-cases (s.pending == 0)) [
  | inl late ↦ subst (Due s cs) (sym (late_call s success late)) (reports_due s n cs le fits order)
  | inr sent ↦
      let t : Status = record s { pending = sub32 s.pending 1; failed = s.failed || not success } in
      subst (Due s cs) (sym (counted_call s success sent)) (
        nothing_due s _ (ground (arith, sent))
        ∙ ready_due t _
        ∙ reports_due t n cs (ground (arith, sent, le, fits)) fits order)
]
reports_due s n (seal ∷ cs) le fits (open_yet, order) =
    let t : Status = record s { sealed = true } in
    nothing_due s _ (ground (arith, open_yet)) ∙ ready_due t _ ∙ reports_due t n cs le fits order

-- The status that `s` comes to, by the calls.
abbrev counted : Status → List Call → Status
counted s cs = record {
  pending = outstanding s.pending cs;
  sealed = s.sealed || sealed_in cs;
  failed = s.failed || some_fail s.pending cs;
}

status_eq :
    {p q : ℕ} {a b c d : Bool}
    → p ≡ q
    → a ≡ b
    → c ≡ d
    → let s : Status = record { pending = p; sealed = a; failed = c } in
      let t : Status = record { pending = q; sealed = b; failed = d } in s ≡ t
status_eq e f g = rw (e, f, g) refl

run_calls-counted :
    (s : Status) (n : ℕ) (cs : List Call)
    → s.pending ≤ n
    → n ≤ u32_max
    → InOrder s.sealed n cs
    → (run_calls s cs).0 ≡ counted s cs
unfolding run_calls call_status status_add status_seal
run_calls-counted s n [] le fits order =
    status_eq refl (sym (or-false s.sealed)) (sym (or-false s.failed))
run_calls-counted s n (add ∷ cs) le fits (open_yet, lt, order) =
    let t : Status = record s { pending = u32 (s.pending + 1) } in
    let word : u32 (s.pending + 1) ≡ s.pending + 1 = omega arith in
    run_calls-counted t (n + 1) cs (omega arith) (omega arith) order
    ∙ status_eq (ap (λ m. outstanding m cs) word) refl (ap (λ m. s.failed || some_fail m cs) word)
run_calls-counted s n (complete success ∷ cs) le fits order = elim (Bool-cases (s.pending == 0)) [
  | inl late ↦
      let none_left : s.pending - 1 ≡ s.pending = ground (arith, late) in
      let zero_left : ltb 0 s.pending ≡ false = ground (arith, late) in
      subst (λ now. (run_calls now.0 cs).0 ≡ counted s (complete success ∷ cs))
        (sym (late_call s success late))
        (run_calls-counted s n cs le fits order
          ∙ status_eq (ap (λ m. outstanding m cs) (sym none_left)) refl
              (rw (none_left, zero_left) refl))
  | inr sent ↦
      let t : Status = record s { pending = sub32 s.pending 1; failed = s.failed || not success } in
      let one_less : sub32 s.pending 1 ≡ s.pending - 1 = ground (arith, sent, le, fits) in
      let some_left : ltb 0 s.pending ≡ true = ground (arith, sent) in
      subst (λ now. (run_calls now.0 cs).0 ≡ counted s (complete success ∷ cs))
        (sym (counted_call s success sent))
        (run_calls-counted t n cs (ground (arith, sent, le, fits)) fits order
          ∙ status_eq (ap (λ m. outstanding m cs) one_less) refl (
              rw (one_less, some_left)
                (or_assoc s.failed (not success) (some_fail (s.pending - 1) cs))))
]
run_calls-counted s n (seal ∷ cs) le fits (open_yet, order) =
    let t : Status = record s { sealed = true } in
    run_calls-counted t n cs le fits order ∙ status_eq refl (sym (or-true s.sealed)) refl

-- For calls that add fewer than 2^32 tiles, all of them before the frame is sealed, and seal it at
-- most once: the delivery of the frame is reported once, with whether the completion of a tile has
-- failed, if the calls seal it and in the end every tile is completed, and is not reported if not;
-- also if tiles are completed before the frame is sealed. A completion when no tile is outstanding
-- counts for nothing.
pub delivery_reported_once :
    (cs : List Call)
    → InOrder false 0 cs
    → (run_calls no_delivery cs).1
      ≡ (if sealed_in cs && outstanding 0 cs == 0 then some_fail 0 cs ∷ [] else [])
delivery_reported_once cs order =
    reports_due no_delivery 0 cs (omega arith) (omega arith) order
    ∙ ap due (run_calls-counted no_delivery 0 cs (omega arith) (omega arith) order)
