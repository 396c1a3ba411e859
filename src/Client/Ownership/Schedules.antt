-- ===== src/Client/Ownership/Schedules.antt =====
-- What holds of the word and the threads over a whole schedule.
use waydisplay.Prelude.{
  length, ℕ, ◌+◌, ◌≤◌, ◌<◌, ◌≡◌, refl, sym, ◌∙◌, subst, ◌≢◌, ◌⊎◌, inl, inr, Bool, some, List, [],
  ◌∷◌, arith,
}
use waydisplay.Client.Ownership.{epoch_of, thread, step, run, Callers}
use waydisplay.Client.Ownership.Epochs.{epoch_limit, published, step-Steps}

-- The epochs of the changes so far are different, and none is above that of the word.
pub record Distinct (s : Callers) : Type 0 where
  pub below : (i e : ℕ) → published (thread s.threads i) ≡ some e → e ≤ epoch_of s.packed_state
  pub different :
      (i j e : ℕ)
      → i ≢ j
      → published (thread s.threads i) ≡ some e
      → published (thread s.threads j) ≢ some e

some_inj : {a b : ℕ} → some a ≡ some b → a ≡ b
some_inj e = ground (arith, e)

step-Distinct :
    (s : Callers) (i : ℕ) (spurious : Bool)
    → epoch_of s.packed_state + 1 < epoch_limit
    → Distinct s
    → Distinct (step s i spurious)
step-Distinct s i spurious p v = elim (step-Steps s i spurious p).kept [
  | inl (word, same) ↦ record {
    below = λ k e f. rw word (v.below k e (sym (same k) ∙ f));
    different = λ k l e ne f g. v.different k l e ne (sym (same k) ∙ f) (sym (same l) ∙ g);
  }
  | inr (word, (c, (new, same))) ↦ record {
    below = λ k e f. elim (places c k) [
      | inl here ↦
          let f' =
            subst (λ n. published (thread (step s i spurious).threads n) ≡ some e) (sym here) f in
          omega (arith, some_inj (sym new ∙ f'), word)
      | inr ne ↦ omega (arith, v.below k e (sym (same k ne) ∙ f), word)
    ];
    different = λ k l e ne f g. elim (places c k) [
      | inl here ↦
          let f' =
            subst (λ n. published (thread (step s i spurious).threads n) ≡ some e) (sym here) f in
          let ne' : c ≢ l = λ x. ne (sym here ∙ x) in
          absurd (omega (arith, some_inj (sym new ∙ f'), v.below l e (sym (same l ne') ∙ g)))
      | inr other ↦ elim (places c l) [
        | inl here ↦
            let g' =
              subst (λ n. published (thread (step s i spurious).threads n) ≡ some e) (sym here) g in
            absurd (omega (arith, some_inj (sym new ∙ g'), v.below k e (sym (same k other) ∙ f)))
        | inr other' ↦ v.different k l e ne (sym (same k other) ∙ f) (sym (same l other') ∙ g)
      ]
    ];
  }
]
  where
    places : (i j : ℕ) → (i ≡ j) ⊎ (i ≢ j)
    places i j = omega arith

-- Over a step the epoch grows by one at most, and the word stays when the epoch does.
step_word :
    (s : Callers) (i : ℕ) (spurious : Bool)
    → epoch_of s.packed_state + 1 < epoch_limit
    → ((step s i spurious).packed_state ≡ s.packed_state)
      ⊎ (epoch_of (step s i spurious).packed_state ≡ epoch_of s.packed_state + 1)
step_word s i spurious p = elim (step-Steps s i spurious p).kept [
  | inl (word, same) ↦ inl word
  | inr (word, new) ↦ inr word
]

pub run-Distinct :
    (s : Callers) (schedule : List (ℕ × Bool))
    → epoch_of s.packed_state + length schedule < epoch_limit
    → Distinct s
    → Distinct (run s schedule)
unfolding run
run-Distinct s [] p v = v
run-Distinct s ((i, spurious) ∷ schedule) p v =
    run-Distinct (step s i spurious) schedule (ground (arith, step_word s i spurious))
      (step-Distinct s i spurious (omega arith) v)

-- The word stays, or its epoch grows, by no more than one for each action.
pub run_word :
    (s : Callers) (schedule : List (ℕ × Bool))
    → epoch_of s.packed_state + length schedule < epoch_limit
    → ((run s schedule).packed_state ≡ s.packed_state)
      ⊎ ((epoch_of s.packed_state < epoch_of (run s schedule).packed_state)
          × (epoch_of (run s schedule).packed_state ≤ epoch_of s.packed_state + length schedule))
unfolding run
run_word s [] p = inl refl
run_word s ((i, spurious) ∷ schedule) p =
    let word = step_word s i spurious in
    let rest = run_word (step s i spurious) schedule in ground (arith, word, rest)
