-- ===== src/Client/Ownership/Stamps.antt =====
-- What a caller may rely on: its epoch is its own, a stamp that is current was current all along,
-- and a thread that is left alone returns.
use waydisplay.Prelude.{
  ◌==◌, if◌then◌else◌, lt→ltb, Bool-cases, eq_test, length, length-set, get_or-set_self, u64, ℕ,
  ◌+◌, ◌<◌, ◌≡◌, refl, sym, ap, ap₂, ◌∙◌, subst₂, ◌≢◌, inl, inr, Bool, true, false, not, none, some,
  List, [], ◌∷◌, arith,
}
use waydisplay.Client.Ownership.{
  same_owner, pack, epoch_of, owner_of, is_current, target, keeps, act, thread, step, run, Owner,
  tiles, video, OwnerCall, transition_to, advance_to, Thread, starting, trying, returned, Callers,
}
use waydisplay.Client.Ownership.Epochs.{epoch_limit, published, epoch_of-pack}
use waydisplay.Client.Ownership.Schedules.{run-Distinct, run_word, Distinct}

-- Two threads that each changed the owner, in any interleaving of threads that start with nothing
-- changed, have returned different epochs, as long as the number of acts cannot bring the epoch to
-- 2^63.
pub epochs_unique :
    (s : Callers) (schedule : List (ℕ × Bool)) (i j e e' : ℕ)
    → ((k : ℕ) → published (thread s.threads k) ≡ none)
    → epoch_of s.packed_state + length schedule < epoch_limit
    → i ≢ j
    → published (thread (run s schedule).threads i) ≡ some e
    → published (thread (run s schedule).threads j) ≡ some e'
    → e ≢ e'
epochs_unique s schedule i j e e' fresh p ne f g same =
    let start : Distinct s = record {
      below = λ k n h. absurd (ground (arith, h, fresh k));
      different = λ k l n _ h _. absurd (ground (arith, h, fresh k));
    } in
    (run-Distinct s schedule p start).different i j e ne f (g ∙ ap some (sym same))

current_epoch :
    (packed epoch : ℕ) (o : Owner) → is_current packed epoch o ≡ true → epoch_of packed ≡ epoch
unfolding is_current
current_epoch packed epoch o e = ground (arith, e)

-- A stamp of epoch and owner that is current before and after any interleaving was current at each
-- time between, and the word never changed.
pub stamp_unchanged :
    (s : Callers) (before behind : List (ℕ × Bool)) (epoch : ℕ) (o : Owner)
    → epoch_of s.packed_state + length before + length behind < epoch_limit
    → is_current s.packed_state epoch o ≡ true
    → is_current (run (run s before) behind).packed_state epoch o ≡ true
    → (run s before).packed_state ≡ s.packed_state
stamp_unchanged s before behind epoch o p now later =
    let e = current_epoch s.packed_state epoch o now in
    let e' = current_epoch (run (run s before) behind).packed_state epoch o later in
    elim (run_word s before (omega arith)) [
      | inl word ↦ word
      | inr (more, bound) ↦ elim (run_word (run s before) behind (omega arith)) [
        | inl word ↦ absurd (omega (arith, ap epoch_of word))
        | inr (more', bound') ↦ absurd (omega arith)
      ]
    ]

-- Whether the call has returned.
abbrev pub is_returned : Thread → Bool
is_returned (starting call) = false
is_returned (trying call current) = false
is_returned (returned epoch changed) = true

-- The thread has read the word that stands there now.
IsFresh : ℕ → Thread → Type 0
IsFresh packed (starting call) = ⊥
IsFresh packed (trying call current) = current ≡ packed
IsFresh packed (returned epoch changed) = Unit

act-IsFresh : (packed : ℕ) (t : Thread) → IsFresh (act packed false t).0 (act packed false t).1
unfolding act IsFresh
act-IsFresh packed (starting call) = refl
act-IsFresh packed (returned epoch changed) = tt
act-IsFresh packed (trying call current) = elim (Bool-cases (keeps call current)) [
  | inl k ↦ rw k tt
  | inr k ↦ elim (Bool-cases (packed == current)) [
    | inl same ↦ rw (k, same) tt
    | inr other ↦ rw (k, other) refl
  ]
]

fresh_returns :
    (packed : ℕ) (t : Thread) → IsFresh packed t → is_returned (act packed false t).1 ≡ true
unfolding act IsFresh
fresh_returns packed (starting call) fresh = absurd fresh
fresh_returns packed (returned epoch changed) fresh = refl
fresh_returns packed (trying call current) fresh = elim (Bool-cases (keeps call current)) [
  | inl k ↦ rw k refl
  | inr k ↦ rw (k, ap (λ c. packed == c) fresh, eq_test packed) refl
]

module _ (s : Callers) (i : ℕ) (inside : i < length s.threads) where
  thread-step :
      thread (step s i false).threads i ≡ (act s.packed_state false (thread s.threads i)).1
  unfolding step
  thread-step =
      get_or-set_self s.threads i (act s.packed_state false (thread s.threads i)).1
        (returned 0 false) inside

  step_state : (step s i false).packed_state ≡ (act s.packed_state false (thread s.threads i)).0
  unfolding step
  step_state = rw (lt→ltb i (length s.threads) inside) refl

  step_inside : i < length (step s i false).threads
  unfolding step
  step_inside = rw (length-set s.threads i (act s.packed_state false (thread s.threads i)).1) inside

-- Wherever a thread stands, with two actions of its own in a row, none of which fails spuriously,
-- its call returns.
pub alone_returns :
    (s : Callers) (i : ℕ)
    → i < length s.threads
    → is_returned (thread (run s ((i, false) ∷ (i, false) ∷ [])).threads i) ≡ true
unfolding run
alone_returns s i inside =
    let fresh =
      subst₂ IsFresh (sym (step_state s i inside)) (sym (thread-step s i inside))
        (act-IsFresh s.packed_state (thread s.threads i)) in
    ap is_returned (thread-step (step s i false) i (step_inside s i inside))
    ∙ fresh_returns (step s i false).packed_state (thread (step s i false).threads i) fresh

-- The word and the thread after a call that nothing comes between.
abbrev pub Answers : ℕ → OwnerCall → ℕ → Thread → Type 0
Answers packed call packed' t =
    (t ≡ returned (epoch_of packed') (not (keeps call packed)))
    × ((owner_of packed' ≡ target call)
        × (epoch_of packed' ≡ (if keeps call packed then epoch_of packed else epoch_of packed + 1)))

owner_of-pack : (epoch : ℕ) (o : Owner) → owner_of (pack epoch o) ≡ o
owner_of-pack epoch tiles = ground arith
owner_of-pack epoch video = ground arith

keeps_target :
    (call : OwnerCall) (packed : ℕ) → keeps call packed ≡ true → owner_of packed ≡ target call
keeps_target (transition_to o) packed e = by_owner (owner_of packed) o e
  where
    by_owner : (x y : Owner) → same_owner x y ≡ true → x ≡ y
    by_owner tiles tiles e = refl
    by_owner tiles video e = absurd (ground (arith, e))
    by_owner video tiles e = absurd (ground (arith, e))
    by_owner video video e = refl
keeps_target (advance_to o) packed e = absurd (ground (arith, e))

trying-Answers :
    (packed : ℕ) (call : OwnerCall)
    → epoch_of packed + 1 < epoch_limit
    → Answers packed call
        (act packed false (trying call packed)).0
        (act packed false (trying call packed)).1
unfolding act
trying-Answers packed call p = elim (Bool-cases (keeps call packed)) [
  | inl k ↦ rw k (refl, (keeps_target call packed k, refl))
  | inr k ↦
      let next : u64 (epoch_of packed + 1) ≡ epoch_of packed + 1 = omega arith in
      rw (k, eq_test packed, next)
        (
          ap (λ e. returned e true) (sym (epoch_of-pack (epoch_of packed + 1) (target call) p)),
          (
            owner_of-pack (epoch_of packed + 1) (target call),
            epoch_of-pack (epoch_of packed + 1) (target call) p,
          ),
        )
]

-- A call that no other thread comes between returns the epoch of the word, which then has the owner
-- asked for; the epoch grows by one, but not when begin or end finds its owner there already.
pub call_exact :
    (s : Callers) (i : ℕ) (call : OwnerCall)
    → i < length s.threads
    → thread s.threads i ≡ starting call
    → epoch_of s.packed_state + 1 < epoch_limit
    → Answers s.packed_state call
        (run s ((i, false) ∷ (i, false) ∷ [])).packed_state
        (thread (run s ((i, false) ∷ (i, false) ∷ [])).threads i)
unfolding run act
call_exact s i call inside here p =
    let s' = step s i false in
    let word : s'.packed_state ≡ s.packed_state =
      step_state s i inside ∙ ap (λ t. (act s.packed_state false t).0) here in
    let now : thread s'.threads i ≡ trying call s.packed_state =
      thread-step s i inside ∙ ap (λ t. (act s.packed_state false t).1) here in
    subst₂ (Answers s.packed_state call)
      (sym (step_state s' i (step_inside s i inside) ∙ ap₂ (λ w t. (act w false t).0) word now))
      (sym (thread-step s' i (step_inside s i inside) ∙ ap₂ (λ w t. (act w false t).1) word now))
      (trying-Answers s.packed_state call p)
