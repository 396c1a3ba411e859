-- ===== src/Client/Ownership/Epochs.antt =====
-- No interleaving gives an epoch twice.
use waydisplay.Prelude.{
  ◌==◌, if◌then◌else◌, lt→ltb, le→ltb, Bool-cases, and_true, length, set, get_or-set_self,
  get_or-set_ne, set_of_le, u64, ℕ, ◌+◌, ◌≤◌, ◌<◌, ◌≡◌, refl, ap, ◌∙◌, subst, ◌≢◌, ◌⊎◌, inl, inr,
  Bool, false, not, ◌&&◌, Option, none, some, List, arith,
}
use waydisplay.Client.Ownership.{
  pack, epoch_of, target, keeps, act, thread, step, Owner, tiles, video, Thread, starting, trying,
  returned, Callers,
}

-- Epochs have 63 bits.
abbrev pub epoch_limit : ℕ
epoch_limit = 0x8000_0000_0000_0000

-- The epoch that a thread has made by its change.
abbrev pub published : Thread → Option ℕ
published (starting call) = none
published (trying call current) = none
published (returned epoch changed) = if changed then some epoch else none

-- The word stays, or it gets the next epoch, which the thread then returns.
abbrev Acts : ℕ → Thread → ℕ × Thread → Type 0
Acts packed t out =
    ((out.0 ≡ packed) × (published out.1 ≡ published t))
    ⊎ ((epoch_of out.0 ≡ epoch_of packed + 1) × (published out.1 ≡ some (epoch_of packed + 1)))

pub epoch_of-pack : (epoch : ℕ) (o : Owner) → epoch < epoch_limit → epoch_of (pack epoch o) ≡ epoch
epoch_of-pack epoch tiles p = omega arith
epoch_of-pack epoch video p = omega arith

act-Acts :
    (packed : ℕ) (spurious : Bool) (t : Thread)
    → epoch_of packed + 1 < epoch_limit
    → Acts packed t (act packed spurious t)
unfolding act
act-Acts packed spurious (starting call) p = inl (refl, refl)
act-Acts packed spurious (returned e c) p = inl (refl, refl)
act-Acts packed spurious (trying call current) p = elim (Bool-cases (keeps call current)) [
  | inl k ↦ rw k (inl (refl, refl))
  | inr k ↦ elim (Bool-cases ((packed == current) && not spurious)) [
    | inl swap ↦
        let same : current ≡ packed =
          ground (arith, (and_true (packed == current) (not spurious) swap).0) in
        let next : u64 (epoch_of current + 1) ≡ epoch_of packed + 1 = omega arith in
        rw (k, swap)
          (inr (
            ap (λ e. epoch_of (pack e (target call))) next
                ∙ epoch_of-pack (epoch_of packed + 1) (target call) p,
            ap some next,
          ))
    | inr fails ↦ rw (k, fails) (inl (refl, refl))
  ]
]

-- What one step does to the word and to each thread.
pub record Steps (s s' : Callers) : Type 0 where
  pub kept :
      ((s'.packed_state ≡ s.packed_state)
        × ((j : ℕ) → published (thread s'.threads j) ≡ published (thread s.threads j)))
      ⊎ ((epoch_of s'.packed_state ≡ epoch_of s.packed_state + 1)
          × ((i : ℕ) × ((published (thread s'.threads i) ≡ some (epoch_of s.packed_state + 1))
                × ((j : ℕ)
                    → i ≢ j
                    → published (thread s'.threads j) ≡ published (thread s.threads j)))))

published-set :
    (ts : List Thread) (i j : ℕ) (t : Thread)
    → i < length ts
    → published t ≡ published (thread ts i)
    → published (thread (set ts i t) j) ≡ published (thread ts j)
published-set ts i j t p e = elim (places i j) [
  | inl same ↦
      subst (λ k. published (thread (set ts i t) k) ≡ published (thread ts k)) same
        (ap published (get_or-set_self ts i t (returned 0 false) p) ∙ e)
  | inr ne ↦ ap published (get_or-set_ne ts i j t (returned 0 false) ne)
]
  where
    places : (i j : ℕ) → (i ≡ j) ⊎ (i ≢ j)
    places i j = omega arith

pub step-Steps :
    (s : Callers) (i : ℕ) (spurious : Bool)
    → epoch_of s.packed_state + 1 < epoch_limit
    → Steps s (step s i spurious)
unfolding step
step-Steps s i spurious p = elim (places i (length s.threads)) [
  | inl past ↦ rw (le→ltb i (length s.threads) past) (record {
    kept = inl (
      refl,
      λ j.
          ap (λ ts. published (thread ts j))
            (set_of_le s.threads i (act s.packed_state spurious (thread s.threads i)).1 past),
    );
  })
  | inr inside ↦
      rw (lt→ltb i (length s.threads) inside)
        (elim (act-Acts s.packed_state spurious (thread s.threads i) p) [
          | inl (word, same) ↦ record {
            kept = inl (word, λ j. published-set s.threads i j _ inside same);
          }
          | inr (word, new) ↦ record {
            kept = inr (
              word,
              (
                i,
                (
                  ap published (get_or-set_self s.threads i _ (returned 0 false) inside) ∙ new,
                  λ j ne. ap published (get_or-set_ne s.threads i j _ (returned 0 false) ne),
                ),
              ),
            );
          }
        ])
]
  where
    places : (i n : ℕ) → (n ≤ i) ⊎ (i < n)
    places i n = omega arith
