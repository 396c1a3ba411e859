-- ===== src/Dirty/Oldest.antt =====
-- The region that waits longest, found by a look at each.
use waydisplay.Prelude.{
  ltb, if◌then◌else◌, Bool-cases, and_true, get_or, ℕ, zero, suc, ◌≤◌, ◌<◌, ◌≡◌, refl, sym, ap, ◌∙◌,
  subst, ◌⊎◌, inl, inr, Bool, true, false, ◌&&◌, Option, none, some, List, arith,
}
use waydisplay.Dirty.Bits.Marks.{flag_at}

-- Region `n` or the best before it.
abbrev pub older : List Bool → List ℕ → ℕ → Option ℕ → Option ℕ
older queued ages n none = if flag_at queued n then some n else none
older queued ages n (some i) =
    if flag_at queued n && ltb (get_or ages n 0) (get_or ages i 0) then some n else some i

-- The queued region of the least age, and of the least number among those.
unfoldable pub oldest : List Bool → List ℕ → ℕ → Option ℕ
oldest queued ages zero = none
oldest queued ages (suc n) = older queued ages n (oldest queued ages n)

abbrev pub IsQueuedBelow : List Bool → ℕ → Option ℕ → Type 0
IsQueuedBelow queued n none = Unit
IsQueuedBelow queued n (some i) = (i < n) × (flag_at queued i ≡ true)

older-IsQueuedBelow :
    (queued : List Bool) (ages : List ℕ) (n : ℕ) (o : Option ℕ)
    → IsQueuedBelow queued n o
    → IsQueuedBelow queued (suc n) (older queued ages n o)
older-IsQueuedBelow queued ages n none v = elim (Bool-cases (flag_at queued n)) [
  | inl e ↦ rw e (omega arith, e)
  | inr e ↦ rw e tt
]
older-IsQueuedBelow queued ages n (some i) v =
    elim (Bool-cases (flag_at queued n && ltb (get_or ages n 0) (get_or ages i 0))) [
      | inl e ↦
          rw e (
            omega arith,
            (and_true (flag_at queued n) (ltb (get_or ages n 0) (get_or ages i 0)) e).0,
          )
      | inr e ↦ rw e (omega arith, v.1)
    ]

pub oldest-IsQueuedBelow :
    (queued : List Bool) (ages : List ℕ) (n : ℕ) → IsQueuedBelow queued n (oldest queued ages n)
unfolding oldest
oldest-IsQueuedBelow queued ages zero = tt
oldest-IsQueuedBelow queued ages (suc n) =
    older-IsQueuedBelow queued ages n (oldest queued ages n) (oldest-IsQueuedBelow queued ages n)

-- Region `i` goes before every queued region below `n`.
abbrev pub IsLeast : List Bool → List ℕ → ℕ → ℕ → Type 0
IsLeast queued ages n i =
    (j : ℕ)
    → j < n
    → flag_at queued j ≡ true
    → (get_or ages i 0 < get_or ages j 0) ⊎ ((get_or ages i 0 ≡ get_or ages j 0) × (i ≤ j))

-- The last region takes the place of a best before it that is no older.
older_last :
    (queued : List Bool) (ages : List ℕ) (n : ℕ) (o : Option ℕ)
    → flag_at queued n ≡ true
    → IsQueuedBelow queued n o
    → IsLeast queued ages (suc n) n
    → older queued ages n o ≡ some n
older_last queued ages n none f v least = rw f refl
older_last queued ages n (some j) f v least = let l = least j (omega arith) v.1 in ground (arith, f)

pub oldest_unique :
    (queued : List Bool) (ages : List ℕ) (n i : ℕ)
    → i < n
    → flag_at queued i ≡ true
    → IsLeast queued ages n i
    → oldest queued ages n ≡ some i
unfolding oldest
oldest_unique queued ages zero i p f least = absurd (omega arith)
oldest_unique queued ages (suc n) i p f least = elim (places i n p) [
  | inl last ↦
      older_last queued ages n (oldest queued ages n) (subst (λ k. flag_at queued k ≡ true) last f)
        (oldest-IsQueuedBelow queued ages n) (subst (λ k. IsLeast queued ages (suc n) k) last least)
      ∙ ap some (sym last)
  | inr below ↦
      let before = oldest_unique queued ages n i below f (λ j q. least j (omega arith)) in
      let l = least n (omega arith) in rw before (ground arith)
]
  where
    places : (i n : ℕ) → i < suc n → (i ≡ n) ⊎ (i < n)
    places i n p = omega arith

pub oldest-none :
    (queued : List Bool) (ages : List ℕ) (n : ℕ)
    → ((i : ℕ) → flag_at queued i ≡ false)
    → oldest queued ages n ≡ none
unfolding oldest
oldest-none queued ages zero clear = refl
oldest-none queued ages (suc n) clear = rw (oldest-none queued ages n clear, clear n) refl
