-- ===== src/Dirty/Bits/First.antt =====
-- The first place of a range that passes a test.
use mathlib.Core.Option
use waydisplay.Prelude.{
  Bool-cases, ℕ, zero, suc, ◌+◌, ◌-◌, ◌≤◌, ◌<◌, ◌≡◌, refl, sym, ap, ◌∙◌, inl, inr, Bool, true,
  false, Option, none, some, arith,
}
use waydisplay.Dirty.Bits.{Word, first, lowest_bit}

-- A second search behind one that found nothing.
abbrev pub or_else : Option ℕ → Option ℕ → Option ℕ
or_else none later = later
or_else (some i) later = some i

pub first-add :
    (p : ℕ → Bool) (n m i : ℕ) → first p (n + m) i ≡ or_else (first p n i) (first p m (i + n))
unfolding first
first-add p zero m i =
    let e : zero + m ≡ m = omega arith in let f : i + zero ≡ i = omega arith in rw (e, f) refl
first-add p (suc n) m i = elim (Bool-cases (p i)) [
  | inl e ↦ let f : suc n + m ≡ suc (n + m) = omega arith in rw (f, e) refl
  | inr e ↦
      let f : suc n + m ≡ suc (n + m) = omega arith in
      let g : i + suc n ≡ i + 1 + n = omega arith in rw (f, g, e) (first-add p n m (i + 1))
]

-- The same search at another place.
pub first-shift :
    (p q : ℕ → Bool) (base n i : ℕ)
    → ((k : ℕ) → i ≤ k → k < i + n → p k ≡ q (base + k))
    → first q n (base + i) ≡ Option.map (λ k. base + k) (first p n i)
unfolding first
first-shift p q base zero i same = refl
first-shift p q base (suc n) i same = elim (Bool-cases (p i)) [
  | inl e ↦ rw (sym (same i (omega arith) (omega arith)), e) refl
  | inr e ↦
      let f : base + i + 1 ≡ base + (i + 1) = omega arith in
      rw (sym (same i (omega arith) (omega arith)), e, f)
        (first-shift p q base n (i + 1) (λ k le lt. same k (omega arith) (omega arith)))
]

pub first_none :
    (p : ℕ → Bool) (n i : ℕ) → ((k : ℕ) → i ≤ k → k < i + n → p k ≡ false) → first p n i ≡ none
unfolding first
first_none p zero i clear = refl
first_none p (suc n) i clear =
    rw (clear i (omega arith) (omega arith))
      (first_none p n (i + 1) (λ k le lt. clear k (omega arith) (omega arith)))

pub first-cong :
    (p q : ℕ → Bool) (n i : ℕ)
    → ((k : ℕ) → i ≤ k → k < i + n → p k ≡ q k)
    → first p n i ≡ first q n i
unfolding first
first-cong p q zero i same = refl
first-cong p q (suc n) i same =
    rw
      (
        same i (omega arith) (omega arith),
        first-cong p q n (i + 1) (λ k le lt. same k (omega arith) (omega arith)),
      )
      refl

-- A range whose first `n` places are clear.
pub first_behind :
    (p : ℕ → Bool) (n m i : ℕ)
    → ((k : ℕ) → i ≤ k → k < i + n → p k ≡ false)
    → first p (n + m) i ≡ first p m (i + n)
first_behind p n m i clear =
    first-add p n m i ∙ ap (λ o. or_else o (first p m (i + n))) (first_none p n i clear)

pub first_some :
    (p : ℕ → Bool) (n i r : ℕ) → first p n i ≡ some r → (i ≤ r) × ((r < i + n) × (p r ≡ true))
unfolding first
first_some p zero i r e = absurd (ground (arith, e))
first_some p (suc n) i r e = elim (Bool-cases (p i)) [
  | inl t ↦ ground (arith, e, t)
  | inr t ↦ ground (arith, e, t, first_some p n (i + 1) r)
]

-- The low bit of a word that agrees with `n` places from `base` on and is clear above.
pub lowest_bit-first :
    (bits : Word) (q : ℕ → Bool) (base n : ℕ)
    → n ≤ 64
    → ((k : ℕ) → k < n → bits k ≡ q (base + k))
    → ((k : ℕ) → n ≤ k → k < 64 → bits k ≡ false)
    → first q n base ≡ Option.map (λ k. base + k) (lowest_bit bits)
unfolding lowest_bit
lowest_bit-first bits q base n le same clear =
    let low : first bits 64 0 ≡ first bits n 0 =
      ap (λ m. first bits m 0) (split le)
      ∙ first-add bits n (64 - n) 0
      ∙ ap (or_else (first bits n 0))
          (first_none bits (64 - n) (0 + n) (λ k l m. clear k (omega arith) (omega arith)))
      ∙ last (first bits n 0) in
    let zero_base : base + 0 ≡ base = omega arith in
    rw low
      (ap (first q n) (sym zero_base) ∙ first-shift bits q base n 0 (λ k l m. same k (omega arith)))
  where
    split : {n : ℕ} → n ≤ 64 → 64 ≡ n + (64 - n)
    split le = omega arith

    last : (o : Option ℕ) → or_else o none ≡ o
    last none = refl
    last (some i) = refl
