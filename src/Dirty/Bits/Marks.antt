-- ===== src/Dirty/Bits/Marks.antt =====
-- The words and the list of flags tell the same, and their number is counted.
use waydisplay.Prelude.{
  ◌==◌, eq_test, ne_test, length, get_or, set, replicate, length-set, get_or-set_self,
  get_or-set_ne, ℕ, zero, suc, ◌+◌, ◌/◌, ◌%◌, ◌≤◌, ◌<◌, ◌≡◌, refl, sym, ap, ◌∙◌, ◌≢◌, ◌⊎◌, inl, inr,
  Bool, true, false, not, ◌&&◌, ◌||◌, List, [], ◌∷◌, arith,
}
use waydisplay.Dirty.Bits.{Word, no_bits, word_at, bit_set, bit_clear}

abbrev pub flag_at : List Bool → ℕ → Bool
flag_at flags i = get_or flags i false

-- Bit `i` of the words is flag `i`.
abbrev pub Represents : List Word → List Bool → Type 0
Represents words flags = (i : ℕ) → word_at words (i / 64) (i % 64) ≡ flag_at flags i

cases :
    (i r : ℕ)
    → (i ≡ r)
      ⊎ (((r ≢ i) × (i / 64 ≢ r / 64)) ⊎ ((r ≢ i) × ((i / 64 ≡ r / 64) × (i % 64 ≢ r % 64))))
cases i r = elim (compare_parts i r) [
  | inl same ↦ inl same
  | inr (inl word) ↦ inr (inl (λ e. word (sym (ap (λ n. n / 64) e)), word))
  | inr (inr (word, bit)) ↦ inr (inr (λ e. bit (sym (ap (λ n. n % 64) e)), (word, bit)))
]
  where
    compare_parts :
        (i r : ℕ) → (i ≡ r) ⊎ ((i / 64 ≢ r / 64) ⊎ ((i / 64 ≡ r / 64) × (i % 64 ≢ r % 64)))
    compare_parts i r = omega arith

-- A write of one word that changes one bit.
word-set :
    (words : List Word) (flags : List Bool) (r : ℕ) (f : Word) (v : Bool)
    → r / 64 < length words
    → r < length flags
    → f (r % 64) ≡ v
    → ((k : ℕ) → k ≢ r % 64 → f k ≡ word_at words (r / 64) k)
    → Represents words flags
    → Represents (set words (r / 64) f) (set flags r v)
word-set words flags r f v p q here there same i = elim (cases i r) [
  | inl e ↦
      rw (e, get_or-set_self words (r / 64) f no_bits p, get_or-set_self flags r v false q) here
  | inr (inl (ne, word)) ↦
      rw
        (
          get_or-set_ne words (r / 64) (i / 64) f no_bits (λ e. word (sym e)),
          get_or-set_ne flags r i v false ne,
        )
        (same i)
  | inr (inr (ne, (word, bit))) ↦
      rw
        (
          word,
          get_or-set_self words (r / 64) f no_bits p,
          get_or-set_ne flags r i v false ne,
          there (i % 64) bit,
        )
        (ap (λ w. word_at words w (i % 64)) (sym word) ∙ same i)
]

pub bit_set-Represents :
    (words : List Word) (flags : List Bool) (r : ℕ)
    → r / 64 < length words
    → r < length flags
    → Represents words flags
    → Represents (bit_set words r) (set flags r true)
unfolding bit_set
bit_set-Represents words flags r p q same =
    word-set words flags r (λ i. word_at words (r / 64) i || (i == r % 64)) true p q
      (rw (eq_test (r % 64)) (or_true (word_at words (r / 64) (r % 64))))
      (λ k ne. rw (ne_test k (r % 64) ne) (or_false (word_at words (r / 64) k))) same
  where
    or_true : (b : Bool) → (b || true) ≡ true
    or_true true = refl
    or_true false = refl

    or_false : (b : Bool) → (b || false) ≡ b
    or_false true = refl
    or_false false = refl

pub bit_clear-Represents :
    (words : List Word) (flags : List Bool) (r : ℕ)
    → r / 64 < length words
    → r < length flags
    → Represents words flags
    → Represents (bit_clear words r) (set flags r false)
unfolding bit_clear
bit_clear-Represents words flags r p q same =
    word-set words flags r (λ i. word_at words (r / 64) i && not (i == r % 64)) false p q
      (rw (eq_test (r % 64)) (and_false (word_at words (r / 64) (r % 64))))
      (λ k ne. rw (ne_test k (r % 64) ne) (and_one (word_at words (r / 64) k))) same
  where
    and_false : (b : Bool) → (b && false) ≡ false
    and_false true = refl
    and_false false = refl

    and_one : (b : Bool) → (b && true) ≡ b
    and_one true = refl
    and_one false = refl

pub length-bit_set : (words : List Word) (r : ℕ) → length (bit_set words r) ≡ length words
unfolding bit_set
length-bit_set words r = length-set words (r / 64) (λ i. word_at words (r / 64) i || (i == r % 64))

pub length-bit_clear : (words : List Word) (r : ℕ) → length (bit_clear words r) ≡ length words
unfolding bit_clear
length-bit_clear words r =
    length-set words (r / 64) (λ i. word_at words (r / 64) i && not (i == r % 64))

-- How many flags are set.
unfoldable pub set_flags : List Bool → ℕ
set_flags [] = 0
set_flags (true ∷ flags) = suc (set_flags flags)
set_flags (false ∷ flags) = set_flags flags

pub set_flags_le : (flags : List Bool) → set_flags flags ≤ length flags
unfolding set_flags
set_flags_le [] = omega arith
set_flags_le (true ∷ flags) = omega (arith, set_flags_le flags)
set_flags_le (false ∷ flags) = omega (arith, set_flags_le flags)

pub set_flags-set-true :
    (flags : List Bool) (i : ℕ)
    → i < length flags
    → flag_at flags i ≡ false
    → set_flags (set flags i true) ≡ set_flags flags + 1
unfolding set_flags
set_flags-set-true [] i p e = absurd (omega arith)
set_flags-set-true (true ∷ flags) zero p e = absurd (ground (arith, e))
set_flags-set-true (false ∷ flags) zero p e = omega arith
set_flags-set-true (true ∷ flags) (suc i) p e =
    omega (arith, set_flags-set-true flags i (omega arith) e)
set_flags-set-true (false ∷ flags) (suc i) p e = set_flags-set-true flags i (omega arith) e

pub set_flags-set-false :
    (flags : List Bool) (i : ℕ)
    → flag_at flags i ≡ true
    → set_flags (set flags i false) + 1 ≡ set_flags flags
unfolding set_flags
set_flags-set-false [] i e = absurd (ground (arith, e))
set_flags-set-false (true ∷ flags) zero e = omega arith
set_flags-set-false (false ∷ flags) zero e = absurd (ground (arith, e))
set_flags-set-false (true ∷ flags) (suc i) e = omega (arith, set_flags-set-false flags i e)
set_flags-set-false (false ∷ flags) (suc i) e = set_flags-set-false flags i e

pub set_flags-replicate : (n : ℕ) → set_flags (replicate n false) ≡ 0
unfolding set_flags
set_flags-replicate zero = refl
set_flags-replicate (suc n) = set_flags-replicate n

-- With no flag set, each is clear; a flag past the end is clear.
pub flag_clear : (flags : List Bool) (i : ℕ) → set_flags flags ≡ 0 → flag_at flags i ≡ false
unfolding set_flags
flag_clear [] i e = refl
flag_clear (true ∷ flags) i e = absurd (omega arith)
flag_clear (false ∷ flags) zero e = refl
flag_clear (false ∷ flags) (suc i) e = flag_clear flags i e

pub flag_inside : (flags : List Bool) (i : ℕ) → flag_at flags i ≡ true → i < length flags
flag_inside [] i e = absurd (ground (arith, e))
flag_inside (b ∷ flags) zero e = omega arith
flag_inside (b ∷ flags) (suc i) e = omega (arith, flag_inside flags i e)
