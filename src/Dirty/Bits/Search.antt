-- ===== src/Dirty/Bits/Search.antt =====
-- The search in words finds the first queued region of a range.
use mathlib.Core.Option
use waydisplay.Prelude.{
  leb, ◌==◌, lt→ltb, le→ltb, le→leb, lt→leb, Option-cases, eq_ne_test, ne_zero_ne, ne_test, ℕ, zero,
  suc, ◌+◌, ◌-◌, ◌*◌, ◌/◌, ◌%◌, ◌≤◌, ◌<◌, ◌≡◌, refl, sym, ap, ap₂, ◌∙◌, ◌⊎◌, inl, inr, Bool, true,
  false, ◌&&◌, Option, none, List, arith,
}
use waydisplay.Dirty.Bits.{
  Word, word_at, first, lowest_bit, bits_below, bits_from, region_or, find_in_words, find_pass,
}
use waydisplay.Dirty.Bits.First.{first-add, first-cong, first_behind, first_some, lowest_bit-first}

-- A word that covers `n` places from `base` on, in front of what the later words give.
round_exact :
    (capacity base n m : ℕ) (bits : Word) (q : ℕ → Bool) (rest : Option ℕ)
    → base + n ≤ capacity
    → n ≤ 64
    → ((k : ℕ) → k < n → bits k ≡ q (base + k))
    → ((k : ℕ) → n ≤ k → k < 64 → bits k ≡ false)
    → rest ≡ first q m (base + n)
    → region_or capacity base rest (lowest_bit bits) ≡ first q (n + m) base
round_exact capacity base n m bits q rest fits le same clear later =
    let here = lowest_bit-first bits q base n le same clear in
    let whole = first-add q n m base in
    elim (Option-cases (lowest_bit bits)) [
      | inl e ↦ rw (e, whole, here ∙ ap (Option.map (λ k. base + k)) e) later
      | inr (bit, e) ↦
          let found = here ∙ ap (Option.map (λ k. base + k)) e in
          let bounds = first_some q n base (base + bit) found in
          rw (e, whole, found, lt→ltb (base + bit) capacity (omega (arith, bounds.1.0))) refl
    ]

and_one : (b : Bool) → (b && true) ≡ b
and_one true = refl
and_one false = refl

and_zero : (b : Bool) → (b && false) ≡ false
and_zero true = refl
and_zero false = refl

-- How many places of the last word stand before the end.
rest_of_word :
    (end : ℕ)
    → 0 < end
    → ((end % 64 ≡ 0) × (end ≡ (end - 1) / 64 * 64 + 64))
      ⊎ ((0 < end % 64) × (end ≡ (end - 1) / 64 * 64 + end % 64))
rest_of_word end p = omega arith

pub find_in_words_exact :
    (fuel : ℕ) (words : List Word) (capacity end word : ℕ) (bits : Word) (q : ℕ → Bool)
    → end ≤ capacity
    → 0 < end
    → word ≤ (end - 1) / 64
    → (end - 1) / 64 < word + fuel
    → ((k : ℕ) → k < 64 → bits k ≡ q (word * 64 + k))
    → ((w k : ℕ) → word < w → k < 64 → word_at words w k ≡ q (w * 64 + k))
    → find_in_words fuel words capacity end ((end - 1) / 64) word bits
      ≡ first q (end - word * 64) (word * 64)
unfolding find_in_words first
find_in_words_exact zero words capacity end word bits q fits pos le enough same later =
    absurd (omega arith)
find_in_words_exact (suc fuel) words capacity end word bits q fits pos le enough same later =
    elim (places word ((end - 1) / 64) le) [
      | inl more ↦
          let n : end - word * 64 ≡ 64 + (end - (word + 1) * 64) = omega arith in
          let b : (word + 1) * 64 ≡ word * 64 + 64 = omega arith in
          rw
            (
              ne_test word ((end - 1) / 64) (omega arith),
              le→ltb ((end - 1) / 64) (word + 1) (omega arith),
              n,
            )
            (round_exact capacity (word * 64) 64 (end - (word + 1) * 64) bits q
              (find_in_words fuel words capacity end ((end - 1) / 64) (word + 1)
                (word_at words (word + 1)))
              (omega arith) (omega arith) same (λ k l m. absurd (omega arith))
              (find_in_words_exact fuel words capacity end (word + 1) (word_at words (word + 1)) q
                  fits pos (omega arith) (omega arith) (λ k l. later (word + 1) k (omega arith) l)
                  (λ w k m l. later w k (omega arith) l)
                ∙ ap (first q (end - (word + 1) * 64)) b))
      | inr last ↦ elim (rest_of_word end pos) [
        | inl (even, e) ↦
            let n : end - word * 64 ≡ 64 + 0 = omega arith in
            rw
              (
                last_true word last,
                eq_ne_test (end % 64) 0 even,
                lt→ltb ((end - 1) / 64) (word + 1) (omega arith),
                n,
              )
              (round_exact capacity (word * 64) 64 0 bits q none (omega arith) (omega arith) same
                (λ k l m. absurd (omega arith)) refl)
        | inr (odd, e) ↦
            let n : end - word * 64 ≡ end % 64 + 0 = omega arith in
            rw
              (
                last_true word last,
                ne_zero_ne (end % 64) (omega arith),
                lt→ltb ((end - 1) / 64) (word + 1) (omega arith),
                n,
              )
              (round_exact capacity (word * 64) (end % 64) 0 (bits_below (end % 64) bits) q none
                (omega arith) (omega arith)
                (λ k l. rw (lt→ltb k (end % 64) l) (and_one (bits k) ∙ same k (omega arith)))
                (λ k l m. rw (le→ltb k (end % 64) l) (and_zero (bits k))) refl)
      ]
    ]
  where
    places : (word last : ℕ) → word ≤ last → (word < last) ⊎ (word ≡ last)
    places word last le = omega arith

    last_true : (word : ℕ) {last : ℕ} → word ≡ last → (word == last) ≡ true
    last_true word e = ground (arith, e)

same_at :
    (words : List Word) (q : ℕ → Bool) (w k : ℕ)
    → k < 64
    → ((i : ℕ) → word_at words (i / 64) (i % 64) ≡ q i)
    → word_at words w k ≡ q (w * 64 + k)
same_at words q w k l same =
    let d : (w * 64 + k) / 64 ≡ w = omega arith in
    let r : (w * 64 + k) % 64 ≡ k = omega arith in
    ap₂ (λ a b. word_at words a b) (sym d) (sym r) ∙ same (w * 64 + k)

-- A pass that reads bits which agree with `q` finds the first place of its range.
pub find_pass_exact :
    (words : List Word) (capacity begin end : ℕ) (q : ℕ → Bool)
    → end ≤ capacity
    → ((i : ℕ) → word_at words (i / 64) (i % 64) ≡ q i)
    → find_pass words capacity begin end ≡ first q (end - begin) begin
unfolding find_pass first
find_pass_exact words capacity begin end q fits same = elim (sides begin end) [
  | inl empty ↦ let n : end - begin ≡ 0 = omega arith in rw (le→leb end begin empty, n) (refl)
  | inr some_left ↦
      let base : begin / 64 * 64 + begin % 64 ≡ begin = omega arith in
      let n : end - begin / 64 * 64 ≡ begin % 64 + (end - begin) = omega arith in
      rw (lt→leb end begin some_left) (
        find_in_words_exact (suc ((end - 1) / 64)) words capacity end (begin / 64)
          (bits_from (begin % 64) (word_at words (begin / 64))) masked fits (omega arith)
          (omega arith) (omega arith)
          (λ k l.
            ap₂ ◌&&◌ (same_at words q (begin / 64) k l same)
              (mask (begin / 64) k begin (begin % 64) (omega arith)))
          (λ w k m l.
            same_at words q w k l same
            ∙ sym (rw (le→leb begin (w * 64 + k) (omega arith)) (and_one (q (w * 64 + k)))))
        ∙ ap (λ m. first masked m (begin / 64 * 64)) n
        ∙ first_behind masked (begin % 64) (end - begin) (begin / 64 * 64)
            (λ k l m. rw (lt→leb begin k (omega arith)) (and_zero (q k)))
        ∙ ap (first masked (end - begin)) base
        ∙ first-cong masked q (end - begin) begin (λ k l m. rw (le→leb begin k l) (and_one (q k))))
]
  where
    masked : ℕ → Bool
    masked i = q i && leb begin i

    mask : (w k n r : ℕ) → n ≡ w * 64 + r → leb r k ≡ leb n (w * 64 + k)
    mask w k n r e = ground (arith, e)

    sides : (begin end : ℕ) → (end ≤ begin) ⊎ (begin < end)
    sides begin end = omega arith
