-- ===== src/Dirty/Bits.antt =====
-- The set of queued regions of src/server/wd_dirty_region_scheduler.c in words of 64 bits. A word
-- is the function from a bit's number to the bit; the 64 first are read.
pub mod First
pub mod Search
pub mod Marks
use waydisplay.Prelude.{
  ltb, leb, ◌==◌, ◌/=◌, if◌then◌else◌, get_or, set, ℕ, zero, suc, ◌+◌, ◌-◌, ◌*◌, ◌/◌, ◌%◌, Bool,
  false, not, ◌&&◌, ◌||◌, Option, none, some, List,
}

abbrev pub Word : Type 0
Word = ℕ → Bool

abbrev pub no_bits : Word
no_bits i = false

abbrev pub word_at : List Word → ℕ → Word
word_at words w = get_or words w no_bits

-- bit_set
unfoldable pub bit_set : List Word → ℕ → List Word
bit_set words region_id =
    set words (region_id / 64) (λ i. word_at words (region_id / 64) i || (i == region_id % 64))

-- bit_clear
unfoldable pub bit_clear : List Word → ℕ → List Word
bit_clear words region_id =
    set words (region_id / 64) (λ i. word_at words (region_id / 64) i && not (i == region_id % 64))

-- The first `true` of `n` places, from place `i` on.
unfoldable pub first : (ℕ → Bool) → ℕ → ℕ → Option ℕ
first p zero i = none
first p (suc n) i = let rest = first p n (i + 1) in if p i then some i else rest

-- __builtin_ctzll of a word, with `none` for the word 0 that the source tests before.
unfoldable pub lowest_bit : Word → Option ℕ
unfolding first
lowest_bit bits = first bits 64 0

-- `bits & ((1 << n) - 1)` and `bits & (~0 << n)`
abbrev pub bits_below : ℕ → Word → Word
bits_below n bits i = bits i && ltb i n

abbrev pub bits_from : ℕ → Word → Word
bits_from n bits i = bits i && leb n i

-- What a round returns by the low bit of its word: the region's number, or what follows.
abbrev pub region_or : ℕ → ℕ → Option ℕ → Option ℕ → Option ℕ
region_or capacity base rest none = rest
region_or capacity base rest (some bit) =
    if ltb (base + bit) capacity then some (base + bit) else rest

-- The `while` of find_next_queued, with a round of fuel for each word up to the last.
unfoldable pub find_in_words : ℕ → List Word → ℕ → ℕ → ℕ → ℕ → Word → Option ℕ
unfolding lowest_bit
find_in_words zero words capacity end last_word word bits = none
find_in_words (suc fuel) words capacity end last_word word bits =
    let masked =
      if (word == last_word) && (end % 64 /= 0) then bits_below (end % 64) bits else bits in
    let next =
      find_in_words fuel words capacity end last_word (word + 1) (word_at words (word + 1)) in
    region_or capacity (word * 64) (if ltb last_word (word + 1) then none else next)
      (lowest_bit masked)

-- A pass of find_next_queued, from `begin` up to `end`.
unfoldable pub find_pass : List Word → ℕ → ℕ → ℕ → Option ℕ
unfolding find_in_words
find_pass words capacity begin end =
    if leb end begin
    then none
    else find_in_words (suc ((end - 1) / 64)) words capacity end ((end - 1) / 64) (begin / 64)
        (bits_from (begin % 64) (word_at words (begin / 64)))
