-- ===== src/Selection/Utf8.antt =====
-- The text checks of src/common/wd_selection.c. A text is the list of its bytes; a null pointer
-- with a size of 0 is the empty list.
pub mod Scalars
pub mod Trailing
use Prim.Native.Nat.{bit_and}
use waydisplay.Prelude.{
  ltb, leb, ◌==◌, if◌then◌else◌, length, get_or, take, drop, ℕ, zero, suc, ◌*◌, Bool, true, false,
  not, ◌&&◌, ◌||◌, Option, none, some, List, [], ◌∷◌,
}

-- wd_utf8_continuation
unfoldable pub is_continuation : ℕ → Bool
is_continuation byte = bit_and byte 0xc0 == 0x80

-- The cases of wd_selection_text_is_valid for a first byte of two, three and four: how many bytes
-- of the rest belong to it.
accept_two : List ℕ → Option ℕ
accept_two [] = none
accept_two (b ∷ _) = if is_continuation b then some 1 else none

accept_three : ℕ → List ℕ → Option ℕ
accept_three first [] = none
accept_three first (_ ∷ []) = none
accept_three first (b ∷ c ∷ _) =
    if not (is_continuation b) || not (is_continuation c)
    then none
    else if (first == 0xe0 && ltb b 0xa0) || (first == 0xed && leb 0xa0 b)
    then none
    else some 2

accept_four : ℕ → List ℕ → Option ℕ
accept_four first [] = none
accept_four first (_ ∷ []) = none
accept_four first (_ ∷ _ ∷ []) = none
accept_four first (b ∷ c ∷ d ∷ _) =
    if not (is_continuation b) || (not (is_continuation c) || not (is_continuation d))
    then none
    else if (first == 0xf0 && ltb b 0x90) || (first == 0xf4 && ltb 0x8f b)
    then none
    else some 3

-- The body of the loop of wd_selection_text_is_valid: `none` is `return false`, and `some n` goes
-- on behind `n` bytes of the rest.
unfoldable pub accept : ℕ → List ℕ → Option ℕ
unfolding accept_two accept_three accept_four
accept first rest =
    if first == 0
    then none
    else if leb first 0x7f
    then some 0
    else if leb 0xc2 first && leb first 0xdf
    then accept_two rest
    else if leb 0xe0 first && leb first 0xef
    then accept_three first rest
    else if leb 0xf0 first && leb first 0xf4
    then accept_four first rest
    else none

-- The loop, with one round of fuel for each byte.
unfoldable pub valid_from : ℕ → List ℕ → Bool
valid_from fuel [] = true
valid_from zero (first ∷ rest) = false
valid_from (suc fuel) (first ∷ rest) = elim (accept first rest) [
  | none ↦ false
  | some n ↦ valid_from fuel (drop n rest)
]

-- wd_selection_text_is_valid
unfoldable pub text_is_valid : List ℕ → Bool
unfolding valid_from
text_is_valid text = valid_from (length text) text

-- WD_SELECTION_MAX_TEXT_BYTES
abbrev pub max_text_bytes : ℕ
max_text_bytes = 1024 * 1024

-- The loop of wd_selection_text_normalize_size: the size without the zero bytes at the end.
pub trimmed_size : List ℕ → ℕ → ℕ
trimmed_size text zero = zero
trimmed_size text (suc size) = elim (get_or text size 0 == 0) [
  | true ↦ trimmed_size text size
  | false ↦ suc size
]

-- wd_selection_text_normalize_size
pub normalize_size : List ℕ → Option ℕ
unfolding trimmed_size
normalize_size text =
    let size = trimmed_size text (length text) in
    if ltb max_text_bytes size || not (text_is_valid (take size text)) then none else some size
