-- ===== src/Audio/Ring/Memory.antt =====
-- Blocks of an array.
use waydisplay.Prelude.{
  length, get_or, set, length-set, get_or-set_self, get_or-set_ne, ℕ, zero, suc, ◌+◌, ◌≤◌, ◌<◌, ◌≡◌,
  refl, ap, ap₂, ◌∙◌, ◌⊎◌, List, [], ◌∷◌, arith,
}
use waydisplay.Audio.Ring.{blit, slice}

module _ {A : Type 0} where
  pub length-blit : (xs : List A) (o : ℕ) (ys : List A) → length (blit xs o ys) ≡ length xs
  unfolding blit
  length-blit xs o [] = refl
  length-blit xs o (y ∷ ys) = length-blit (set xs o y) (o + 1) ys ∙ length-set xs o y

  pub get_or-blit_out :
      (xs : List A) (o : ℕ) (ys : List A) (i : ℕ) (d : A)
      → (i < o) ⊎ (o + length ys ≤ i)
      → get_or (blit xs o ys) i d ≡ get_or xs i d
  unfolding blit
  get_or-blit_out xs o [] i d h = refl
  get_or-blit_out xs o (y ∷ ys) i d h =
      get_or-blit_out (set xs o y) (o + 1) ys i d (omega arith)
      ∙ get_or-set_ne xs o i y d (omega arith)

  pub slice-blit_ne :
      (xs : List A) (o : ℕ) (ys : List A) (p n : ℕ) (d : A)
      → (p + n ≤ o) ⊎ (o + length ys ≤ p)
      → slice d (blit xs o ys) p n ≡ slice d xs p n
  unfolding slice
  slice-blit_ne xs o ys p zero d h = refl
  slice-blit_ne xs o ys p (suc n) d h =
      ap₂ ◌∷◌ (get_or-blit_out xs o ys p d (omega arith))
        (slice-blit_ne xs o ys (p + 1) n d (omega arith))

  pub slice-blit_self :
      (xs : List A) (o : ℕ) (ys : List A) (n : ℕ) (d : A)
      → length ys ≡ n
      → o + n ≤ length xs
      → slice d (blit xs o ys) o n ≡ ys
  unfolding slice blit
  slice-blit_self xs o [] zero d e h = refl
  slice-blit_self xs o [] (suc n) d e h = absurd (omega arith)
  slice-blit_self xs o (y ∷ ys) zero d e h = absurd (omega arith)
  slice-blit_self xs o (y ∷ ys) (suc n) d e h =
      ap₂ ◌∷◌
        (get_or-blit_out (set xs o y) (o + 1) ys o d (omega arith)
          ∙ get_or-set_self xs o y d (omega arith))
        (slice-blit_self (set xs o y) (o + 1) ys n d (omega arith)
          (omega (arith, length-set xs o y)))

  pub length-slice : (d : A) (xs : List A) (p n : ℕ) → length (slice d xs p n) ≡ n
  unfolding slice
  length-slice d xs p zero = refl
  length-slice d xs p (suc n) = ap suc (length-slice d xs (p + 1) n)
