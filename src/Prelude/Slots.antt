-- ===== src/Prelude/Slots.antt =====
-- Slots of a ring.
use Prim.Native.Nat.{ℕ, ◌+◌, ◌*◌, ◌/◌, ◌%◌, ◌≤◌, ◌<◌}
use mathlib.Core.Logic.{◌≢◌, ◌⊎◌, inl, inr}
use native.Mathlib.Nat.{div-add-mod, mul-le-mul_left}
use native.Mathlib.Omega.{arith}

-- Positions less than a turn apart stand in different slots.
pub slot_ne : (cap j k : ℕ) → j < k → k < j + cap → j % cap ≢ k % cap
slot_ne cap j k lt near e = elim (compare_quotients (j / cap) (k / cap)) [
  | inl le ↦
      let m : cap * (k / cap) ≤ cap * (j / cap) = mul-le-mul_left cap le in
      absurd (omega (arith, div-add-mod j cap, div-add-mod k cap))
  | inr le ↦
      let m : cap * (j / cap + 1) ≤ cap * (k / cap) = mul-le-mul_left cap le in
      absurd (omega (arith, div-add-mod j cap, div-add-mod k cap))
]
  where
    compare_quotients : (a b : ℕ) → (b ≤ a) ⊎ (a + 1 ≤ b)
    compare_quotients a b = omega arith
