-- ===== src/Keyframe/Av1/Size.antt =====
-- The size field of an OBU: its bytes and its value.
use native.Mathlib.Nat.{pow-succ'}
use waydisplay.Prelude.{
  ltb, leb, ◌==◌, Bool-cases, length, get_or, get_elem?-in_range, size_max, ℕ, zero, suc, ◌+◌, ◌*◌,
  ◌/◌, ◌%◌, ◌^◌, ◌≤◌, ◌<◌, ◌≡◌, refl, ◌∙◌, ◌≢◌, inl, inr, ◌||◌, some, List, arith,
}
use waydisplay.Keyframe.Av1.{read_size, SizeRead, bad_size, size_is}

-- The value of `n` bytes from the position on, seven bits of each, the low ones first.
abbrev pub leb_value : List ℕ → ℕ → ℕ → ℕ
leb_value bytes pos zero = 0
leb_value bytes pos (suc n) = get_or bytes pos 0 % 0x80 + 0x80 * leb_value bytes (pos + 1) n

-- A size field of `n` bytes, of which the last has the top bit clear, and the others have it set.
abbrev pub IsSize : List ℕ → ℕ → ℕ → Type 0
IsSize bytes pos zero = ⊥
IsSize bytes pos (suc zero) = (pos < length bytes) × (get_or bytes pos 0 / 0x80 % 2 ≡ 0)
IsSize bytes pos (suc (suc n)) =
    (pos < length bytes) × (get_or bytes pos 0 / 0x80 % 2 ≢ 0) × IsSize bytes (pos + 1) (suc n)

-- What reading the field gives, for the part of it from the position on.
abbrev pub Reads : List ℕ → ℕ → ℕ → ℕ → SizeRead → Type 0
Reads bytes pos shift payload bad_size = Unit
Reads bytes pos shift payload (size_is next value) =
    (n : ℕ) × IsSize bytes pos n
    × (next ≡ pos + n)
    × (value ≡ payload + leb_value bytes pos n * 2 ^ shift)

module _ (bytes : List ℕ) where
  -- A size field ends within the data.
  pub IsSize-le : (pos n : ℕ) → IsSize bytes pos n → pos + n ≤ length bytes
  IsSize-le pos zero field = absurd field
  IsSize-le pos (suc zero) field = omega (arith, field.0)
  IsSize-le pos (suc (suc n)) field = omega (arith, IsSize-le (pos + 1) (suc n) field.2)

  last_byte :
      (pos shift payload : ℕ)
      → pos < length bytes
      → get_or bytes pos 0 / 0x80 % 2 ≡ 0
      → Reads bytes pos shift payload
          (size_is (pos + 1) (payload + get_or bytes pos 0 % 0x80 * 2 ^ shift))
  last_byte pos shift payload lt clear =
      let e : get_or bytes pos 0 % 0x80 + 0x80 * 0 ≡ get_or bytes pos 0 % 0x80 = omega arith in
      (1, (lt, clear), refl, rw e refl)

  seven_more : (shift : ℕ) → 2 ^ (shift + 7) ≡ 0x80 * 2 ^ shift
  seven_more shift =
      let double : (k m : ℕ) → m ≡ suc k → 2 ^ m ≡ 2 * 2 ^ k = λ k m e. rw e (pow-succ' 2 k) in
      omega (
        arith,
        double shift (shift + 1) (omega arith),
        double (shift + 1) (shift + 2) (omega arith),
        double (shift + 2) (shift + 3) (omega arith),
        double (shift + 3) (shift + 4) (omega arith),
        double (shift + 4) (shift + 5) (omega arith),
        double (shift + 5) (shift + 6) (omega arith),
        double (shift + 6) (shift + 7) (omega arith),
      )

  scale : (a l r p : ℕ) → a + l * p + r * (0x80 * p) ≡ a + (l + 0x80 * r) * p
  scale a l r p = omega arith

  next_part :
      (pos shift payload value n : ℕ)
      → value
        ≡ payload
          + get_or bytes pos 0 % 0x80 * 2 ^ shift
          + leb_value bytes (pos + 1) n * 2 ^ (shift + 7)
      → value ≡ payload + leb_value bytes pos (suc n) * 2 ^ shift
  next_part pos shift payload value n e =
      e
      ∙ rw (seven_more shift)
          (scale payload (get_or bytes pos 0 % 0x80) (leb_value bytes (pos + 1) n) (2 ^ shift))

  more_bytes :
      (pos shift payload : ℕ) (read : SizeRead)
      → pos < length bytes
      → get_or bytes pos 0 / 0x80 % 2 ≢ 0
      → Reads bytes (pos + 1) (shift + 7) (payload + get_or bytes pos 0 % 0x80 * 2 ^ shift) read
      → Reads bytes pos shift payload read
  more_bytes pos shift payload bad_size lt top rest = tt
  more_bytes pos shift payload (size_is next value) lt top (zero, field, e, v) = absurd field
  more_bytes pos shift payload (size_is next value) lt top (suc n, field, e, v) =
      (suc (suc n), (lt, top, field), omega (arith, e), next_part pos shift payload value (suc n) v)

  pub read_size-Reads :
      (fuel pos shift payload : ℕ)
      → 71 ≤ shift + 7 * fuel
      → 0 < fuel
      → (read : SizeRead) × (read_size bytes (length bytes) fuel pos shift payload ≡ some read)
        × Reads bytes pos shift payload read
  unfolding read_size
  read_size-Reads zero pos shift payload enough some_fuel = absurd (omega arith)
  read_size-Reads (suc fuel) pos shift payload enough some_fuel =
      elim (Bool-cases (leb (length bytes) pos || leb 64 shift)) [
        | inl over ↦ (bad_size, rw over refl, tt)
        | inr go_on ↦
            let lt : pos < length bytes = ground (arith, go_on) in
            let part = get_or bytes pos 0 in
            let get = get_elem?-in_range bytes pos 0 lt in
            elim (Bool-cases (ltb (size_max / 2 ^ shift) (part % 0x80))) [
              | inl large ↦ (bad_size, rw (go_on, get, large) refl, tt)
              | inr small ↦ elim (Bool-cases (part / 0x80 % 2 == 0)) [
                | inl clear ↦ (
                  size_is (pos + 1) (payload + part % 0x80 * 2 ^ shift),
                  rw (go_on, get, small, clear) refl,
                  last_byte pos shift payload lt (ground (arith, clear)),
                )
                | inr top_bit ↦
                    let (read, returns, reads) =
                      read_size-Reads fuel (pos + 1) (shift + 7) (payload + part % 0x80 * 2 ^ shift)
                        (omega arith) (ground (arith, go_on)) in
                    (
                      read,
                      rw (go_on, get, small, top_bit) returns,
                      more_bytes pos shift payload read lt (λ z. ground (arith, top_bit, z)) reads,
                    )
              ]
            ]
      ]
