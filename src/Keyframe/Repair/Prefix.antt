-- ===== src/Keyframe/Repair/Prefix.antt =====
-- A repaired access unit starts with a start code that the client finds, and keeps its payload.
use waydisplay.Prelude.{
  ltb, ◌==◌, Bool-cases, length, drop, length-drop, ℕ, ◌+◌, ◌≤◌, ◌≡◌, refl, subst, ◌≢◌, ◌⊎◌, inl,
  inr, true, false, ◌||◌, List, ◌∷◌, arith,
}
use waydisplay.Keyframe.AnnexB.Codes.{code_at}
use waydisplay.Keyframe.Repair.{
  nal_header, is_escaped_four, is_escaped_three, escaped_prefix_length, has_candidate,
  has_start_code, annexb_repair, rewritten,
}

-- What stands behind an escaped start code of the given length.
abbrev Behind : List ℕ → ℕ → Type 0
Behind bytes n = (nal_header (drop n bytes) ≡ true) × (n + 2 ≤ length bytes)

four_lem : (bytes : List ℕ) → is_escaped_four bytes ≡ true → Behind bytes 5
four_lem bytes h = (ground (arith, h), ground (arith, h))

three_lem : (bytes : List ℕ) → is_escaped_three bytes ≡ true → Behind bytes 4
three_lem bytes h = (ground (arith, h), ground (arith, h))

escaped_lem :
    (bytes : List ℕ)
    → (escaped_prefix_length bytes == 0) ≡ false
    → ((escaped_prefix_length bytes ≡ 5) × Behind bytes 5)
      ⊎ ((escaped_prefix_length bytes ≡ 4) × Behind bytes 4)
unfolding escaped_prefix_length
escaped_lem bytes h = elim (Bool-cases (is_escaped_four bytes)) [
  | inl four ↦ inl (rw four refl, four_lem bytes four)
  | inr not_four ↦ elim (Bool-cases (is_escaped_three bytes)) [
    | inl three ↦ inr (rw (not_four, three) refl, three_lem bytes three)
    | inr neither ↦ absurd (ground (arith, rw (not_four, neither) at h))
  ]
]

code_of_three : (rest : List ℕ) → code_at (0 ∷ 0 ∷ 1 ∷ rest) 0 ≡ 3
unfolding code_at
code_of_three rest = ground arith

code_of_four : (rest : List ℕ) → code_at (0 ∷ 0 ∷ 0 ∷ 1 ∷ rest) 0 ≡ 4
unfolding code_at
code_of_four rest = ground arith

rewritten_injective : (a b : List ℕ) → rewritten a ≡ rewritten b → a ≡ b
rewritten_injective a b e = ground (arith, e)

abbrev Mends : List ℕ → List ℕ → Type 0
Mends bytes out =
    (length out + 1 ≡ length bytes)
    × (code_at out 0 ≢ 0)
    × (drop (code_at out 0) out ≡ drop (code_at out 0 + 1) bytes)
    × (nal_header (drop (code_at out 0) out) ≡ true)

mended_four : (bytes : List ℕ) → Behind bytes 5 → Mends bytes (0 ∷ 0 ∷ 0 ∷ 1 ∷ drop 5 bytes)
mended_four bytes (header, le) =
    rw (code_of_four (drop 5 bytes))
      (omega (arith, length-drop 5 bytes, le), (λ z. omega (arith, z)), refl, header)

mended_three : (bytes : List ℕ) → Behind bytes 4 → Mends bytes (0 ∷ 0 ∷ 1 ∷ drop 4 bytes)
mended_three bytes (header, le) =
    rw (code_of_three (drop 4 bytes))
      (omega (arith, length-drop 4 bytes, le), (λ z. omega (arith, z)), refl, header)

-- When wd_hevc_annexb_repair_vaapi has rewritten an access unit, the unit is one byte shorter; it
-- begins with a start code, which the check of the client finds; what follows it is what followed
-- the escaped one, unchanged; and that begins with a plausible NAL header.
pub repair_exact :
    (bytes out : List ℕ)
    → annexb_repair bytes ≡ rewritten out
    → (length out + 1 ≡ length bytes)
      × (code_at out 0 ≢ 0)
      × (drop (code_at out 0) out ≡ drop (code_at out 0 + 1) bytes)
      × (nal_header (drop (code_at out 0) out) ≡ true)
unfolding annexb_repair
repair_exact bytes out e = elim (Bool-cases (ltb (length bytes) 6)) [
  | inl short ↦ absurd (ground (arith, rw short at e))
  | inr long ↦ elim (Bool-cases (has_start_code bytes)) [
    | inl plain ↦ absurd (ground (arith, rw (long, plain) at e))
    | inr escaped ↦
        elim (Bool-cases (
          escaped_prefix_length bytes == 0
          || has_candidate (drop (escaped_prefix_length bytes) bytes))) [
            | inl refused ↦ absurd (ground (arith, rw (long, escaped, refused) at e))
            | inr single ↦ elim (escaped_lem bytes (ground (arith, single))) [
              | inl (five, behind) ↦
                  subst (Mends bytes)
                    (rewritten_injective _ out (rw five at (rw (long, escaped, single) at e)))
                    (mended_four bytes behind)
              | inr (four, behind) ↦
                  subst (Mends bytes)
                    (rewritten_injective _ out (rw four at (rw (long, escaped, single) at e)))
                    (mended_three bytes behind)
            ]
          ]
  ]
]
