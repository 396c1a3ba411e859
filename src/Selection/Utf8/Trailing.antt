-- ===== src/Selection/Utf8/Trailing.antt =====
-- Trailing NUL bytes.
use waydisplay.Prelude.{
  ltb, ◌==◌, ltb→lt, ltb→le, Bool-cases, length, get_or, take, ℕ, zero, suc, ◌-◌, ◌≤◌, ◌<◌, ◌≡◌,
  refl, sym, subst, ◌≢◌, ◌↔◌, ◌⊎◌, inl, inr, true, some, List, arith,
}
use waydisplay.Selection.Utf8.{text_is_valid, max_text_bytes, trimmed_size, normalize_size}

-- `n` is where the zero bytes at the end of the first `size` bytes begin.
pub record IsTrimmed (text : List ℕ) (size n : ℕ) : Type 0 where
  pub within : n ≤ size
  pub zeros : (i : ℕ) → n ≤ i → i < size → get_or text i 0 ≡ 0
  pub last : (n ≡ 0) ⊎ (get_or text (n - 1) 0 ≢ 0)

size-IsTrimmed : (text : List ℕ) (size : ℕ) → IsTrimmed text size (trimmed_size text size)
unfolding trimmed_size
size-IsTrimmed text zero = record {
  within = omega arith;
  zeros = λ i h k. absurd (omega arith);
  last = inl refl;
}
size-IsTrimmed text (suc size) = elim (Bool-cases (get_or text size 0 == 0)) [
  | inl z ↦ rw (z, trimmed_size) (extend (trimmed_size text size) z (size-IsTrimmed text size))
  | inr nz ↦
      rw (nz, trimmed_size)
        (record {
          within = omega arith;
          zeros = λ i h k. absurd (omega arith);
          last = inr (ground (arith, size_back));
        })
]
  where
    size_back : suc size - 1 ≡ size
    size_back = omega arith

    extend :
        (n : ℕ)
        → (get_or text size 0 == 0) ≡ true
        → IsTrimmed text size n
        → IsTrimmed text (suc size) n
    extend n z t = record {
      within = omega (arith, t.within);
      zeros = λ i h k. elim (Bool-cases (ltb i size)) [
        | inl l ↦ t.zeros i h (ltb→lt i size l)
        | inr l ↦ let e : i ≡ size = omega (arith, ltb→le i size l) in ground (arith, e)
      ];
      last = t.last;
    }

not_shorter :
    (text : List ℕ) (size n m : ℕ) → IsTrimmed text size n → IsTrimmed text size m → ¬ (n < m)
not_shorter text size n m t u lt = elim u.last [
  | inl z ↦ absurd (omega arith)
  | inr nz ↦ nz (t.zeros (m - 1) (omega arith) (omega (arith, u.within)))
]

IsTrimmed-unique :
    (text : List ℕ) (size n m : ℕ) → IsTrimmed text size n → IsTrimmed text size m → n ≡ m
IsTrimmed-unique text size n m t u =
    let a = not_shorter text size n m t u in let b = not_shorter text size m n u t in omega arith

normalize_value :
    (text : List ℕ) (n : ℕ)
    → (normalize_size text ≡ some n) ↔ (
        (n ≡ trimmed_size text (length text))
        × (n ≤ max_text_bytes)
        × (text_is_valid (take n text) ≡ true))
unfolding normalize_size
normalize_value text n = (ground arith, ground arith)

-- A captured text is accepted with the size `n` exactly when `n` is where its trailing NUL bytes
-- begin, `n` is within the limit of 1 MiB, and the bytes before are valid text.
pub normalize_size_exact :
    (text : List ℕ) (n : ℕ)
    → (normalize_size text ≡ some n) ↔ (
        IsTrimmed text (length text) n
        × (n ≤ max_text_bytes)
        × (text_is_valid (take n text) ≡ true))
normalize_size_exact text n = (
  λ h.
      let (e, le, v) = (normalize_value text n).0 h in
      (subst (IsTrimmed text (length text)) (sym e) is_trimmed, le, v),
  λ h. (normalize_value text n).1 (
    IsTrimmed-unique text (length text) n (trimmed_size text (length text)) h.0 is_trimmed,
    h.1,
    h.2,
  ),
)
  where
    is_trimmed : IsTrimmed text (length text) (trimmed_size text (length text))
    is_trimmed = size-IsTrimmed text (length text)
