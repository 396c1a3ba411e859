-- ===== src/Selection/Capture/Total.antt =====
-- What a whole capture collects.
use mathlib.Core.List.{append_assoc, append-nil}
use waydisplay.Prelude.{
  ◌/=◌, if◌then◌else◌, Option-cases, length, take, length-append, u32, ℕ, zero, suc, ◌+◌, ◌*◌, ◌≤◌,
  ◌<◌, max, ◌≡◌, refl, sym, ap, ◌∙◌, ◌⊎◌, inl, inr, true, false, none, some, List, [], ◌∷◌, ◌++◌,
  arith,
}
use waydisplay.Selection.Utf8.{normalize_size}
use waydisplay.Selection.Capture.{
  raw_max_bytes, initial_bytes, growth_multiplier, capture_init, grow, reserve_capture_bytes,
  capture_append, capture_finish, CaptureBuffer,
}

-- Enough fuel for `grow`: the capacity reached covers what is required.
grow_covers :
    (fuel capacity required : ℕ)
    → 1 ≤ capacity
    → required ≤ raw_max_bytes
    → required ≤ capacity + fuel
    → (required ≤ grow fuel capacity required)
      × (grow fuel capacity required ≤ max capacity raw_max_bytes)
unfolding grow
grow_covers zero capacity required p m h = (omega arith, omega arith)
grow_covers (suc fuel) capacity required p m h =
    ground (arith, grow_covers fuel (u32 (capacity * growth_multiplier)) required)

pub record IsValid (b : CaptureBuffer) : Type 0 where
  pub counted : length b.data_bytes ≡ b.size
  pub reserved : b.size ≤ b.capacity
  pub bounded : b.capacity ≤ raw_max_bytes

-- A buffer that has not failed takes a chunk that fits, and fails on one that does not.
append_cases :
    (b : CaptureBuffer) (chunk : List ℕ)
    → IsValid b
    → b.failed ≡ false
    → ((length b.data_bytes + length chunk ≤ raw_max_bytes)
        × IsValid (capture_append b chunk true).0
        × ((capture_append b chunk true).0.failed ≡ false)
        × ((capture_append b chunk true).0.data_bytes ≡ b.data_bytes ++ chunk))
      ⊎ ((raw_max_bytes < length b.data_bytes + length chunk)
          × ((capture_append b chunk true).0.failed ≡ true))
unfolding capture_append reserve_capture_bytes
append_cases b chunk v f = ground (
  arith,
  length-append b.data_bytes chunk,
  grow_covers (b.size + length chunk) (if b.capacity /= 0 then b.capacity else initial_bytes)
      (b.size + length chunk),
)

pub append_failed :
    (b : CaptureBuffer) (chunk : List ℕ)
    → b.failed ≡ true
    → capture_append b chunk true ≡ (b, false)
unfolding capture_append
append_failed b chunk f = rw f

-- The chunks of a source in order, with allocations that succeed.
pub capture_all : CaptureBuffer → List (List ℕ) → CaptureBuffer
capture_all b [] = b
capture_all b (chunk ∷ chunks) = capture_all (capture_append b chunk true).0 chunks

abbrev pub concat : List (List ℕ) → List ℕ
concat [] = []
concat (chunk ∷ chunks) = chunk ++ concat chunks

Collected : CaptureBuffer → List ℕ → CaptureBuffer → Type 0
Collected b added b' =
    ((length b.data_bytes + length added ≤ raw_max_bytes)
      × IsValid b'
      × (b'.failed ≡ false)
      × (b'.data_bytes ≡ b.data_bytes ++ added))
    ⊎ ((raw_max_bytes < length b.data_bytes + length added) × (b'.failed ≡ true))

all_failed :
    (b : CaptureBuffer) (chunks : List (List ℕ))
    → b.failed ≡ true
    → (capture_all b chunks).failed ≡ true
unfolding capture_all
all_failed b [] f = f
all_failed b (chunk ∷ chunks) f =
    all_failed (capture_append b chunk true).0 chunks (rw (append_failed b chunk f) f)

all-Collected :
    (b : CaptureBuffer) (chunks : List (List ℕ))
    → IsValid b
    → b.failed ≡ false
    → length b.data_bytes ≤ raw_max_bytes
    → Collected b (concat chunks) (capture_all b chunks)
unfolding capture_all Collected
all-Collected b [] v f le = inl (omega arith, v, f, sym (append-nil b.data_bytes))
all-Collected b (chunk ∷ chunks) v f le = elim (append_cases b chunk v f) [
  | inl (fits, v', f', e) ↦
      (let len : length (capture_append b chunk true).0.data_bytes
            ≡ length b.data_bytes + length chunk =
          ap length e ∙ length-append b.data_bytes chunk in
        elim (all-Collected (capture_append b chunk true).0 chunks v' f' (omega arith)) [
          | inl (ok, v'', f'', e') ↦ inl (
            omega (arith, length-append chunk (concat chunks)),
            v'',
            f'',
            e' ∙ ap (λ l. l ++ concat chunks) e ∙ append_assoc b.data_bytes chunk (concat chunks),
          )
          | inr (over, f'') ↦ inr (omega (arith, length-append chunk (concat chunks)), f'')
        ])
  | inr (over, f') ↦ inr (
    omega (arith, length-append chunk (concat chunks)),
    all_failed (capture_append b chunk true).0 chunks f',
  )
]

finish_some :
    (b : CaptureBuffer) (text : List ℕ) (n : ℕ)
    → b.failed ≡ false
    → b.data_bytes ≡ text
    → normalize_size text ≡ some n
    → (capture_finish b true).1 ≡ some (take n text)
unfolding capture_finish
finish_some b text n f e h = ground (arith, f, e, h)

finish_none :
    (b : CaptureBuffer) (text : List ℕ)
    → b.failed ≡ false
    → b.data_bytes ≡ text
    → normalize_size text ≡ none
    → (capture_finish b true).1 ≡ none
unfolding capture_finish
finish_none b text f e h = ground (arith, f, e, h)

finish_exact :
    (b : CaptureBuffer) (text : List ℕ)
    → b.failed ≡ false
    → b.data_bytes ≡ text
    → (capture_finish b true).1
      ≡ elim (normalize_size text) [ none ↦ none | some n ↦ some (take n text) ]
finish_exact b text f e = elim (Option-cases (normalize_size text)) [
  | inl h ↦ rw h (finish_none b text f e h)
  | inr (n, h) ↦ rw h (finish_some b text n f e h)
]

finish_failed : (b : CaptureBuffer) → b.failed ≡ true → (capture_finish b true).1 ≡ none
unfolding capture_finish
finish_failed b f = rw f

-- While allocations succeed: however a source splits its text into chunks, a fresh buffer
-- collects exactly their bytes in order if these are at most 1 MiB and one byte, and has failed
-- otherwise; finishing it then yields exactly the text that the size normalization accepts, and
-- nothing from a failed buffer.
pub capture_total :
    (chunks : List (List ℕ))
    → let b = capture_all capture_init chunks in
      ((length (concat chunks) ≤ raw_max_bytes)
        × (b.data_bytes ≡ concat chunks)
        × ((capture_finish b true).1 ≡ elim (normalize_size (concat chunks)) [
          | none ↦ none
          | some n ↦ some (take n (concat chunks))
        ]))
      ⊎ ((raw_max_bytes < length (concat chunks)) × ((capture_finish b true).1 ≡ none))
unfolding capture_init Collected
capture_total chunks = elim (all-Collected capture_init chunks fresh refl (omega arith)) [
  | inl (ok, v, f, e) ↦ inl (omega arith, e, finish_exact _ (concat chunks) f e)
  | inr (over, f) ↦ inr (omega arith, finish_failed _ f)
]
  where
    fresh : IsValid capture_init
    fresh = omega arith
