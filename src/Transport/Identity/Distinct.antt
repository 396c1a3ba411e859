-- ===== src/Transport/Identity/Distinct.antt =====
-- The numbers of an identity differ, and are found if the reader is not interrupted for ever.
use waydisplay.Prelude.{
  ltb, ◌==◌, ◌/=◌, Bool-cases, length, ℕ, zero, suc, ◌+◌, ◌-◌, ◌≤◌, ◌<◌, ◌≡◌, refl, ◌≢◌, ◌⊎◌, inl,
  inr, false, ◌||◌, Option, none, some, List, [], ◌++◌, arith,
}
use waydisplay.Selection.Wire.{from_le}
use waydisplay.Transport.Identity.{
  random_attempts, read_exact, nonzero_u64, other_u64, identity_generate, Reading, interrupted,
  no_bytes, delivered, Identity,
}

Reading-cases :
    (r : Reading)
    → (r ≡ interrupted) ⊎ ((r ≡ no_bytes) ⊎ ((bytes : List ℕ) × (r ≡ delivered bytes)))
Reading-cases interrupted = inl refl
Reading-cases no_bytes = inr (inl refl)
Reading-cases (delivered bytes) = inr (inr (bytes, refl))

shorter :
    (left n p q fuel : ℕ)
    → (n == 0 || ltb left n) ≡ false
    → p ≤ q
    → left + q ≤ suc fuel
    → left - n + p ≤ fuel
shorter left n p q fuel test le enough = ground (arith, test, le, enough)

module _ (Source : Type 0) (read_random : Source → ℕ → Source × Reading)
    (patience : Source → ℕ) where
  -- A request is interrupted only so often, as `patience` counts.
  pub record IsPatient : Type 0 where
    pub never_more : (s : Source) (n : ℕ) → patience (read_random s n).0 ≤ patience s
    pub interrupts :
        (s : Source) (n : ℕ)
        → (read_random s n).1 ≡ interrupted
        → patience (read_random s n).0 < patience s

  module _ (good : IsPatient) where
    open good use {never_more, interrupts}

    -- An exact read ends, and does not lower what is left of the patience.
    read_exact_lem :
        (fuel : ℕ) (s : Source) (left : ℕ) (buffer : List ℕ)
        → left + patience s ≤ fuel
        → (r : Source × Option (List ℕ)) × (read_exact Source read_random fuel s left buffer
            ≡ some r)
          × (patience r.0 ≤ patience s)
    unfolding read_exact
    read_exact_lem zero s left buffer enough =
        let e : left ≡ 0 = omega arith in ((s, some buffer), rw e refl, omega arith)
    read_exact_lem (suc fuel) s left buffer enough = elim (Bool-cases (left == 0)) [
      | inl done ↦ ((s, some buffer), rw done refl, omega arith)
      | inr more ↦
          let fewer = never_more s left in
          elim (Reading-cases (read_random s left).1) [
            | inl again ↦
                let less = interrupts s left again in
                let (r, returns, kept) =
                  read_exact_lem fuel (read_random s left).0 left buffer (omega arith) in
                (r, rw (more, again) returns, omega arith)
            | inr (inl ends) ↦ (((read_random s left).0, none), rw (more, ends) refl, fewer)
            | inr (inr (bytes, some_bytes)) ↦
                elim (Bool-cases (length bytes == 0 || ltb left (length bytes))) [
                  | inl wrong ↦
                      (((read_random s left).0, none), rw (more, some_bytes, wrong) refl, fewer)
                  | inr right ↦
                      let (r, returns, kept) =
                        read_exact_lem fuel (read_random s left).0 (left - length bytes)
                          (buffer ++ bytes)
                          (shorter left (length bytes) (patience (read_random s left).0)
                            (patience s) fuel right fewer enough) in
                      (r, rw (more, some_bytes, right) returns, omega arith)
                ]
          ]
    ]

    -- A search for a number ends with none, or with one that is not 0.
    abbrev Searched : ℕ → ℕ → Source → Type 0
    Searched fuel attempts s =
        (r : Source × Option ℕ) × (nonzero_u64 Source read_random fuel attempts s ≡ some r)
        × (patience r.0 ≤ patience s)
        × ((r.1 ≡ none) ⊎ ((n : ℕ) × (r.1 ≡ some n) × (n ≢ 0)))

    after_read :
        (fuel attempts : ℕ) (s : Source) (r : Source × Option (List ℕ))
        → read_exact Source read_random fuel s 8 [] ≡ some r
        → patience r.0 ≤ patience s
        → Searched fuel attempts r.0
        → Searched fuel (suc attempts) s
    unfolding nonzero_u64
    after_read fuel attempts s (s', none) reads kept later =
        ((s', none), rw (nonzero_u64, reads) refl, kept, inl refl)
    after_read fuel attempts s (s', some bytes) reads kept (r, returns, kept', found) =
        elim (Bool-cases (from_le bytes /= 0)) [
          | inl nonzero ↦ (
            (s', some (from_le bytes)),
            rw (nonzero_u64, reads, nonzero) refl,
            kept,
            inr (from_le bytes, refl, λ z. ground (arith, nonzero, z)),
          )
          | inr is_zero ↦
              (r, rw (nonzero_u64, reads, is_zero) returns, omega (arith, kept, kept'), found)
        ]

    nonzero_u64_lem :
        (fuel attempts : ℕ) (s : Source) → 8 + patience s ≤ fuel → Searched fuel attempts s
    unfolding nonzero_u64
    nonzero_u64_lem fuel zero s enough = ((s, none), refl, omega arith, inl refl)
    nonzero_u64_lem fuel (suc attempts) s enough =
        let (r, reads, kept) = read_exact_lem fuel s 8 [] enough in
        after_read fuel attempts s r reads kept
          (nonzero_u64_lem fuel attempts r.0 (omega (arith, kept)))

    -- Two numbers that are not 0 and differ.
    abbrev pub IsUsable : Identity → Type 0
    IsUsable x =
        (x.connection_token ≢ 0) × (x.media_clock_id ≢ 0) × (x.media_clock_id ≢ x.connection_token)

    abbrev Paired : ℕ → ℕ → ℕ → Source → Type 0
    Paired fuel token attempts s =
        (r : Source × Option Identity) × (other_u64 Source read_random fuel token attempts s
          ≡ some r)
        × ((r.1 ≡ none) ⊎ ((x : Identity) × (r.1 ≡ some x) × IsUsable x))

    after_search :
        (fuel token attempts : ℕ) (s : Source) (r : Source × Option ℕ)
        → token ≢ 0
        → nonzero_u64 Source read_random fuel random_attempts s ≡ some r
        → ((r.1 ≡ none) ⊎ ((n : ℕ) × (r.1 ≡ some n) × (n ≢ 0)))
        → Paired fuel token attempts r.0
        → Paired fuel token (suc attempts) s
    unfolding other_u64
    after_search fuel token attempts s (s', none) nz seeks found later =
        ((s', none), rw (other_u64, seeks) refl, inl refl)
    after_search fuel token attempts s (s', some n) nz seeks (inl e) later =
        absurd (ground (arith, e))
    after_search fuel token attempts s (s', some n) nz seeks (inr (m, e, m_nz))
          (r, returns, paired) =
        elim (Bool-cases (n /= token)) [
          | inl other ↦ (
            (s', some (record { connection_token = token; media_clock_id = n })),
            rw (other_u64, seeks, other) refl,
            inr (
              record { connection_token = token; media_clock_id = n },
              refl,
              (nz, λ z. m_nz (ground (arith, e, z)), λ z. ground (arith, other, z)),
            ),
          )
          | inr same ↦ (r, rw (other_u64, seeks, same) returns, paired)
        ]

    other_u64_lem :
        (fuel token attempts : ℕ) (s : Source)
        → token ≢ 0
        → 8 + patience s ≤ fuel
        → Paired fuel token attempts s
    unfolding other_u64
    other_u64_lem fuel token zero s nz enough = ((s, none), refl, inl refl)
    other_u64_lem fuel token (suc attempts) s nz enough =
        let (r, seeks, kept, found) = nonzero_u64_lem fuel random_attempts s enough in
        after_search fuel token attempts s r nz seeks found
          (other_u64_lem fuel token attempts r.0 nz (omega (arith, kept)))

    abbrev Generated : ℕ → Source → Type 0
    Generated fuel s =
        (r : Source × Option Identity) × (identity_generate Source read_random fuel s ≡ some r)
        × ((r.1 ≡ none) ⊎ ((x : Identity) × (r.1 ≡ some x) × IsUsable x))

    after_token :
        (fuel : ℕ) (s : Source) (r : Source × Option ℕ)
        → nonzero_u64 Source read_random fuel random_attempts s ≡ some r
        → ((r.1 ≡ none) ⊎ ((n : ℕ) × (r.1 ≡ some n) × (n ≢ 0)))
        → ((token : ℕ) → token ≢ 0 → Paired fuel token random_attempts r.0)
        → Generated fuel s
    unfolding identity_generate
    after_token fuel s (s', none) seeks found pair =
        ((s', none), rw (identity_generate, seeks) refl, inl refl)
    after_token fuel s (s', some n) seeks (inl e) pair = absurd (ground (arith, e))
    after_token fuel s (s', some n) seeks (inr (m, e, m_nz)) pair =
        let (r, returns, paired) = pair n (λ z. m_nz (ground (arith, e, z))) in
        (r, rw (identity_generate, seeks) returns, paired)

    -- If a reader interrupts only so often, as many rounds as bytes and interruptions are enough for
    -- wd_connection_identity_generate_with to return, whatever else the reader does. It either fails
    -- or gives two numbers that are not 0 and differ.
    pub identity_distinct :
        (fuel : ℕ) (s : Source)
        → 8 + patience s ≤ fuel
        → (r : Source × Option Identity) × (identity_generate Source read_random fuel s ≡ some r)
          × ((r.1 ≡ none) ⊎ ((x : Identity) × (r.1 ≡ some x) × IsUsable x))
    identity_distinct fuel s enough =
        let (r, seeks, kept, found) = nonzero_u64_lem fuel random_attempts s enough in
        after_token fuel s r seeks found
          (λ token nz. other_u64_lem fuel token random_attempts r.0 nz (omega (arith, kept)))
