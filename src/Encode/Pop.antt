-- ===== src/Encode/Pop.antt =====
-- The other end of the queue.
use native.Mathlib.Nat.{mod-lt, mod-eq_of_lt, mod-mod, mod-add-mod}
use waydisplay.Prelude.{
  ◌==◌, ne_zero_test, get_or, u16, IsU16, ℕ, suc, ◌+◌, ◌-◌, ◌%◌, ◌<◌, ◌≡◌, refl, sym, ap, ap₂, ◌∙◌,
  ◌⊎◌, inl, inr, none, some, List, [], ◌∷◌, arith,
}
use waydisplay.Encode.{queue_pop, CompletionQueue}
use waydisplay.Encode.Fifo.{jobs_from, jobs, jobs_from-slot, index_next, storage_there, IsValid}

pop-IsValid :
    (q : CompletionQueue)
    → IsValid q
    → 0 < q.count
    → IsValid (record q { read_index = u16 ((q.read_index + 1) % q.capacity); count = q.count - 1 })
pop-IsValid q h some_jobs =
    let next = index_next (q.read_index + 1) q.capacity h.capacity_pos h.capacity_word in
    let turn : q.read_index + 1 + (q.count - 1) ≡ q.read_index + q.count = omega arith in
    let fits = h.fits in
    record {
      stored = h.stored;
      capacity_pos = h.capacity_pos;
      capacity_word = h.capacity_word;
      read_lt = rw next (mod-lt (q.read_index + 1) h.capacity_pos);
      write_at =
          h.write_at
          ∙ ap (λ k. k % q.capacity) (sym turn)
          ∙ sym (mod-add-mod (q.read_index + 1) q.capacity (q.count - 1))
          ∙ ap (λ k. (k + (q.count - 1)) % q.capacity) (sym next);
      fits = omega arith;
    }

pop_jobs :
    (s : List ℕ) (c r n : ℕ)
    → 0 < c
    → IsU16 c
    → r < c
    → jobs_from s c r (suc n) ≡ get_or s r 0 ∷ jobs_from s c (u16 ((r + 1) % c)) n
unfolding jobs_from
pop_jobs s c r n pos w lt =
    ap₂ (λ k l. get_or s k 0 ∷ l) (mod-eq_of_lt lt)
      (jobs_from-slot s c (r + 1) (u16 ((r + 1) % c)) n
        (sym (mod-mod (r + 1) c) ∙ ap (λ k. k % c) (sym (index_next (r + 1) c pos w))))

-- A pop is the step of a queue: it takes the oldest job, and changes nothing only if there is
-- none. The queue stays well-formed.
pub pop_takes :
    (q : CompletionQueue)
    → IsValid q
    → let (q', out) = queue_pop q in
      IsValid q'
      × (((j : ℕ) × (out ≡ some j) × (jobs q ≡ j ∷ jobs q'))
          ⊎ ((jobs q ≡ []) × (out ≡ none) × (q' ≡ q)))
unfolding queue_pop jobs jobs_from
pop_takes q h =
    let there = storage_there q.storage (rw h.stored h.capacity_pos) in
    let pos = h.capacity_pos in
    rw (there, ne_zero_test q.capacity (omega arith))
      (elim (amount q.count) [
        | inl e ↦
            rw (ap (λ n. n == 0) e)
              (h, inr (ap (jobs_from q.storage q.capacity q.read_index) e, refl, refl))
        | inr some_jobs ↦
            let less : q.count ≡ suc (q.count - 1) = omega arith in
            rw (ne_zero_test q.count (omega arith)) (
              pop-IsValid q h some_jobs,
              inl (
                get_or q.storage q.read_index 0,
                refl,
                ap (jobs_from q.storage q.capacity q.read_index) less
                    ∙ pop_jobs q.storage q.capacity q.read_index (q.count - 1) h.capacity_pos
                        h.capacity_word h.read_lt,
              ),
            )
      ])
  where
    amount : (n : ℕ) → (n ≡ 0) ⊎ (0 < n)
    amount n = omega arith
