-- ===== src/Encode/Fifo.antt =====
-- The queue is first in, first out.
use native.Mathlib.Nat.{mod-lt, mod-eq_of_lt, mod-add-mod}
use waydisplay.Prelude.{
  leb, ne_zero_test, length, is_nil, get_or, set, length-set, get_or-set_self, get_or-set_ne, u16,
  IsU16, slot_ne, ℕ, zero, suc, ◌+◌, ◌%◌, ◌≤◌, ◌<◌, ◌≡◌, refl, sym, ap, ap₂, ◌∙◌, ◌⊎◌, inl, inr,
  true, false, ◌||◌, List, [], ◌∷◌, ◌++◌, arith,
}
use waydisplay.Encode.{queue_push, CompletionQueue}

pub record IsValid (q : CompletionQueue) : Type 0 where
  pub stored : length q.storage ≡ q.capacity
  pub capacity_pos : 0 < q.capacity
  pub capacity_word : IsU16 q.capacity
  pub read_lt : q.read_index < q.capacity
  pub write_at : q.write_index ≡ (q.read_index + q.count) % q.capacity
  pub fits : q.count ≤ q.capacity

-- The job at a position of the ring, and `n` of them.
unfoldable pub jobs_from : List ℕ → ℕ → ℕ → ℕ → List ℕ
jobs_from storage capacity position zero = []
jobs_from storage capacity position (suc n) =
    get_or storage (position % capacity) 0 ∷ jobs_from storage capacity (position + 1) n

-- The jobs that are queued, the oldest first.
unfoldable pub jobs : CompletionQueue → List ℕ
jobs q = jobs_from q.storage q.capacity q.read_index q.count

length-jobs_from : (s : List ℕ) (c p n : ℕ) → length (jobs_from s c p n) ≡ n
unfolding jobs_from
length-jobs_from s c p zero = refl
length-jobs_from s c p (suc n) = ap suc (length-jobs_from s c (p + 1) n)

jobs_from-snoc :
    (s : List ℕ) (c p n : ℕ)
    → jobs_from s c p (suc n) ≡ jobs_from s c p n ++ get_or s ((p + n) % c) 0 ∷ []
unfolding jobs_from
jobs_from-snoc s c p zero = let e : p + 0 ≡ p = omega arith in rw e refl
jobs_from-snoc s c p (suc n) =
    let e : p + suc n ≡ p + 1 + n = omega arith in
    rw e (ap (λ l. get_or s (p % c) 0 ∷ l) (jobs_from-snoc s c (p + 1) n))

-- A write at a later position, less than a turn away, leaves the jobs before it.
jobs_from-set :
    (s : List ℕ) (c p n k v : ℕ)
    → p + n ≤ k
    → k < p + c
    → jobs_from (set s (k % c) v) c p n ≡ jobs_from s c p n
unfolding jobs_from
jobs_from-set s c p zero k v le near = refl
jobs_from-set s c p (suc n) k v le near =
    ap₂ ◌∷◌ (get_or-set_ne s (k % c) (p % c) v 0 (λ e. slot_ne c p k (omega arith) near (sym e)))
      (jobs_from-set s c (p + 1) n k v (omega arith) (omega arith))

-- Positions of the same slot hold the same jobs.
pub jobs_from-slot :
    (s : List ℕ) (c p q n : ℕ) → p % c ≡ q % c → jobs_from s c p n ≡ jobs_from s c q n
unfolding jobs_from
jobs_from-slot s c p q zero e = refl
jobs_from-slot s c p q (suc n) e = ap₂ ◌∷◌ (ap (λ k. get_or s k 0) e) (
    jobs_from-slot s c (p + 1) (q + 1) n
      (sym (mod-add-mod p c 1) ∙ ap (λ k. (k + 1) % c) e ∙ mod-add-mod q c 1))

pub index_next : (k c : ℕ) → 0 < c → IsU16 c → u16 (k % c) ≡ k % c
index_next k c pos w = let lt = mod-lt k pos in mod-eq_of_lt (omega arith)

pub storage_there : (xs : List ℕ) → 0 < length xs → is_nil xs ≡ false
storage_there [] lt = absurd (omega arith)
storage_there (x ∷ xs) lt = refl

push-IsValid :
    (q : CompletionQueue) (j : ℕ)
    → IsValid q
    → q.count < q.capacity
    → IsValid (record q {
      storage = set q.storage q.write_index j;
      write_index = u16 ((q.write_index + 1) % q.capacity);
      count = u16 (q.count + 1);
    })
push-IsValid q j h room =
    let w = h.capacity_word in
    let next : u16 (q.count + 1) ≡ q.count + 1 = mod-eq_of_lt (omega arith) in
    let turn : q.read_index + q.count + 1 ≡ q.read_index + (q.count + 1) = omega arith in
    record {
      stored = length-set q.storage q.write_index j ∙ h.stored;
      capacity_pos = h.capacity_pos;
      capacity_word = h.capacity_word;
      read_lt = h.read_lt;
      write_at =
          index_next (q.write_index + 1) q.capacity h.capacity_pos w
          ∙ ap (λ k. (k + 1) % q.capacity) h.write_at
          ∙ mod-add-mod (q.read_index + q.count) q.capacity 1
          ∙ ap (λ k. k % q.capacity) turn
          ∙ ap (λ k. (q.read_index + k) % q.capacity) (sym next);
      fits = rw next (omega arith);
    }

push_jobs :
    (q : CompletionQueue) (j : ℕ)
    → IsValid q
    → q.count < q.capacity
    → jobs_from (set q.storage q.write_index j) q.capacity q.read_index (u16 (q.count + 1))
      ≡ jobs_from q.storage q.capacity q.read_index q.count ++ j ∷ []
push_jobs q j h room =
    let w = h.capacity_word in
    let k = q.read_index + q.count in
    let next : u16 (q.count + 1) ≡ suc q.count = mod-eq_of_lt (omega arith) ∙ omega arith in
    let in_range : k % q.capacity < length q.storage = rw h.stored (mod-lt k h.capacity_pos) in
    rw (next, h.write_at)
      (jobs_from-snoc (set q.storage (k % q.capacity) j) q.capacity q.read_index q.count
        ∙ ap₂ ◌++◌
            (jobs_from-set q.storage q.capacity q.read_index q.count k j (omega arith)
              (omega arith))
            (ap (λ x. x ∷ []) (get_or-set_self q.storage (k % q.capacity) j 0 in_range)))

-- A push is the step of a bounded queue: it appends the job behind those that are queued, unless
-- the queue is full or the index is not one of a job, and then changes nothing. The queue stays
-- well-formed.
pub push_appends :
    (q : CompletionQueue) (j : ℕ)
    → IsValid q
    → let (q', pushed) = queue_push q j in
      IsValid q'
      × (((length (jobs q) < q.capacity)
            × (j < q.capacity)
            × (pushed ≡ true)
            × (jobs q' ≡ jobs q ++ j ∷ []))
          ⊎ (((q.capacity ≤ length (jobs q)) ⊎ (q.capacity ≤ j)) × (pushed ≡ false) × (q' ≡ q)))
unfolding queue_push jobs
push_appends q j h =
    let there = storage_there q.storage (rw h.stored h.capacity_pos) in
    let n = length-jobs_from q.storage q.capacity q.read_index q.count in
    let pos = h.capacity_pos in
    rw (there, ne_zero_test q.capacity (omega arith), n)
      (elim (cases q.count j q.capacity) [
        | inl (room, job, taken) ↦
            rw taken (push-IsValid q j h room, inl (room, job, refl, push_jobs q j h room))
        | inr (refused, shut) ↦ rw shut (h, inr (refused, refl, refl))
      ])
  where
    cases :
        (n j c : ℕ)
        → ((n < c) × (j < c) × ((leb c n || leb c j) ≡ false))
          ⊎ (((c ≤ n) ⊎ (c ≤ j)) × ((leb c n || leb c j) ≡ true))
    cases n j c = ground arith
