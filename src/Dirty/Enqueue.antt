-- ===== src/Dirty/Enqueue.antt =====
-- What an enqueue does to the set of queued regions and their ages.
use waydisplay.Prelude.{
  ltb, leb, ◌==◌, ◌/=◌, if◌then◌else◌, lt→ltb, le→ltb, le→leb, lt→leb, Bool-cases, eq_ne_test,
  ne_zero_ne, ne_test, length, get_or, set, length-set, get_or-set_self, set-set, set_same, u16,
  u64, sub16, ℕ, ◌+◌, ◌*◌, ◌/◌, ◌≤◌, ◌<◌, ◌≡◌, refl, sym, ap, ◌∙◌, subst, ◌≢◌, ◌⊎◌, inl, inr, Bool,
  true, false, ◌&&◌, ◌||◌, Option, none, some, List, arith,
}
use waydisplay.Dirty.{
  age_of, serial_of, next_heap_capacity, heap_reserve, next_serial, mark_region, unmark_region,
  scheduler_enqueue, Scheduler,
}
use waydisplay.Dirty.Heap.{heap_push}
use waydisplay.Dirty.Heap.Order.{age}
use waydisplay.Dirty.Bits.{bit_set, bit_clear}
use waydisplay.Dirty.Bits.Marks.{
  flag_at, Represents, bit_set-Represents, bit_clear-Represents, length-bit_set, length-bit_clear,
  set_flags_le,
}
use waydisplay.Dirty.Valid.{entry_of, IsValid}
use waydisplay.Dirty.Change.{word_inside, reage-IsValid, queue-IsValid, rebit-IsValid}

-- One more entry has room in the heap, or gets it.
abbrev pub has_room : (ℕ → Bool) → Scheduler → Bool
has_room realloc s =
    let need = length s.heap + 1 in
    leb need s.heap_capacity || realloc (u64 (next_heap_capacity s.heap_capacity need * 16))

abbrev pub accepts : (ℕ → Bool) → Scheduler → ℕ → Bool
accepts realloc s i = ltb i s.capacity && (flag_at s.queued i || has_room realloc s)

-- The age of a region that asks at `now_ns`: since its first request.
abbrev pub age_from : ℕ → ℕ → ℕ
age_from age now_ns = if age == 0 then if now_ns /= 0 then now_ns else 1 else age

pub record Enqueues (s s' : Scheduler) (i now_ns : ℕ) (accepted : Bool) : Type 0 where
  pub well_formed : IsValid s'
  pub queued : s'.queued ≡ (if accepted then set s.queued i true else s.queued)
  pub ages :
      s'.enqueued_ns
      ≡ (if accepted then set s.enqueued_ns i (age_from (age_of s i) now_ns) else s.enqueued_ns)

abbrev Outcome : Scheduler → ℕ → ℕ → Scheduler × Bool → Bool → Type 0
Outcome s i now_ns out accepted = (out.1 ≡ accepted) × Enqueues s out.0 i now_ns accepted

next_room : (c need : ℕ) → need ≤ next_heap_capacity c need
unfolding next_heap_capacity
next_room c need = ground arith

reserve_value :
    (realloc : ℕ → Bool) (c need : ℕ)
    → (((leb need c || realloc (u64 (next_heap_capacity c need * 16))) ≡ false)
        × (heap_reserve realloc c need ≡ none))
      ⊎ ((n : ℕ) × (((leb need c || realloc (u64 (next_heap_capacity c need * 16))) ≡ true)
            × ((heap_reserve realloc c need ≡ some n) × (need ≤ n))))
unfolding heap_reserve
reserve_value realloc c need = elim (Bool-cases (leb need c)) [
  | inl e ↦ rw e (inr (c, (refl, (refl, ground (arith, e)))))
  | inr e ↦ elim (Bool-cases (realloc (u64 (next_heap_capacity c need * 16)))) [
    | inl g ↦ rw (e, g) (inr (next_heap_capacity c need, (refl, (refl, next_room c need))))
    | inr g ↦ rw (e, g) (inl (refl, refl))
  ]
]

module _ (s : Scheduler) (i now_ns : ℕ) (v : IsValid s) (p : i < s.capacity)
    (f : flag_at s.queued i ≡ false) where
  -- The ages after the request.
  new_ages : List ℕ
  new_ages = set s.enqueued_ns i (age_from (age_of s i) now_ns)

  marked_ages : (mark_region s i now_ns).enqueued_ns ≡ new_ages
  unfolding mark_region new_ages
  marked_ages = elim (Bool-cases (age_of s i == 0)) [
    | inl e ↦ rw e refl
    | inr e ↦ rw e (sym (set_same s.enqueued_ns i 0))
  ]

  -- The scheduler of an accepted request, by its ages.
  accepted_with : ℕ → List ℕ → Scheduler
  accepted_with heap_capacity ages = record (mark_region s i now_ns) {
    enqueued_ns = ages;
    heap_capacity = heap_capacity;
    heap = heap_push s.heap (entry_of ages (set s.serial i (next_serial (serial_of s i))) i);
  }

  accepted-IsValid :
      (heap_capacity : ℕ)
      → length s.heap + 1 ≤ heap_capacity
      → IsValid (accepted_with heap_capacity new_ages)
  unfolding mark_region new_ages accepted_with
  accepted-IsValid heap_capacity room =
      let now = age_from (age_of s i) now_ns in
      let serials = set s.serial i (next_serial (serial_of s i)) in
      let here : get_or new_ages i 0 ≡ now =
        get_or-set_self s.enqueued_ns i now 0 (omega (arith, v.ages_length)) in
      let pos : 0 < now = ground arith in
      queue-IsValid (record s { enqueued_ns = new_ages; serial = serials }) i heap_capacity
        (reage-IsValid s i now (next_serial (serial_of s i)) v f) p f (rw here pos) room

  -- The scheduler of a request without room, by what it writes back.
  refused_with : List Bool → ℕ → List ℕ → Scheduler
  refused_with flags count ages = record s {
    queued = flags;
    queued_bits = bit_clear (bit_set s.queued_bits i) i;
    count = count;
    enqueued_ns = ages;
    serial = set s.serial i (next_serial (serial_of s i));
  }

  refused : Scheduler
  refused = unmark_region (mark_region s i now_ns) i (age_of s i /= 0)

  flags_back : set (set s.queued i true) i false ≡ s.queued
  flags_back =
      set-set s.queued i true false
      ∙ subst (λ b. set s.queued i b ≡ s.queued) f (set_same s.queued i false)

  refused_ages : refused.enqueued_ns ≡ s.enqueued_ns
  unfolding refused unmark_region mark_region
  refused_ages = elim (places (age_of s i)) [
    | inl e ↦
        rw (eq_ne_test (age_of s i) 0 e, ap (λ a. a == 0) e)
          (set-set s.enqueued_ns i (if now_ns /= 0 then now_ns else 1) 0
            ∙ subst (λ a. set s.enqueued_ns i a ≡ s.enqueued_ns) e (set_same s.enqueued_ns i 0))
    | inr ne ↦ rw (ne_zero_ne (age_of s i) ne, ne_test (age_of s i) 0 ne) refl
  ]
    where
      places : (n : ℕ) → (n ≡ 0) ⊎ (n ≢ 0)
      places n = omega arith

  words_back : Represents (bit_clear (bit_set s.queued_bits i) i) s.queued
  words_back =
      let word : i / 64 < length s.queued_bits = word_inside s i v p in
      let inside : i < length s.queued = omega (arith, v.queued_length) in
      subst (Represents (bit_clear (bit_set s.queued_bits i) i)) flags_back (
        bit_clear-Represents (bit_set s.queued_bits i) (set s.queued i true) i
          (rw (length-bit_set s.queued_bits i) word) (rw (length-set s.queued i true) inside)
          (bit_set-Represents s.queued_bits s.queued i word inside v.bits))

  refused-IsValid : IsValid refused
  unfolding refused unmark_region mark_region refused_with
  refused-IsValid =
      let size = length-bit_clear (bit_set s.queued_bits i) i ∙ length-bit_set s.queued_bits i in
      let bound = set_flags_le s.queued in
      let cap_word = v.capacity_word in
      let counted = v.counted in
      let length_cap = v.queued_length in
      let count : s.count ≡ sub16 (u16 (s.count + 1)) 1 = omega arith in
      let kept =
        rebit-IsValid s i (next_serial (serial_of s i)) (bit_clear (bit_set s.queued_bits i) i) v f
          size words_back in
      subst (λ q. IsValid (refused_with q (sub16 (u16 (s.count + 1)) 1) refused.enqueued_ns))
        (sym flags_back)
        (subst (λ c. IsValid (refused_with s.queued c refused.enqueued_ns)) count
          (subst (λ a. IsValid (refused_with s.queued s.count a)) (sym refused_ages) kept))

  refused_flags : refused.queued ≡ s.queued
  unfolding refused unmark_region mark_region
  refused_flags = flags_back

  accepted_flags :
      (n : ℕ) → (accepted_with n (mark_region s i now_ns).enqueued_ns).queued ≡ set s.queued i true
  unfolding accepted_with mark_region
  accepted_flags n = refl

  accepted_ages :
      (n : ℕ)
      → (accepted_with n (mark_region s i now_ns).enqueued_ns).enqueued_ns
        ≡ set s.enqueued_ns i (age_from (age_of s i) now_ns)
  unfolding accepted_with new_ages
  accepted_ages n = marked_ages

  -- The request of a region that is not queued, by what the reservation gives.
  by_reserve : Option ℕ → Scheduler × Bool
  by_reserve o = elim o [
    | none ↦ (refused, false)
    | some heap_capacity ↦ (accepted_with heap_capacity (mark_region s i now_ns).enqueued_ns, true)
  ]

  enqueue_as :
      (realloc : ℕ → Bool)
      → scheduler_enqueue realloc s i now_ns
        ≡ by_reserve (heap_reserve realloc s.heap_capacity (length s.heap + 1))
  unfolding scheduler_enqueue by_reserve refused accepted_with mark_region
  enqueue_as realloc = rw (lt→leb s.capacity i p, f) refl

  refused-Outcome : Outcome s i now_ns (by_reserve none) false
  unfolding by_reserve
  refused-Outcome =
      (refl, record { well_formed = refused-IsValid; queued = refused_flags; ages = refused_ages })

  accepted-Outcome : (n : ℕ) → length s.heap + 1 ≤ n → Outcome s i now_ns (by_reserve (some n)) true
  unfolding by_reserve
  accepted-Outcome n room = (
    refl,
    record {
      well_formed =
          subst (λ a. IsValid (accepted_with n a)) (sym marked_ages) (accepted-IsValid n room);
      queued = accepted_flags n;
      ages = accepted_ages n;
    },
  )

  enqueue_new :
      (realloc : ℕ → Bool)
      → Outcome s i now_ns (scheduler_enqueue realloc s i now_ns) (has_room realloc s)
  enqueue_new realloc = elim (reserve_value realloc s.heap_capacity (length s.heap + 1)) [
    | inl (no_room, e) ↦ rw (enqueue_as realloc, e, no_room) refused-Outcome
    | inr (n, (room, (e, fits))) ↦ rw (enqueue_as realloc, e, room) (accepted-Outcome n fits)
  ]

module _ (realloc : ℕ → Bool) (s : Scheduler) (i now_ns : ℕ) (v : IsValid s) where
  enqueue_past :
      s.capacity ≤ i
      → Outcome s i now_ns (scheduler_enqueue realloc s i now_ns) (accepts realloc s i)
  unfolding scheduler_enqueue
  enqueue_past past =
      rw (le→leb s.capacity i past, le→ltb i s.capacity past)
        (refl, record { well_formed = v; queued = refl; ages = refl })

  enqueue_again :
      i < s.capacity
      → flag_at s.queued i ≡ true
      → Outcome s i now_ns (scheduler_enqueue realloc s i now_ns) (accepts realloc s i)
  unfolding scheduler_enqueue
  enqueue_again inside f =
      let old = v.aged i f in
      rw (lt→leb s.capacity i inside, lt→ltb i s.capacity inside, f)
        (
          refl,
          record {
            well_formed = v;
            queued = sym (subst (λ b. set s.queued i b ≡ s.queued) f (set_same s.queued i false));
            ages = rw (ne_test (age_of s i) 0 (omega arith)) (sym (set_same s.enqueued_ns i 0));
          },
        )

  -- A request is accepted for a region in range that is queued already or whose entry has room;
  -- then the region is queued, with the age of its first request. A request that is not accepted
  -- changes neither the queued regions nor their ages.
  pub enqueue_exact :
      ((scheduler_enqueue realloc s i now_ns).1 ≡ accepts realloc s i)
      × Enqueues s (scheduler_enqueue realloc s i now_ns).0 i now_ns (accepts realloc s i)
  enqueue_exact = elim (places i s.capacity) [
    | inl past ↦ enqueue_past past
    | inr inside ↦ elim (Bool-cases (flag_at s.queued i)) [
      | inl f ↦ enqueue_again inside f
      | inr f ↦
          let room : accepts realloc s i ≡ has_room realloc s =
            rw (lt→ltb i s.capacity inside, f) refl in
          rw room (enqueue_new s i now_ns v inside f realloc)
    ]
  ]
    where
      places : (i n : ℕ) → (n ≤ i) ⊎ (i < n)
      places i n = omega arith
