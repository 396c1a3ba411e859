-- ===== src/Dirty/Change.antt =====
-- Changes of one region keep the scheduler's fields in step.
use waydisplay.Prelude.{
  length, get_or, set, length-set, get_or-set_self, get_or-set_ne, set_same, u16, sub16, ℕ, ◌+◌,
  ◌/◌, ◌≤◌, ◌<◌, ◌≡◌, sym, ap₂, ◌∙◌, subst, ◌≢◌, ◌⊎◌, inl, inr, Bool, true, false, List, arith,
}
use waydisplay.Dirty.{Scheduler}
use waydisplay.Dirty.Heap.{heap_push}
use waydisplay.Dirty.Heap.Holds.{Holds}
use waydisplay.Dirty.Heap.Ends.{push-IsHeap, length-push, push-Holds_new, push-Holds}
use waydisplay.Dirty.Bits.{Word, bit_set, bit_clear}
use waydisplay.Dirty.Bits.Marks.{
  flag_at, Represents, bit_set-Represents, bit_clear-Represents, length-bit_set, length-bit_clear,
  set_flags_le, set_flags-set-true, set_flags-set-false, flag_inside,
}
use waydisplay.Dirty.Valid.{entry_of, IsValid}

flag_ne : (flags : List Bool) (i j : ℕ) → flag_at flags i ≡ false → flag_at flags j ≡ true → i ≢ j
flag_ne flags i j f g e = absurd (ground (arith, f, g, e))

other_flag :
    (flags : List Bool) (i j : ℕ)
    → flag_at flags i ≡ true
    → flag_at (set flags i false) j ≡ true
    → flag_at flags j ≡ true
other_flag flags i j f g =
    let ne : i ≢ j =
      flag_ne (set flags i false) i j (get_or-set_self flags i false false (flag_inside flags i f))
        g in
    sym (get_or-set_ne flags i j false false ne) ∙ g

pub word_inside :
    (s : Scheduler) (i : ℕ) → IsValid s → i < s.capacity → i / 64 < length s.queued_bits
word_inside s i v p = rw (v.words_length, v.word_count) (omega arith)

-- The region leaves the queue.
pub unqueue-IsValid :
    (s : Scheduler) (i : ℕ)
    → IsValid s
    → flag_at s.queued i ≡ true
    → IsValid (record s {
      queued = set s.queued i false;
      queued_bits = bit_clear s.queued_bits i;
      count = sub16 s.count 1;
    })
unqueue-IsValid s i v f =
    let inside = flag_inside s.queued i f in
    let fewer = set_flags-set-false s.queued i f in
    let bound = set_flags_le s.queued in
    let cap_word = v.capacity_word in
    record {
      capacity_pos = v.capacity_pos;
      capacity_word = v.capacity_word;
      queued_length = length-set s.queued i false ∙ v.queued_length;
      ages_length = v.ages_length;
      serials_length = v.serials_length;
      word_count = v.word_count;
      words_length = length-bit_clear s.queued_bits i ∙ v.words_length;
      bits =
          bit_clear-Represents s.queued_bits s.queued i
            (word_inside s i v (omega (arith, v.queued_length))) inside v.bits;
      counted = rw (v.counted) (omega (arith, v.queued_length));
      aged = λ j g. v.aged j (other_flag s.queued i j f g);
      ordered = v.ordered;
      entered = λ j g. v.entered j (other_flag s.queued i j f g);
      heap_fits = v.heap_fits;
    }

entry_of-set :
    (ages serials : List ℕ) (i j a n : ℕ)
    → i ≢ j
    → entry_of (set ages i a) (set serials i n) j ≡ entry_of ages serials j
entry_of-set ages serials i j a n ne =
    ap₂ (λ x y. record { enqueued_ns = x; serial = y; region_id = j })
      (get_or-set_ne ages i j a 0 ne) (get_or-set_ne serials i j n 0 ne)

-- A region that is not queued changes its age and its serial.
pub reage-IsValid :
    (s : Scheduler) (i a n : ℕ)
    → IsValid s
    → flag_at s.queued i ≡ false
    → IsValid (record s { enqueued_ns = set s.enqueued_ns i a; serial = set s.serial i n })
reage-IsValid s i a n v f = record {
  capacity_pos = v.capacity_pos;
  capacity_word = v.capacity_word;
  queued_length = v.queued_length;
  ages_length = length-set s.enqueued_ns i a ∙ v.ages_length;
  serials_length = length-set s.serial i n ∙ v.serials_length;
  word_count = v.word_count;
  words_length = v.words_length;
  bits = v.bits;
  counted = v.counted;
  aged = λ j g. rw (get_or-set_ne s.enqueued_ns i j a 0 (flag_ne s.queued i j f g)) (v.aged j g);
  ordered = v.ordered;
  entered = λ j g.
      subst (Holds s.heap)
        (sym (entry_of-set s.enqueued_ns s.serial i j a n (flag_ne s.queued i j f g)))
        (v.entered j g);
  heap_fits = v.heap_fits;
}

-- A region that has an age goes into the queue.
pub queue-IsValid :
    (s : Scheduler) (i heap_capacity : ℕ)
    → IsValid s
    → i < s.capacity
    → flag_at s.queued i ≡ false
    → 0 < get_or s.enqueued_ns i 0
    → length s.heap + 1 ≤ heap_capacity
    → IsValid (record s {
      queued = set s.queued i true;
      queued_bits = bit_set s.queued_bits i;
      count = u16 (s.count + 1);
      heap_capacity = heap_capacity;
      heap = heap_push s.heap (entry_of s.enqueued_ns s.serial i);
    })
queue-IsValid s i heap_capacity v p f old room =
    let inside : i < length s.queued = omega (arith, v.queued_length) in
    let new = entry_of s.enqueued_ns s.serial i in
    let more = set_flags-set-true s.queued i inside f in
    let bound = set_flags_le (set s.queued i true) in
    let size = length-set s.queued i true in
    let cap_word = v.capacity_word in
    record {
      capacity_pos = v.capacity_pos;
      capacity_word = v.capacity_word;
      queued_length = size ∙ v.queued_length;
      ages_length = v.ages_length;
      serials_length = v.serials_length;
      word_count = v.word_count;
      words_length = length-bit_set s.queued_bits i ∙ v.words_length;
      bits = bit_set-Represents s.queued_bits s.queued i (word_inside s i v p) inside v.bits;
      counted = rw (v.counted) (omega (arith, v.queued_length));
      aged = λ j g. elim (places i j) [
        | inl e ↦ subst (λ k. 0 < get_or s.enqueued_ns k 0) e old
        | inr ne ↦ v.aged j (sym (get_or-set_ne s.queued i j true false ne) ∙ g)
      ];
      ordered = push-IsHeap s.heap new v.ordered;
      entered = λ j g. elim (places i j) [
        | inl e ↦
            subst (λ k. Holds (heap_push s.heap new) (entry_of s.enqueued_ns s.serial k)) e
              (push-Holds_new s.heap new)
        | inr ne ↦
            push-Holds s.heap new (v.entered j (sym (get_or-set_ne s.queued i j true false ne) ∙ g))
      ];
      heap_fits = rw (length-push s.heap new) room;
    }
  where
    places : (i j : ℕ) → (i ≡ j) ⊎ (i ≢ j)
    places i j = omega arith

-- Other words that tell the same, beside another serial of a region that is not queued.
pub rebit-IsValid :
    (s : Scheduler) (i n : ℕ) (words : List Word)
    → IsValid s
    → flag_at s.queued i ≡ false
    → length words ≡ length s.queued_bits
    → Represents words s.queued
    → IsValid (record s { queued_bits = words; serial = set s.serial i n })
rebit-IsValid s i n words v f size same =
    let w = reage-IsValid s i (get_or s.enqueued_ns i 0) n v f in
    let ages = set_same s.enqueued_ns i 0 in
    record {
      capacity_pos = v.capacity_pos;
      capacity_word = v.capacity_word;
      queued_length = v.queued_length;
      ages_length = v.ages_length;
      serials_length = w.serials_length;
      word_count = v.word_count;
      words_length = size ∙ v.words_length;
      bits = same;
      counted = v.counted;
      aged = v.aged;
      ordered = v.ordered;
      entered =
          λ j g. subst (λ a. Holds s.heap (entry_of a (set s.serial i n) j)) ages (w.entered j g);
      heap_fits = v.heap_fits;
    }
