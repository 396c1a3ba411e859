-- ===== src/Dirty/Prune.antt =====
-- A prune leaves the heap empty or with the entry of a queued region at its root.
use waydisplay.Prelude.{
  lt→ltb, Bool-cases, ne_zero_ne, eq_test, length, get_or, ℕ, zero, suc, ◌≤◌, ◌<◌, ◌≡◌, refl, ap,
  ◌∙◌, ◌⊎◌, inl, inr, true, List, arith,
}
use waydisplay.Dirty.{age_of, heap_entry_current, prune_entries, heap_prune, Scheduler}
use waydisplay.Dirty.Heap.{entry, heap_pop, HeapEntry}
use waydisplay.Dirty.Heap.Order.{age, region, IsHeap}
use waydisplay.Dirty.Heap.Holds.{Holds}
use waydisplay.Dirty.Heap.Ends.{length-pop, pop-IsHeap, pop-Holds}
use waydisplay.Dirty.Bits.Marks.{flag_at, flag_inside}
use waydisplay.Dirty.Valid.{entry_of, IsValid}

prune-IsHeap :
    (fuel : ℕ) (s : Scheduler) (h : List HeapEntry) → IsHeap h → IsHeap (prune_entries fuel s h)
unfolding prune_entries
prune-IsHeap zero s h v = v
prune-IsHeap (suc fuel) s h v =
    let rest = prune-IsHeap fuel s (heap_pop h) (pop-IsHeap h v) in ground arith

-- A prune loses no entry that is current.
prune-Holds :
    (fuel : ℕ) (s : Scheduler) (h : List HeapEntry) {e : HeapEntry}
    → heap_entry_current s e ≡ true
    → Holds h e
    → Holds (prune_entries fuel s h) e
unfolding prune_entries
prune-Holds zero s h now x = x
prune-Holds (suc fuel) s h {e} now x =
    let p = x.inside in
    elim (Bool-cases (heap_entry_current s (entry h 0))) [
      | inl keep ↦ rw (keep, ne_zero_ne (length h) (omega arith)) x
      | inr stale ↦
          rw (stale, ne_zero_ne (length h) (omega arith))
            (elim (pop-Holds h x) [
              | inl root ↦ absurd (ground (arith, stale, ap (heap_entry_current s) root ∙ now))
              | inr left ↦ prune-Holds fuel s (heap_pop h) now left
            ])
    ]

prune-length :
    (fuel : ℕ) (s : Scheduler) (h : List HeapEntry) → length (prune_entries fuel s h) ≤ length h
unfolding prune_entries
prune-length zero s h = omega arith
prune-length (suc fuel) s h =
    let rest = prune-length fuel s (heap_pop h) in let pop = length-pop h in ground arith

-- With a round for each entry the heap is left empty or with a current root.
prune-root :
    (fuel : ℕ) (s : Scheduler) (h : List HeapEntry)
    → length h ≤ fuel
    → (length (prune_entries fuel s h) ≡ 0)
      ⊎ (heap_entry_current s (entry (prune_entries fuel s h) 0) ≡ true)
unfolding prune_entries
prune-root zero s h enough = inl (omega arith)
prune-root (suc fuel) s h enough =
    let rest = prune-root fuel s (heap_pop h) in let pop = length-pop h in ground arith

queued_current :
    (s : Scheduler) (i : ℕ)
    → IsValid s
    → flag_at s.queued i ≡ true
    → heap_entry_current s (entry_of s.enqueued_ns s.serial i) ≡ true
unfolding heap_entry_current
queued_current s i v f =
    rw
      (
        lt→ltb i s.capacity (omega (arith, flag_inside s.queued i f, v.queued_length)),
        f,
        eq_test (get_or s.serial i 0),
        eq_test (get_or s.enqueued_ns i 0),
      )
      refl

pub prune-IsValid : (s : Scheduler) → IsValid s → IsValid (heap_prune s)
prune-IsValid s v = record {
  capacity_pos = v.capacity_pos;
  capacity_word = v.capacity_word;
  queued_length = v.queued_length;
  ages_length = v.ages_length;
  serials_length = v.serials_length;
  word_count = v.word_count;
  words_length = v.words_length;
  bits = v.bits;
  counted = v.counted;
  aged = v.aged;
  ordered = prune-IsHeap (length s.heap) s s.heap v.ordered;
  entered = λ i f. prune-Holds (length s.heap) s s.heap (queued_current s i v f) (v.entered i f);
  heap_fits = omega (arith, prune-length (length s.heap) s s.heap, v.heap_fits);
}

-- The entry at the root of a heap is that of a queued region.
pub record IsRooted (s : Scheduler) : Type 0 where
  pub inside : region s.heap 0 < s.capacity
  pub flagged : flag_at s.queued (region s.heap 0) ≡ true
  pub same_age : age_of s (region s.heap 0) ≡ age s.heap 0

current_region :
    (s : Scheduler) (e : HeapEntry)
    → heap_entry_current s e ≡ true
    → (e.region_id < s.capacity)
      × ((flag_at s.queued e.region_id ≡ true) × (age_of s e.region_id ≡ e.enqueued_ns))
unfolding heap_entry_current
current_region s e now = (ground (arith, now), (ground (arith, now), ground (arith, now)))

pub prune-IsRooted : (s : Scheduler) → (length (heap_prune s).heap ≡ 0) ⊎ IsRooted (heap_prune s)
prune-IsRooted s = elim (prune-root (length s.heap) s s.heap (omega arith)) [
  | inl empty ↦ inl empty
  | inr now ↦
      let root = current_region s (entry (heap_prune s).heap 0) now in
      inr (record { inside = root.0; flagged = root.1.0; same_age = root.1.1 })
]
