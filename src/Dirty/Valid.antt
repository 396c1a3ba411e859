-- ===== src/Dirty/Valid.antt =====
-- What the scheduler's fields keep to one another.
use waydisplay.Prelude.{length, get_or, IsU16, ℕ, ◌+◌, ◌/◌, ◌≤◌, ◌<◌, ◌≡◌, true, List}
use waydisplay.Dirty.{Scheduler}
use waydisplay.Dirty.Heap.{HeapEntry}
use waydisplay.Dirty.Heap.Order.{IsHeap}
use waydisplay.Dirty.Heap.Holds.{Holds}
use waydisplay.Dirty.Bits.Marks.{flag_at, Represents, set_flags}

-- The entry of a region's present age and serial.
abbrev pub entry_of : List ℕ → List ℕ → ℕ → HeapEntry
entry_of ages serials i = record {
  enqueued_ns = get_or ages i 0;
  serial = get_or serials i 0;
  region_id = i;
}

pub record IsValid (s : Scheduler) : Type 0 where
  pub capacity_pos : 0 < s.capacity
  pub capacity_word : IsU16 s.capacity
  pub queued_length : length s.queued ≡ s.capacity
  pub ages_length : length s.enqueued_ns ≡ s.capacity
  pub serials_length : length s.serial ≡ s.capacity
  pub word_count : s.bit_word_count ≡ (s.capacity + 63) / 64
  pub words_length : length s.queued_bits ≡ s.bit_word_count
  pub bits : Represents s.queued_bits s.queued
  pub counted : s.count ≡ set_flags s.queued
  pub aged : (i : ℕ) → flag_at s.queued i ≡ true → 0 < get_or s.enqueued_ns i 0
  pub ordered : IsHeap s.heap
  -- Each queued region has an entry with its present age and serial.
  pub entered :
      (i : ℕ) → flag_at s.queued i ≡ true → Holds s.heap (entry_of s.enqueued_ns s.serial i)
  pub heap_fits : length s.heap ≤ s.heap_capacity
