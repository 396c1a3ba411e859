-- ===== src/Dirty.antt =====
-- src/server/wd_dirty_region_scheduler.c: which dirty region is sent next. The scheduler and the
-- pointer for the result are not null.
pub mod Heap
pub mod Bits
pub mod Valid
pub mod Oldest
pub mod Prune
pub mod Next
pub mod Change
pub mod Take
pub mod Enqueue
pub mod Forget
mod Tests
use waydisplay.Prelude.{
  ltb, leb, ◌==◌, ◌/=◌, if◌then◌else◌, length, get_or, set, replicate, u16_max, u16, u32, u64,
  sub16, ℕ, zero, suc, ◌+◌, ◌-◌, ◌*◌, ◌/◌, ◌%◌, Bool, true, false, not, ◌&&◌, ◌||◌, Option, none,
  some, List, [],
}
use waydisplay.Dirty.Heap.{entry, heap_push, heap_pop, HeapEntry}
use waydisplay.Dirty.Bits.{Word, no_bits, bit_set, bit_clear, find_pass}

-- struct wd_dirty_region_scheduler; `heap` are the first `heap_count` entries of the array.
pub record Scheduler : Type 0 where
  pub capacity : ℕ
  pub regions_x : ℕ
  pub count : ℕ
  pub starvation_ns : ℕ
  pub queued : List Bool
  pub enqueued_ns : List ℕ
  pub serial : List ℕ
  pub queued_bits : List Word
  pub bit_word_count : ℕ
  pub heap : List HeapEntry
  pub heap_capacity : ℕ

abbrev pub is_queued : Scheduler → ℕ → Bool
is_queued s region_id = get_or s.queued region_id false

abbrev pub age_of : Scheduler → ℕ → ℕ
age_of s region_id = get_or s.enqueued_ns region_id 0

abbrev pub serial_of : Scheduler → ℕ → ℕ
serial_of s region_id = get_or s.serial region_id 0

-- WD_SERVER_DIRTY_REGION_HEAP_GROWTH_MULTIPLIER
abbrev pub heap_growth_multiplier : ℕ
heap_growth_multiplier = 2

-- WD_SERVER_DIRTY_REGION_HEAP_INITIAL_CAPACITY
abbrev pub heap_initial_capacity : ℕ
heap_initial_capacity = 16

-- The capacity that heap_reserve asks for.
unfoldable pub next_heap_capacity : ℕ → ℕ → ℕ
next_heap_capacity heap_capacity capacity =
    let next =
      if heap_capacity /= 0
      then u64 (heap_capacity * heap_growth_multiplier)
      else heap_initial_capacity in
    if ltb next capacity then capacity else next

-- heap_reserve: the capacity that it leaves, or `none` where realloc, which is told the bytes, gives
-- no memory. An entry has 16 bytes.
unfoldable pub heap_reserve : (ℕ → Bool) → ℕ → ℕ → Option ℕ
unfolding next_heap_capacity
heap_reserve realloc heap_capacity capacity =
    let next = next_heap_capacity heap_capacity capacity in
    if leb capacity heap_capacity
    then some heap_capacity
    else if not (realloc (u64 (next * 16)))
    then none
    else some next

-- heap_entry_current
unfoldable pub heap_entry_current : Scheduler → HeapEntry → Bool
heap_entry_current s e =
    ltb e.region_id s.capacity
    && is_queued s e.region_id
    && (serial_of s e.region_id == e.serial)
    && (age_of s e.region_id == e.enqueued_ns)

-- The loop of heap_prune, with a round of fuel for each entry.
unfoldable pub prune_entries : ℕ → Scheduler → List HeapEntry → List HeapEntry
unfolding heap_entry_current heap_pop
prune_entries zero s h = h
prune_entries (suc fuel) s h =
    let rest = prune_entries fuel s (heap_pop h) in
    if (length h /= 0) && not (heap_entry_current s (entry h 0)) then rest else h

-- heap_prune
abbrev pub heap_prune : Scheduler → Scheduler
heap_prune s = record s { heap = prune_entries (length s.heap) s s.heap }

-- find_next_queued
unfoldable pub find_next_queued : Scheduler → ℕ → ℕ
unfolding find_pass
find_next_queued s cursor_region_id =
    let start = (cursor_region_id + 1) % s.capacity in
    if s.count == 0 then u16_max else elim (find_pass s.queued_bits s.capacity start s.capacity) [
      | some id ↦ u16 id
      | none ↦ elim (find_pass s.queued_bits s.capacity 0 start) [
        | some id ↦ u16 id
        | none ↦ u16_max
      ]
    ]

-- wd_dirty_region_scheduler_create; `calloc` says which of its five calls, from 0 on, gives memory.
unfoldable pub scheduler_create : (ℕ → Bool) → ℕ → ℕ → ℕ → Option Scheduler
scheduler_create calloc capacity regions_x starvation_ns =
    let words = (capacity + 63) / 64 in
    if (capacity == 0) || (regions_x == 0)
    then none
    else if not (calloc 0)
    then none
    else if not (calloc 1) || not (calloc 2) || not (calloc 3) || not (calloc 4)
    then none
    else some (record {
      capacity = capacity;
      regions_x = regions_x;
      count = 0;
      starvation_ns = starvation_ns;
      queued = replicate capacity false;
      enqueued_ns = replicate capacity 0;
      serial = replicate capacity 0;
      queued_bits = replicate words no_bits;
      bit_word_count = words;
      heap = [];
      heap_capacity = 0;
    })

-- wd_dirty_region_scheduler_reset
unfoldable pub scheduler_reset : Scheduler → Scheduler
scheduler_reset s = record s {
  queued = replicate s.capacity false;
  enqueued_ns = replicate s.capacity 0;
  queued_bits = replicate s.bit_word_count no_bits;
  count = 0;
  heap = [];
}

-- The serial of an entry that is queued: the next one but 0.
abbrev pub next_serial : ℕ → ℕ
next_serial n = if u32 (n + 1) == 0 then 1 else u32 (n + 1)

-- wd_dirty_region_scheduler_enqueue behind its guards, up to the call of heap_push.
unfoldable pub mark_region : Scheduler → ℕ → ℕ → Scheduler
unfolding bit_set
mark_region s region_id now_ns = record s {
  enqueued_ns =
      if age_of s region_id == 0
      then set s.enqueued_ns region_id (if now_ns /= 0 then now_ns else 1)
      else s.enqueued_ns;
  serial = set s.serial region_id (next_serial (serial_of s region_id));
  queued = set s.queued region_id true;
  queued_bits = bit_set s.queued_bits region_id;
  count = u16 (s.count + 1);
}

-- What wd_dirty_region_scheduler_enqueue undoes when the heap did not grow.
unfoldable pub unmark_region : Scheduler → ℕ → Bool → Scheduler
unfolding bit_clear
unmark_region s region_id had_age = record s {
  count = sub16 s.count 1;
  queued = set s.queued region_id false;
  queued_bits = bit_clear s.queued_bits region_id;
  enqueued_ns = if had_age then s.enqueued_ns else set s.enqueued_ns region_id 0;
}

-- wd_dirty_region_scheduler_enqueue
unfoldable pub scheduler_enqueue : (ℕ → Bool) → Scheduler → ℕ → ℕ → Scheduler × Bool
unfolding mark_region unmark_region heap_reserve heap_push
scheduler_enqueue realloc s region_id now_ns =
    let marked = mark_region s region_id now_ns in
    if leb s.capacity region_id
    then (s, false)
    else if is_queued s region_id
    then (s, true)
    else elim (heap_reserve realloc s.heap_capacity (length s.heap + 1)) [
      | none ↦ (unmark_region marked region_id (age_of s region_id /= 0), false)
      | some heap_capacity ↦ (
        record marked {
          heap_capacity = heap_capacity;
          heap = heap_push s.heap (record {
            enqueued_ns = age_of marked region_id;
            serial = serial_of marked region_id;
            region_id = region_id;
          });
        },
        true,
      )
    ]

-- The region that wd_dirty_region_scheduler_take selects: the oldest when it has starved, else the
-- next one behind the cursor.
unfoldable pub select_region : Scheduler → ℕ → ℕ → ℕ
unfolding find_next_queued
select_region s cursor_region_id now_ns =
    let oldest = entry s.heap 0 in
    let starved =
      (length s.heap /= 0)
      && (s.starvation_ns /= 0)
      && leb oldest.enqueued_ns now_ns
      && leb s.starvation_ns (now_ns - oldest.enqueued_ns) in
    let selected = if starved then oldest.region_id else u16_max in
    if selected == u16_max then find_next_queued s cursor_region_id else selected

-- wd_dirty_region_scheduler_take
unfoldable pub scheduler_take : Scheduler → ℕ → ℕ → Scheduler × Option ℕ
unfolding prune_entries select_region bit_clear
scheduler_take s cursor_region_id now_ns =
    let pruned = heap_prune s in
    let selected = select_region pruned cursor_region_id now_ns in
    if s.count == 0
    then (s, none)
    else if (selected == u16_max) || not (is_queued pruned selected)
    then (pruned, none)
    else (
      record pruned {
        queued = set s.queued selected false;
        queued_bits = bit_clear s.queued_bits selected;
        count = sub16 s.count 1;
      },
      some selected,
    )

-- wd_dirty_region_scheduler_forget
unfoldable pub scheduler_forget : Scheduler → ℕ → Scheduler
unfolding bit_clear
scheduler_forget s region_id =
    let unqueued : Scheduler =
      if is_queued s region_id
      then record s {
        queued = set s.queued region_id false;
        queued_bits = bit_clear s.queued_bits region_id;
        count = if s.count /= 0 then s.count - 1 else s.count;
      }
      else s in
    if leb s.capacity region_id then s else record unqueued {
      enqueued_ns = set s.enqueued_ns region_id 0;
      serial = set s.serial region_id (u32 (serial_of s region_id + 1));
    }

-- wd_dirty_region_scheduler_contains
unfoldable pub scheduler_contains : Scheduler → ℕ → Bool
scheduler_contains s region_id = ltb region_id s.capacity && is_queued s region_id

-- wd_dirty_region_scheduler_count
abbrev pub scheduler_count : Scheduler → ℕ
scheduler_count s = s.count

-- wd_dirty_region_scheduler_enqueued_ns
unfoldable pub scheduler_enqueued_ns : Scheduler → ℕ → ℕ
scheduler_enqueued_ns s region_id = if ltb region_id s.capacity then age_of s region_id else 0
