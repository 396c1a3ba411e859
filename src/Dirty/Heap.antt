-- ===== src/Dirty/Heap.antt =====
-- The heap of src/server/wd_dirty_region_scheduler.c. The list holds the first `heap_count` entries
-- of the array, so that its length is that count.
pub mod Order
pub mod Size
pub mod Holds
pub mod Up
pub mod Down
pub mod Ends
use waydisplay.Prelude.{
  ltb, ◌==◌, ◌/=◌, if◌then◌else◌, length, get_or, set, take, ℕ, zero, suc, ◌+◌, ◌-◌, ◌*◌, ◌/◌, Bool,
  not, ◌&&◌, List, [], ◌∷◌, ◌++◌,
}

-- struct wd_dirty_region_heap_entry
pub record HeapEntry : Type 0 where
  pub enqueued_ns : ℕ
  pub serial : ℕ
  pub region_id : ℕ

-- What is never read: each index is shown to be below the count.
abbrev pub no_entry : HeapEntry
no_entry = record { enqueued_ns = 0; serial = 0; region_id = 0 }

abbrev pub entry : List HeapEntry → ℕ → HeapEntry
entry h i = get_or h i no_entry

-- heap_entry_less
abbrev pub heap_entry_less : HeapEntry → HeapEntry → Bool
heap_entry_less lhs rhs =
    if lhs.enqueued_ns /= rhs.enqueued_ns
    then ltb lhs.enqueued_ns rhs.enqueued_ns
    else ltb lhs.region_id rhs.region_id

-- heap_swap of the entries at two indices.
abbrev pub heap_swap : List HeapEntry → ℕ → ℕ → List HeapEntry
heap_swap h i j = set (set h i (entry h j)) j (entry h i)

abbrev pub parent : ℕ → ℕ
parent c = (c - 1) / 2

-- heap_sift_up, with a round of fuel for each index on the way to the root.
unfoldable pub sift_up : ℕ → List HeapEntry → ℕ → List HeapEntry
sift_up zero h index = h
sift_up (suc fuel) h index =
    let rest = sift_up fuel (heap_swap h index (parent index)) (parent index) in
    if index == 0
    then h
    else if not (heap_entry_less (entry h index) (entry h (parent index)))
    then h
    else rest

-- The index that a round of heap_sift_down finds.
unfoldable pub smallest : List HeapEntry → ℕ → ℕ
smallest h index =
    let left = index * 2 + 1 in
    let right = left + 1 in
    let first =
      if ltb left (length h) && heap_entry_less (entry h left) (entry h index)
      then left
      else index in
    if ltb right (length h) && heap_entry_less (entry h right) (entry h first) then right else first

-- heap_sift_down, with a round of fuel for each index on the way to the leaves.
unfoldable pub sift_down : ℕ → List HeapEntry → ℕ → List HeapEntry
unfolding smallest
sift_down zero h index = h
sift_down (suc fuel) h index =
    let child = smallest h index in
    let rest = sift_down fuel (heap_swap h index child) child in if child == index then h else rest

-- The part of heap_push behind the reservation.
unfoldable pub heap_push : List HeapEntry → HeapEntry → List HeapEntry
unfolding sift_up
heap_push h new = sift_up (length h) (h ++ new ∷ []) (length h)

-- The heap without its last entry.
abbrev pub without_last : List HeapEntry → List HeapEntry
without_last h = take (length h - 1) h

-- heap_pop
unfoldable pub heap_pop : List HeapEntry → List HeapEntry
unfolding sift_down
heap_pop h =
    let rest = without_last h in
    if length h == 0
    then h
    else if length rest == 0
    then rest
    else sift_down (length rest) (set rest 0 (entry h (length rest))) 0
