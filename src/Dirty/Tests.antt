-- ===== src/Dirty/Tests.antt =====
-- The theorems at concrete inputs: three regions, of which two ask and the second has waited longer.
use waydisplay.Prelude.{leb, ℕ, ◌≡◌, refl, Bool, true, some, arith}
use waydisplay.Dirty.{
  next_heap_capacity, heap_reserve, mark_region, scheduler_enqueue, scheduler_take,
  scheduler_forget, Scheduler,
}
use waydisplay.Dirty.Bits.{first}
use waydisplay.Dirty.Valid.{IsValid}
use waydisplay.Dirty.Oldest.{oldest}
use waydisplay.Dirty.Take.{take_exact, Takes}
use waydisplay.Dirty.Enqueue.{enqueue_exact, Enqueues}
use waydisplay.Dirty.Forget.{forget_exact, fresh, fresh-IsValid, Forgets}

abbrev gives : ℕ → Bool
gives bytes = leb bytes 4096

abbrev none_queued : Scheduler
none_queued = fresh 3 1 10

none_queued-IsValid : IsValid none_queued
none_queued-IsValid = fresh-IsValid 3 1 10 (omega arith) (omega arith)

enqueue_exact_example :
    ((scheduler_enqueue gives none_queued 2 5).1 ≡ true)
    × Enqueues none_queued (scheduler_enqueue gives none_queued 2 5).0 2 5 true
unfolding next_heap_capacity
enqueue_exact_example = enqueue_exact gives none_queued 2 5 none_queued-IsValid

abbrev one_queued : Scheduler
one_queued = (scheduler_enqueue gives none_queued 2 5).0

one_queued-IsValid : IsValid one_queued
one_queued-IsValid = enqueue_exact_example.1.well_formed

abbrev two_queued : Scheduler
two_queued = (scheduler_enqueue gives one_queued 0 9).0

two_queued-IsValid : IsValid two_queued
two_queued-IsValid =
    let e = enqueue_exact gives one_queued 0 9 one_queued-IsValid in e.1.well_formed

-- Region 2 has starved, though region 0 is the next behind the cursor.
take_exact_example :
    ((scheduler_take two_queued 2 15).1 ≡ some 2)
    × Takes two_queued (scheduler_take two_queued 2 15).0 (some 2)
unfolding oldest first scheduler_enqueue mark_region heap_reserve next_heap_capacity
take_exact_example = take_exact two_queued 2 15 two_queued-IsValid

-- A unit of time before, it is the turn of the next region.
take_next : (scheduler_take two_queued 2 14).1 ≡ some 0
unfolding scheduler_take scheduler_enqueue
take_next = refl

forget_exact_example : Forgets two_queued (scheduler_forget two_queued 2) 2
forget_exact_example = forget_exact two_queued 2 two_queued-IsValid
