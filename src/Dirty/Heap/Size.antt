-- ===== src/Dirty/Heap/Size.antt =====
-- How many entries the sifts leave.
use waydisplay.Prelude.{length, ℕ, zero, suc, ◌≡◌, refl, List, arith}
use waydisplay.Dirty.Heap.{heap_swap, parent, sift_up, smallest, sift_down, HeapEntry}
use waydisplay.Dirty.Heap.Order.{length-swap}

pub length-sift_up : (fuel : ℕ) (h : List HeapEntry) (i : ℕ) → length (sift_up fuel h i) ≡ length h
unfolding sift_up
length-sift_up zero h i = refl
length-sift_up (suc fuel) h i =
    let rest = length-sift_up fuel (heap_swap h i (parent i)) (parent i) in
    let swap = length-swap h i (parent i) in ground arith

pub length-sift_down :
    (fuel : ℕ) (h : List HeapEntry) (i : ℕ) → length (sift_down fuel h i) ≡ length h
unfolding sift_down
length-sift_down zero h i = refl
length-sift_down (suc fuel) h i =
    let rest = length-sift_down fuel (heap_swap h i (smallest h i)) (smallest h i) in
    let swap = length-swap h i (smallest h i) in ground arith
