-- ===== src/Dirty/Heap/Holds.antt =====
-- The entries of a heap, wherever they stand.
use waydisplay.Prelude.{
  ◌==◌, eq_test, ne_test, length, ℕ, zero, suc, ◌+◌, ◌*◌, ◌<◌, ◌≡◌, ap, ◌∙◌, ◌⊎◌, inl, inr, List,
  arith,
}
use waydisplay.Dirty.Heap.{entry, heap_swap, parent, sift_up, smallest, sift_down, HeapEntry}
use waydisplay.Dirty.Heap.Order.{length-swap, swapped, entry-swap}

pub record Holds (h : List HeapEntry) (e : HeapEntry) : Type 0 where
  pub index : ℕ
  pub inside : index < length h
  pub here : entry h index ≡ e

pub Holds-swap :
    (h : List HeapEntry) (i j : ℕ) (e : HeapEntry)
    → i < length h
    → j < length h
    → Holds h e
    → Holds (heap_swap h i j) e
Holds-swap h i j e p q x =
    let size = length-swap h i j in
    let in_h = x.inside in
    record {
      index = swapped i j x.index;
      inside = rw size (ground arith);
      here = entry-swap h i j (swapped i j x.index) p q ∙ ap (entry h) (twice i j x.index) ∙ x.here;
    }
  where
    twice : (i j c : ℕ) → swapped i j (swapped i j c) ≡ c
    twice i j c = ground arith

pub Holds-sift_up :
    (fuel : ℕ) (h : List HeapEntry) (i : ℕ) (e : HeapEntry)
    → i < length h
    → Holds h e
    → Holds (sift_up fuel h i) e
unfolding sift_up
Holds-sift_up zero h i e p x = x
Holds-sift_up (suc fuel) h i e p x =
    let above : parent i < length h = omega arith in
    let size = length-swap h i (parent i) in
    let rest =
      Holds-sift_up fuel (heap_swap h i (parent i)) (parent i) e (rw size above)
        (Holds-swap h i (parent i) e p above x) in
    ground arith

pub smallest-cases :
    (h : List HeapEntry) (i : ℕ)
    → (smallest h i ≡ i)
      ⊎ ((smallest h i < length h) × ((smallest h i ≡ i * 2 + 1) ⊎ (smallest h i ≡ i * 2 + 1 + 1)))
unfolding smallest
smallest-cases h i = ground arith

pub Holds-sift_down :
    (fuel : ℕ) (h : List HeapEntry) (i : ℕ) (e : HeapEntry)
    → i < length h
    → Holds h e
    → Holds (sift_down fuel h i) e
unfolding sift_down
Holds-sift_down zero h i e p x = x
Holds-sift_down (suc fuel) h i e p x = elim (smallest-cases h i) [
  | inl same ↦ rw (ap (λ k. k == i) same, eq_test i) x
  | inr (below, child) ↦
      let size = length-swap h i (smallest h i) in
      rw (ne_test (smallest h i) i (omega arith)) (
        Holds-sift_down fuel (heap_swap h i (smallest h i)) (smallest h i) e (rw size below)
          (Holds-swap h i (smallest h i) e p below x))
]
