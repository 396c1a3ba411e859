-- ===== src/Dirty/Heap/Up.antt =====
-- heap_sift_up and heap_push keep the heap order.
use waydisplay.Prelude.{
  ◌==◌, Bool-cases, ne_zero_test, length, ℕ, zero, suc, ◌≤◌, ◌<◌, ◌≡◌, ap, ◌≢◌, ◌⊎◌, inl, inr, true,
  List, arith,
}
use waydisplay.Dirty.Heap.{entry, heap_entry_less, heap_swap, parent, sift_up, HeapEntry}
use waydisplay.Dirty.Heap.Order.{Le, IsBridged, length-swap, age-swap, IsHeap}

-- Only the edge above `i` may be out of order.
pub record Rising (h : List HeapEntry) (i : ℕ) : Type 0 where
  pub inside : i < length h
  pub edges : (c : ℕ) → 0 < c → c < length h → c ≢ i → Le h (parent c) c
  pub bridged : IsBridged h i

swap-Rising :
    (h : List HeapEntry) (i : ℕ)
    → Rising h i
    → 0 < i
    → heap_entry_less (entry h i) (entry h (parent i)) ≡ true
    → Rising (heap_swap h i (parent i)) (parent i)
swap-Rising h i v pos below =
    let size = length-swap h i (parent i) in
    let above : parent i < length h = let p = v.inside in omega arith in
    let slot = λ (c : ℕ). age-swap h i (parent i) c v.inside above in
    record {
      inside = rw size above;
      edges =
          λ c p q ne. ground (arith, slot c, slot (parent c), v.edges c, v.edges i, v.bridged c);
      bridged = λ c p q e pos'.
          ground
            (arith, slot c, slot (parent (parent i)), v.edges c, v.edges (parent i), v.bridged c);
    }

pub sift_up-IsHeap :
    (fuel : ℕ) (h : List HeapEntry) (i : ℕ) → i ≤ fuel → Rising h i → IsHeap (sift_up fuel h i)
unfolding sift_up
sift_up-IsHeap zero h i f v = record { edges = λ c p q. v.edges c p q (omega arith) }
sift_up-IsHeap (suc fuel) h i f v = elim (cases i) [
  | inl e ↦ rw (ap (λ k. k == 0) e) (record { edges = λ c p q. v.edges c p q (omega arith) })
  | inr pos ↦ elim (Bool-cases (heap_entry_less (entry h i) (entry h (parent i)))) [
    | inl below ↦
        rw (ne_zero_test i (omega arith), below)
          (sift_up-IsHeap fuel (heap_swap h i (parent i)) (parent i) (omega arith)
            (swap-Rising h i v pos below))
    | inr settled ↦
        rw (ne_zero_test i (omega arith), settled)
          (record { edges = λ c p q. ground (arith, v.edges c) })
  ]
]
  where
    cases : (n : ℕ) → (n ≡ 0) ⊎ (0 < n)
    cases n = omega arith
