-- ===== src/Dirty/Heap/Down.antt =====
-- heap_sift_down keeps the heap order.
use waydisplay.Prelude.{
  ◌==◌, eq_test, ne_test, length, ℕ, zero, suc, ◌+◌, ◌*◌, ◌≤◌, ◌<◌, ◌≡◌, sym, ap, subst, ◌≢◌, ◌⊎◌,
  inl, inr, List, arith,
}
use waydisplay.Dirty.Heap.{heap_swap, parent, smallest, sift_down, HeapEntry}
use waydisplay.Dirty.Heap.Order.{Le, IsBridged, length-swap, age-swap, IsHeap}
use waydisplay.Dirty.Heap.Holds.{smallest-cases}

-- Only the edges below `i` may be out of order.
pub record Sinking (h : List HeapEntry) (i : ℕ) : Type 0 where
  pub edges : (c : ℕ) → 0 < c → c < length h → parent c ≢ i → Le h (parent c) c
  pub bridged : IsBridged h i

smallest-le_left :
    (h : List HeapEntry) (i : ℕ) → i * 2 + 1 < length h → Le h (smallest h i) (i * 2 + 1)
unfolding smallest
smallest-le_left h i p = ground arith

smallest-le_right :
    (h : List HeapEntry) (i : ℕ) → i * 2 + 1 + 1 < length h → Le h (smallest h i) (i * 2 + 1 + 1)
unfolding smallest
smallest-le_right h i p = ground arith

-- The round finds the entry that is due first of `i` and its children.
smallest-least :
    (h : List HeapEntry) (i : ℕ)
    → Le h (smallest h i) i
      × ((c : ℕ) → 0 < c → c < length h → parent c ≡ i → Le h (smallest h i) c)
unfolding smallest
smallest-least h i = (
  ground arith,
  λ c p q e. elim (children c i p e) [
    | inl left ↦
        subst (Le h (smallest h i)) (sym left)
          (smallest-le_left h i (subst (λ k. k < length h) left q))
    | inr right ↦
        subst (Le h (smallest h i)) (sym right)
          (smallest-le_right h i (subst (λ k. k < length h) right q))
  ],
)
  where
    children : (c i : ℕ) → 0 < c → parent c ≡ i → (c ≡ i * 2 + 1) ⊎ (c ≡ i * 2 + 1 + 1)
    children c i p e = omega arith

swap-Sinking :
    (h : List HeapEntry) (i : ℕ)
    → Sinking h i
    → i < length h
    → smallest h i < length h
    → (smallest h i ≡ i * 2 + 1) ⊎ (smallest h i ≡ i * 2 + 1 + 1)
    → Sinking (heap_swap h i (smallest h i)) (smallest h i)
swap-Sinking h i v p q child =
    let m = smallest h i in
    let size = length-swap h i m in
    let slot = λ (c : ℕ). age-swap h i m c p q in
    let (least, below) = smallest-least h i in
    record {
      edges = λ c pos inside ne.
          ground (arith, slot c, slot (parent c), v.edges c, v.bridged m, below c);
      bridged = λ c pos inside e pos'. ground (arith, slot c, slot (parent m), v.edges c);
    }

pub sift_down-IsHeap :
    (fuel : ℕ) (h : List HeapEntry) (i : ℕ)
    → i < length h
    → length h ≤ i + fuel
    → Sinking h i
    → IsHeap (sift_down fuel h i)
unfolding sift_down
sift_down-IsHeap zero h i p f v = absurd (omega arith)
sift_down-IsHeap (suc fuel) h i p f v = elim (smallest-cases h i) [
  | inl same ↦
      let (least, below) = smallest-least h i in
      rw (ap (λ k. k == i) same, eq_test i)
        (record {
          edges = λ c pos inside. elim (apart (parent c) i) [
            | inl e ↦
                subst (λ k. Le h k c) (sym e) (subst (λ k. Le h k c) same (below c pos inside e))
            | inr ne ↦ v.edges c pos inside ne
          ];
        })
  | inr (q, child) ↦
      let size = length-swap h i (smallest h i) in
      rw (ne_test (smallest h i) i (omega arith)) (
        sift_down-IsHeap fuel (heap_swap h i (smallest h i)) (smallest h i) (rw size q)
          (rw size (omega arith)) (swap-Sinking h i v p q child))
]
  where
    apart : (a b : ℕ) → (a ≡ b) ⊎ (a ≢ b)
    apart a b = omega arith
