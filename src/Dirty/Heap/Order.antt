-- ===== src/Dirty/Heap/Order.antt =====
-- The heap order, and what a swap does.
use waydisplay.Prelude.{
  ◌==◌, if◌then◌else◌, eq_test, ne_test, length, set, length-set, get_or-set_self, get_or-set_ne, ℕ,
  zero, suc, ◌≤◌, ◌<◌, ◌≡◌, sym, ap, ◌∙◌, ◌≢◌, ◌⊎◌, inl, inr, List, arith,
}
use waydisplay.Dirty.Heap.{no_entry, entry, heap_swap, parent, HeapEntry}

abbrev pub age : List HeapEntry → ℕ → ℕ
age h i = (entry h i).enqueued_ns

abbrev pub region : List HeapEntry → ℕ → ℕ
region h i = (entry h i).region_id

-- Entry `i` is due no later than entry `j`: older, or as old with a lower number.
abbrev pub Le : List HeapEntry → ℕ → ℕ → Type 0
Le h i j = (age h i < age h j) ⊎ ((age h i ≡ age h j) × (region h i ≤ region h j))

pub Le-entries :
    (h h' : List HeapEntry) (i j : ℕ)
    → entry h' i ≡ entry h i
    → entry h' j ≡ entry h j
    → Le h i j
    → Le h' i j
Le-entries h h' i j e f le =
    let e₁ : age h' i ≡ age h i = ap (λ x. x.enqueued_ns) e in
    let e₂ : region h' i ≡ region h i = ap (λ x. x.region_id) e in
    let f₁ : age h' j ≡ age h j = ap (λ x. x.enqueued_ns) f in
    let f₂ : region h' j ≡ region h j = ap (λ x. x.region_id) f in ground arith

pub record IsHeap (h : List HeapEntry) : Type 0 where
  pub edges : (c : ℕ) → 0 < c → c < length h → Le h (parent c) c

-- The edges past `i`, from its parent to its children.
abbrev pub IsBridged : List HeapEntry → ℕ → Type 0
IsBridged h i = (c : ℕ) → 0 < c → c < length h → parent c ≡ i → 0 < i → Le h (parent i) c

pub length-swap : (h : List HeapEntry) (i j : ℕ) → length (heap_swap h i j) ≡ length h
length-swap h i j = length-set (set h i (entry h j)) j (entry h i) ∙ length-set h i (entry h j)

-- What stands at an index after a swap.
abbrev pub swapped : ℕ → ℕ → ℕ → ℕ
swapped i j c = if c == j then i else if c == i then j else c

pub entry-swap :
    (h : List HeapEntry) (i j c : ℕ)
    → i < length h
    → j < length h
    → entry (heap_swap h i j) c ≡ entry h (swapped i j c)
entry-swap h i j c p q = elim (cases c i j) [
  | inl e ↦
      rw (e, eq_test j)
        (get_or-set_self (set h i (entry h j)) j (entry h i) no_entry
          (omega (arith, length-set h i (entry h j))))
  | inr (inl (ne, e)) ↦
      rw (e, ne_test i j (λ f. ne (e ∙ f)), eq_test i)
        (get_or-set_ne (set h i (entry h j)) j i (entry h i) no_entry (λ f. ne (e ∙ sym f))
          ∙ get_or-set_self h i (entry h j) no_entry p)
  | inr (inr (ne, ne')) ↦
      rw (ne_test c j ne, ne_test c i ne')
        (get_or-set_ne (set h i (entry h j)) j c (entry h i) no_entry (λ f. ne (sym f))
          ∙ get_or-set_ne h i c (entry h j) no_entry (λ f. ne' (sym f)))
]
  where
    cases : (c i j : ℕ) → (c ≡ j) ⊎ (((c ≢ j) × (c ≡ i)) ⊎ ((c ≢ j) × (c ≢ i)))
    cases c i j = ground arith

-- The same on the two fields that the order reads.
pub age-swap :
    (h : List HeapEntry) (i j c : ℕ)
    → i < length h
    → j < length h
    → (age (heap_swap h i j) c ≡ age h (swapped i j c))
      × (region (heap_swap h i j) c ≡ region h (swapped i j c))
age-swap h i j c p q =
    let e = entry-swap h i j c p q in (ap (λ x. x.enqueued_ns) e, ap (λ x. x.region_id) e)

root_least_below : (k : ℕ) (h : List HeapEntry) (i : ℕ) → IsHeap h → i < k → i < length h → Le h 0 i
root_least_below zero h i v f p = absurd (omega arith)
root_least_below (suc k) h i v f p = ground (arith, v.edges i, root_least_below k h (parent i) v)

-- The root is due first.
pub root_least : (h : List HeapEntry) (i : ℕ) → IsHeap h → i < length h → Le h 0 i
root_least h i v p = root_least_below (suc i) h i v (omega arith) p
