-- ===== src/Dirty/Heap/Ends.antt =====
-- What a push and a pop leave: the order, and the entries.
use waydisplay.Prelude.{
  ◌==◌, if◌then◌else◌, ne_test, length, set, length-append, length-set, get_or-set_self,
  get_or-set_ne, length-take_of_le, get_or-append_lt, get_or-append_length, get_or-take, ℕ, ◌+◌,
  ◌-◌, ◌<◌, ◌≡◌, refl, sym, ap, ◌∙◌, ◌≢◌, ◌⊎◌, inl, inr, List, [], ◌∷◌, ◌++◌, arith,
}
use waydisplay.Dirty.Heap.{
  no_entry, entry, parent, sift_down, heap_push, without_last, heap_pop, HeapEntry,
}
use waydisplay.Dirty.Heap.Order.{Le, Le-entries, IsHeap}
use waydisplay.Dirty.Heap.Size.{length-sift_up, length-sift_down}
use waydisplay.Dirty.Heap.Holds.{Holds-sift_up, Holds-sift_down, Holds}
use waydisplay.Dirty.Heap.Up.{sift_up-IsHeap}
use waydisplay.Dirty.Heap.Down.{sift_down-IsHeap}

module _ (h : List HeapEntry) (new : HeapEntry) where
  grown : length (h ++ new ∷ []) ≡ length h + 1
  grown = length-append h (new ∷ [])

  old_entry : (i : ℕ) → i < length h → entry (h ++ new ∷ []) i ≡ entry h i
  old_entry i p = get_or-append_lt h (new ∷ []) i no_entry p

  new_entry : entry (h ++ new ∷ []) (length h) ≡ new
  new_entry = get_or-append_length h [] new no_entry

  old_edge : (c : ℕ) → IsHeap h → 0 < c → c < length h → Le (h ++ new ∷ []) (parent c) c
  old_edge c v p q =
      Le-entries h (h ++ new ∷ []) (parent c) c (old_entry (parent c) (omega arith)) (old_entry c q)
        (v.edges c p q)

  pub push-IsHeap : IsHeap h → IsHeap (heap_push h new)
  unfolding heap_push
  push-IsHeap v = sift_up-IsHeap (length h) (h ++ new ∷ []) (length h) (omega arith) (record {
    inside = omega (arith, grown);
    edges = λ c p q ne. old_edge c v p (omega (arith, grown));
    bridged = λ c p q e pos. absurd (omega (arith, grown));
  })

  pub length-push : length (heap_push h new) ≡ length h + 1
  unfolding heap_push
  length-push = length-sift_up (length h) (h ++ new ∷ []) (length h) ∙ grown

  pub push-Holds_new : Holds (heap_push h new) new
  unfolding heap_push
  push-Holds_new =
      Holds-sift_up (length h) (h ++ new ∷ []) (length h) new (omega (arith, grown))
        (record { index = length h; inside = omega (arith, grown); here = new_entry })

  pub push-Holds : {e : HeapEntry} → Holds h e → Holds (heap_push h new) e
  unfolding heap_push
  push-Holds {e} x =
      let p = x.inside in
      Holds-sift_up (length h) (h ++ new ∷ []) (length h) e (omega (arith, grown)) (record {
        index = x.index;
        inside = omega (arith, grown);
        here = old_entry x.index p ∙ x.here;
      })

module _ (h : List HeapEntry) where
  shrunk : length (without_last h) ≡ length h - 1
  shrunk = length-take_of_le (length h - 1) h (omega arith)

  kept : (i : ℕ) → i < length h - 1 → entry (without_last h) i ≡ entry h i
  kept i p = get_or-take (length h - 1) h i no_entry p

  -- The heap before the entry that was moved to the root sinks.
  moved : List HeapEntry
  moved = set (without_last h) 0 (entry h (length h - 1))

  length-moved : length moved ≡ length h - 1
  unfolding moved
  length-moved = length-set (without_last h) 0 (entry h (length h - 1)) ∙ shrunk

  moved-entry : (i : ℕ) → 0 < i → i < length h - 1 → entry moved i ≡ entry h i
  unfolding moved
  moved-entry i pos p =
      get_or-set_ne (without_last h) 0 i (entry h (length h - 1)) no_entry (omega arith) ∙ kept i p

  moved_root : 1 < length h → entry moved 0 ≡ entry h (length h - 1)
  unfolding moved
  moved_root p =
      get_or-set_self (without_last h) 0 (entry h (length h - 1)) no_entry (omega (arith, shrunk))

  pop_value : heap_pop h ≡ (
      if length h == 0
      then h
      else if (length h - 1) == 0
      then without_last h
      else sift_down (length h - 1) moved 0)
  unfolding heap_pop moved
  pop_value = rw shrunk refl

  pub length-pop : length (heap_pop h) ≡ length h - 1
  length-pop =
      let sink = length-sift_down (length h - 1) moved 0 in
      rw pop_value (ground (arith, shrunk, length-moved, sink))

  pub pop-IsHeap : IsHeap h → IsHeap (heap_pop h)
  pop-IsHeap v = elim (sizes (length h)) [
    | inl e ↦ rw (pop_value, ap (λ k. k == 0) e) v
    | inr (inl (ne, e)) ↦
        rw (pop_value, ne_test (length h) 0 ne, ap (λ k. k == 0) e)
          (record { edges = λ c p q. absurd (omega (arith, shrunk)) })
    | inr (inr more) ↦
        rw (pop_value, ne_test (length h) 0 (omega arith), ne_test (length h - 1) 0 (omega arith))
          (sift_down-IsHeap (length h - 1) moved 0 (omega (arith, length-moved))
            (omega (arith, length-moved))
            (record {
              edges = λ c p q ne.
                  let inside : c < length h - 1 = omega (arith, length-moved) in
                  Le-entries h moved (parent c) c
                    (moved-entry (parent c) (omega arith) (omega arith)) (moved-entry c p inside)
                    (v.edges c p (omega arith));
              bridged = λ c p q e pos. absurd (omega arith);
            }))
  ]
    where
      sizes : (n : ℕ) → (n ≡ 0) ⊎ (((n ≢ 0) × (n - 1 ≡ 0)) ⊎ (1 < n))
      sizes n = omega arith

  -- A pop loses no entry but the root.
  pub pop-Holds : {e : HeapEntry} → Holds h e → (entry h 0 ≡ e) ⊎ Holds (heap_pop h) e
  pop-Holds {e} x = elim (places x.index (length h) x.inside) [
    | inl root ↦ inl (ap (entry h) (sym root) ∙ x.here)
    | inr (pos, inr last) ↦ inr (
        rw (pop_value, ne_test (length h) 0 (omega arith), ne_test (length h - 1) 0 (omega arith))
          (Holds-sift_down (length h - 1) moved 0 e (omega (arith, length-moved)) (record {
            index = 0;
            inside = omega (arith, length-moved);
            here = moved_root (omega arith) ∙ ap (entry h) (sym last) ∙ x.here;
          })))
    | inr (pos, inl below) ↦ inr (
        rw (pop_value, ne_test (length h) 0 (omega arith), ne_test (length h - 1) 0 (omega arith))
          (Holds-sift_down (length h - 1) moved 0 e (omega (arith, length-moved)) (record {
            index = x.index;
            inside = omega (arith, length-moved);
            here = moved-entry x.index pos below ∙ x.here;
          })))
  ]
    where
      places : (i n : ℕ) → i < n → (i ≡ 0) ⊎ ((0 < i) × ((i < n - 1) ⊎ (i ≡ n - 1)))
      places i n p = omega arith
