-- ===== src/Dirty/Take.antt =====
-- A take removes the region that should go next.
use waydisplay.Prelude.{
  ◌==◌, if◌then◌else◌, Bool-cases, ne_test, set, u16_max, sub16, ℕ, ◌<◌, ◌≡◌, refl, sym, ap, ◌∙◌,
  subst, ◌≢◌, inl, inr, Bool, true, false, not, ◌||◌, Option, none, some, List, arith,
}
use waydisplay.Dirty.{age_of, heap_prune, scheduler_take, Scheduler}
use waydisplay.Dirty.Bits.{bit_clear}
use waydisplay.Dirty.Bits.Marks.{flag_at, flag_clear}
use waydisplay.Dirty.Valid.{IsValid}
use waydisplay.Dirty.Oldest.{oldest, IsQueuedBelow, oldest-IsQueuedBelow, oldest-none}
use waydisplay.Dirty.Prune.{prune-IsValid, prune-IsRooted}
use waydisplay.Dirty.Next.{
  next_behind, has_starved, chosen_by, chosen, id_or_max, next_queued, select_exact,
}
use waydisplay.Dirty.Change.{unqueue-IsValid}

abbrev pub without : List Bool → Option ℕ → List Bool
without queued none = queued
without queued (some i) = set queued i false

-- What is left by a take: the scheduler is well formed, `o` is the result, and no age changes.
pub record Takes (s s' : Scheduler) (o : Option ℕ) : Type 0 where
  pub well_formed : IsValid s'
  pub queued : s'.queued ≡ without s.queued o
  pub ages : s'.enqueued_ns ≡ s.enqueued_ns

-- The part of a take behind the selection.
abbrev removed : Scheduler → ℕ → Scheduler
removed s i = record s {
  queued = set s.queued i false;
  queued_bits = bit_clear s.queued_bits i;
  count = sub16 s.count 1;
}

chosen_flagged :
    (s : Scheduler) (cursor now_ns i : ℕ)
    → IsValid s
    → chosen s cursor now_ns ≡ some i
    → (i < s.capacity) × (flag_at s.queued i ≡ true)
chosen_flagged s cursor now_ns i v e =
    by_oldest (oldest s.queued s.enqueued_ns s.capacity)
      (oldest-IsQueuedBelow s.queued s.enqueued_ns s.capacity) e
  where
    by_oldest :
        (o : Option ℕ)
        → IsQueuedBelow s.queued s.capacity o
        → chosen_by s cursor now_ns o ≡ some i
        → (i < s.capacity) × (flag_at s.queued i ≡ true)
    by_oldest none q e = absurd (ground (arith, e))
    by_oldest (some j) q e = elim (Bool-cases (has_starved s (age_of s j) now_ns)) [
      | inl late ↦
          let same : some j ≡ some i =
            sym (ap (λ b. if b then some j else next_behind s cursor) late) ∙ e in
          subst (λ o. IsQueuedBelow s.queued s.capacity o) same q
      | inr soon ↦
          next_queued s cursor i v
            (sym (ap (λ b. if b then some j else next_behind s cursor) soon) ∙ e)
    ]

chosen-none :
    (s : Scheduler) (cursor now_ns : ℕ) → IsValid s → s.count ≡ 0 → chosen s cursor now_ns ≡ none
chosen-none s cursor now_ns v e =
    ap (chosen_by s cursor now_ns) (
      oldest-none s.queued s.enqueued_ns s.capacity
        (λ i. flag_clear s.queued i (sym v.counted ∙ e)))

module _ (s : Scheduler) (cursor now_ns : ℕ) (v : IsValid s) where
  -- The take by the number that is selected.
  taken : ℕ → Scheduler × Option ℕ
  taken selected =
      if s.count == 0
      then (s, none)
      else if (selected == u16_max) || not (flag_at s.queued selected)
      then (heap_prune s, none)
      else (removed (heap_prune s) selected, some selected)

  take_taken : scheduler_take s cursor now_ns ≡ taken (id_or_max (chosen s cursor now_ns))
  unfolding scheduler_take taken
  take_taken =
      ap taken (select_exact (heap_prune s) cursor now_ns (prune-IsValid s v) (prune-IsRooted s))

  taken_exact :
      (o : Option ℕ)
      → chosen s cursor now_ns ≡ o
      → ((taken (id_or_max o)).1 ≡ o) × Takes s (taken (id_or_max o)).0 o
  unfolding taken
  taken_exact none e = elim (Bool-cases (s.count == 0)) [
    | inl z ↦ rw z (refl, record { well_formed = v; queued = refl; ages = refl })
    | inr nz ↦ rw nz (refl, record { well_formed = prune-IsValid s v; queued = refl; ages = refl })
  ]
  taken_exact (some i) e =
      let found = chosen_flagged s cursor now_ns i v e in
      let cap_word = v.capacity_word in
      let inside = found.0 in
      let more : s.count ≢ 0 =
        λ z. absurd (ground (arith, sym e ∙ chosen-none s cursor now_ns v z)) in
      rw (ne_test s.count 0 more, ne_test i u16_max (omega arith), found.1)
        (
          refl,
          record {
            well_formed = unqueue-IsValid (heap_prune s) i (prune-IsValid s v) found.1;
            queued = refl;
            ages = refl;
          },
        )

  -- With any region queued the one that should go next leaves the queue and is the result: the one
  -- that waits longest, if that is long enough, or else the next one behind the cursor. With none
  -- queued there is no result.
  pub take_exact :
      ((scheduler_take s cursor now_ns).1 ≡ chosen s cursor now_ns)
      × Takes s (scheduler_take s cursor now_ns).0 (chosen s cursor now_ns)
  take_exact = rw take_taken (taken_exact (chosen s cursor now_ns) refl)
