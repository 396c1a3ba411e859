-- ===== src/Dirty/Next.antt =====
-- The region that a take selects.
use native.Mathlib.Nat.{mod-lt}
use waydisplay.Prelude.{
  leb, ◌==◌, ◌/=◌, if◌then◌else◌, Bool-cases, Option-cases, eq_ne_test, ne_zero_ne, ne_test, length,
  get_or, u16_max, u16, IsU16, ℕ, ◌+◌, ◌-◌, ◌%◌, ◌<◌, ◌≡◌, refl, sym, ap, ap₂, ◌∙◌, ◌≢◌, ◌⊎◌, inl,
  inr, Bool, true, false, ◌&&◌, Option, none, some, arith,
}
use waydisplay.Dirty.{age_of, find_next_queued, select_region, Scheduler}
use waydisplay.Dirty.Heap.Order.{age, region, root_least}
use waydisplay.Dirty.Bits.{first}
use waydisplay.Dirty.Bits.First.{or_else, first_none, first_some}
use waydisplay.Dirty.Bits.Search.{find_pass_exact}
use waydisplay.Dirty.Bits.Marks.{flag_at, flag_clear, flag_inside}
use waydisplay.Dirty.Valid.{IsValid}
use waydisplay.Dirty.Oldest.{oldest, oldest_unique, oldest-none}
use waydisplay.Dirty.Prune.{IsRooted}

-- The next queued region behind the cursor, in a turn that ends at the cursor.
abbrev pub next_behind : Scheduler → ℕ → Option ℕ
next_behind s cursor =
    let start = (cursor + 1) % s.capacity in
    or_else (first (flag_at s.queued) (s.capacity - start) start) (first (flag_at s.queued) start 0)

abbrev pub has_starved : Scheduler → ℕ → ℕ → Bool
has_starved s waiting_since now_ns =
    (s.starvation_ns /= 0)
    && leb waiting_since now_ns
    && leb s.starvation_ns (now_ns - waiting_since)

abbrev pub chosen_by : Scheduler → ℕ → ℕ → Option ℕ → Option ℕ
chosen_by s cursor now_ns none = none
chosen_by s cursor now_ns (some i) =
    if has_starved s (age_of s i) now_ns then some i else next_behind s cursor

-- The region that should go next: the oldest if it has starved, else the next behind the cursor.
abbrev pub chosen : Scheduler → ℕ → ℕ → Option ℕ
chosen s cursor now_ns = chosen_by s cursor now_ns (oldest s.queued s.enqueued_ns s.capacity)

-- How the source writes a region's number or its absence.
abbrev pub id_or_max : Option ℕ → ℕ
id_or_max none = u16_max
id_or_max (some i) = i

pub next_clear :
    (s : Scheduler) (cursor : ℕ)
    → ((i : ℕ) → flag_at s.queued i ≡ false)
    → next_behind s cursor ≡ none
next_clear s cursor clear =
    let start = (cursor + 1) % s.capacity in
    rw
      (
        first_none (flag_at s.queued) (s.capacity - start) start (λ k l m. clear k),
        first_none (flag_at s.queued) start 0 (λ k l m. clear k),
      )
      refl

pub next_queued :
    (s : Scheduler) (cursor i : ℕ)
    → IsValid s
    → next_behind s cursor ≡ some i
    → (i < s.capacity) × (flag_at s.queued i ≡ true)
next_queued s cursor i v e =
    let flagged : flag_at s.queued i ≡ true =
      elim (Option-cases (first (flag_at s.queued) (s.capacity - start) start)) [
        | inl ahead ↦
            (first_some (flag_at s.queued) start 0 i
              (ap (λ o. or_else o (first (flag_at s.queued) start 0)) (sym ahead) ∙ e)).1.1
        | inr (j, ahead) ↦
            (first_some (flag_at s.queued) (s.capacity - start) start i
              (ahead ∙ ap (λ o. or_else o (first (flag_at s.queued) start 0)) (sym ahead) ∙ e)).1.1
      ] in
    (omega (arith, flag_inside s.queued i flagged, v.queued_length), flagged)
  where
    start : ℕ
    start = (cursor + 1) % s.capacity

-- What the source returns by the two passes.
two_passes : (o o' : Option ℕ) → ℕ
two_passes o o' = elim o [ some id ↦ u16 id | none ↦ elim o' [ some id ↦ u16 id | none ↦ u16_max ] ]

IsShort : Option ℕ → Type 0
IsShort o = (i : ℕ) → o ≡ some i → IsU16 i

two_passes_exact :
    (o o' : Option ℕ) → IsShort o → IsShort o' → two_passes o o' ≡ id_or_max (or_else o o')
unfolding two_passes IsShort
two_passes_exact none none p q = refl
two_passes_exact none (some i) p q = let w = q i refl in omega arith
two_passes_exact (some i) o' p q = let w = p i refl in omega arith

find_next_exact :
    (s : Scheduler) (cursor : ℕ)
    → IsValid s
    → find_next_queued s cursor ≡ id_or_max (next_behind s cursor)
unfolding find_next_queued two_passes IsShort
find_next_exact s cursor v = elim (sizes s.count) [
  | inl e ↦
      rw (ap (λ n. n == 0) e)
        (ap id_or_max (sym (next_clear s cursor (λ i. flag_clear s.queued i (sym v.counted ∙ e)))))
  | inr ne ↦
      let below : start < s.capacity = mod-lt (cursor + 1) v.capacity_pos in
      let all : start - 0 ≡ start = omega arith in
      rw (ne_test s.count 0 ne) (
        ap₂ two_passes
          (find_pass_exact s.queued_bits s.capacity start s.capacity (flag_at s.queued)
            (omega arith) v.bits)
          (find_pass_exact s.queued_bits s.capacity 0 start (flag_at s.queued) (omega arith) v.bits
            ∙ ap (λ n. first (flag_at s.queued) n 0) all)
        ∙ two_passes_exact (first (flag_at s.queued) (s.capacity - start) start)
            (first (flag_at s.queued) start 0) (short (s.capacity - start) start) (short start 0))
]
  where
    start : ℕ
    start = (cursor + 1) % s.capacity

    sizes : (n : ℕ) → (n ≡ 0) ⊎ (n ≢ 0)
    sizes n = omega arith

    short : (n i : ℕ) → IsShort (first (flag_at s.queued) n i)
    short n i r e =
        let f = first_some (flag_at s.queued) n i r e in
        let w = v.capacity_word in omega (arith, flag_inside s.queued r f.1.1, v.queued_length)

-- The root of a heap that is rooted is the oldest region.
root_oldest :
    (s : Scheduler)
    → IsValid s
    → IsRooted s
    → oldest s.queued s.enqueued_ns s.capacity ≡ some (region s.heap 0)
root_oldest s v root =
    oldest_unique s.queued s.enqueued_ns s.capacity (region s.heap 0) root.inside root.flagged
      (λ j p f.
        let x = v.entered j f in
        let inside = x.inside in
        let least = root_least s.heap x.index v.ordered inside in
        let a : age s.heap x.index ≡ get_or s.enqueued_ns j 0 = ap (λ e. e.enqueued_ns) x.here in
        let r : region s.heap x.index ≡ j = ap (λ e. e.region_id) x.here in
        let same = root.same_age in ground arith)

-- With an empty heap no region is queued.
pub empty_clear :
    (s : Scheduler) (i : ℕ) → IsValid s → length s.heap ≡ 0 → flag_at s.queued i ≡ false
empty_clear s i v empty = elim (Bool-cases (flag_at s.queued i)) [
  | inl f ↦ let p = (v.entered i f).inside in absurd (omega arith)
  | inr f ↦ f
]

pub select_exact :
    (s : Scheduler) (cursor now_ns : ℕ)
    → IsValid s
    → (length s.heap ≡ 0) ⊎ IsRooted s
    → select_region s cursor now_ns ≡ id_or_max (chosen s cursor now_ns)
unfolding select_region
select_exact s cursor now_ns v (inl empty) =
    let clear : (i : ℕ) → flag_at s.queued i ≡ false = λ i. empty_clear s i v empty in
    rw (eq_ne_test (length s.heap) 0 empty) (
      find_next_exact s cursor v
      ∙ ap id_or_max (next_clear s cursor clear)
      ∙ ap (λ o. id_or_max (chosen_by s cursor now_ns o))
          (sym (oldest-none s.queued s.enqueued_ns s.capacity clear)))
select_exact s cursor now_ns v (inr root) =
    let inside = (v.entered (region s.heap 0) root.flagged).inside in
    let low = root.inside in
    let cap_word = v.capacity_word in
    let decided : (b : Bool)
        → has_starved s (age s.heap 0) now_ns ≡ b
        → id_or_max (chosen s cursor now_ns)
          ≡ id_or_max (if b then some (region s.heap 0) else next_behind s cursor) =
      λ b e.
        ap (λ o. id_or_max (chosen_by s cursor now_ns o)) (root_oldest s v root)
        ∙ ap (λ a. id_or_max (by_wait (has_starved s a now_ns))) root.same_age
        ∙ ap (λ c. id_or_max (by_wait c)) e in
    rw (ne_zero_ne (length s.heap) (omega arith))
      (elim (Bool-cases (has_starved s (age s.heap 0) now_ns)) [
        | inl late ↦
            rw (late, ne_test (region s.heap 0) u16_max (omega arith)) (sym (decided true late))
        | inr soon ↦ rw soon (find_next_exact s cursor v ∙ sym (decided false soon))
      ])
  where
    by_wait : Bool → Option ℕ
    by_wait b = if b then some (region s.heap 0) else next_behind s cursor
