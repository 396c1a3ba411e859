-- ===== src/Dirty/Forget.antt =====
-- What a region loses that is forgotten, and the schedulers with nothing queued.
use waydisplay.Prelude.{
  ◌/=◌, if◌then◌else◌, le→leb, lt→leb, Bool-cases, length, set, replicate, length-replicate,
  get_or-set_self, set_same, set_of_le, get_or-replicate, u32, sub16, IsU16, ℕ, ◌+◌, ◌-◌, ◌/◌, ◌%◌,
  ◌≤◌, ◌<◌, ◌≡◌, refl, sym, ap, ◌∙◌, subst, ◌⊎◌, inl, inr, true, false, [], arith,
}
use waydisplay.Dirty.{serial_of, scheduler_reset, scheduler_forget, Scheduler}
use waydisplay.Dirty.Bits.{no_bits, bit_clear}
use waydisplay.Dirty.Bits.Marks.{
  flag_at, set_flags_le, set_flags-set-false, set_flags-replicate, flag_inside,
}
use waydisplay.Dirty.Valid.{IsValid}
use waydisplay.Dirty.Change.{unqueue-IsValid, reage-IsValid}

pub record Forgets (s s' : Scheduler) (i : ℕ) : Type 0 where
  pub well_formed : IsValid s'
  pub queued : s'.queued ≡ set s.queued i false
  pub ages : s'.enqueued_ns ≡ set s.enqueued_ns i 0

-- A scheduler that has lost a queued region and its age, with a count.
abbrev dropped : Scheduler → ℕ → ℕ → Scheduler
dropped s i count = record s {
  queued = set s.queued i false;
  queued_bits = bit_clear s.queued_bits i;
  count = count;
  enqueued_ns = set s.enqueued_ns i 0;
  serial = set s.serial i (u32 (serial_of s i + 1));
}

dropped-IsValid :
    (s : Scheduler) (i : ℕ)
    → IsValid s
    → flag_at s.queued i ≡ true
    → IsValid (dropped s i (if s.count /= 0 then s.count - 1 else s.count))
dropped-IsValid s i v f =
    let clear = get_or-set_self s.queued i false false (flag_inside s.queued i f) in
    let cap_word = v.capacity_word in
    let bound = set_flags_le s.queued in
    let fewer = set_flags-set-false s.queued i f in
    let size = v.queued_length in
    let counted = v.counted in
    subst (λ c. IsValid (dropped s i c)) (down s.count (omega arith) (omega arith))
      (reage-IsValid
        (record s {
          queued = set s.queued i false;
          queued_bits = bit_clear s.queued_bits i;
          count = sub16 s.count 1;
        })
        i 0 (u32 (serial_of s i + 1)) (unqueue-IsValid s i v f) clear)
  where
    down : (c : ℕ) → 0 < c → IsU16 c → sub16 c 1 ≡ (if c /= 0 then c - 1 else c)
    down c pos w = ground arith

module _ (s : Scheduler) (i : ℕ) (v : IsValid s) where
  -- A forgotten region is not queued and has no age; the others keep theirs, and a number past the
  -- capacity changes nothing.
  pub forget_exact : Forgets s (scheduler_forget s i) i
  unfolding scheduler_forget
  forget_exact = elim (places i s.capacity) [
    | inl past ↦
        let out : length s.queued ≤ i = omega (arith, v.queued_length) in
        let out' : length s.enqueued_ns ≤ i = omega (arith, v.ages_length) in
        rw (le→leb s.capacity i past) (record {
          well_formed = v;
          queued = sym (set_of_le s.queued i false out);
          ages = sym (set_of_le s.enqueued_ns i 0 out');
        })
    | inr inside ↦ elim (Bool-cases (flag_at s.queued i)) [
      | inl f ↦
          rw (lt→leb s.capacity i inside, f)
            (record { well_formed = dropped-IsValid s i v f; queued = refl; ages = refl })
      | inr f ↦
          rw (lt→leb s.capacity i inside, f)
            (record {
              well_formed = reage-IsValid s i 0 (u32 (serial_of s i + 1)) v f;
              queued = sym (subst (λ b. set s.queued i b ≡ s.queued) f (set_same s.queued i false));
              ages = refl;
            })
    ]
  ]
    where
      places : (i n : ℕ) → (n ≤ i) ⊎ (i < n)
      places i n = omega arith

-- A scheduler with all flags clear and an empty heap.
clear-IsValid :
    (s : Scheduler)
    → 0 < s.capacity
    → IsU16 s.capacity
    → s.bit_word_count ≡ (s.capacity + 63) / 64
    → length s.serial ≡ s.capacity
    → IsValid (record s {
      queued = replicate s.capacity false;
      enqueued_ns = replicate s.capacity 0;
      queued_bits = replicate s.bit_word_count no_bits;
      count = 0;
      heap = [];
    })
clear-IsValid s pos word words serials =
    let clear : (i : ℕ) → flag_at (replicate s.capacity false) i ≡ false =
      λ i. get_or-replicate s.capacity i false in
    record {
      capacity_pos = pos;
      capacity_word = word;
      queued_length = length-replicate s.capacity false;
      ages_length = length-replicate s.capacity 0;
      serials_length = serials;
      word_count = words;
      words_length = length-replicate s.bit_word_count no_bits;
      bits = λ i.
          ap (λ w. w (i % 64)) (get_or-replicate s.bit_word_count (i / 64) no_bits) ∙ sym (clear i);
      counted = sym (set_flags-replicate s.capacity);
      aged = λ i f. absurd (ground (arith, f, clear i));
      ordered = record { edges = λ c p q. absurd (omega arith) };
      entered = λ i f. absurd (ground (arith, f, clear i));
      heap_fits = omega arith;
    }

pub reset-IsValid : (s : Scheduler) → IsValid s → IsValid (scheduler_reset s)
unfolding scheduler_reset
reset-IsValid s v = clear-IsValid s v.capacity_pos v.capacity_word v.word_count v.serials_length

-- The scheduler that is made when every allocation succeeds.
abbrev pub fresh : ℕ → ℕ → ℕ → Scheduler
fresh capacity regions_x starvation_ns = record {
  capacity = capacity;
  regions_x = regions_x;
  count = 0;
  starvation_ns = starvation_ns;
  queued = replicate capacity false;
  enqueued_ns = replicate capacity 0;
  serial = replicate capacity 0;
  queued_bits = replicate ((capacity + 63) / 64) no_bits;
  bit_word_count = (capacity + 63) / 64;
  heap = [];
  heap_capacity = 0;
}

pub fresh-IsValid :
    (capacity regions_x starvation_ns : ℕ)
    → 0 < capacity
    → IsU16 capacity
    → IsValid (fresh capacity regions_x starvation_ns)
fresh-IsValid capacity regions_x starvation_ns pos word =
    clear-IsValid (fresh capacity regions_x starvation_ns) pos word refl
      (length-replicate capacity 0)
