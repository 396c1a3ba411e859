-- ===== src/Tile/Choice/Nearest.antt =====
-- Which region is chosen.
use mathlib.Core.List.{append_assoc, append-nil}
use waydisplay.Prelude.{
  ltb, ◌==◌, ◌/=◌, ltb→le, Bool-cases, ne_zero_test, length, get_or, All, length-append,
  get_or-append_lt, get_or-append_length, ℕ, zero, suc, ◌+◌, ◌≤◌, ◌<◌, ◌≡◌, refl, sym, ap, ◌∙◌,
  subst, ◌≢◌, ◌⊎◌, inl, inr, Bool, true, false, ◌&&◌, ◌||◌, some, List, [], ◌∷◌, ◌++◌, arith,
}
use waydisplay.Tile.Choice.{
  region_distance, queued_ns, scan_from, oldest_step, nearest_step, is_starved, oldest_region,
  nearest_region, select_local_region_index, Choice,
}

All-append_one : (P : ℕ → Type 0) (l : List ℕ) (x : ℕ) → All P l → P x → All P (l ++ x ∷ [])
All-append_one P [] x all p = (p, tt)
All-append_one P (y ∷ l) x (q, all) p = (q, All-append_one P l x all p)

All-weaken : (P Q : ℕ → Type 0) (l : List ℕ) → ((x : ℕ) → P x → Q x) → All P l → All Q l
All-weaken P Q [] f all = tt
All-weaken P Q (y ∷ l) f (p, all) = (f y p, All-weaken P Q l f all)

-- What a loop on the regions keeps: the number belongs to the region of the index, and is at least
-- as good as that of each region met.
module _ (value : ℕ → ℕ) (Good : ℕ → ℕ → Type 0) where
  abbrev Best : List ℕ → ℕ × ℕ → Type 0
  Best met st =
      (st.0 < length met)
      × (st.1 ≡ value (get_or met st.0 0))
      × All (λ id. Good st.1 (value id)) met

  scan_from-Best :
      (step : ℕ → ℕ → ℕ × ℕ → ℕ × ℕ)
      → ((met : List ℕ) (id : ℕ) (st : ℕ × ℕ)
          → Best met st
          → Best (met ++ id ∷ []) (step id (length met) st))
      → (met rest : List ℕ) (st : ℕ × ℕ) → Best met st
      → Best (met ++ rest) (scan_from step rest (length met) st)
  scan_from-Best step keeps met [] st b = rw (append-nil met) b
  scan_from-Best step keeps met (id ∷ rest) st b =
      let next =
        scan_from-Best step keeps (met ++ id ∷ []) rest (step id (length met) st)
          (keeps met id st b) in
      let len : length (met ++ id ∷ []) ≡ length met + 1 = length-append met (id ∷ []) in
      rw (len, append_assoc met (id ∷ []) rest) at next

  -- The region becomes the best one.
  taken :
      (met : List ℕ) (id v : ℕ) (st : ℕ × ℕ)
      → Best met st
      → v ≡ value id
      → ((y : ℕ) → Good st.1 y → Good v y)
      → Good v (value id)
      → Best (met ++ id ∷ []) (length met, v)
  taken met id v st (lt, e, all) is_value better self = (
    omega (arith, length-append met (id ∷ [])),
    is_value ∙ sym (ap value (get_or-append_length met [] id 0)),
    All-append_one (λ x. Good v (value x)) met id
        (All-weaken (λ x. Good st.1 (value x)) (λ x. Good v (value x)) met
          (λ x g. better (value x) g) all)
        self,
  )

  stays :
      (met : List ℕ) (id : ℕ) (st : ℕ × ℕ)
      → Best met st
      → Good st.1 (value id)
      → Best (met ++ id ∷ []) st
  stays met id st (lt, e, all) good = (
    omega (arith, lt, length-append met (id ∷ [])),
    e ∙ sym (ap value (get_or-append_lt met (id ∷ []) st.0 0 lt)),
    All-append_one (λ x. Good st.1 (value x)) met id all good,
  )

-- A time is 0 where it is not known.
abbrev pub NoLater : ℕ → ℕ → Type 0
NoLater a b = (b ≡ 0) ⊎ ((a ≢ 0) × (a ≤ b))

earlier : (q ns y : ℕ) → (q /= 0 && (ns == 0 || ltb q ns)) ≡ true → NoLater ns y → NoLater q y
earlier q ns y test (inl z) = inl z
earlier q ns y test (inr (known, le)) =
    inr (λ z. ground (arith, test, z), ground (arith, test, known, le))

not_earlier : (q ns : ℕ) → (q /= 0 && (ns == 0 || ltb q ns)) ≡ false → NoLater ns q
not_earlier q ns test = elim (Bool-cases (q == 0)) [
  | inl unknown ↦ inl (ground (arith, unknown))
  | inr known ↦ inr (λ z. ground (arith, test, known, z), ground (arith, test, known))
]

known_or_not : (n : ℕ) → NoLater n n
known_or_not zero = inl refl
known_or_not (suc n) = inr (λ z. omega (arith, z), omega arith)

closer : (d bd y : ℕ) → ltb d bd ≡ true → bd ≤ y → d ≤ y
closer d bd y test le = ground (arith, test, le)

same_distance : (d bd : ℕ) (prefer : Bool) → (d == bd && prefer) ≡ true → bd ≡ d
same_distance d bd prefer test = ground (arith, test)

module _ (c : Choice) where
  abbrev far : ℕ → ℕ
  far id = region_distance id c.cursor_region_id c.regions_x

  oldest_step-Best :
      (met : List ℕ) (id : ℕ) (st : ℕ × ℕ)
      → Best (queued_ns c) NoLater met st
      → Best (queued_ns c) NoLater (met ++ id ∷ []) (oldest_step c id (length met) st)
  unfolding oldest_step
  oldest_step-Best met id (k, ns) b =
      let q = queued_ns c id in
      elim (Bool-cases (q /= 0 && (ns == 0 || ltb q ns))) [
        | inl older ↦ rw older (
            taken (queued_ns c) NoLater met id q (k, ns) b refl (λ y g. earlier q ns y older g)
              (inr (λ z. ground (arith, older, z), omega arith)))
        | inr later ↦
            rw later (stays (queued_ns c) NoLater met id (k, ns) b (not_earlier q ns later))
      ]

  nearest_step-Best :
      (ids met : List ℕ) (id : ℕ) (st : ℕ × ℕ)
      → Best far (λ a b. a ≤ b) met st
      → Best far (λ a b. a ≤ b) (met ++ id ∷ []) (nearest_step c ids id (length met) st)
  unfolding nearest_step
  nearest_step-Best ids met id (k, bd) b =
      let q = queued_ns c id in
      let best = queued_ns c (get_or ids k 0) in
      let prefer =
        (q /= 0 && (best == 0 || ltb q best)) || (q == best && ltb id (get_or ids k 0)) in
      elim (Bool-cases (ltb (far id) bd)) [
        | inl nearer ↦ rw nearer (
            taken far (λ a b. a ≤ b) met id (far id) (k, bd) b refl
              (λ y g. closer (far id) bd y nearer g) (omega arith))
        | inr not_nearer ↦ elim (Bool-cases (far id == bd && prefer)) [
          | inl tie ↦
              rw (not_nearer, tie)
                (taken far (λ a b. a ≤ b) met id bd (k, bd) b (same_distance (far id) bd prefer tie)
                  (λ y g. g) (ltb→le (far id) bd not_nearer))
          | inr behind ↦
              rw (not_nearer, behind)
                (stays far (λ a b. a ≤ b) met id (k, bd) b (ltb→le (far id) bd not_nearer))
        ]
      ]

  -- If the earliest time is not too long ago, no other one is.
  none_starved : (ns y : ℕ) → is_starved c ns ≡ false → NoLater ns y → is_starved c y ≡ false
  unfolding is_starved
  none_starved ns y patient (inl z) = ground (arith, z)
  none_starved ns y patient (inr (known, le)) = ground (arith, patient, known, le)

  -- For a grid with columns and a list with a region: the index that
  -- wd_tile_select_local_region_index returns lies in the list. Either the region queued the
  -- longest has waited for the longest time allowed, and the index is that of a region with a known
  -- time, no other known time of the list being earlier; or no region of the list has waited for so
  -- long, and none is nearer to the cursor than that of the index.
  pub choice_exact :
      (first : ℕ) (rest : List ℕ)
      → c.regions_x ≢ 0
      → (i : ℕ) × (select_local_region_index c (first ∷ rest) ≡ some i)
        × (i < length (first ∷ rest))
        × (((is_starved c (queued_ns c (get_or (first ∷ rest) i 0)) ≡ true)
              × All
                  (λ id. NoLater (queued_ns c (get_or (first ∷ rest) i 0)) (queued_ns c id))
                  (first ∷ rest))
            ⊎ (All (λ id. is_starved c (queued_ns c id) ≡ false) (first ∷ rest)
                × All (λ id. far (get_or (first ∷ rest) i 0) ≤ far id) (first ∷ rest)))
  unfolding select_local_region_index oldest_region nearest_region
  choice_exact first rest columns =
      let q = queued_ns c in
      let start = scan_from (oldest_step c) rest 1 (0, q first) in
      let near = scan_from (nearest_step c (first ∷ rest)) rest 1 (0, far first) in
      let (lt, e, all) =
        scan_from-Best q NoLater (oldest_step c) oldest_step-Best (first ∷ []) rest (0, q first)
          (omega arith, refl, (known_or_not (q first), tt)) in
      let (lt', e', all') =
        scan_from-Best far (λ a b. a ≤ b) (nearest_step c (first ∷ rest))
          (nearest_step-Best (first ∷ rest)) (first ∷ []) rest (0, far first)
          (omega arith, refl, (omega arith, tt)) in
      elim (Bool-cases (is_starved c start.1)) [
        | inl starved ↦ (
          start.0,
          rw (ne_zero_test c.regions_x columns, starved) refl,
          lt,
          inl (
            subst (λ n. is_starved c n ≡ true) e starved,
            subst (λ n. All (λ id. NoLater n (q id)) (first ∷ rest)) e all,
          ),
        )
        | inr patient ↦ (
          near.0,
          rw (ne_zero_test c.regions_x columns, patient) refl,
          lt',
          inr (
            All-weaken (λ id. NoLater start.1 (q id)) (λ id. is_starved c (q id) ≡ false)
                (first ∷ rest) (λ id g. none_starved start.1 (q id) patient g) all,
            subst (λ n. All (λ id. n ≤ far id) (first ∷ rest)) e' all',
          ),
        )
      ]
