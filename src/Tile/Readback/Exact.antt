-- ===== src/Tile/Readback/Exact.antt =====
-- What wd_readback_plan_regions returns: every damaged pixel is read back, and none outside of the
-- framebuffer.
use waydisplay.Prelude.{
  ltb, ◌==◌, ltb→lt, Bool-cases, and_true, eq_test, ne_test, first_or_later, length, All, sub32, ℕ,
  ◌≤◌, ◌<◌, ◌≡◌, refl, sym, ap, ◌∙◌, subst, ◌⊎◌, inl, inr, Bool, true, false, not, ◌&&◌, ◌||◌, some,
  List, [], ◌∷◌, arith,
}
use waydisplay.Tile.Readback.{
  int_max, int_lt, row_count, full_region, is_full, finish_scan, plan_damage, plan_regions, Region,
  Request,
}
use waydisplay.Tile.Readback.Regions.{bit, inside, covering, Fine, Fits}
use waydisplay.Tile.Readback.Runs.{sub32_value}
use waydisplay.Tile.Readback.Covers.{pixel_damaged, Covered}
use waydisplay.Tile.Readback.Loops.{scanned, seen_all, scanned-Covered}

-- The pixel lies in the framebuffer.
abbrev pub in_frame : Request → ℕ → ℕ → Bool
in_frame q px py = ltb px q.max_width && ltb py q.max_height

-- What a plan is for the damage.
pub record ReadsDamage (q : Request) (damage : List Bool) (plan : List Region × Bool) : Type 0 where
  pub some_region : 0 < length plan.0
  pub room : length plan.0 ≤ q.region_capacity
  pub fine : All (Fine q) plan.0
  pub reads_damage :
      (px py : ℕ) → bit (in_frame q px py && pixel_damaged q damage px py) ≤ covering plan.0 px py
  pub reads_once :
      (length plan.0 ≡ 1)
      ⊎ ((px py : ℕ)
          → covering plan.0 px py ≡ bit (in_frame q px py && pixel_damaged q damage px py))
  pub full_flag : (plan.1 ≡ false) ⊎ (plan.0 ≡ full_region q ∷ [])

record Serves (q : Request) (damage : List Bool) (plan : List Region × Bool) : Type 0 where
  pub some_region : 0 < length plan.0
  pub room : length plan.0 ≤ q.region_capacity
  pub fine : All (Fine q) plan.0
  pub reads_damage :
      (px py : ℕ)
      → px < q.max_width
      → py < q.max_height
      → pixel_damaged q damage px py ≡ true
      → 0 < covering plan.0 px py
  pub reads_once :
      (px py : ℕ)
      → px < q.max_width
      → py < q.max_height
      → 2 ≤ length plan.0
      → covering plan.0 px py ≡ bit (pixel_damaged q damage px py)
  pub full_flag : plan.1 ≡ true → plan.0 ≡ full_region q ∷ []

between :
    (x1 y1 x2 y2 px py : ℕ)
    → x2 ≤ int_max
    → y2 ≤ int_max
    → (x1 ≤ px) × (px < x2) × (y1 ≤ py) × (py < y2)
    → inside (record { x = x1; y = y1; width = sub32 x2 x1; height = sub32 y2 y1 }) px py ≡ true
between x1 y1 x2 y2 px py fx fy (a, b, c, d) = ground (arith, fx, fy, a, b, c, d)

outside_none :
    (q : Request) (regions : List Region) (px py : ℕ)
    → All (Fine q) regions
    → in_frame q px py ≡ false
    → covering regions px py ≡ 0
unfolding covering
outside_none q [] px py all out = refl
outside_none q (r ∷ rest) px py (fine, all) out =
    let none_here : inside r px py ≡ false = ground (arith, fine, out) in
    omega (arith, ap bit none_here, outside_none q rest px py all out)

Serves-ReadsDamage :
    (q : Request) (damage : List Bool) (plan : List Region × Bool)
    → Serves q damage plan
    → ReadsDamage q damage plan
Serves-ReadsDamage q damage plan p = record {
  some_region = p.some_region;
  room = p.room;
  fine = p.fine;
  reads_damage = λ px py. elim (Bool-cases (in_frame q px py && pixel_damaged q damage px py)) [
    | inl hit ↦
        let (frame, damaged) = and_true (in_frame q px py) (pixel_damaged q damage px py) hit in
        let (x, y) = and_true (ltb px q.max_width) (ltb py q.max_height) frame in
        let some_one = p.reads_damage px py (ltb→lt _ _ x) (ltb→lt _ _ y) damaged in rw hit some_one
    | inr miss ↦ rw miss (omega arith)
  ];
  reads_once = elim (first_or_later 1 (length plan.0) p.some_region) [
    | inl one ↦ inl (sym one)
    | inr several ↦ inr (λ px py. elim (Bool-cases (in_frame q px py)) [
      | inl frame ↦
          let (x, y) = and_true (ltb px q.max_width) (ltb py q.max_height) frame in
          rw frame (p.reads_once px py (ltb→lt _ _ x) (ltb→lt _ _ y) several)
      | inr out ↦ rw out (outside_none q plan.0 px py p.fine out)
    ])
  ];
  full_flag = elim (Bool-cases plan.1) [ inl full ↦ inr (p.full_flag full) | inr part ↦ inl part ];
}

module _ (q : Request) (fits : Fits q) (damage : List Bool) (pos : 0 < q.region_capacity) where
  open fits use {max_width_pos, max_height_pos, max_width_fits, max_height_fits}

  -- One rectangle that holds all damaged pixels is a plan.
  one-Serves :
      (r : Region) (full : Bool)
      → Fine q r
      → ((px py : ℕ)
          → px < q.max_width
          → py < q.max_height
          → pixel_damaged q damage px py ≡ true
          → inside r px py ≡ true)
      → (full ≡ true → r ∷ [] ≡ full_region q ∷ [])
      → Serves q damage (r ∷ [], full)
  unfolding covering
  one-Serves r full fine holds flag = record {
    some_region = omega arith;
    room = pos;
    fine = (fine, tt);
    reads_damage = λ px py lx ly hit. rw (holds px py lx ly hit) (omega arith);
    reads_once = λ px py lx ly two. absurd (omega arith);
    full_flag = flag;
  }

  full-Serves : Serves q damage (full_region q ∷ [], true)
  full-Serves =
      one-Serves (full_region q) true (max_width_pos, max_height_pos, omega arith, omega arith)
        (λ px py lx ly hit. ground (arith, lx, ly)) (λ e. refl)

  parts :
      (r : Region)
      → is_full q (r ∷ []) ≡ true
      → (r.x ≡ 0) × (r.y ≡ 0) × (r.width ≡ q.max_width) × (r.height ≡ q.max_height)
  parts r e = ground (arith, e)

  is_full_lem : (regions : List Region) → is_full q regions ≡ true → regions ≡ full_region q ∷ []
  is_full_lem [] e = ground (arith, e)
  is_full_lem (r ∷ []) e = let (a, b, c, d) = parts r e in rw (a, b, c, d) refl
  is_full_lem (_ ∷ _ ∷ _) e = ground (arith, e)

  abbrev bounding : Region
  bounding =
      let s = scanned q damage in
      record {
        x = s.bound_x1;
        y = s.bound_y1;
        width = sub32 s.bound_x2 s.bound_x1;
        height = sub32 s.bound_y2 s.bound_y1;
      }

  module _
      (c : (px py : ℕ)
        → px < q.max_width
        → py < q.max_height
        → Covered q damage px py (row_count q) 0 (scanned q damage)) where
    abbrev InBox : Type 0
    InBox =
        let s = scanned q damage in
        (0 < length s.regions)
        × (s.bound_x1 < s.bound_x2)
        × (s.bound_y1 < s.bound_y2)
        × (s.bound_x2 ≤ q.max_width)
        × (s.bound_y2 ≤ q.max_height)

    bounding-Serves : InBox → Serves q damage (bounding ∷ [], is_full q (bounding ∷ []))
    bounding-Serves (some_region, bx, by, bw, bh) =
        let s = scanned q damage in
        let w = sub32_value s.bound_x2 s.bound_x1 (omega arith) (omega arith) in
        let h = sub32_value s.bound_y2 s.bound_y1 (omega arith) (omega arith) in
        one-Serves bounding (is_full q (bounding ∷ []))
          (omega arith, omega arith, omega arith, omega arith)
          (λ px py lx ly hit.
            between _ _ _ _ px py (omega arith) (omega arith)
              ((c px py lx ly).within (seen_all q fits damage px py lx ly pos ∙ hit)))
          (is_full_lem (bounding ∷ []))

    regions-Serves :
        InBox
        → (scanned q damage).overflowed ≡ false
        → Serves q damage ((scanned q damage).regions, is_full q (scanned q damage).regions)
    regions-Serves box kept =
        let first = c 0 0 max_width_pos max_height_pos in
        let exact : (px py : ℕ)
            → px < q.max_width
            → py < q.max_height
            → covering (scanned q damage).regions px py ≡ bit (pixel_damaged q damage px py) =
          λ px py lx ly.
            (c px py lx ly).exact kept ∙ ap bit (seen_all q fits damage px py lx ly pos) in
        record {
          some_region = box.0;
          room = first.room;
          fine = first.fine;
          reads_damage = λ px py lx ly hit. omega (arith, exact px py lx ly, ap bit hit);
          reads_once = λ px py lx ly two. exact px py lx ly;
          full_flag = is_full_lem (scanned q damage).regions;
        }

  scan-Serves : Serves q damage (finish_scan q (scanned q damage))
  unfolding finish_scan
  scan-Serves =
      let s = scanned q damage in
      let c : (px py : ℕ)
          → px < q.max_width
          → py < q.max_height
          → Covered q damage px py (row_count q) 0 (scanned q damage) =
        λ px py lx ly. scanned-Covered q fits damage px py lx ly pos in
      elim (c 0 0 max_width_pos max_height_pos).box [
        | inl first ↦ rw (first.2, eq_test int_max) full-Serves
        | inr box ↦
            let found : (s.bound_x1 == int_max) ≡ false =
              ne_test s.bound_x1 int_max (λ e. absurd (omega (arith, e, box))) in
            elim (Bool-cases s.overflowed) [
              | inl over ↦ rw (found, over) (bounding-Serves c box)
              | inr kept ↦ rw (found, kept) (regions-Serves c box kept)
            ]
      ]

  -- For tiles whose number and a row more fit 32 bits, tiles and a framebuffer whose ends fit an
  -- `int`, and room for a region,
  -- wd_readback_plan_regions returns one region or more and no more than there is room for; each is
  -- a nonempty rectangle of the framebuffer; every pixel of the framebuffer whose tile is damaged is
  -- in one; when there are several, each such pixel is in exactly one of them, and every other pixel
  -- in none; and the readback is called full only if the one region is the whole framebuffer.
  pub readback_exact :
      q.damage_tiles ≡ some damage
      → (plan_regions q ≡ some (plan_damage q)) × ReadsDamage q damage (plan_damage q)
  unfolding plan_regions plan_damage
  readback_exact given =
      let guard : (q.region_capacity == 0
            || (not (int_lt 0 q.max_width) || not (int_lt 0 q.max_height)))
          ≡ false =
        ground (arith, max_width_pos, max_height_pos, max_width_fits, max_height_fits, pos) in
      elim (Bool-cases (
        q.full_damage
        || (q.damage_tile_count == 0
            || (q.total_tiles == 0
                || (q.tiles_x == 0 || (q.tile_width == 0 || q.tile_height == 0)))))) [
                  | inl whole ↦ (
                    rw guard refl,
                    Serves-ReadsDamage q damage (plan_damage q) (rw whole full-Serves),
                  )
                  | inr tiles ↦
                      let value : plan_damage q ≡ finish_scan q (scanned q damage) =
                        rw (tiles, given) refl in
                      (
                        rw guard refl,
                        Serves-ReadsDamage q damage (plan_damage q)
                            (subst (Serves q damage) (sym value) scan-Serves),
                      )
                ]
