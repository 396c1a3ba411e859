-- ===== src/Tile/Readback/Covers.antt =====
-- What the regions of a scan cover: a fixed pixel of the framebuffer is in as many regions as the
-- scan has met damaged tiles that show it.
use mathlib.Core.Bool.{true≢false}
use waydisplay.Prelude.{
  ltb, leb, ◌==◌, Bool-cases, length, All, ℕ, suc, ◌+◌, ◌-◌, ◌*◌, ◌/◌, ◌≤◌, ◌<◌, min, ◌≡◌, sym, ap,
  ◌∙◌, ◌⊎◌, inl, inr, Bool, true, false, ◌&&◌, ◌||◌, List, [], arith,
}
use waydisplay.Tile.Readback.{
  int_max, tile_is_damaged, add_region, take_run, row_count, Region, Request, Scan,
}
use waydisplay.Tile.Readback.Regions.{bit, inside, covering, Fine, add_region-Added, Fits}
use waydisplay.Tile.Readback.Runs.{before_edge, from_edge, rect, grown, BoundsFit, take_run_value}

-- The tile that shows the pixel is damaged.
abbrev pub pixel_damaged : Request → List Bool → ℕ → ℕ → Bool
pixel_damaged q damage px py =
    ltb (px / q.tile_width) q.tiles_x
    && tile_is_damaged q damage (py / q.tile_height * q.tiles_x + px / q.tile_width)

-- The pixel lies in a tile of the columns from `start` up to `stop` of the row.
abbrev pub in_run : Request → ℕ → ℕ → ℕ → ℕ → ℕ → Bool
in_run q row start stop px py =
    py / q.tile_height == row && (leb start (px / q.tile_width) && ltb (px / q.tile_width) stop)

-- The pixel is damaged, in a row before the given one, or in it in a column before the given one.
abbrev pub seen : Request → List Bool → ℕ → ℕ → ℕ → ℕ → Bool
seen q damage px py row column =
    pixel_damaged q damage px py && (ltb (py / q.tile_height) row || in_run q row 0 column px py)

-- The rectangle holds the pixel.
abbrev pub Within : Scan → ℕ → ℕ → Type 0
Within s px py = (s.bound_x1 ≤ px) × (px < s.bound_x2) × (s.bound_y1 ≤ py) × (py < s.bound_y2)

pub record Covered (q : Request) (damage : List Bool) (px py row column : ℕ) (s : Scan)
    : Type 0 where
  pub fine : All (Fine q) s.regions
  pub room : length s.regions ≤ q.region_capacity
  pub exact : s.overflowed ≡ false → covering s.regions px py ≡ bit (seen q damage px py row column)
  pub within : seen q damage px py row column ≡ true → Within s px py
  pub box :
      ((s.regions ≡ [])
        × (s.overflowed ≡ false)
        × (s.bound_x1 ≡ int_max)
        × (s.bound_y1 ≡ int_max)
        × (s.bound_x2 ≡ 0)
        × (s.bound_y2 ≡ 0))
      ⊎ ((0 < length s.regions)
          × (s.bound_x1 < s.bound_x2)
          × (s.bound_y1 < s.bound_y2)
          × (s.bound_x2 ≤ q.max_width)
          × (s.bound_y2 ≤ q.max_height))

was_or_is :
    (was here now : Bool) → bit now ≡ bit was + bit here → now ≡ true → (was ≡ true) ⊎ (here ≡ true)
was_or_is was here now e h = ground (arith, e, h)

both_pass : (a b c d : ℕ) → leb a b || leb c d ≡ false → (b < a) × (d < c)
both_pass a b c d h = ground (arith, h)

inside_bounds :
    (r : Region) (px py : ℕ)
    → inside r px py ≡ true
    → (r.x ≤ px) × (px < r.x + r.width) × (r.y ≤ py) × (py < r.y + r.height)
inside_bounds r px py h = ground (arith, h)

outside : (r : Region) (px py : ℕ) → (r.width ≡ 0) ⊎ (r.height ≡ 0) → inside r px py ≡ false
outside r px py h = ground (arith, h)

no_extent : (a b c d : ℕ) → leb a b || leb c d ≡ true → (a - b ≡ 0) ⊎ (c - d ≡ 0)
no_extent a b c d h = ground (arith, h)

module _ (q : Request) (fits : Fits q) (px py : ℕ) (in_x : px < q.max_width)
    (in_y : py < q.max_height) where
  open fits use {tile_width_pos, tile_height_pos}

  row_edges :
      (row : ℕ)
      → (py / q.tile_height == row)
        ≡ (leb (row * q.tile_height) py && ltb py (row * q.tile_height + q.tile_height))
  row_edges row =
      let low = from_edge py q.tile_height row tile_height_pos in
      let high = before_edge py q.tile_height (suc row) tile_height_pos in
      let e : suc row * q.tile_height ≡ row * q.tile_height + q.tile_height = omega arith in
      ground (arith, low, rw e at high)

  -- A pixel of the framebuffer is in the clipped rectangle if it is in a tile of the run.
  pub rect_exact :
      (row start stop : ℕ)
      → inside
          (rect q
            (start * q.tile_width)
            (row * q.tile_height)
            (stop * q.tile_width)
            (row * q.tile_height + q.tile_height))
          px
          py
        ≡ in_run q row start stop px py
  rect_exact row start stop =
      rw
        (
          row_edges row,
          from_edge px q.tile_width start tile_width_pos,
          before_edge px q.tile_width stop tile_width_pos,
        )
        (ground arith)

  -- The tiles of a run are met once.
  pub seen_run :
      (damage : List Bool) (row start stop : ℕ)
      → start ≤ stop
      → (in_run q row start stop px py ≡ true → pixel_damaged q damage px py ≡ true)
      → bit (seen q damage px py row stop)
        ≡ bit (seen q damage px py row start) + bit (in_run q row start stop px py)
  seen_run damage row start stop le all = ground (arith, all)

  module _ (damage : List Bool) (row start stop : ℕ) (s : Scan) (row_lt : row < row_count q)
      (order : start < stop) (ends : stop ≤ q.tiles_x) (pos : 0 < q.region_capacity)
      (all : in_run q row start stop px py ≡ true → pixel_damaged q damage px py ≡ true)
      (c : Covered q damage px py row start s) where
    open fits use {max_width_fits, max_height_fits}

    bounds-Fit : BoundsFit s
    bounds-Fit = elim c.box [ inl first ↦ omega arith | inr box ↦ omega arith ]

    abbrev right : ℕ
    right = min q.max_width (stop * q.tile_width)

    abbrev low : ℕ
    low = min q.max_height (row * q.tile_height + q.tile_height)

    abbrev run : Region
    run =
        rect q (start * q.tile_width) (row * q.tile_height) (stop * q.tile_width)
          (row * q.tile_height + q.tile_height)

    abbrev wider : Scan
    wider = grown (start * q.tile_width) (row * q.tile_height) right low s

    now :
        bit (seen q damage px py row stop)
        ≡ bit (seen q damage px py row start) + bit (in_run q row start stop px py)
    now = seen_run damage row start stop (omega arith) all

    met :
        seen q damage px py row stop ≡ true
        → (seen q damage px py row start ≡ true) ⊎ (in_run q row start stop px py ≡ true)
    met e =
        was_or_is (seen q damage px py row start) (in_run q row start stop px py)
          (seen q damage px py row stop) now e

    hidden_run :
        leb right (start * q.tile_width) || leb low (row * q.tile_height) ≡ true
        → Covered q damage px py row stop s
    hidden_run hidden =
        let out : in_run q row start stop px py ≡ false =
          sym (rect_exact row start stop) ∙ outside run px py (no_extent _ _ _ _ hidden) in
        record {
          fine = c.fine;
          room = c.room;
          exact = λ e. c.exact e ∙ omega (arith, now, ap bit out);
          within = λ e. elim (met e) [
            | inl was ↦ c.within was
            | inr here ↦ absurd (true≢false (sym here ∙ out))
          ];
          box = c.box;
        }

    wider-Within :
        start * q.tile_width < right
        → row * q.tile_height < low
        → seen q damage px py row stop ≡ true
        → Within wider px py
    wider-Within x_lt y_lt e = elim (met e) [
      | inl was ↦ omega (arith, c.within was)
      | inr here ↦ omega (arith, inside_bounds run px py (rect_exact row start stop ∙ here))
    ]

    wider_box :
        start * q.tile_width < right
        → row * q.tile_height < low
        → (wider.bound_x1 < wider.bound_x2)
          × (wider.bound_y1 < wider.bound_y2)
          × (wider.bound_x2 ≤ q.max_width)
          × (wider.bound_y2 ≤ q.max_height)
    wider_box x_lt y_lt = elim c.box [ inl first ↦ omega arith | inr box ↦ omega arith ]

    shown_run :
        leb right (start * q.tile_width) || leb low (row * q.tile_height) ≡ false
        → Covered q damage px py row stop (add_region q.region_capacity run wider)
    shown_run shown =
        let holds = rect_exact row start stop in
        let (x_lt, y_lt) = both_pass right (start * q.tile_width) low (row * q.tile_height) shown in
        let add =
          add_region-Added q fits run (omega arith, omega arith, omega arith, omega arith) wider pos
            c.fine c.room in
        let (bx, by, bw, bh) = wider_box x_lt y_lt in
        record {
          fine = add.fine;
          room = add.room;
          exact = λ e.
              let (f, (all_fine, count)) = add.counts e in
              omega (arith, count px py, c.exact f, now, ap bit holds);
          within = λ e.
              rw (add.x1_kept, add.x2_kept, add.y1_kept, add.y2_kept) (wider-Within x_lt y_lt e);
          box = inr (
              rw (add.x1_kept, add.x2_kept, add.y1_kept, add.y2_kept)
                (add.some_region, bx, by, bw, bh));
        }

    pub take_run-Covered : Covered q damage px py row stop (take_run q row start stop s)
    take_run-Covered =
        let value = take_run_value q fits row start stop s row_lt order ends bounds-Fit in
        elim (Bool-cases (leb right (start * q.tile_width) || leb low (row * q.tile_height))) [
          | inl hidden ↦ rw (value, hidden) (hidden_run hidden)
          | inr shown ↦ rw (value, shown) (shown_run shown)
        ]
