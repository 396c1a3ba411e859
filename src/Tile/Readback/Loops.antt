-- ===== src/Tile/Readback/Loops.antt =====
-- The loops of the readback plan: each tile of the grid is met.
use native.Mathlib.Nat.{le-div_iff_mul-le}
use mathlib.Core.Bool.{true≢false}
use waydisplay.Prelude.{
  ltb, ltb→lt, lt→ltb, Bool-cases, u32, sub32, ℕ, zero, suc, ◌+◌, ◌-◌, ◌*◌, ◌/◌, ◌≤◌, ◌<◌, ◌≡◌,
  refl, sym, ap, ◌∙◌, subst, ◌⊎◌, inl, inr, Bool, true, false, List, arith,
}
use waydisplay.Tile.Readback.{
  tile_is_damaged, run_end, visit_column, scan_columns, scan_rows, row_count, scan_start, Request,
  Scan,
}
use waydisplay.Tile.Readback.Regions.{bit, covering, Fits}
use waydisplay.Tile.Readback.Covers.{pixel_damaged, in_run, seen, take_run-Covered, Covered}

abbrev pub scanned : Request → List Bool → Scan
scanned q damage = scan_rows q damage (row_count q) 0 scan_start

pub Covered-same :
    (q : Request) (damage : List Bool) (px py row column row' column' : ℕ) (s : Scan)
    → seen q damage px py row' column' ≡ seen q damage px py row column
    → Covered q damage px py row column s
    → Covered q damage px py row' column' s
Covered-same q damage px py row column row' column' s e c = record {
  fine = c.fine;
  room = c.room;
  exact = λ f. c.exact f ∙ sym (ap bit e);
  within = λ f. c.within (sym e ∙ f);
  box = c.box;
}

module _ (q : Request) (fits : Fits q) (damage : List Bool) (px py : ℕ) (in_x : px < q.max_width)
    (in_y : py < q.max_height) (pos : 0 < q.region_capacity) where
  open fits use {columns, total}

  rows_value : row_count q ≡ (q.total_tiles + q.tiles_x - 1) / q.tiles_x
  rows_value =
      let e : sub32 (u32 (q.total_tiles + q.tiles_x)) 1 ≡ q.total_tiles + q.tiles_x - 1 =
        omega arith in
      ap (λ n. n / q.tiles_x) e

  -- The last tile of a row of the grid still has a number of 32 bits.
  number_fits :
      (row column : ℕ)
      → row < row_count q
      → column < q.tiles_x
      → u32 (row * q.tiles_x + column) ≡ row * q.tiles_x + column
  number_fits row column row_lt column_lt =
      let lt : suc row ≤ (q.total_tiles + q.tiles_x - 1) / q.tiles_x = rw rows_value at row_lt in
      let le : suc row * q.tiles_x ≤ q.total_tiles + q.tiles_x - 1 =
        (le-div_iff_mul-le columns).0 lt in
      omega arith

  row_of_tile : (row column : ℕ) → row * q.tiles_x + column < q.total_tiles → row < row_count q
  row_of_tile row column lt =
      let le : suc row * q.tiles_x ≤ q.total_tiles + q.tiles_x - 1 = omega arith in
      let a : suc row ≤ (q.total_tiles + q.tiles_x - 1) / q.tiles_x =
        (le-div_iff_mul-le columns).1 le in
      rw rows_value a

  abbrev damaged_at : ℕ → ℕ → Bool
  damaged_at row column = tile_is_damaged q damage (u32 (row * q.tiles_x + column))

  run_end_lem :
      (row left column : ℕ)
      → (column ≤ run_end q damage row left column)
        × (run_end q damage row left column ≤ column + left)
        × ((c : ℕ) → column ≤ c → c < run_end q damage row left column → damaged_at row c ≡ true)
  unfolding run_end
  run_end_lem row zero column = (omega arith, omega arith, λ c a b. absurd (omega arith))
  run_end_lem row (suc left) column =
      let (a, b, c) = run_end_lem row left (column + 1) in
      elim (Bool-cases (damaged_at row column)) [
        | inl hit ↦ rw hit (
          omega arith,
          omega arith,
          λ i lo hi. elim (first i lo) [
            | inl e ↦ subst (λ n. damaged_at row n ≡ true) e hit
            | inr lt ↦ c i lt hi
          ],
        )
        | inr miss ↦ rw miss (omega arith, omega arith, λ i lo hi. absurd (omega arith))
      ]
    where
      first : (i : ℕ) → column ≤ i → (column ≡ i) ⊎ (column + 1 ≤ i)
      first i le = omega arith

  run_parts :
      (row start stop : ℕ)
      → in_run q row start stop px py ≡ true
      → (py / q.tile_height ≡ row) × (start ≤ px / q.tile_width) × (px / q.tile_width < stop)
  run_parts row start stop h = ground (arith, h)

  run_end_more :
      (row left column : ℕ)
      → 0 < left
      → damaged_at row column ≡ true
      → column < run_end q damage row left column
  unfolding run_end
  run_end_more row zero column lt hit = absurd (omega arith)
  run_end_more row (suc left) column lt hit =
      let (a, b, c) = run_end_lem row left (column + 1) in rw hit (omega arith)

  module _ (row : ℕ) (row_lt : row < row_count q) where
    run_damaged :
        (start stop : ℕ)
        → stop ≤ q.tiles_x
        → ((c : ℕ) → start ≤ c → c < stop → damaged_at row c ≡ true)
        → in_run q row start stop px py ≡ true
        → pixel_damaged q damage px py ≡ true
    run_damaged start stop le all here =
        let (e, lo, hi) = run_parts row start stop here in
        let c = px / q.tile_width in
        let fit = number_fits row c row_lt (omega arith) in
        let hit : tile_is_damaged q damage (row * q.tiles_x + c) ≡ true = rw fit at (all c lo hi) in
        rw (e, lt→ltb c q.tiles_x (omega arith), hit) refl

    skip_column :
        (column : ℕ)
        → column < q.tiles_x
        → damaged_at row column ≡ false
        → seen q damage px py row (column + 1) ≡ seen q damage px py row column
    skip_column column lt miss =
        let miss' : tile_is_damaged q damage (row * q.tiles_x + column) ≡ false =
          rw (number_fits row column row_lt lt) at miss in
        let never : in_run q row column (column + 1) px py ≡ true
            → pixel_damaged q damage px py ≡ false =
          λ here.
            let (e, lo, hi) = run_parts row column (column + 1) here in
            let f : px / q.tile_width ≡ column = omega arith in
            rw (e, f, miss', lt→ltb column q.tiles_x lt) refl in
        ground (arith, never)

    pub visit_column-Covered :
        (column : ℕ) (s : Scan)
        → column < q.tiles_x
        → Covered q damage px py row column s
        → (column < (visit_column q damage row column s).0)
          × ((visit_column q damage row column s).0 ≤ q.tiles_x)
          × Covered q damage px py row
              (visit_column q damage row column s).0
              (visit_column q damage row column s).1
    unfolding visit_column
    visit_column-Covered column s lt c =
        let left : column + (q.tiles_x - column) ≡ q.tiles_x = omega arith in
        let stop = run_end q damage row (q.tiles_x - column) column in
        let (a, b, hits) = run_end_lem row (q.tiles_x - column) column in
        elim (Bool-cases (damaged_at row column)) [
          | inl hit ↦
              let more : column < stop =
                run_end_more row (q.tiles_x - column) column (omega arith) hit in
              rw hit (
                more,
                omega arith,
                take_run-Covered q fits px py in_x in_y damage row column stop s row_lt more
                    (omega arith) pos (run_damaged column stop (omega arith) hits) c,
              )
          | inr miss ↦ rw miss (
            omega arith,
            omega arith,
            Covered-same q damage px py row column row (column + 1) s (skip_column column lt miss)
                c,
          )
        ]

    pub scan_columns-Covered :
        (fuel column : ℕ) (s : Scan)
        → column ≤ q.tiles_x
        → q.tiles_x ≤ column + fuel
        → Covered q damage px py row column s
        → Covered q damage px py row q.tiles_x (scan_columns q damage row fuel column s)
    unfolding scan_columns
    scan_columns-Covered zero column s le enough c =
        subst (λ n. Covered q damage px py row n s) (omega arith) c
    scan_columns-Covered (suc fuel) column s le enough c =
        elim (Bool-cases (ltb column q.tiles_x)) [
          | inl more ↦
              let (a, b, next) = visit_column-Covered column s (ltb→lt column q.tiles_x more) c in
              rw more (scan_columns-Covered fuel _ _ b (omega arith) next)
          | inr done ↦
              rw done (subst (λ n. Covered q damage px py row n s) (ground (arith, done)) c)
        ]

  next_row : (row : ℕ) → seen q damage px py (row + 1) 0 ≡ seen q damage px py row q.tiles_x
  next_row row = ground arith

  pub scan_rows-Covered :
      (left row : ℕ) (s : Scan)
      → row + left ≡ row_count q
      → Covered q damage px py row 0 s
      → Covered q damage px py (row_count q) 0 (scan_rows q damage left row s)
  unfolding scan_rows
  scan_rows-Covered zero row s e c = subst (λ n. Covered q damage px py n 0 s) (omega (arith, e)) c
  scan_rows-Covered (suc left) row s e c =
      let cols =
        scan_columns-Covered row (omega (arith, e)) q.tiles_x 0 s (omega arith) (omega arith) c in
      scan_rows-Covered left (row + 1) (scan_columns q damage row q.tiles_x 0 s) (omega (arith, e))
        (Covered-same q damage px py row q.tiles_x (row + 1) 0 _ (next_row row) cols)

  none_seen : seen q damage px py 0 0 ≡ false
  none_seen = ground arith

  start-Covered : Covered q damage px py 0 0 scan_start
  unfolding covering
  start-Covered = record {
    fine = tt;
    room = omega arith;
    exact = λ e. sym (ap bit none_seen);
    within = λ e. absurd (true≢false (sym e ∙ none_seen));
    box = inl (refl, refl, refl, refl, refl, refl);
  }

  pub seen_all : seen q damage px py (row_count q) 0 ≡ pixel_damaged q damage px py
  unfolding tile_is_damaged
  seen_all = ground (arith, row_of_tile (py / q.tile_height) (px / q.tile_width))

  pub scanned-Covered : Covered q damage px py (row_count q) 0 (scanned q damage)
  scanned-Covered = scan_rows-Covered (row_count q) 0 scan_start (omega arith) start-Covered
