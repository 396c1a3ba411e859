-- ===== src/Tile/Grid.antt =====
-- The counts of a grid, and the columns and rows of its tiles.
use native.Mathlib.Nat.{
  mod-eq_of_lt, mul-le-mul, div-eq_of_lt-le, div-eq_of_lt, mul-le-mul_right, mul-add-div_right,
  mul-add-mod_self_right, lt-div-mul-add, div-mul-le_self, div-lt_iff_lt-mul,
}
use waydisplay.Prelude.{
  ltb, ◌==◌, if◌then◌else◌, u16_max, u16, u32, ℕ, suc, ◌+◌, ◌-◌, ◌*◌, ◌/◌, ◌%◌, ◌≤◌, ◌<◌, ◌≡◌, ◌∙◌,
  ◌≢◌, ◌⊎◌, inl, inr, ◌||◌, arith,
}
use waydisplay.Tile.{
  tile_count, tiles_for_width, tiles_for_height, total_tiles_for_size, visible_extent,
}

count_value :
    (extent tile : ℕ)
    → tile_count extent tile ≢ 0
    → (tile_count extent tile ≡ (extent + tile - 1) / tile)
      × (0 < tile)
      × ((extent + tile - 1) / tile ≤ u16_max)
count_value extent tile nz = ground arith

-- One axis: the tile that a coordinate lies in is counted, and shows the coordinate.
pub count_exact :
    (extent tile : ℕ)
    → tile_count extent tile ≢ 0
    → (0 < tile) × (extent ≤ tile_count extent tile * tile) × (tile_count extent tile ≤ u16_max)
count_exact extent tile nz =
    let (e, pos, small) = count_value extent tile nz in
    let b = lt-div-mul-add {a = extent + tile - 1} {b = tile} pos in rw e (pos, omega arith, small)

pub column_lt :
    (x extent tile : ℕ)
    → tile_count extent tile ≢ 0
    → x < extent
    → x / tile < tile_count extent tile
column_lt x extent tile nz lt =
    let (pos, covers, small) = count_exact extent tile nz in (div-lt_iff_lt-mul pos).1 (omega arith)

-- The pixel is shown exactly by the tile of its column.
pub shown :
    (x extent tile : ℕ)
    → 0 < tile
    → x < extent
    → (x / tile * tile ≤ x) × (x < x / tile * tile + visible_extent extent (x / tile * tile) tile)
shown x extent tile pos lt =
    let a = div-mul-le_self x tile in
    let b = lt-div-mul-add {a = x} {b = tile} pos in (a, ground arith)

pub only_one :
    (x extent tile c : ℕ)
    → 0 < tile
    → c * tile ≤ x
    → x < c * tile + visible_extent extent (c * tile) tile
    → x / tile ≡ c
only_one x extent tile c pos lo hi =
    div-eq_of_lt-le tile lo
      (elim (sides extent (c * tile)) [ inl le ↦ absurd (ground arith) | inr lt ↦ ground arith ])
  where
    sides : (a b : ℕ) → (a ≤ b) ⊎ (b < a)
    sides a b = omega arith

pub total_value :
    (width height tile_width tile_height : ℕ)
    → total_tiles_for_size width height tile_width tile_height ≢ 0
    → (tiles_for_width width tile_width ≢ 0)
      × (tiles_for_height height tile_height ≢ 0)
      × (tiles_for_width width tile_width ≤ u16_max)
      × (tiles_for_height height tile_height ≤ u16_max)
      × (total_tiles_for_size width height tile_width tile_height
          ≡ tiles_for_width width tile_width * tiles_for_height height tile_height)
      × (total_tiles_for_size width height tile_width tile_height ≤ u16_max)
unfolding total_tiles_for_size tiles_for_width tiles_for_height
total_value width height tile_width tile_height nz =
    let (a, b) = factors (tile_count width tile_width) (tile_count height tile_height) nz in
    let (p, q, r) = count_exact width tile_width a in
    let (p', q', r') = count_exact height tile_height b in
    let m : tile_count width tile_width * tile_count height tile_height ≤ u16_max * u16_max =
      mul-le-mul r r' in
    let (e, small) = value _ _ nz m in (a, b, r, r', e, small)
  where
    total_of : ℕ → ℕ → ℕ
    total_of a b =
        if a == 0 || (b == 0 || (u32 (a * b) == 0 || ltb u16_max (u32 (a * b))))
        then 0
        else u16 (u32 (a * b))

    factors : (a b : ℕ) → total_of a b ≢ 0 → (a ≢ 0) × (b ≢ 0)
    factors a b nz = ground arith

    value :
        (a b : ℕ)
        → total_of a b ≢ 0
        → a * b ≤ u16_max * u16_max
        → (total_of a b ≡ a * b) × (total_of a b ≤ u16_max)
    value a b nz m = ground arith

-- A row-by-row number gives back its row and column.
pub column_of : (n c r : ℕ) → c < n → (r * n + c) % n ≡ c
column_of n c r lt = mul-add-mod_self_right r n c ∙ mod-eq_of_lt lt

pub row_of : (n c r : ℕ) → c < n → (r * n + c) / n ≡ r
row_of n c r lt =
    let e : (r * n + c) / n ≡ r + c / n = mul-add-div_right (omega arith) r c in
    let f : c / n ≡ 0 = div-eq_of_lt lt in omega arith

pub number_lt : (n m c r : ℕ) → c < n → r < m → r * n + c < n * m
number_lt n m c r lt lt' = let a : suc r * n ≤ m * n = mul-le-mul_right n lt' in omega arith
