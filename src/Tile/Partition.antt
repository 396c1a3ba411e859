-- ===== src/Tile/Partition.antt =====
-- The tiles cut the framebuffer without gap and without overlap.
use native.Mathlib.Nat.{div-add-mod', mod-lt, mod-eq_of_lt, mul-le-mul, div-le_self}
use waydisplay.Prelude.{
  ne_zero_test, u16_max, u16, IsU16, ℕ, ◌+◌, ◌*◌, ◌/◌, ◌%◌, ◌≤◌, ◌<◌, ◌≡◌, ap, ◌∙◌, ◌≢◌, some,
  arith,
}
use waydisplay.Tile.{
  tiles_for_width, tiles_for_height, total_tiles_for_size, tile_x_for, tile_y_for, tile_start_x,
  tile_start_y, tile_visible_width, tile_visible_height, tile_id_for_pixel,
}
use waydisplay.Tile.Grid.{
  count_exact, column_lt, shown, only_one, total_value, column_of, row_of, number_lt,
}

-- The rectangle that the tile shows contains the pixel.
abbrev pub Shows : ℕ → ℕ → ℕ → ℕ → ℕ → ℕ → ℕ → ℕ → Type 0
Shows width height tile_width tile_height tile_id tiles_x x y =
    (tile_start_x tile_id tiles_x tile_width ≤ x)
    × (x
        < tile_start_x tile_id tiles_x tile_width
          + tile_visible_width width tile_id tiles_x tile_width)
    × (tile_start_y tile_id tiles_x tile_height ≤ y)
    × (y
        < tile_start_y tile_id tiles_x tile_height
          + tile_visible_height height tile_id tiles_x tile_height)

start_x_of :
    (id tiles_x tile_width : ℕ)
    → 0 < tiles_x
    → tiles_x ≤ u16_max
    → IsU16 tile_width
    → tile_start_x id tiles_x tile_width ≡ id % tiles_x * tile_width
unfolding tile_start_x tile_x_for
start_x_of id tiles_x tile_width pos small w =
    let lt : id % tiles_x < tiles_x = mod-lt id pos in
    let m : id % tiles_x * tile_width ≤ u16_max * u16_max =
      mul-le-mul {n₂ = u16_max} {m₂ = u16_max} (omega arith) (omega arith) in
    let e : u16 (id % tiles_x) ≡ id % tiles_x = mod-eq_of_lt (omega arith) in
    rw (ne_zero_test tiles_x (omega arith), e) (mod-eq_of_lt (omega arith))

start_y_of :
    (id tiles_x tile_height : ℕ)
    → 0 < tiles_x
    → id ≤ u16_max
    → IsU16 tile_height
    → tile_start_y id tiles_x tile_height ≡ id / tiles_x * tile_height
unfolding tile_start_y tile_y_for
start_y_of id tiles_x tile_height pos small w =
    let le = div-le_self id tiles_x in
    let m : id / tiles_x * tile_height ≤ u16_max * u16_max =
      mul-le-mul {n₂ = u16_max} {m₂ = u16_max} (omega arith) (omega arith) in
    let e : u16 (id / tiles_x) ≡ id / tiles_x = mod-eq_of_lt (omega arith) in
    rw (ne_zero_test tiles_x (omega arith), e) (mod-eq_of_lt (omega arith))

found :
    (x y tiles_x total tile_width tile_height : ℕ)
    → 0 < tile_width
    → 0 < tile_height
    → x / tile_width < tiles_x
    → y / tile_height * tiles_x + x / tile_width < total
    → total ≤ u16_max
    → tile_id_for_pixel x y tiles_x total tile_width tile_height
      ≡ some (y / tile_height * tiles_x + x / tile_width)
unfolding tile_id_for_pixel
found x y tiles_x total tile_width tile_height pw ph lt lt' small = ground arith

width_axis :
    (width tile_width x : ℕ)
    → tiles_for_width width tile_width ≢ 0
    → x < width
    → (0 < tile_width) × (x / tile_width < tiles_for_width width tile_width)
unfolding tiles_for_width
width_axis width tile_width x nz lt =
    let (pos, covers, small) = count_exact width tile_width nz in
    (pos, column_lt x width tile_width nz lt)

height_axis :
    (height tile_height y : ℕ)
    → tiles_for_height height tile_height ≢ 0
    → y < height
    → (0 < tile_height) × (y / tile_height < tiles_for_height height tile_height)
unfolding tiles_for_height
height_axis height tile_height y nz lt =
    let (pos, covers, small) = count_exact height tile_height nz in
    (pos, column_lt y height tile_height nz lt)

module _ (width height tile_width tile_height x y : ℕ) (w : IsU16 tile_width)
    (h : IsU16 tile_height) (grid : total_tiles_for_size width height tile_width tile_height ≢ 0)
    (in_x : x < width) (in_y : y < height) where
  -- For a tile size in 16 bits that makes a grid, each pixel of the framebuffer has a tile, which
  -- wd_tile_id_for_pixel finds: its number is below the number of tiles, and the rectangle that
  -- it shows contains the pixel.
  pub pixel_has_tile :
      let tiles_x = tiles_for_width width tile_width in
      let total = total_tiles_for_size width height tile_width tile_height in
      (id : ℕ) × (tile_id_for_pixel x y tiles_x total tile_width tile_height ≡ some id)
      × (id < total)
      × Shows width height tile_width tile_height id tiles_x x y
  unfolding tile_visible_width tile_visible_height
  pixel_has_tile =
      let tiles_x = tiles_for_width width tile_width in
      let (nx, ny, sx, sy, product, small) = total_value width height tile_width tile_height grid in
      let (pw, c_lt) = width_axis width tile_width x nx in_x in
      let (ph, r_lt) = height_axis height tile_height y ny in_y in
      let c = x / tile_width in
      let r = y / tile_height in
      let id_lt : r * tiles_x + c < total_tiles_for_size width height tile_width tile_height =
        rw product (number_lt tiles_x (tiles_for_height height tile_height) c r c_lt r_lt) in
      let col = start_x_of (r * tiles_x + c) tiles_x tile_width (omega arith) sx w in
      let row = start_y_of (r * tiles_x + c) tiles_x tile_height (omega arith) (omega arith) h in
      let (a, b) = shown x width tile_width pw in_x in
      let (a', b') = shown y height tile_height ph in_y in
      (
        r * tiles_x + c,
        found x y tiles_x _ tile_width tile_height pw ph c_lt id_lt small,
        id_lt,
        rw (col, row, column_of tiles_x c r c_lt, row_of tiles_x c r c_lt) (a, b, a', b'),
      )

  -- For a tile size in 16 bits that makes a grid, no two tiles show the same pixel of the
  -- framebuffer: a tile that does is the one that wd_tile_id_for_pixel finds.
  pub tile_of_pixel_unique :
      (other : ℕ)
      → other < total_tiles_for_size width height tile_width tile_height
      → Shows width height tile_width tile_height other (tiles_for_width width tile_width) x y
      → tile_id_for_pixel x y
          (tiles_for_width width tile_width)
          (total_tiles_for_size width height tile_width tile_height)
          tile_width
          tile_height
        ≡ some other
  unfolding tile_visible_width tile_visible_height
  tile_of_pixel_unique other lt (a, b, a', b') =
      let tiles_x = tiles_for_width width tile_width in
      let (nx, ny, sx, sy, product, small) = total_value width height tile_width tile_height grid in
      let (pw, c_lt) = width_axis width tile_width x nx in_x in
      let (ph, r_lt) = height_axis height tile_height y ny in_y in
      let col = start_x_of other tiles_x tile_width (omega arith) sx w in
      let row = start_y_of other tiles_x tile_height (omega arith) (omega arith) h in
      let c : x / tile_width ≡ other % tiles_x =
        only_one x width tile_width (other % tiles_x) pw (rw col at a) (rw col at b) in
      let r : y / tile_height ≡ other / tiles_x =
        only_one y height tile_height (other / tiles_x) ph (rw row at a') (rw row at b') in
      let number : y / tile_height * tiles_x + x / tile_width ≡ other =
        rw (c, r) (div-add-mod' other tiles_x) in
      found x y tiles_x _ tile_width tile_height pw ph c_lt (rw number lt) small ∙ ap some number
