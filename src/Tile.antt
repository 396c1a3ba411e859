-- ===== src/Tile.antt =====
-- The tile grid of src/common/wd_tile.c: a framebuffer is cut into tiles of a fixed size, which are
-- numbered row by row.
pub mod Grid
pub mod Partition
pub mod Readback
pub mod Delivery
pub mod Choice
pub mod Snapshot
mod Tests
use waydisplay.Prelude.{
  ltb, leb, ◌==◌, ◌/=◌, if◌then◌else◌, u16_max, u32_max, size_max, u16, u32, u64, ℕ, ◌+◌, ◌-◌, ◌*◌,
  ◌/◌, ◌%◌, Bool, false, not, ◌&&◌, ◌||◌, Option, none, some,
}

-- The count of wd_tiles_for_width_with_tile and wd_tiles_for_height_with_tile, 0 if it does not fit
-- a uint16_t.
abbrev pub tile_count : ℕ → ℕ → ℕ
tile_count extent tile =
    if extent == 0 || tile == 0
    then 0
    else (let count = (extent + tile - 1) / tile in
        if count == 0 || ltb u16_max count then 0 else u16 count)

-- wd_tiles_for_width_with_tile
pub tiles_for_width : ℕ → ℕ → ℕ
tiles_for_width width tile_width = tile_count width tile_width

-- wd_tiles_for_height_with_tile
pub tiles_for_height : ℕ → ℕ → ℕ
tiles_for_height height tile_height = tile_count height tile_height

-- wd_total_tiles_for_size_with_tile
pub total_tiles_for_size : ℕ → ℕ → ℕ → ℕ → ℕ
unfolding tiles_for_width tiles_for_height
total_tiles_for_size width height tile_width tile_height =
    let tiles_x = tiles_for_width width tile_width in
    let tiles_y = tiles_for_height height tile_height in
    let total = u32 (tiles_x * tiles_y) in
    if tiles_x == 0 || (tiles_y == 0 || (total == 0 || ltb u16_max total)) then 0 else u16 total

-- wd_tile_id_valid_for
pub tile_id_valid_for : ℕ → ℕ → Bool
tile_id_valid_for tile_id total_tiles = ltb tile_id total_tiles

-- wd_tile_x_for
pub tile_x_for : ℕ → ℕ → ℕ
tile_x_for tile_id tiles_x = if tiles_x == 0 then 0 else u16 (tile_id % tiles_x)

-- wd_tile_y_for
pub tile_y_for : ℕ → ℕ → ℕ
tile_y_for tile_id tiles_x = if tiles_x == 0 then 0 else u16 (tile_id / tiles_x)

-- wd_tile_start_x_for_tile
pub tile_start_x : ℕ → ℕ → ℕ → ℕ
unfolding tile_x_for
tile_start_x tile_id tiles_x tile_width = u32 (tile_x_for tile_id tiles_x * tile_width)

-- wd_tile_start_y_for_tile
pub tile_start_y : ℕ → ℕ → ℕ → ℕ
unfolding tile_y_for
tile_start_y tile_id tiles_x tile_height = u32 (tile_y_for tile_id tiles_x * tile_height)

-- What a tile of the given start and size shows of an extent.
abbrev pub visible_extent : ℕ → ℕ → ℕ → ℕ
visible_extent extent start tile =
    if leb extent start then 0 else if ltb (extent - start) tile then extent - start else tile

-- wd_tile_visible_width_for_tile
pub tile_visible_width : ℕ → ℕ → ℕ → ℕ → ℕ
unfolding tile_start_x
tile_visible_width display_width tile_id tiles_x tile_width =
    visible_extent display_width (tile_start_x tile_id tiles_x tile_width) tile_width

-- wd_tile_visible_height_for_tile
pub tile_visible_height : ℕ → ℕ → ℕ → ℕ → ℕ
unfolding tile_start_y
tile_visible_height display_height tile_id tiles_x tile_height =
    visible_extent display_height (tile_start_y tile_id tiles_x tile_height) tile_height

-- wd_tile_id_for_pixel; `none` is `return false`.
pub tile_id_for_pixel : ℕ → ℕ → ℕ → ℕ → ℕ → ℕ → Option ℕ
tile_id_for_pixel x y tiles_x total_tiles tile_width tile_height =
    if tiles_x == 0 || (total_tiles == 0 || (tile_width == 0 || tile_height == 0))
    then none
    else (let tile_x = x / tile_width in
        let tile_y = y / tile_height in
        let tile_id = u64 (tile_y * tiles_x + tile_x) in
        if leb tiles_x tile_x || (leb total_tiles tile_id || ltb u16_max tile_id)
        then none
        else some (u16 tile_id))

-- wd_tile_layout_is_valid; WD_BYTES_PER_PIXEL and sizeof(uint32_t) are 4.
pub layout_is_valid : ℕ → ℕ → ℕ → ℕ → ℕ → ℕ → ℕ → Bool
unfolding tile_id_valid_for total_tiles_for_size tiles_for_width
layout_is_valid framebuffer_width framebuffer_height tiles_x total_tiles tile_id tile_width
      tile_height =
    if tile_width == 0
      || (tile_height == 0
          || (not (tile_id_valid_for tile_id total_tiles)
              || (tiles_x /= tiles_for_width framebuffer_width tile_width
                  || total_tiles
                    /= total_tiles_for_size framebuffer_width framebuffer_height tile_width
                        tile_height)))
    then false
    else leb (u64 (tile_width * tile_height * 4)) u32_max
      && leb (u64 (framebuffer_width * framebuffer_height)) (size_max / 4)
