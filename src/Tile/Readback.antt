-- ===== src/Tile/Readback.antt =====
-- The readback plan of src/server/wd_readback_regions.c: the rectangles of the framebuffer that are
-- read back, from the tiles that are damaged. An `int` is the word of 32 bits that represents it.
pub mod Regions
pub mod Runs
pub mod Covers
pub mod Loops
pub mod Exact
use mathlib.Core.Option
use waydisplay.Prelude.{
  ltb, leb, ◌==◌, if◌then◌else◌, length, get_or, u32, sub32, ℕ, zero, suc, ◌+◌, ◌-◌, ◌*◌, ◌/◌, Bool,
  true, false, not, ◌&&◌, ◌||◌, Option, none, some, List, [], ◌∷◌, ◌++◌,
}

abbrev pub int_max : ℕ
int_max = 0x7fff_ffff

-- `a < b` on `int`.
abbrev pub int_lt : ℕ → ℕ → Bool
int_lt a b = ltb (u32 (a + 0x8000_0000)) (u32 (b + 0x8000_0000))

-- struct wd_readback_region
pub record Region : Type 0 where
  pub x : ℕ
  pub y : ℕ
  pub width : ℕ
  pub height : ℕ

-- The arguments of wd_readback_plan_regions that do not change; `none` is a null pointer.
pub record Request : Type 0 where
  pub full_damage : Bool
  pub damage_tiles : Option (List Bool)
  pub damage_tile_count : ℕ
  pub total_tiles : ℕ
  pub tiles_x : ℕ
  pub tile_width : ℕ
  pub tile_height : ℕ
  pub max_width : ℕ
  pub max_height : ℕ
  pub region_capacity : ℕ

-- The local variables of the scan, and the regions that it has written.
pub record Scan : Type 0 where
  pub bound_x1 : ℕ
  pub bound_y1 : ℕ
  pub bound_x2 : ℕ
  pub bound_y2 : ℕ
  pub regions : List Region
  pub overflowed : Bool

-- `damage_tiles[tile_id]` within the total.
unfoldable pub tile_is_damaged : Request → List Bool → ℕ → Bool
tile_is_damaged q damage tile_id =
    if leb q.total_tiles tile_id || not (get_or damage tile_id false) then false else true

-- The end of the run of damaged tiles that starts at the column, of which `left` columns are left.
unfoldable pub run_end : Request → List Bool → ℕ → ℕ → ℕ → ℕ
run_end q damage row zero column = column
run_end q damage row (suc left) column =
    let rest = run_end q damage row left (column + 1) in
    if tile_is_damaged q damage (u32 (row * q.tiles_x + column)) then rest else column

-- The first region that the run continues below grows by it.
unfoldable pub merge_region : Region → List Region → Option (List Region)
merge_region run [] = none
merge_region run (region ∷ rest) =
    let later = merge_region run rest in
    if region.x == run.x && (region.width == run.width && u32 (region.y + region.height) == run.y)
    then some (record region { height = u32 (region.height + run.height) } ∷ rest)
    else Option.map (λ l. region ∷ l) later

-- The run is merged, appended, or found to exceed the capacity.
unfoldable pub add_region : ℕ → Region → Scan → Scan
unfolding merge_region
add_region capacity run s = elim (merge_region run s.regions) [
  | some merged ↦ record s { regions = merged }
  | none ↦
      if leb capacity (length s.regions)
      then record s { overflowed = true }
      else record s { regions = s.regions ++ run ∷ [] }
]

abbrev pub clip : ℕ → ℕ → ℕ
clip limit v = if int_lt limit v then limit else v

-- The bounding rectangle of the runs grows.
abbrev pub widen : ℕ → ℕ → ℕ → ℕ → Scan → Scan
widen x1 y1 x2 y2 s = record s {
  bound_x1 = if int_lt x1 s.bound_x1 then x1 else s.bound_x1;
  bound_y1 = if int_lt y1 s.bound_y1 then y1 else s.bound_y1;
  bound_x2 = if int_lt s.bound_x2 x2 then x2 else s.bound_x2;
  bound_y2 = if int_lt s.bound_y2 y2 then y2 else s.bound_y2;
}

-- The body of the loop for the run of the columns from `run_start` up to `column`.
unfoldable pub take_run : Request → ℕ → ℕ → ℕ → Scan → Scan
unfolding add_region
take_run q row run_start column s =
    let x1 = u32 (run_start * q.tile_width) in
    let y1 = u32 (row * q.tile_height) in
    let x2 = clip q.max_width (u32 (column * q.tile_width)) in
    let y2 = clip q.max_height (u32 (y1 + q.tile_height)) in
    if not (int_lt x1 x2) || not (int_lt y1 y2)
    then s
    else add_region q.region_capacity
        (record { x = x1; y = y1; width = sub32 x2 x1; height = sub32 y2 y1 }) (widen x1 y1 x2 y2 s)

-- An iteration of the loop on the columns: the next column and the variables.
unfoldable pub visit_column : Request → List Bool → ℕ → ℕ → Scan → ℕ × Scan
unfolding take_run run_end tile_is_damaged
visit_column q damage row column s =
    let stop = run_end q damage row (q.tiles_x - column) column in
    if not (tile_is_damaged q damage (u32 (row * q.tiles_x + column)))
    then (column + 1, s)
    else (stop, take_run q row column stop s)

-- `while (column < tiles_x)`, for at most `fuel` iterations.
unfoldable pub scan_columns : Request → List Bool → ℕ → ℕ → ℕ → Scan → Scan
unfolding visit_column
scan_columns q damage row zero column s = s
scan_columns q damage row (suc fuel) column s =
    let next = visit_column q damage row column s in
    let rest = scan_columns q damage row fuel next.0 next.1 in
    if ltb column q.tiles_x then rest else s

-- `for (row = 0; row < row_count; ++row)`, of which `left` rows are left. A column is passed in
-- each iteration on the columns, so that `tiles_x` of them are enough.
unfoldable pub scan_rows : Request → List Bool → ℕ → ℕ → Scan → Scan
unfolding scan_columns
scan_rows q damage zero row s = s
scan_rows q damage (suc left) row s =
    scan_rows q damage left (row + 1) (scan_columns q damage row q.tiles_x 0 s)

abbrev pub row_count : Request → ℕ
row_count q = sub32 (u32 (q.total_tiles + q.tiles_x)) 1 / q.tiles_x

abbrev pub scan_start : Scan
scan_start = record {
  bound_x1 = int_max;
  bound_y1 = int_max;
  bound_x2 = 0;
  bound_y2 = 0;
  regions = [];
  overflowed = false;
}

abbrev pub full_region : Request → Region
full_region q = record { x = 0; y = 0; width = q.max_width; height = q.max_height }

-- `regions[0]` is the whole framebuffer, and there is no other.
abbrev pub is_full : Request → List Region → Bool
is_full q [] = false
is_full q (region ∷ []) =
    region.x == 0
    && (region.y == 0 && (region.width == q.max_width && region.height == q.max_height))
is_full q (_ ∷ _ ∷ _) = false

-- What follows the scan: the regions and `*out_full_readback`.
unfoldable pub finish_scan : Request → Scan → List Region × Bool
finish_scan q s =
    if s.bound_x1 == int_max
    then (full_region q ∷ [], true)
    else (let regions =
          if s.overflowed
          then record {
            x = s.bound_x1;
            y = s.bound_y1;
            width = sub32 s.bound_x2 s.bound_x1;
            height = sub32 s.bound_y2 s.bound_y1;
          }
            ∷ []
          else s.regions in
        (regions, is_full q regions))

-- The part of wd_readback_plan_regions behind the first guard.
unfoldable pub plan_damage : Request → List Region × Bool
unfolding scan_rows finish_scan
plan_damage q =
    let full : List Region × Bool = (full_region q ∷ [], true) in
    if q.full_damage
      || (q.damage_tile_count == 0
          || (q.total_tiles == 0 || (q.tiles_x == 0 || (q.tile_width == 0 || q.tile_height == 0))))
    then full
    else elim q.damage_tiles [
      | none ↦ full
      | some damage ↦ finish_scan q (scan_rows q damage (row_count q) 0 scan_start)
    ]

-- wd_readback_plan_regions; `none` is `return 0`, which writes nothing.
unfoldable pub plan_regions : Request → Option (List Region × Bool)
unfolding plan_damage
plan_regions q =
    if q.region_capacity == 0 || (not (int_lt 0 q.max_width) || not (int_lt 0 q.max_height))
    then none
    else some (plan_damage q)
