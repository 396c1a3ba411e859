-- ===== src/Tile/Choice.antt =====
-- The choice of the dirty region that is sent next, wd_tile_select_local_region_index of
-- src/server/wd_tile_policy.c: the one nearest to the cursor, unless another one waits too long.
pub mod Nearest
use waydisplay.Prelude.{
  ltb, leb, ◌==◌, ◌/=◌, if◌then◌else◌, get_or, u32, ℕ, ◌+◌, ◌-◌, ◌/◌, ◌%◌, Bool, ◌&&◌, ◌||◌, Option,
  none, some, List, [], ◌∷◌,
}

-- The arguments beside the regions; `none` is a null pointer.
pub record Choice : Type 0 where
  pub regions_x : ℕ
  pub cursor_region_id : ℕ
  pub region_enqueued_ns : Option (List ℕ)
  pub region_capacity : ℕ
  pub now_ns : ℕ
  pub starvation_ns : ℕ

-- wd_tile_region_distance, for a grid that has columns.
unfoldable pub region_distance : ℕ → ℕ → ℕ → ℕ
region_distance lhs rhs regions_x =
    let lhs_x = lhs % regions_x in
    let lhs_y = lhs / regions_x in
    let rhs_x = rhs % regions_x in
    let rhs_y = rhs / regions_x in
    let dx = if ltb rhs_x lhs_x then lhs_x - rhs_x else rhs_x - lhs_x in
    let dy = if ltb rhs_y lhs_y then lhs_y - rhs_y else rhs_y - lhs_y in u32 (dx + dy)

-- When a region was queued, 0 where that is not known.
unfoldable pub queued_ns : Choice → ℕ → ℕ
queued_ns c region_id = elim c.region_enqueued_ns [
  | none ↦ 0
  | some times ↦ if ltb region_id c.region_capacity then get_or times region_id 0 else 0
]

-- A loop on the regions from index `i` on, whose variables are an index and a number.
abbrev pub scan_from : (ℕ → ℕ → ℕ × ℕ → ℕ × ℕ) → List ℕ → ℕ → ℕ × ℕ → ℕ × ℕ
scan_from step [] i st = st
scan_from step (region_id ∷ rest) i st = scan_from step rest (i + 1) (step region_id i st)

-- The body of the loop for the oldest region.
unfoldable pub oldest_step : Choice → ℕ → ℕ → ℕ × ℕ → ℕ × ℕ
oldest_step c region_id i (oldest_index, oldest_ns) =
    let queued = queued_ns c region_id in
    if queued /= 0 && (oldest_ns == 0 || ltb queued oldest_ns)
    then (i, queued)
    else (oldest_index, oldest_ns)

-- The body of the loop for the nearest region.
unfoldable pub nearest_step : Choice → List ℕ → ℕ → ℕ → ℕ × ℕ → ℕ × ℕ
nearest_step c region_ids region_id i (best_index, best_distance) =
    let distance = region_distance region_id c.cursor_region_id c.regions_x in
    let best_id = get_or region_ids best_index 0 in
    let best_queued = queued_ns c best_id in
    let queued = queued_ns c region_id in
    if ltb distance best_distance
    then (i, distance)
    else if distance == best_distance
        && ((queued /= 0 && (best_queued == 0 || ltb queued best_queued))
            || (queued == best_queued && ltb region_id best_id))
    then (i, best_distance)
    else (best_index, best_distance)

-- Whether the oldest region has waited for the longest time allowed.
unfoldable pub is_starved : Choice → ℕ → Bool
is_starved c oldest_ns =
    c.starvation_ns /= 0
    && (oldest_ns /= 0 && (leb oldest_ns c.now_ns && leb c.starvation_ns (c.now_ns - oldest_ns)))

unfoldable pub oldest_region : Choice → ℕ → List ℕ → ℕ × ℕ
unfolding oldest_step
oldest_region c first rest = scan_from (oldest_step c) rest 1 (0, queued_ns c first)

unfoldable pub nearest_region : Choice → ℕ → List ℕ → ℕ × ℕ
unfolding nearest_step
nearest_region c first rest =
    scan_from (nearest_step c (first ∷ rest)) rest 1
      (0, region_distance first c.cursor_region_id c.regions_x)

-- wd_tile_select_local_region_index; `none` is SIZE_MAX.
unfoldable pub select_local_region_index : Choice → List ℕ → Option ℕ
unfolding oldest_region nearest_region is_starved
select_local_region_index c [] = none
select_local_region_index c (first ∷ rest) =
    let oldest = oldest_region c first rest in
    if c.regions_x == 0
    then none
    else if is_starved c oldest.1
    then some oldest.0
    else some (nearest_region c first rest).0
