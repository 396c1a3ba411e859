-- ===== src/Tile/Tests.antt =====
-- The theorems at concrete inputs: a framebuffer of 100 by 50 pixels in tiles of 16 by 16.
use waydisplay.Prelude.{
  ◌==◌, if◌then◌else◌, length, get_or, All, ℕ, ◌≤◌, ◌<◌, ◌≡◌, refl, ◌↔◌, ◌⊎◌, Bool, true, false,
  some, List, [], ◌∷◌, arith,
}
use waydisplay.Tile.{
  tiles_for_width, tiles_for_height, total_tiles_for_size, tile_x_for, tile_y_for, tile_start_x,
  tile_start_y, tile_visible_width, tile_visible_height, tile_id_for_pixel,
}
use waydisplay.Tile.Partition.{Shows, pixel_has_tile, tile_of_pixel_unique}
use waydisplay.Tile.Readback.{plan_damage, plan_regions, Request}
use waydisplay.Tile.Readback.Regions.{Fits}
use waydisplay.Tile.Readback.Exact.{readback_exact, ReadsDamage}
use waydisplay.Tile.Delivery.Reports.{delivery_reported_once}
use waydisplay.Tile.Delivery.{run_calls, no_delivery, Call, add, complete, seal}
use waydisplay.Tile.Choice.{
  region_distance, queued_ns, is_starved, select_local_region_index, Choice,
}
use waydisplay.Tile.Choice.Nearest.{NoLater, choice_exact}
use waydisplay.Tile.Snapshot.{max_base_tiles, snapshot_add, snapshot_lookup, any_selected, Snapshot}
use waydisplay.Tile.Snapshot.Lookup.{lookup-add, any_selected_exact, Selected}

abbrev HasTile : ℕ → ℕ → Type 0
HasTile x y =
    (id : ℕ) × (tile_id_for_pixel x y (tiles_for_width 100 16) (total_tiles_for_size 100 50 16 16)
        16 16
      ≡ some id)
    × (id < total_tiles_for_size 100 50 16 16)
    × Shows 100 50 16 16 id (tiles_for_width 100 16) x y

pixel_has_tile_example : HasTile 97 20
unfolding total_tiles_for_size tiles_for_width tiles_for_height
pixel_has_tile_example =
    pixel_has_tile 100 50 16 16 97 20 (omega arith) (omega arith) (omega arith) (omega arith)
      (omega arith)

tile_of_pixel_unique_example :
    tile_id_for_pixel 97 20 (tiles_for_width 100 16) (total_tiles_for_size 100 50 16 16) 16 16
    ≡ some 13
unfolding total_tiles_for_size tiles_for_width tiles_for_height tile_start_x tile_start_y
    tile_visible_width tile_visible_height tile_x_for tile_y_for
tile_of_pixel_unique_example =
    tile_of_pixel_unique 100 50 16 16 97 20 (omega arith) (omega arith) (omega arith) (omega arith)
      (omega arith) 13 (omega arith) (omega arith, omega arith, omega arith, omega arith)

abbrev dirty : Snapshot
dirty = record {
  entries =
      record { base_tile_id = 4; dirty_epoch = 11; selected = false }
      ∷ record { base_tile_id = 9; dirty_epoch = 12; selected = true }
      ∷ [];
}

lookup-add_test :
    (((snapshot_add dirty 4 true 13).1 ≡ true)
      × (length dirty.entries < max_base_tiles)
      × (snapshot_lookup (snapshot_add dirty 4 true 13).0 9
          ≡ (if 9 == 4 then some (true, 13) else snapshot_lookup dirty 9)))
    ⊎ (((snapshot_add dirty 4 true 13).1 ≡ false)
        × (max_base_tiles ≤ length dirty.entries)
        × ((snapshot_add dirty 4 true 13).0 ≡ dirty))
lookup-add_test = lookup-add dirty 4 true 13 9

any_selected_exact_test : (any_selected dirty (4 ∷ 9 ∷ []) ≡ true) ↔ Selected dirty (4 ∷ 9 ∷ [])
any_selected_exact_test = any_selected_exact dirty (4 ∷ 9 ∷ [])

abbrev damage_map : List Bool
damage_map =
    false ∷ true ∷ true ∷ false ∷ false ∷ true ∷ true ∷ false ∷ true ∷ false ∷ false ∷ true ∷ []

-- A framebuffer of 60 by 40 pixels in tiles of 16 by 16.
abbrev readback_request : ℕ → Request
readback_request capacity = record {
  full_damage = false;
  damage_tiles = some damage_map;
  damage_tile_count = 6;
  total_tiles = 12;
  tiles_x = 4;
  tile_width = 16;
  tile_height = 16;
  max_width = 60;
  max_height = 40;
  region_capacity = capacity;
}

readback_request-Fits : (capacity : ℕ) → Fits (readback_request capacity)
readback_request-Fits capacity = record {
  columns = omega arith;
  tile_width_pos = omega arith;
  tile_height_pos = omega arith;
  total = omega arith;
  right = omega arith;
  bottom = omega arith;
  max_width_pos = omega arith;
  max_width_fits = omega arith;
  max_height_pos = omega arith;
  max_height_fits = omega arith;
}

-- The two rows of damaged tiles are one rectangle.
merged_rows_test :
    plan_regions (readback_request 8)
    ≡ some (
      record { x = 16; y = 0; width = 32; height = 32 }
          ∷ record { x = 0; y = 32; width = 16; height = 8 }
          ∷ record { x = 48; y = 32; width = 12; height = 8 }
          ∷ [],
      false,
    )
unfolding plan_regions
merged_rows_test = refl

-- Three rectangles do not fit two places.
bounding_box_test :
    plan_regions (readback_request 2)
    ≡ some (record { x = 0; y = 0; width = 60; height = 40 } ∷ [], true)
unfolding plan_regions
bounding_box_test = refl

readback_exact_example :
    (plan_regions (readback_request 8) ≡ some (plan_damage (readback_request 8)))
    × ReadsDamage (readback_request 8) damage_map (plan_damage (readback_request 8))
readback_exact_example =
    readback_exact (readback_request 8) (readback_request-Fits 8) damage_map (omega arith) refl

-- A tile is sent before the frame is sealed, and fails; there is a completion too many.
abbrev delivery_calls : List Call
delivery_calls =
    add ∷ add ∷ complete false ∷ add ∷ seal ∷ complete true ∷ complete true ∷ complete true ∷ []

delivery_test : (run_calls no_delivery delivery_calls).1 ≡ true ∷ []
unfolding run_calls
delivery_test = refl

delivery_reported_once_example : (run_calls no_delivery delivery_calls).1 ≡ true ∷ []
delivery_reported_once_example =
    delivery_reported_once delivery_calls
      (refl, omega arith, (refl, omega arith, (refl, omega arith, (refl, tt))))

-- Eight regions in rows of four; the cursor is in region 5.
abbrev region_choice : Choice
region_choice = record {
  regions_x = 4;
  cursor_region_id = 5;
  region_enqueued_ns = some (90 ∷ 0 ∷ 70 ∷ 0 ∷ 0 ∷ 0 ∷ 80 ∷ 60 ∷ []);
  region_capacity = 8;
  now_ns = 100;
  starvation_ns = 50;
}

nearest_test : select_local_region_index region_choice (0 ∷ 2 ∷ 6 ∷ 7 ∷ []) ≡ some 2
unfolding select_local_region_index region_distance queued_ns
nearest_test = refl

starved_test :
    select_local_region_index (record region_choice { now_ns = 110 }) (0 ∷ 2 ∷ 6 ∷ 7 ∷ []) ≡ some 3
unfolding select_local_region_index region_distance queued_ns
starved_test = refl

abbrev ChoiceIs : ℕ → List ℕ → Type 0
ChoiceIs head rest =
    let c = region_choice in
    (i : ℕ) × (select_local_region_index c (head ∷ rest) ≡ some i)
    × (i < length (head ∷ rest))
    × (((is_starved c (queued_ns c (get_or (head ∷ rest) i 0)) ≡ true)
          × All (λ id. NoLater (queued_ns c (get_or (head ∷ rest) i 0)) (queued_ns c id))
              (head ∷ rest))
        ⊎ (All (λ id. is_starved c (queued_ns c id) ≡ false) (head ∷ rest)
            × All (λ id. region_distance (get_or (head ∷ rest) i 0) 5 4 ≤ region_distance id 5 4)
                (head ∷ rest)))

choice_exact_example : ChoiceIs 0 (2 ∷ 6 ∷ 7 ∷ [])
choice_exact_example = choice_exact region_choice 0 (2 ∷ 6 ∷ 7 ∷ []) (λ z. omega (arith, z))
