-- ===== src/Tile/Snapshot.antt =====
-- src/server/wd_tile_work_snapshot.c: which base tiles a unit of work covers, with the epoch of
-- each. `entries` are the first `count` entries of the array; the snapshot is not null.
pub mod Lookup
use waydisplay.Prelude.{
  leb, ◌==◌, ◌/=◌, if◌then◌else◌, length, ℕ, ◌*◌, ◌/◌, Bool, true, false, Option, none, some, List,
  [], ◌∷◌,
}

-- WD_WIRE_TILE_MAX_BASE_TILES
abbrev pub max_base_tiles : ℕ
max_base_tiles = (128 / 16) * (64 / 16)

-- struct wd_tile_work_snapshot_entry
pub record SnapshotEntry : Type 0 where
  pub base_tile_id : ℕ
  pub dirty_epoch : ℕ
  pub selected : Bool

-- struct wd_tile_work_snapshot
pub record Snapshot : Type 0 where
  pub entries : List SnapshotEntry

-- wd_tile_work_snapshot_reset
pub snapshot_reset : Snapshot → Snapshot
snapshot_reset s = record { entries = [] }

-- The loop of wd_tile_work_snapshot_add and the new entry behind it.
pub put_entry : List SnapshotEntry → SnapshotEntry → List SnapshotEntry
put_entry [] new = new ∷ []
put_entry (e ∷ es) new =
    let rest = put_entry es new in if e.base_tile_id == new.base_tile_id then new ∷ es else e ∷ rest

-- wd_tile_work_snapshot_add
pub snapshot_add : Snapshot → ℕ → Bool → ℕ → Snapshot × Bool
unfolding put_entry
snapshot_add s base_tile_id selected dirty_epoch =
    if leb max_base_tiles (length s.entries) then (s, false) else (
      record {
        entries = put_entry s.entries (record {
          base_tile_id = base_tile_id;
          dirty_epoch = dirty_epoch;
          selected = selected;
        });
      },
      true,
    )

-- The loop of wd_tile_work_snapshot_lookup.
pub find_entry : List SnapshotEntry → ℕ → Option (Bool × ℕ)
find_entry [] base_tile_id = none
find_entry (e ∷ es) base_tile_id =
    let rest = find_entry es base_tile_id in
    if e.base_tile_id /= base_tile_id then rest else some (e.selected, e.dirty_epoch)

-- wd_tile_work_snapshot_lookup: whether the tile is selected, and its epoch.
pub snapshot_lookup : Snapshot → ℕ → Option (Bool × ℕ)
unfolding find_entry
snapshot_lookup s base_tile_id = find_entry s.entries base_tile_id

-- wd_tile_work_snapshot_any_selected
pub any_selected : Snapshot → List ℕ → Bool
any_selected s [] = false
any_selected s (base_tile_id ∷ ids) =
    let rest = any_selected s ids in
    elim (snapshot_lookup s base_tile_id) [
      | none ↦ rest
      | some (selected, _) ↦ if selected then true else rest
    ]
