-- ===== src/Tile/Readback/Runs.antt =====
-- A run of damaged tiles of the readback plan, on coordinates that fit an `int`.
use native.Mathlib.Nat.{div-lt_iff_lt-mul, mul-le-mul_right}
use waydisplay.Prelude.{
  ltb, leb, if◌then◌else◌, ltb→lt, lt→ltb, Bool-cases, u32, sub32, ℕ, suc, ◌+◌, ◌-◌, ◌*◌, ◌/◌, ◌≤◌,
  ◌<◌, min, max, ◌≡◌, refl, inl, inr, not, ◌||◌, arith,
}
use waydisplay.Tile.Readback.{
  int_max, int_lt, add_region, clip, widen, take_run, row_count, Region, Request, Scan,
}
use waydisplay.Tile.Readback.Regions.{Fits}

-- The tiles left of a column are those left of its left edge.
pub before_edge : (px tile column : ℕ) → 0 < tile → ltb (px / tile) column ≡ ltb px (column * tile)
before_edge px tile column pos =
    let h = div-lt_iff_lt-mul {k = tile} {x = px} {y = column} pos in
    elim (Bool-cases (ltb px (column * tile))) [
      | inl lt ↦ rw lt (lt→ltb _ _ (h.1 (ltb→lt _ _ lt)))
      | inr ge ↦
          let m : px / tile < column → px < column * tile = h.0 in rw ge (ground (arith, m, ge))
    ]

pub from_edge : (px tile column : ℕ) → 0 < tile → leb column (px / tile) ≡ leb (column * tile) px
from_edge px tile column pos = ground (arith, before_edge px tile column pos)

pub int_lt_value : (a b : ℕ) → a ≤ int_max → b ≤ int_max → int_lt a b ≡ ltb a b
int_lt_value a b ha hb = ground arith

-- The rectangle of a run: its left edge and its ends before they are clipped.
abbrev pub rect : Request → ℕ → ℕ → ℕ → ℕ → Region
rect q x y x2 y2 = record {
  x = x;
  y = y;
  width = min q.max_width x2 - x;
  height = min q.max_height y2 - y;
}

abbrev pub grown : ℕ → ℕ → ℕ → ℕ → Scan → Scan
grown x1 y1 x2 y2 s = record s {
  bound_x1 = min x1 s.bound_x1;
  bound_y1 = min y1 s.bound_y1;
  bound_x2 = max s.bound_x2 x2;
  bound_y2 = max s.bound_y2 y2;
}

abbrev pub BoundsFit : Scan → Type 0
BoundsFit s =
    (s.bound_x1 ≤ int_max)
    × (s.bound_y1 ≤ int_max)
    × (s.bound_x2 ≤ int_max)
    × (s.bound_y2 ≤ int_max)

pick_min : (a b : ℕ) → (if ltb a b then a else b) ≡ min a b
pick_min a b = ground arith

pick_max : (a b : ℕ) → (if ltb a b then b else a) ≡ max a b
pick_max a b = ground arith

widen_value :
    (x1 y1 x2 y2 : ℕ) (s : Scan)
    → BoundsFit s
    → x1 ≤ int_max
    → y1 ≤ int_max
    → x2 ≤ int_max
    → y2 ≤ int_max
    → widen x1 y1 x2 y2 s ≡ grown x1 y1 x2 y2 s
widen_value x1 y1 x2 y2 s (a, b, c, d) fx1 fy1 fx2 fy2 =
    rw
      (
        int_lt_value x1 s.bound_x1 fx1 a,
        int_lt_value y1 s.bound_y1 fy1 b,
        int_lt_value s.bound_x2 x2 c fx2,
        int_lt_value s.bound_y2 y2 d fy2,
      )
      (rw
        (
          pick_min x1 s.bound_x1,
          pick_min y1 s.bound_y1,
          pick_max s.bound_x2 x2,
          pick_max s.bound_y2 y2,
        )
        refl)

clip_value : (limit v : ℕ) → limit ≤ int_max → v ≤ int_max → clip limit (u32 v) ≡ min limit v
clip_value limit v hl hv = ground arith

u32_value : (v : ℕ) → v ≤ int_max → u32 v ≡ v
u32_value v h = omega arith

pub sub32_value : (a b : ℕ) → b ≤ a → a ≤ int_max → sub32 a b ≡ a - b
sub32_value a b le fits = omega arith

not_lt : (a b : ℕ) → a ≤ int_max → b ≤ int_max → not (int_lt a b) ≡ leb b a
not_lt a b ha hb = ground arith

module _ (q : Request) (fits : Fits q) (row start stop : ℕ) (s : Scan) (row_lt : row < row_count q)
    (order : start < stop) (ends : stop ≤ q.tiles_x) (bounds : BoundsFit s) where
  open fits use {right, bottom, max_width_fits, max_height_fits}

  abbrev x1 : ℕ
  x1 = start * q.tile_width

  abbrev y1 : ℕ
  y1 = row * q.tile_height

  abbrev x2 : ℕ
  x2 = stop * q.tile_width

  abbrev y2 : ℕ
  y2 = row * q.tile_height + q.tile_height

  -- A run is dropped if nothing of it shows, and else its rectangle is added.
  pub take_run_value : take_run q row start stop s ≡ (
      if leb (min q.max_width x2) x1 || leb (min q.max_height y2) y1
      then s
      else add_region q.region_capacity
          (rect q x1 y1 x2 y2)
          (grown x1 y1 (min q.max_width x2) (min q.max_height y2) s))
  unfolding take_run
  take_run_value =
      let a : x1 ≤ x2 = mul-le-mul_right q.tile_width (omega arith) in
      let b : x2 ≤ q.tiles_x * q.tile_width = mul-le-mul_right q.tile_width ends in
      let c : suc row * q.tile_height ≤ row_count q * q.tile_height =
        mul-le-mul_right q.tile_height row_lt in
      let d : min q.max_width x2 ≤ int_max = omega arith in
      let e : min q.max_height y2 ≤ int_max = omega arith in
      let fx : x1 ≤ int_max = omega arith in
      let fy : y1 ≤ int_max = omega arith in
      rw
        (
          u32_value x1 fx,
          u32_value y1 fy,
          clip_value q.max_width x2 max_width_fits (omega arith),
          clip_value q.max_height y2 max_height_fits (omega arith),
          not_lt x1 (min q.max_width x2) fx d,
          not_lt y1 (min q.max_height y2) fy e,
          widen_value x1 y1 (min q.max_width x2) (min q.max_height y2) s bounds fx fy d e,
        )
        (elim (Bool-cases (leb (min q.max_width x2) x1 || leb (min q.max_height y2) y1)) [
          | inl hidden ↦ rw hidden refl
          | inr shown ↦
              rw
                (
                  shown,
                  sub32_value (min q.max_width x2) x1 (ground arith) d,
                  sub32_value (min q.max_height y2) y1 (ground arith) e,
                )
                refl
        ])
