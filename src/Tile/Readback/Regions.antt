-- ===== src/Tile/Readback/Regions.antt =====
-- The regions of the readback plan: what merging or appending a run does to the pixels they cover.
use waydisplay.Prelude.{
  ltb, leb, ◌==◌, Bool-cases, Option-cases, length, All, length-append, u32_max, u32, ℕ, suc, ◌+◌,
  ◌*◌, ◌≤◌, ◌<◌, ◌≡◌, refl, ap, subst, inl, inr, Bool, true, false, ◌&&◌, some, List, [], ◌∷◌, ◌++◌,
  arith,
}
use waydisplay.Tile.Readback.{int_max, merge_region, add_region, row_count, Region, Request, Scan}

-- A grid of tiles whose right and bottom ends, like the size of the framebuffer, are `int`s.
pub record Fits (q : Request) : Type 0 where
  pub columns : 0 < q.tiles_x
  pub tile_width_pos : 0 < q.tile_width
  pub tile_height_pos : 0 < q.tile_height
  pub total : q.total_tiles + q.tiles_x ≤ u32_max
  pub right : q.tiles_x * q.tile_width ≤ int_max
  pub bottom : row_count q * q.tile_height ≤ int_max
  pub max_width_pos : 0 < q.max_width
  pub max_width_fits : q.max_width ≤ int_max
  pub max_height_pos : 0 < q.max_height
  pub max_height_fits : q.max_height ≤ int_max

abbrev pub bit : Bool → ℕ
bit true = 1
bit false = 0

abbrev pub inside : Region → ℕ → ℕ → Bool
inside r px py = leb r.x px && (ltb px (r.x + r.width) && (leb r.y py && ltb py (r.y + r.height)))

-- The number of the regions that contain the pixel.
unfoldable pub covering : List Region → ℕ → ℕ → ℕ
covering [] px py = 0
covering (r ∷ rest) px py = bit (inside r px py) + covering rest px py

-- The region lies in the framebuffer and is not empty.
abbrev pub Fine : Request → Region → Type 0
Fine q r =
    (0 < r.width) × (0 < r.height) × (r.x + r.width ≤ q.max_width) × (r.y + r.height ≤ q.max_height)

-- What adding the run does to the regions: one more of them contains each pixel of the run.
abbrev pub Adds : Request → Region → List Region → List Region → Type 0
Adds q run before after =
    All (Fine q) after
    × ((px py : ℕ) → covering after px py ≡ covering before px py + bit (inside run px py))

module _ (q : Request) (fits : Fits q) (run : Region) (fine : Fine q run) where
  open fits use {max_width_fits, max_height_fits}

  grow_region :
      (r : Region)
      → Fine q r
      → r.x ≡ run.x
      → r.width ≡ run.width
      → u32 (r.y + r.height) ≡ run.y
      → Fine q (record r { height = u32 (r.height + run.height) })
        × ((px py : ℕ)
            → bit (inside (record r { height = u32 (r.height + run.height) }) px py)
              ≡ bit (inside r px py) + bit (inside run px py))
  grow_region r (a, b, c, d) ex ew ey =
      let (a', b', c', d') = fine in ((a, omega arith, c, omega arith), λ px py. ground arith)

  abbrev Merges : List Region → List Region → Type 0
  Merges regions merged = (length merged ≡ length regions) × Adds q run regions merged

  some_injective : (a b : List Region) → some a ≡ some b → a ≡ b
  some_injective a b e = ground (arith, e)

  pub merge-Adds :
      (regions merged : List Region)
      → All (Fine q) regions
      → merge_region run regions ≡ some merged
      → Merges regions merged
  unfolding merge_region covering
  merge-Adds [] merged h e = ground arith
  merge-Adds (r ∷ rest) merged (f, h) e =
      elim (Bool-cases (r.x == run.x && (r.width == run.width && u32 (r.y + r.height) == run.y))) [
        | inl same ↦
            let (f', one) = grow_region r f (ground arith) (ground arith) (ground arith) in
            subst (Merges (r ∷ rest)) (some_injective _ merged (rw same at e))
              (refl, ((f', h), λ px py. omega (arith, one px py)))
        | inr other ↦ elim (Option-cases (merge_region run rest)) [
          | inl stop ↦ absurd (ground (arith, rw (other, stop) at e))
          | inr (later, found) ↦
              let (len, (all, count)) = merge-Adds rest later h found in
              subst (Merges (r ∷ rest)) (some_injective _ merged (rw (other, found) at e))
                (ap suc len, ((f, all), λ px py. omega (arith, count px py)))
        ]
      ]

  pub append-Adds :
      (regions : List Region) → All (Fine q) regions → Adds q run regions (regions ++ run ∷ [])
  unfolding covering
  append-Adds [] h = ((fine, tt), λ px py. omega arith)
  append-Adds (r ∷ rest) (f, h) =
      let (all, count) = append-Adds rest h in ((f, all), λ px py. omega (arith, count px py))

merge_some : (run : Region) (l m : List Region) → merge_region run l ≡ some m → 0 < length l
unfolding merge_region
merge_some run [] m e = absurd (ground (arith, e))
merge_some run (_ ∷ _) m e = omega arith

-- A run added to the regions of a scan, which keeps the bounds.
pub record Added (q : Request) (run : Region) (s t : Scan) : Type 0 where
  pub fine : All (Fine q) t.regions
  pub room : length t.regions ≤ q.region_capacity
  pub some_region : 0 < length t.regions
  pub counts : t.overflowed ≡ false → (s.overflowed ≡ false) × Adds q run s.regions t.regions
  pub x1_kept : t.bound_x1 ≡ s.bound_x1
  pub y1_kept : t.bound_y1 ≡ s.bound_y1
  pub x2_kept : t.bound_x2 ≡ s.bound_x2
  pub y2_kept : t.bound_y2 ≡ s.bound_y2

pub add_region-Added :
    (q : Request) (fits : Fits q) (run : Region) (fine : Fine q run) (s : Scan)
    → 0 < q.region_capacity
    → All (Fine q) s.regions
    → length s.regions ≤ q.region_capacity
    → Added q run s (add_region q.region_capacity run s)
unfolding add_region
add_region-Added q fits run fine s pos all room = elim (Option-cases (merge_region run s.regions)) [
  | inl none_fits ↦ elim (Bool-cases (leb q.region_capacity (length s.regions))) [
    | inl at_end ↦
        rw (add_region, none_fits, at_end)
          record {
            fine = all;
            room = room;
            some_region = ground arith;
            counts = λ e. absurd (ground (arith, e));
            x1_kept = refl;
            y1_kept = refl;
            x2_kept = refl;
            y2_kept = refl;
          }
    | inr before ↦
        let adds = append-Adds q fits run fine s.regions all in
        let len = length-append s.regions (run ∷ []) in
        rw (add_region, none_fits, before)
          record {
            fine = adds.0;
            room = ground (arith, len);
            some_region = omega (arith, len);
            counts = λ e. (e, adds);
            x1_kept = refl;
            y1_kept = refl;
            x2_kept = refl;
            y2_kept = refl;
          }
  ]
  | inr (merged, found) ↦
      let (len, adds) = merge-Adds q fits run fine s.regions merged all found in
      let more : 0 < length s.regions = merge_some run s.regions merged found in
      rw (add_region, found)
        record {
          fine = adds.0;
          room = omega (arith, len);
          some_region = omega (arith, len, more);
          counts = λ e. (e, adds);
          x1_kept = refl;
          y1_kept = refl;
          x2_kept = refl;
          y2_kept = refl;
        }
]
