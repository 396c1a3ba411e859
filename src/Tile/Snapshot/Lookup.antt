-- ===== src/Tile/Snapshot/Lookup.antt =====
-- A snapshot as a map from tiles to their last entry.
use waydisplay.Prelude.{
  ◌==◌, if◌then◌else◌, le→leb, lt→leb, Option-cases, length, ℕ, ◌≤◌, ◌<◌, ◌≡◌, refl, sym, ◌∙◌, ◌↔◌,
  ◌⊎◌, inl, inr, Bool, true, false, none, some, List, [], ◌∷◌, arith,
}
use waydisplay.Tile.Snapshot.{
  max_base_tiles, put_entry, snapshot_add, find_entry, snapshot_lookup, any_selected, SnapshotEntry,
  Snapshot,
}

find-put :
    (es : List SnapshotEntry) (new : SnapshotEntry) (id : ℕ)
    → find_entry (put_entry es new) id
      ≡ (if id == new.base_tile_id then some (new.selected, new.dirty_epoch) else find_entry es id)
unfolding find_entry put_entry
find-put [] new id = ground arith
find-put (e ∷ es) new id = ground (arith, find-put es new id)

-- An addition is the update of a map: afterwards the tile has the new entry, and every other tile
-- the one that it had. Only a full snapshot refuses it, and then stays as it is.
pub lookup-add :
    (s : Snapshot) (id : ℕ) (selected : Bool) (epoch other : ℕ)
    → let (s', added) = snapshot_add s id selected epoch in
      ((added ≡ true)
        × (length s.entries < max_base_tiles)
        × (snapshot_lookup s' other
            ≡ (if other == id then some (selected, epoch) else snapshot_lookup s other)))
      ⊎ ((added ≡ false) × (max_base_tiles ≤ length s.entries) × (s' ≡ s))
unfolding snapshot_add snapshot_lookup
lookup-add s id selected epoch other = elim (room max_base_tiles (length s.entries)) [
  | inl lt ↦ rw (lt→leb _ _ lt) (inl (refl, lt, find-put s.entries _ other))
  | inr le ↦ rw (le→leb _ _ le) (inr (refl, le, refl))
]
  where
    room : (a b : ℕ) → (b < a) ⊎ (a ≤ b)
    room a b = omega arith

-- One of the tiles is selected in the snapshot.
pub data Selected (s : Snapshot) : List ℕ → Type 0 where
  first :
      {id : ℕ} {ids : List ℕ} (epoch : ℕ)
      → snapshot_lookup s id ≡ some (true, epoch)
      → Selected s (id ∷ ids)
  later : {id : ℕ} {ids : List ℕ} → Selected s ids → Selected s (id ∷ ids)

any_selected-cons :
    (s : Snapshot) (id : ℕ) (ids : List ℕ)
    → (any_selected s ids ≡ true) ↔ Selected s ids
    → (snapshot_lookup s id ≡ none) ⊎ ((a : Bool × ℕ) × (snapshot_lookup s id ≡ some a))
    → (any_selected s (id ∷ ids) ≡ true) ↔ Selected s (id ∷ ids)
unfolding any_selected
any_selected-cons s id ids h (inl e) = rw (any_selected, e) (λ t. later (h.0 t), back)
  where
    back : Selected s (id ∷ ids) → any_selected s ids ≡ true
    back (first epoch f) = absurd (ground (arith, sym e ∙ f))
    back (later t) = h.1 t
any_selected-cons s id ids h (inr ((true, epoch), e)) =
    rw (any_selected, e) (λ t. first epoch e, λ t. refl)
any_selected-cons s id ids h (inr ((false, epoch), e)) =
    rw (any_selected, e) (λ t. later (h.0 t), back)
  where
    back : Selected s (id ∷ ids) → any_selected s ids ≡ true
    back (first epoch' f) = ground (arith, sym e ∙ f)
    back (later t) = h.1 t

-- A snapshot reports a selected tile exactly when one of the given tiles is in it as selected.
pub any_selected_exact :
    (s : Snapshot) (ids : List ℕ) → (any_selected s ids ≡ true) ↔ Selected s ids
unfolding any_selected
any_selected_exact s [] = (λ h. absurd (ground arith), λ h. elim h [ ])
any_selected_exact s (id ∷ ids) =
    any_selected-cons s id ids (any_selected_exact s ids) (Option-cases (snapshot_lookup s id))
