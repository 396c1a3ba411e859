-- ===== src/Tile/Delivery.antt =====
-- The delivery status of the tiles of a frame, in src/server/wd_tile_policy.c: whether all of them
-- are sent, and whether one has failed.
pub mod Reports
use waydisplay.Prelude.{
  ◌==◌, ◌/=◌, if◌then◌else◌, u32_max, u32, sub32, ℕ, ◌+◌, ◌<◌, ◌≡◌, Bool, true, false, not, ◌||◌,
  Option, none, some, List, [], ◌∷◌,
}

-- struct wd_tile_delivery_status
pub record Status : Type 0 where
  pub pending : ℕ
  pub sealed : Bool
  pub failed : Bool

-- wd_tile_delivery_status_ready: `some failed` is `true` with *out_failed.
unfoldable pub status_ready : Status → Option Bool
status_ready s = if not s.sealed || s.pending /= 0 then none else some s.failed

-- wd_tile_delivery_status_add
unfoldable pub status_add : Status → Status
status_add s = record s { pending = u32 (s.pending + 1) }

-- wd_tile_delivery_status_complete
unfoldable pub status_complete : Status → Bool → Status × Option Bool
unfolding status_ready
status_complete s success =
    let t : Status = record s { pending = sub32 s.pending 1; failed = s.failed || not success } in
    if s.pending == 0 then (s, none) else (t, status_ready t)

-- wd_tile_delivery_status_seal
unfoldable pub status_seal : Status → Status × Option Bool
unfolding status_ready
status_seal s = let t : Status = record s { sealed = true } in (t, status_ready t)

-- The calls for one frame.
pub data Call : Type 0 where
  add : Call
  complete : Bool → Call
  seal : Call

unfoldable pub call_status : Status → Call → Status × Option Bool
unfolding status_add status_complete status_seal
call_status s add = (status_add s, none)
call_status s (complete success) = status_complete s success
call_status s seal = status_seal s

abbrev pub keep_report : Option Bool → List Bool → List Bool
keep_report none reports = reports
keep_report (some failed) reports = failed ∷ reports

-- The status behind the calls, and what was reported, the first report first.
unfoldable pub run_calls : Status → List Call → Status × List Bool
unfolding call_status
run_calls s [] = (s, [])
run_calls s (c ∷ cs) =
    let now = call_status s c in let rest = run_calls now.0 cs in (rest.0, keep_report now.1 rest.1)

abbrev pub no_delivery : Status
no_delivery = record { pending = 0; sealed = false; failed = false }

-- Tiles are added before the frame is sealed, and it is sealed once; no more than 2^32 - 1 tiles
-- are added.
abbrev pub InOrder : Bool → ℕ → List Call → Type 0
InOrder sealed n [] = Unit
InOrder sealed n (add ∷ cs) = (sealed ≡ false) × (n < u32_max) × InOrder sealed (n + 1) cs
InOrder sealed n (complete _ ∷ cs) = InOrder sealed n cs
InOrder sealed n (seal ∷ cs) = (sealed ≡ false) × InOrder true n cs
