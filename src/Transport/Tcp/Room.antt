-- ===== src/Transport/Tcp/Room.antt =====
-- When another message may be queued.
use waydisplay.Prelude.{u64_max, IsU64, ℕ, ◌+◌, ◌-◌, ◌≤◌, ◌≡◌, ◌↔◌, ◌⊎◌, true, arith}
use waydisplay.Transport.Tcp.{can_enqueue, can_enqueue_after_replacing}

-- A message that replaces queued bytes may be queued exactly when those bytes are queued and the
-- bytes then pending neither pass the limit, if there is one, nor wrap the 64-bit counter.
pub room_exact :
    (pending replaced next limit : ℕ)
    → IsU64 pending
    → (can_enqueue_after_replacing pending replaced next limit ≡ true) ↔ (
        (replaced ≤ pending)
        × (pending - replaced + next ≤ u64_max)
        × ((limit ≡ 0) ⊎ (pending - replaced + next ≤ limit)))
unfolding can_enqueue_after_replacing can_enqueue
room_exact pending replaced next limit w = (ground arith, ground arith)
