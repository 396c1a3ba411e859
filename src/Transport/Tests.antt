-- ===== src/Transport/Tests.antt =====
-- The theorems at concrete inputs.
use waydisplay.Prelude.{
  u64_max, ℕ, ◌+◌, ◌-◌, ◌≤◌, ◌<◌, ◌≡◌, refl, ap, ◌≢◌, ◌↔◌, ◌⊎◌, true, Option, none, some, List, [],
  ◌∷◌, arith,
}
use waydisplay.Selection.Wire.{from_le}
use waydisplay.Transport.Identity.{
  identity_generate, Reading, interrupted, no_bytes, delivered, Identity,
}
use waydisplay.Transport.Identity.Distinct.{identity_distinct, IsPatient}
use waydisplay.Transport.Tcp.{can_enqueue_after_replacing, ℤ, pos, negsuc}
use waydisplay.Transport.Tcp.Room.{room_exact}
use waydisplay.Transport.Tcp.Delivered.{send_all, Delivered, message-Delivered}
use waydisplay.Transport.Udp.{pending_packets}
use waydisplay.Transport.Udp.Conservation.{
  account_all, no_packets, packets_conserved, UdpEvent, queued, submit_returned, completed,
  cancelled,
}

abbrev limit : ℕ
limit = 120

room_exact_test :
    (can_enqueue_after_replacing 100 40 60 limit ≡ true)
    ↔ ((40 ≤ 100) × (100 - 40 + 60 ≤ u64_max) × ((limit ≡ 0) ⊎ (100 - 40 + 60 ≤ limit)))
room_exact_test = room_exact 100 40 60 limit (omega arith)

-- A short send, an interrupted call, and the rest.
abbrev short_sends : List ℤ
short_sends = pos 3 ∷ negsuc 3 ∷ pos 2 ∷ []

message-Delivered_example :
    Delivered (1 ∷ 2 ∷ 3 ∷ 4 ∷ 5 ∷ []) (send_all (1 ∷ 2 ∷ []) (3 ∷ 4 ∷ 5 ∷ []) short_sends 0 [])
message-Delivered_example =
    message-Delivered (1 ∷ 2 ∷ []) (3 ∷ 4 ∷ 5 ∷ []) short_sends (omega arith) (omega arith)

abbrev udp_events : List UdpEvent
udp_events =
    queued
    ∷ queued
    ∷ submit_returned (pos 1)
    ∷ completed true
    ∷ submit_returned (negsuc 3)
    ∷ cancelled
    ∷ []

packets_conserved_example :
    ((account_all no_packets udp_events).queued_total
      ≡ (account_all no_packets udp_events).prepared
        + (account_all no_packets udp_events).submitted
        + (account_all no_packets udp_events).completed_total
        + (account_all no_packets udp_events).failed_total
        + (account_all no_packets udp_events).cancelled_total)
    × (pending_packets (account_all no_packets udp_events)
          + (account_all no_packets udp_events).completed_total
          + (account_all no_packets udp_events).failed_total
          + (account_all no_packets udp_events).cancelled_total
        ≡ (account_all no_packets udp_events).queued_total)
packets_conserved_example = packets_conserved udp_events (omega arith)

-- A source of random bytes that answers as it is told, and then has no more.
abbrev scripted : List Reading → ℕ → List Reading × Reading
scripted [] n = ([], no_bytes)
scripted (r ∷ rs) n = (rs, r)

abbrev interruption : Reading → ℕ
interruption interrupted = 1
interruption _ = 0

abbrev interruptions : List Reading → ℕ
interruptions [] = 0
interruptions (r ∷ rs) = interruption r + interruptions rs

scripted-IsPatient : IsPatient (List Reading) scripted interruptions
scripted-IsPatient = record { never_more = never_more; interrupts = interrupts }
  where
    never_more : (s : List Reading) (n : ℕ) → interruptions (scripted s n).0 ≤ interruptions s
    never_more [] n = omega arith
    never_more (r ∷ rs) n = omega arith

    interrupts :
        (s : List Reading) (n : ℕ)
        → (scripted s n).1 ≡ interrupted
        → interruptions (scripted s n).0 < interruptions s
    interrupts [] n e = absurd (ground (arith, e))
    interrupts (r ∷ rs) n e = omega (arith, ap interruption e)

-- An interruption and a short read, a number that is 0, and the same number again.
abbrev random_script : List Reading
random_script =
    interrupted
    ∷ delivered (5 ∷ 0 ∷ 0 ∷ [])
    ∷ delivered (0 ∷ 0 ∷ 0 ∷ 0 ∷ 1 ∷ [])
    ∷ delivered (0 ∷ 0 ∷ 0 ∷ 0 ∷ 0 ∷ 0 ∷ 0 ∷ 0 ∷ [])
    ∷ delivered (5 ∷ 0 ∷ 0 ∷ 0 ∷ 0 ∷ 0 ∷ 0 ∷ 1 ∷ [])
    ∷ delivered (7 ∷ 0 ∷ 0 ∷ 0 ∷ 0 ∷ 0 ∷ 0 ∷ 0 ∷ [])
    ∷ []

identity_test :
    identity_generate (List Reading) scripted 9 random_script
    ≡ some ([], some (record { connection_token = 0x0100_0000_0000_0005; media_clock_id = 7 }))
unfolding identity_generate from_le
identity_test = refl

identity_distinct_example :
    (r : List Reading × Option Identity) × (identity_generate
        (List Reading)
        scripted
        9
        random_script
      ≡ some r)
    × ((r.1 ≡ none)
        ⊎ ((x : Identity) × (r.1 ≡ some x)
            × ((x.connection_token ≢ 0)
                × (x.media_clock_id ≢ 0)
                × (x.media_clock_id ≢ x.connection_token))))
identity_distinct_example =
    identity_distinct (List Reading) scripted interruptions scripted-IsPatient 9 random_script
      (omega arith)
