-- ===== src/Transport/Udp/Conservation.antt =====
-- No packet is lost and none is counted twice.
use waydisplay.Prelude.{
  length, ℕ, suc, ◌+◌, ◌≤◌, ◌<◌, ◌≡◌, refl, Bool, true, false, List, [], ◌∷◌, arith,
}
use waydisplay.Transport.Tcp.{ℤ, pos, negsuc}
use waydisplay.Transport.Udp.{
  queue_packet, account_submit, complete_packet, cancel_prepared, pending_packets, Accounting,
}

-- What the sender reports to the accounting.
pub data UdpEvent : Type 0 where
  queued : UdpEvent
  submit_returned : ℤ → UdpEvent
  completed : Bool → UdpEvent
  cancelled : UdpEvent

pub account : Accounting → UdpEvent → Accounting
account a queued = queue_packet a
account a (submit_returned result) = (account_submit a result).0
account a (completed success) = (complete_packet a success).0
account a cancelled = (cancel_prepared a).0

pub account_all : Accounting → List UdpEvent → Accounting
account_all a [] = a
account_all a (e ∷ events) = account_all (account a e) events

abbrev pub no_packets : Accounting
no_packets = record {
  prepared = 0;
  submitted = 0;
  queued_total = 0;
  submit_calls = 0;
  submit_failures = 0;
  completed_total = 0;
  failed_total = 0;
  cancelled_total = 0;
}

record Conserved (a : Accounting) (n : ℕ) : Type 0 where
  sum :
      a.queued_total
      ≡ a.prepared + a.submitted + a.completed_total + a.failed_total + a.cancelled_total
  bound : a.queued_total ≤ n

account-Conserved :
    (a : Accounting) (e : UdpEvent) (n : ℕ)
    → suc n < 0x1_0000_0000
    → Conserved a n
    → Conserved (account a e) (suc n)
unfolding account queue_packet account_submit complete_packet cancel_prepared
account-Conserved a queued n w h =
    let s = h.sum in let b = h.bound in record { sum = ground arith; bound = ground arith }
account-Conserved a (submit_returned (negsuc k)) n w h =
    let b = h.bound in record { sum = h.sum; bound = omega arith }
account-Conserved a (submit_returned (pos k)) n w h =
    let s = h.sum in let b = h.bound in record { sum = ground arith; bound = ground arith }
account-Conserved a (completed true) n w h =
    let s = h.sum in let b = h.bound in record { sum = ground arith; bound = ground arith }
account-Conserved a (completed false) n w h =
    let s = h.sum in let b = h.bound in record { sum = ground arith; bound = ground arith }
account-Conserved a cancelled n w h =
    let s = h.sum in let b = h.bound in record { sum = omega arith; bound = omega arith }

account_all-Conserved :
    (a : Accounting) (events : List UdpEvent) (n : ℕ)
    → n + length events < 0x1_0000_0000
    → Conserved a n
    → Conserved (account_all a events) (n + length events)
unfolding account_all
account_all-Conserved a [] n w h = let b = h.bound in record { sum = h.sum; bound = omega arith }
account_all-Conserved a (e ∷ events) n w h =
    let k : n + suc (length events) ≡ suc n + length events = omega arith in
    rw k (
      account_all-Conserved (account a e) events (suc n) (omega arith)
        (account-Conserved a e n (omega arith) h))

-- Packets are conserved: after any events from the start on, in any order and with any results
-- of the system calls, each queued packet is prepared, submitted, completed, failed or cancelled,
-- and exactly one of these; what is pending is what is queued and not yet finished (for fewer than
-- 2^32 events).
pub packets_conserved :
    (events : List UdpEvent)
    → length events < 0x1_0000_0000
    → let a = account_all no_packets events in
      (a.queued_total
        ≡ a.prepared + a.submitted + a.completed_total + a.failed_total + a.cancelled_total)
      × (pending_packets a + a.completed_total + a.failed_total + a.cancelled_total
          ≡ a.queued_total)
unfolding pending_packets
packets_conserved events w =
    let h =
      account_all-Conserved no_packets events 0 (omega arith)
        (record { sum = refl; bound = omega arith }) in
    let s = h.sum in let b = h.bound in (s, omega arith)
