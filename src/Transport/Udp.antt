-- ===== src/Transport/Udp.antt =====
-- src/server/wd_async_udp_accounting.c: the packets of the UDP sender, counted from the queue to
-- their completion. The accounting is not null.
pub mod Conservation
use waydisplay.Prelude.{
  ltb, leb, ◌==◌, if◌then◌else◌, u32_max, u32, u64, sub32, ℕ, ◌+◌, ◌-◌, Bool, true, false, ◌&&◌,
  ◌||◌,
}
use waydisplay.Transport.Tcp.{ℤ, pos, negsuc}

-- struct wd_async_udp_accounting
pub record Accounting : Type 0 where
  pub prepared : ℕ
  pub submitted : ℕ
  pub queued_total : ℕ
  pub submit_calls : ℕ
  pub submit_failures : ℕ
  pub completed_total : ℕ
  pub failed_total : ℕ
  pub cancelled_total : ℕ

-- wd_async_udp_accounting_queue
pub queue_packet : Accounting → Accounting
queue_packet a =
    if a.prepared == u32_max
    then a
    else record a { prepared = u32 (a.prepared + 1); queued_total = u64 (a.queued_total + 1) }

-- wd_async_udp_accounting_submit_result, with the number of packets that it returns.
pub account_submit : Accounting → ℤ → Accounting × ℕ
account_submit a (negsuc n) = (
  record a {
    submit_calls = u64 (a.submit_calls + 1);
    submit_failures = u64 (a.submit_failures + 1);
  },
  0,
)
account_submit a (pos n) =
    let called = record a { submit_calls = u64 (a.submit_calls + 1) } in
    if n == 0 || a.prepared == 0
    then (called, 0)
    else (let taken = if ltb a.prepared (u32 n) then a.prepared else u32 n in
        (
          record called {
            prepared = sub32 a.prepared taken;
            submitted = u32 (a.submitted + taken);
          },
          taken,
        ))

-- wd_async_udp_accounting_complete
pub complete_packet : Accounting → Bool → Accounting × Bool
complete_packet a success =
    if a.submitted == 0
    then (a, false)
    else if success
    then (
      record a { submitted = a.submitted - 1; completed_total = u64 (a.completed_total + 1) },
      true,
    )
    else (record a { submitted = a.submitted - 1; failed_total = u64 (a.failed_total + 1) }, true)

-- wd_async_udp_accounting_cancel_prepared
pub cancel_prepared : Accounting → Accounting × ℕ
cancel_prepared a =
    (record a { prepared = 0; cancelled_total = u64 (a.cancelled_total + a.prepared) }, a.prepared)

-- wd_async_udp_accounting_pending
pub pending_packets : Accounting → ℕ
pending_packets a = u32 (a.prepared + a.submitted)

-- wd_async_udp_pending_within_limits
pub pending_within_limits : ℕ → ℕ → ℕ → ℕ → ℕ → Bool
pending_within_limits packets bytes next_bytes max_packets max_bytes =
    if next_bytes == 0 || (max_packets == 0 || max_bytes == 0)
    then false
    else if leb max_packets packets || ltb max_bytes next_bytes
    then false
    else leb bytes (max_bytes - next_bytes)

-- struct wd_stream_epoch_identity
pub record EpochIdentity : Type 0 where
  pub connection_epoch : ℕ
  pub config_epoch : ℕ
  pub content_epoch : ℕ
  pub framebuffer_generation : ℕ

-- wd_stream_epoch_identity_equal
pub epoch_identity_equal : EpochIdentity → EpochIdentity → Bool
epoch_identity_equal lhs rhs =
    lhs.connection_epoch == rhs.connection_epoch
    && (lhs.config_epoch == rhs.config_epoch
        && (lhs.content_epoch == rhs.content_epoch
            && lhs.framebuffer_generation == rhs.framebuffer_generation))
