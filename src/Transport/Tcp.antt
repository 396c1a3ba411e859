-- ===== src/Transport/Tcp.antt =====
-- The policy of the TCP senders in include/waydisplay/wd_async_tcp_policy.h: what may be
-- queued, which bytes a submission covers, and how far its result advances a message.
pub mod Room
pub mod Delivered
use waydisplay.Prelude.{
  ltb, leb, ◌==◌, ◌/=◌, if◌then◌else◌, u64_max, size_max, ℕ, ◌+◌, ◌-◌, Bool, false, not, ◌&&◌, ◌||◌,
  Option, none, some,
}

-- wd_async_tcp_can_enqueue
pub can_enqueue : ℕ → ℕ → ℕ → Bool
can_enqueue pending next limit =
    leb next (u64_max - pending) && (limit == 0 || (leb next limit && leb pending (limit - next)))

-- wd_async_tcp_can_enqueue_after_replacing
pub can_enqueue_after_replacing : ℕ → ℕ → ℕ → ℕ → Bool
can_enqueue_after_replacing pending replaced next limit =
    leb replaced pending && can_enqueue (pending - replaced) next limit

-- struct wd_async_tcp_owned_send_plan
pub record SendPlan : Type 0 where
  pub inline_offset : ℕ
  pub inline_size : ℕ
  pub payload_offset : ℕ
  pub payload_size : ℕ

-- wd_async_tcp_plan_owned_send: `none` is `return false`. The sizes are words of size_t.
pub plan_owned_send : ℕ → ℕ → ℕ → Option SendPlan
plan_owned_send inline_size payload_size bytes_sent =
    if ltb (size_max - payload_size) inline_size
    then none
    else if leb (inline_size + payload_size) bytes_sent
    then none
    else if ltb bytes_sent inline_size
    then (if (inline_size - bytes_sent) /= 0 || payload_size /= 0
        then some (record {
          inline_offset = bytes_sent;
          inline_size = inline_size - bytes_sent;
          payload_offset = 0;
          payload_size = payload_size;
        })
        else none)
    else if leb payload_size (bytes_sent - inline_size)
    then none
    else if (payload_size - (bytes_sent - inline_size)) /= 0
    then some (record {
      inline_offset = 0;
      inline_size = 0;
      payload_offset = bytes_sent - inline_size;
      payload_size = payload_size - (bytes_sent - inline_size);
    })
    else none

-- The integers that a system call returns.
pub data ℤ : Type 0 where
  pos : ℕ → ℤ
  negsuc : ℕ → ℤ

-- `result == -e` for `e` above 0.
abbrev pub is_error : ℤ → ℕ → Bool
is_error (pos n) e = false
is_error (negsuc n) e = n + 1 == e

-- EINTR, EBADF, EAGAIN, EBUSY and EOPNOTSUPP of errno.h
abbrev pub eintr : ℕ
eintr = 4

abbrev pub ebadf : ℕ
ebadf = 9

abbrev pub eagain : ℕ
eagain = 11

abbrev pub ebusy : ℕ
ebusy = 16

abbrev pub eopnotsupp : ℕ
eopnotsupp = 95

-- enum wd_async_tcp_submit_progress
pub data SubmitProgress : Type 0 where
  submit_failed submit_retry submit_accepted : SubmitProgress

-- wd_async_tcp_submit_result
pub submit_result : ℤ → SubmitProgress
submit_result (pos n) = if n == 0 then submit_retry else submit_accepted
submit_result (negsuc n) =
    if is_error (negsuc n) eintr || (is_error (negsuc n) eagain || is_error (negsuc n) ebusy)
    then submit_retry
    else submit_failed

-- enum wd_async_tcp_send_progress
pub data SendProgress : Type 0 where
  send_failed send_partial send_complete : SendProgress

-- wd_async_tcp_message_is_replaceable
pub message_is_replaceable : Bool → ℕ → Bool
message_is_replaceable submitted bytes_sent = not submitted && bytes_sent == 0

-- wd_async_tcp_cqe_should_try_syscall
pub cqe_should_try_syscall : ℤ → Bool
cqe_should_try_syscall result = is_error result eopnotsupp || is_error result ebadf

-- wd_async_tcp_advance: the bytes sent so far, and the progress.
pub advance : ℕ → ℕ → ℤ → ℕ × SendProgress
advance total sent result =
    if ltb total sent
    then (sent, send_failed)
    else if sent == total
    then (sent, send_complete)
    else if is_error result eintr || is_error result eagain
    then (sent, send_partial)
    else elim result [
      | negsuc n ↦ (sent, send_failed)
      | pos n ↦
          if n == 0 || ltb (total - sent) n
          then (sent, send_failed)
          else (sent + n, if sent + n == total then send_complete else send_partial)
    ]
