-- ===== src/Encode.antt =====
-- src/server/wd_encode_completion_queue.c: the indices of finished encode jobs, in the order in
-- which they finished. The queue is not null; `[]` is a null storage.
pub mod Fifo
pub mod Pop
mod Tests
use waydisplay.Prelude.{
  leb, ◌==◌, if◌then◌else◌, is_nil, get_or, set, u16, ℕ, ◌+◌, ◌-◌, ◌%◌, Bool, true, false, ◌||◌,
  Option, none, some, List,
}

-- struct wd_encode_completion_queue
pub record CompletionQueue : Type 0 where
  pub storage : List ℕ
  pub capacity : ℕ
  pub read_index : ℕ
  pub write_index : ℕ
  pub count : ℕ

-- wd_encode_completion_queue_init
pub queue_init : List ℕ → ℕ → CompletionQueue
queue_init storage capacity = record {
  storage = storage;
  capacity = capacity;
  read_index = 0;
  write_index = 0;
  count = 0;
}

-- wd_encode_completion_queue_push
pub queue_push : CompletionQueue → ℕ → CompletionQueue × Bool
queue_push q job_index =
    if is_nil q.storage || (q.capacity == 0 || (leb q.capacity q.count || leb q.capacity job_index))
    then (q, false)
    else (
      record q {
        storage = set q.storage q.write_index job_index;
        write_index = u16 ((q.write_index + 1) % q.capacity);
        count = u16 (q.count + 1);
      },
      true,
    )

-- wd_encode_completion_queue_pop
pub queue_pop : CompletionQueue → CompletionQueue × Option ℕ
queue_pop q = if is_nil q.storage || (q.capacity == 0 || q.count == 0) then (q, none) else (
  record q { read_index = u16 ((q.read_index + 1) % q.capacity); count = q.count - 1 },
  some (get_or q.storage q.read_index 0),
)

-- wd_encode_completion_queue_size
pub queue_size : CompletionQueue → ℕ
queue_size q = q.count

-- wd_encode_completion_queue_capacity
pub queue_capacity : CompletionQueue → ℕ
queue_capacity q = q.capacity
