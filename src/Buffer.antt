-- ===== src/Buffer.antt =====
-- Reference-counted buffers, src/common/wd_buffer.c, and the rows of a frame in one,
-- src/common/wd_frame.c. Callers on several threads share a buffer; each step is one atomic access
-- to its counter with what the caller does before the next, and the steps come in any order.
pub mod Counts
pub mod References
pub mod Range
pub mod Frame
mod Tests
use waydisplay.Prelude.{
  ltb, leb, ◌==◌, ◌/=◌, if◌then◌else◌, length, get_or, set, u32_max, size_max, u32, u64, sub32, ℕ,
  ◌+◌, ◌-◌, ◌<◌, ◌≡◌, Bool, true, false, ◌&&◌, ◌||◌, Option, none, some, List, [], ◌∷◌, ◌++◌,
}

-- What stands in struct wd_buffer beside the counter; the bytes are not modelled.
pub record Layout : Type 0 where
  pub size : ℕ
  pub capacity : ℕ
  pub inline_storage : Bool

-- sizeof(struct wd_buffer) on the supported hosts.
abbrev pub struct_size : ℕ
struct_size = 56

-- wd_buffer_alloc_padded, where the allocation succeeds; `none` is NULL.
unfoldable pub alloc_padded : ℕ → ℕ → Option Layout
alloc_padded size padding =
    let capacity = u64 (size + padding) in
    if ltb (size_max - size) padding || ltb (size_max - struct_size) capacity
    then none
    else some (record { size = size; capacity = capacity; inline_storage = true })

-- wd_buffer_wrap, where the allocation succeeds; the flags say whether the pointers are null.
unfoldable pub buffer_wrap : Bool → ℕ → Bool → Option Layout
buffer_wrap data_null size release_null =
    if (size /= 0 && data_null) || release_null
    then none
    else some (record { size = size; capacity = size; inline_storage = false })

-- wd_buffer_range_valid
unfoldable pub range_valid : Layout → ℕ → ℕ → Bool
range_valid b offset size = leb offset b.size && leb size (b.size - offset)

-- A reference, by what its owner is doing.
pub data Caller : Type 0 where
  -- It owns the reference and is in no call.
  holding : Caller
  -- It is in wd_buffer_retain, and has loaded the counter.
  retaining : ℕ → Caller
  -- It is in wd_buffer_release, and has taken the counter from 1 to 0.
  last_out : Caller
  -- The reference is given back.
  departed : Caller

-- The counter, the references that there have been, and how often the buffer was freed and its
-- release function called.
pub record Shared : Type 0 where
  pub refs : ℕ
  pub callers : List Caller
  pub freed : ℕ
  pub released : ℕ

-- What wd_buffer_retain tries to store when it has seen the count; `none` is `return NULL`.
unfoldable pub retain_target : ℕ → Option ℕ
retain_target refs = if refs == 0 || refs == u32_max then none else some (u32 (refs + 1))

-- What the caller of wd_buffer_release does when the count was the given one.
unfoldable pub after_release : ℕ → Caller
after_release refs = if refs /= 1 then departed else last_out

abbrev pub caller_at : Shared → ℕ → Caller
caller_at s i = get_or s.callers i departed

abbrev pub now_at : Shared → ℕ → Caller → Shared
now_at s i c = record s { callers = set s.callers i c }

-- The steps of the owner of reference `i`. An owner passes its reference on only outside of calls,
-- and a successful wd_buffer_retain makes a new one.
pub data Turn (layout : Layout) : Shared → Shared → Type 0 where
  -- The load at the start of wd_buffer_retain.
  load :
      (s : Shared) (i : ℕ)
      → i < length s.callers
      → caller_at s i ≡ holding
      → Turn layout s (now_at s i (retaining s.refs))
  -- The exchange succeeds: the counter is what was seen.
  exchange :
      (s : Shared) (i seen stored : ℕ)
      → i < length s.callers
      → caller_at s i ≡ retaining seen
      → retain_target seen ≡ some stored
      → s.refs ≡ seen
      → Turn layout s
          (record s { refs = stored; callers = set s.callers i holding ++ holding ∷ [] })
  -- The exchange fails, which a weak one may always do, and loads the counter again.
  reload :
      (s : Shared) (i seen stored : ℕ)
      → i < length s.callers
      → caller_at s i ≡ retaining seen
      → retain_target seen ≡ some stored
      → Turn layout s (now_at s i (retaining s.refs))
  -- wd_buffer_retain returns NULL.
  refuse :
      (s : Shared) (i seen : ℕ)
      → i < length s.callers
      → caller_at s i ≡ retaining seen
      → retain_target seen ≡ none
      → Turn layout s (now_at s i holding)
  -- The subtraction of wd_buffer_release.
  subtract :
      (s : Shared) (i : ℕ)
      → i < length s.callers
      → caller_at s i ≡ holding
      → Turn layout s
          (record s { refs = sub32 s.refs 1; callers = set s.callers i (after_release s.refs) })
  -- The rest of wd_buffer_release for the last owner.
  free :
      (s : Shared) (i : ℕ)
      → i < length s.callers
      → caller_at s i ≡ last_out
      → Turn layout s (record s {
        callers = set s.callers i departed;
        freed = s.freed + 1;
        released = if layout.inline_storage then s.released else s.released + 1;
      })

-- A buffer as wd_buffer_alloc_padded and wd_buffer_wrap return it.
abbrev pub fresh_buffer : Shared
fresh_buffer = record { refs = 1; callers = holding ∷ []; freed = 0; released = 0 }

pub data Reachable (layout : Layout) : Shared → Type 0 where
  begin : Reachable layout fresh_buffer
  then_turn : (s t : Shared) → Reachable layout s → Turn layout s t → Reachable layout t
