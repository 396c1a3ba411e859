-- ===== src/Client/Ownership.antt =====
-- src/client/stream_ownership.c: whether tiles or the video stream own the picture, in one word with
-- the epoch of the last change. Threads change the word by compare-and-exchange in a loop; here they
-- act one at a time, in any order. The pointer is not null.
pub mod Epochs
pub mod Schedules
pub mod Stamps
use waydisplay.Prelude.{
  ltb, ◌==◌, if◌then◌else◌, length, get_or, set, u64, ℕ, ◌+◌, ◌*◌, ◌/◌, ◌%◌, Bool, true, false, not,
  ◌&&◌, List, [], ◌∷◌,
}

-- enum wd_client_content_owner
pub data Owner : Type 0 where
  tiles video : Owner

abbrev pub owner_bit : Owner → ℕ
owner_bit tiles = 0
owner_bit video = 1

abbrev pub same_owner : Owner → Owner → Bool
same_owner tiles tiles = true
same_owner tiles video = false
same_owner video tiles = false
same_owner video video = true

-- WD_CLIENT_STREAM_OWNERSHIP_INITIAL_STATE
abbrev pub initial_state : ℕ
initial_state = 2

-- wd_client_stream_ownership_pack; the low bit of the shifted epoch is clear.
abbrev pub pack : ℕ → Owner → ℕ
pack epoch owner = u64 (epoch * 2) + owner_bit owner

-- The fields of wd_client_stream_ownership_snapshot.
abbrev pub epoch_of : ℕ → ℕ
epoch_of packed = packed / 2

abbrev pub owner_of : ℕ → Owner
owner_of packed = if packed % 2 == 0 then tiles else video

-- wd_client_stream_ownership_is_current
unfoldable pub is_current : ℕ → ℕ → Owner → Bool
is_current packed epoch owner = (epoch_of packed == epoch) && same_owner (owner_of packed) owner

-- The two loops, wd_client_stream_ownership_transition_to and wd_client_stream_ownership_advance.
pub data OwnerCall : Type 0 where
  transition_to advance_to : Owner → OwnerCall

-- wd_client_stream_ownership_begin_video_stream
abbrev pub begin_video_stream : OwnerCall
begin_video_stream = transition_to video

-- wd_client_stream_ownership_end_video_stream
abbrev pub end_video_stream : OwnerCall
end_video_stream = transition_to tiles

-- wd_client_stream_ownership_reset_to_video
abbrev pub reset_to_video : OwnerCall
reset_to_video = advance_to video

-- wd_client_stream_ownership_reset_to_tiles
abbrev pub reset_to_tiles : OwnerCall
reset_to_tiles = advance_to tiles

abbrev pub target : OwnerCall → Owner
target (transition_to owner) = owner
target (advance_to owner) = owner

-- Whether the loop returns without a change.
abbrev pub keeps : OwnerCall → ℕ → Bool
keeps (transition_to owner) current = same_owner (owner_of current) owner
keeps (advance_to owner) current = false

-- Where a thread stands: before the load, with the word `current` that it has read, or behind the
-- return of an epoch, with or without a change of the word.
pub data Thread : Type 0 where
  starting : OwnerCall → Thread
  trying : OwnerCall → ℕ → Thread
  returned : (epoch : ℕ) (changed : Bool) → Thread

-- One access of a thread to the word: the load, or a round of the loop. A weak
-- compare-and-exchange may fail on equal words; a failed one reads the word again.
unfoldable pub act : ℕ → Bool → Thread → ℕ × Thread
act packed spurious (starting call) = (packed, trying call packed)
act packed spurious (trying call current) =
    let next_epoch = u64 (epoch_of current + 1) in
    if keeps call current
    then (packed, returned (epoch_of current) false)
    else if (packed == current) && not spurious
    then (pack next_epoch (target call), returned next_epoch true)
    else (packed, trying call packed)
act packed spurious (returned epoch changed) = (packed, returned epoch changed)

-- The shared word and the threads that call.
pub record Callers : Type 0 where
  pub packed_state : ℕ
  pub threads : List Thread

abbrev pub thread : List Thread → ℕ → Thread
thread ts i = get_or ts i (returned 0 false)

-- Thread `i` acts.
unfoldable pub step : Callers → ℕ → Bool → Callers
unfolding act
step s i spurious = record {
  packed_state =
      if ltb i (length s.threads)
      then (act s.packed_state spurious (thread s.threads i)).0
      else s.packed_state;
  threads = set s.threads i (act s.packed_state spurious (thread s.threads i)).1;
}

-- Threads act in the order of a schedule, each with the outcome of its compare-and-exchange.
unfoldable pub run : Callers → List (ℕ × Bool) → Callers
unfolding step
run s [] = s
run s ((i, spurious) ∷ schedule) = run (step s i spurious) schedule
