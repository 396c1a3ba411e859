-- ===== src/Client/Tests.antt =====
-- The theorems at concrete inputs: two threads that begin and end a video stream, a queue of
-- frames that overflows, a stream whose epoch changes, and a picture
-- ahead of the sound.
use waydisplay.Prelude.{
  length, ℕ, zero, suc, ◌≤◌, ◌≡◌, refl, ◌≢◌, Bool, true, false, none, some, List, [], ◌∷◌, ◌++◌,
  arith,
}
use waydisplay.Client.Decode.{input_queue_capacity, enqueue_video}
use waydisplay.Client.Decode.History.{just_opened, happen, unbroken, Event, comes, taken}
use waydisplay.Client.Decode.Unbroken.{decoder_unbroken}
use waydisplay.Client.Transition.{tiles_phase, PacketFacts}
use waydisplay.Client.Transition.Accepts.{
  decisions, decodable, accepted, resets_hold, IsKnown, facts, transitions_exact,
}
use waydisplay.Client.Sync.{usec_to_samples, retry_after, sync_plan}
use waydisplay.Client.Session.{session_init, close_open_fds, session_connected, ClientSession}
use waydisplay.Client.Session.Closes.{EndsAndReopens, leaves_cleanly}
use waydisplay.Client.Ownership.{
  initial_state, is_current, begin_video_stream, reset_to_tiles, thread, run, tiles, starting,
  Callers,
}
use waydisplay.Client.Ownership.Epochs.{published}
use waydisplay.Client.Ownership.Stamps.{
  epochs_unique, stamp_unchanged, is_returned, alone_returns, Answers, call_exact,
}

abbrev two_callers : Callers
two_callers = record {
  packed_state = initial_state;
  threads = starting begin_video_stream ∷ starting reset_to_tiles ∷ [];
}

-- Both read the word; the first changes it, and the second has to try again.
abbrev interleaved : List (ℕ × Bool)
interleaved = (0, false) ∷ (1, false) ∷ (0, false) ∷ (1, false) ∷ (1, false) ∷ []

nothing_changed : (k : ℕ) → published (thread two_callers.threads k) ≡ none
nothing_changed zero = refl
nothing_changed (suc zero) = refl
nothing_changed (suc (suc k)) = refl

epochs_unique_example : ◌≢◌ {A = ℕ} 2 3
unfolding run
epochs_unique_example =
    epochs_unique two_callers interleaved 0 1 2 3 nothing_changed (omega arith) (omega arith) refl
      refl

stamp_unchanged_test : (run two_callers ((0, false) ∷ [])).packed_state ≡ initial_state
unfolding run is_current
stamp_unchanged_test =
    stamp_unchanged two_callers ((0, false) ∷ []) ((1, false) ∷ []) 1 tiles (omega arith) refl refl

alone_returns_example :
    is_returned (thread (run two_callers ((1, false) ∷ (1, false) ∷ [])).threads 1) ≡ true
alone_returns_example = alone_returns two_callers 1 (omega arith)

call_exact_test :
    Answers initial_state begin_video_stream
      (run two_callers ((0, false) ∷ (0, false) ∷ [])).packed_state
      (thread (run two_callers ((0, false) ∷ (0, false) ∷ [])).threads 0)
call_exact_test = call_exact two_callers 0 begin_video_stream (omega arith) refl (omega arith)

-- A keyframe and five frames, of which the decoder takes one; the fifth overflows, and the next one is
-- dropped.
abbrev overflowing : List Event
overflowing =
    comes true false true
    ∷ comes false false false
    ∷ taken
    ∷ comes false false false
    ∷ comes false false false
    ∷ comes false false false
    ∷ comes false false false
    ∷ comes false false false
    ∷ []

decoder_unbroken_example :
    (unbroken
        (some 0)
        ((happen just_opened overflowing).decoded ++ (happen just_opened overflowing).queue.packets)
      ≡ true)
    × (length (happen just_opened overflowing).queue.packets ≤ input_queue_capacity)
unfolding happen enqueue_video
decoder_unbroken_example = decoder_unbroken overflowing

overflow_waits : (happen just_opened overflowing).queue.wait_keyframe ≡ true
unfolding happen enqueue_video
overflow_waits = refl

-- A keyframe, a frame, and a frame of a new epoch before its keyframe.
abbrev new_epoch : List PacketFacts
new_epoch =
    facts false false false true true
    ∷ facts false false false false true
    ∷ facts true false false false true
    ∷ facts false false false true true
    ∷ []

transitions_exact_example :
    (accepted (decisions tiles_phase new_epoch) ≡ true ∷ true ∷ false ∷ true ∷ [])
    × (resets_hold tiles_phase new_epoch ≡ true)
unfolding decodable IsKnown
transitions_exact_example = transitions_exact tiles_phase new_epoch tt

-- 280 samples take less than 6 ms.
wait_for_sound : (sync_plan 2000000 95000 48000).retry_after_ms ≡ 6
unfolding sync_plan usec_to_samples retry_after
wait_for_sound = refl

abbrev two_open : ClientSession
two_open = record session_init { control_fd = some 4; video_fd = some 6; phase = session_connected }

leaves_cleanly_test : EndsAndReopens two_open
leaves_cleanly_test = leaves_cleanly two_open

both_closed : (close_open_fds two_open).1 ≡ 4 ∷ 6 ∷ []
unfolding close_open_fds
both_closed = refl
