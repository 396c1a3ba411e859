-- ===== src/Video/Recovery/Episode.antt =====
-- Whole recovery episodes: seconds and queued frames in any order.
use waydisplay.Prelude.{
  if◌then◌else◌, ℕ, suc, ◌+◌, ◌-◌, ◌*◌, ◌≤◌, ◌≡◌, refl, sym, subst, ◌≢◌, ◌⊎◌, inl, inr, Bool, true,
  false, List, [], ◌∷◌, arith,
}
use waydisplay.Video.Recovery.{
  is_recovering, recovery_tick, frame_queued, recovery_begin, KeyframeLatch, StreamMode,
  video_active, video_recovering, tile_recovery, RecoveryState,
}

-- What happens to a recovering stream: a controller second, or a queued video frame.
pub data Event : Type 0 where
  tick : ℕ → Event
  frame : Bool → ℕ → Event

abbrev pub step : RecoveryState → Event → RecoveryState
step s (tick presented_frame_id) = recovery_tick s presented_frame_id
step s (frame keyframe frame_id) = frame_queued s keyframe frame_id

abbrev pub run : RecoveryState → List Event → RecoveryState
run s [] = s
run s (e ∷ es) = run (step s e) es

abbrev pub ticks : List Event → ℕ
ticks [] = 0
ticks (tick _ ∷ es) = suc (ticks es)
ticks (frame _ _ ∷ es) = ticks es

-- Seconds left at most: each attempt waits at most twice the timeout, since its first keyframe
-- restarts the wait once, and takes one second to act.
abbrev attempt_left : KeyframeLatch → ℕ
attempt_left l = if l.queued then 4 - l.wait_seconds else 9 - l.wait_seconds

abbrev seconds_left : RecoveryState → ℕ
seconds_left s =
    if is_recovering s.stream_mode then 1 + attempt_left s.latch + (3 - s.attempts) * 10 else 0

record InEpisode (s : RecoveryState) : Type 0 where
  waited : s.latch.wait_seconds ≤ 4

tick-measure :
    (s : RecoveryState) (p : ℕ)
    → InEpisode s
    → InEpisode (recovery_tick s p) × (seconds_left (recovery_tick s p) ≤ seconds_left s - 1)
unfolding recovery_tick
tick-measure s p h = ground arith

frame-measure :
    (s : RecoveryState) (k : Bool) (i : ℕ)
    → InEpisode s
    → InEpisode (frame_queued s k i) × (seconds_left (frame_queued s k i) ≤ seconds_left s)
unfolding frame_queued
frame-measure s k i h = ground arith

not_recovering-step :
    (s : RecoveryState) (e : Event) → is_recovering s.stream_mode ≡ false → step s e ≡ s
unfolding recovery_tick frame_queued
not_recovering-step s (tick p) h = ground arith
not_recovering-step s (frame k i) h = ground arith

abbrev IsSettled : StreamMode → Type 0
IsSettled m = (m ≡ video_active) ⊎ (m ≡ tile_recovery)

-- The modes of an episode: still recovering, or settled.
abbrev InModes : StreamMode → Type 0
InModes m = (m ≡ video_recovering) ⊎ IsSettled m

step-InModes :
    (s : RecoveryState) (e : Event) → InModes s.stream_mode → InModes (step s e).stream_mode
unfolding recovery_tick frame_queued
step-InModes s (tick p) h = ground arith
step-InModes s (frame k i) h = ground arith

run-measure :
    (es : List Event) (s : RecoveryState)
    → InEpisode s
    → InModes s.stream_mode
    → InModes (run s es).stream_mode × (seconds_left (run s es) ≤ seconds_left s - ticks es)
run-measure [] s h m = (m, omega arith)
run-measure (tick p ∷ es) s h m =
    let (h', less) = tick-measure s p h in
    let (m', end) = run-measure es (recovery_tick s p) h' (step-InModes s (tick p) m) in
    (m', omega arith)
run-measure (frame k i ∷ es) s h m =
    let (h', less) = frame-measure s k i h in
    let (m', end) = run-measure es (frame_queued s k i) h' (step-InModes s (frame k i) m) in
    (m', omega arith)

IsSettled-of_measure :
    (s : RecoveryState) → InModes s.stream_mode → seconds_left s ≡ 0 → IsSettled s.stream_mode
IsSettled-of_measure s m z = ground arith

-- However queued frames and client reports interleave, a recovery that has begun is over after at
-- most 30 controller seconds: the stream is active again, or falls back to tile recovery.
pub recovery_settles :
    (s : RecoveryState) (es : List Event)
    → 30 ≤ ticks es
    → ((run (recovery_begin s) es).stream_mode ≡ video_active)
      ⊎ ((run (recovery_begin s) es).stream_mode ≡ tile_recovery)
unfolding recovery_begin
recovery_settles s es h =
    let (m, end) = run-measure es (recovery_begin s) (omega arith) (inl refl) in
    IsSettled-of_measure (run (recovery_begin s) es) m (omega arith)

-- A report of a presented frame `i` or later is among the events.
pub data Reported (i : ℕ) : List Event → Type 0 where
  reported : {es : List Event} (p : ℕ) → i ≤ p → Reported i (tick p ∷ es)
  later : {es : List Event} (e : Event) → Reported i es → Reported i (e ∷ es)

-- A keyframe is queued and it, or a later frame, is reported as presented afterwards.
pub data Answered : List Event → Type 0 where
  answered : {es : List Event} (i : ℕ) → i ≢ 0 → Reported i es → Answered (frame true i ∷ es)
  after : {es : List Event} (e : Event) → Answered es → Answered (e ∷ es)

-- A latched keyframe is waited for, or one of the coming ones is answered.
abbrev Explained : RecoveryState → List Event → Type 0
Explained s es =
    ((s.latch.queued ≡ true) × (s.latch.frame_id ≢ 0) × Reported s.latch.frame_id es) ⊎ Answered es

-- A second of a recovering stream falls back, ends on the latched keyframe, or goes on with the
-- latch kept or cleared.
tick_cases :
    (s : RecoveryState) (p : ℕ)
    → s.stream_mode ≡ video_recovering
    → ((recovery_tick s p).stream_mode ≡ tile_recovery)
      ⊎ (((recovery_tick s p).stream_mode ≡ video_active)
          × (s.latch.queued ≡ true)
          × (s.latch.frame_id ≢ 0)
          × (s.latch.frame_id ≤ p))
      ⊎ (((recovery_tick s p).stream_mode ≡ video_recovering)
          × ((recovery_tick s p).latch.queued ≡ true
              → (s.latch.queued ≡ true) × ((recovery_tick s p).latch.frame_id ≡ s.latch.frame_id)))
unfolding recovery_tick
tick_cases s p h = ground arith

-- A queued frame leaves the mode and the latch, or is latched.
frame_cases :
    (s : RecoveryState) (k : Bool) (i : ℕ)
    → s.stream_mode ≡ video_recovering
    → (frame_queued s k i ≡ s)
      ⊎ ((k ≡ true)
          × (i ≢ 0)
          × ((frame_queued s k i).latch.frame_id ≡ i)
          × ((frame_queued s k i).stream_mode ≡ video_recovering))
unfolding frame_queued
frame_cases s k i h = ground arith

run_settled :
    (es : List Event) (s : RecoveryState) → is_recovering s.stream_mode ≡ false → run s es ≡ s
run_settled [] s h = refl
run_settled (e ∷ es) s h = rw (not_recovering-step s e h) (run_settled es s h)

lost_for_good :
    (es : List Event) (s : RecoveryState)
    → s.stream_mode ≡ tile_recovery
    → (run s es).stream_mode ≢ video_active
lost_for_good es s h a = cc (run_settled es s (rw h refl))

explain :
    (es : List Event) (s : RecoveryState)
    → s.stream_mode ≡ video_recovering
    → (run s es).stream_mode ≡ video_active
    → Explained s es
explain [] s m a = cc
explain (tick p ∷ es) s m a = elim (tick_cases s p m) [
  | inl lost ↦ absurd (lost_for_good es (recovery_tick s p) lost a)
  | inr (inl (_, q, nz, le)) ↦ inl (q, nz, reported p le)
  | inr (inr (m', keeps)) ↦ elim (explain es (recovery_tick s p) m' a) [
    | inl (q, nz, r) ↦
        let e = (keeps q).1 in
        inl ((keeps q).0, subst (λ j. j ≢ 0) e nz, later (tick p) (subst (λ j. Reported j es) e r))
    | inr x ↦ inr (after (tick p) x)
  ]
]
explain (frame k i ∷ es) s m a = elim (frame_cases s k i m) [
  | inl e ↦ elim (explain es s m (subst (λ t. (run t es).stream_mode ≡ video_active) e a)) [
    | inl (q, nz, r) ↦ inl (q, nz, later (frame k i) r)
    | inr x ↦ inr (after (frame k i) x)
  ]
  | inr (kt, nz, e, m') ↦ elim (explain es (frame_queued s k i) m' a) [
    | inl (_, _, r) ↦ inr (
        subst (λ b. Answered (frame b i ∷ es)) (sym kt)
          (answered i nz (subst (λ j. Reported j es) e r)))
    | inr x ↦ inr (after (frame k i) x)
  ]
]

-- A recovery that has begun ends in the active mode only if a keyframe was queued during it and
-- that frame, or a later one, was reported as presented afterwards.
pub recovery_needs_keyframe :
    (s : RecoveryState) (es : List Event)
    → (run (recovery_begin s) es).stream_mode ≡ video_active
    → Answered es
unfolding recovery_begin
recovery_needs_keyframe s es a = elim (explain es (recovery_begin s) refl a) [
  | inl (q, _, _) ↦ cc
  | inr x ↦ x
]
