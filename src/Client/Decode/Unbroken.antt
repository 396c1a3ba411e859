-- ===== src/Client/Decode/Unbroken.antt =====
-- The decoder gets no frame whose predecessor it did not get.
use mathlib.Core.List.{append-nil, append_assoc}
use waydisplay.Prelude.{
  leb, Bool-cases, eq_test, length, length-append, u16_max, ℕ, ◌+◌, ◌≤◌, ◌<◌, min, ◌≡◌, refl, sym,
  ap, ◌∙◌, subst, ◌⊎◌, inl, inr, Bool, true, false, ◌||◌, some, List, [], ◌∷◌, ◌++◌, arith,
}
use waydisplay.Client.Decode.{
  input_queue_capacity, enqueue_video, pop_packet, VideoMessage, MediaPacket, DecodeQueue,
}
use waydisplay.Client.Decode.History.{
  just_opened, numbered, decode, come_to, take_from, happen, is_number, unbroken, next_behind,
  unbroken-snoc, unbroken-prefix, next_behind-snoc, Event, comes, taken, Session,
}

-- What an enqueue leaves: the queue, for a message that waits for a keyframe; nothing, at an overflow;
-- a message that restarts, alone; or one more frame.
data Enqueued (q : DecodeQueue) (m : VideoMessage) : DecodeQueue → Type 0 where
  waits : q.wait_keyframe ≡ true → Enqueued q m q
  overflows : Enqueued q m (record { packets = []; wait_keyframe = true })
  restarts_with :
      (reset : Bool)
      → (m.keyframe || m.control) ≡ true
      → Enqueued q m (record {
        packets = record { message = m; reset_video_decoder_before = reset } ∷ [];
        wait_keyframe = m.control;
      })
  appends :
      q.wait_keyframe ≡ false
      → m.control ≡ false
      → length q.packets < input_queue_capacity
      → Enqueued q m (record {
        packets = q.packets ++ record { message = m; reset_video_decoder_before = false } ∷ [];
        wait_keyframe = false;
      })

-- A frame that is neither, by the room in the queue.
frame-Enqueued :
    (ps : List MediaPacket) (n : ℕ) (usable : Bool)
    → Enqueued
        (record { packets = ps; wait_keyframe = false })
        (numbered n false false usable)
        (enqueue_video
          (record { packets = ps; wait_keyframe = false })
          (numbered n false false usable))
unfolding enqueue_video
frame-Enqueued ps n usable =
    elim (Bool-cases (leb input_queue_capacity (min (length ps) u16_max))) [
      | inl full ↦ rw full overflows
      | inr room ↦
          let low : length ps < input_queue_capacity = ground (arith, room) in
          rw room (appends refl refl low)
    ]

by_flags :
    (ps : List MediaPacket) (wait : Bool) (n : ℕ) (keyframe control usable : Bool)
    → Enqueued
        (record { packets = ps; wait_keyframe = wait })
        (numbered n keyframe control usable)
        (enqueue_video
          (record { packets = ps; wait_keyframe = wait })
          (numbered n keyframe control usable))
unfolding enqueue_video
by_flags ps true n true true usable = restarts_with false refl
by_flags ps true n true false true = restarts_with true refl
by_flags ps true n true false false = waits refl
by_flags ps true n false true usable = restarts_with false refl
by_flags ps true n false false usable = waits refl
by_flags ps false n true true usable = restarts_with false refl
by_flags ps false n true false usable = restarts_with false refl
by_flags ps false n false true usable = restarts_with false refl
by_flags ps false n false false usable = frame-Enqueued ps n usable

enqueue-Enqueued : (q : DecodeQueue) (m : VideoMessage) → Enqueued q m (enqueue_video q m)
enqueue-Enqueued q m = by_flags q.packets q.wait_keyframe m.number m.keyframe m.control m.usable

-- What holds at each time: the packets taken and waiting are unbroken, the next message may follow
-- when no keyframe is waited for, and the queue stays within its capacity.
record IsSound (s : Session) : Type 0 where
  whole : unbroken (some 0) (s.decoded ++ s.queue.packets) ≡ true
  ready :
      (s.queue.wait_keyframe ≡ true)
      ⊎ (next_behind (some 0) (s.decoded ++ s.queue.packets) ≡ some s.count)
  within : length s.queue.packets ≤ input_queue_capacity

follows_number :
    (s : Session) (ps : List MediaPacket) (m : VideoMessage) (reset : Bool)
    → m.number ≡ s.count
    → m.control ≡ false
    → next_behind (some 0) (ps ++ record { message = m; reset_video_decoder_before = reset } ∷ [])
      ≡ some (s.count + 1)
follows_number s ps m reset num c =
    next_behind-snoc (some 0) ps _ ∙ rw c (ap (λ n. some (n + 1)) num)

come-IsSound :
    (s : Session) (m : VideoMessage) (q' : DecodeQueue)
    → m.number ≡ s.count
    → IsSound s
    → Enqueued s.queue m q'
    → IsSound (record s { queue = q'; count = s.count + 1 })
come-IsSound s m _ num v (waits w) = record { whole = v.whole; ready = inl w; within = v.within }
come-IsSound s m _ num v overflows = record {
  whole = rw (append-nil s.decoded) (unbroken-prefix (some 0) s.decoded s.queue.packets v.whole);
  ready = inl refl;
  within = omega arith;
}
come-IsSound s m _ num v (restarts_with reset restart) = record {
  whole =
      unbroken-snoc (some 0) s.decoded _
        (unbroken-prefix (some 0) s.decoded s.queue.packets v.whole) (inl restart);
  ready = elim (Bool-cases m.control) [
    | inl c ↦ inl c
    | inr c ↦ inr (follows_number s s.decoded m reset num c)
  ];
  within = omega arith;
}
come-IsSound s m _ num v (appends w c room) =
    let p : MediaPacket = record { message = m; reset_video_decoder_before = false } in
    let next : next_behind (some 0) (s.decoded ++ s.queue.packets) ≡ some m.number = elim v.ready [
      | inl stop ↦ absurd (ground (arith, stop, w))
      | inr n ↦ n ∙ ap some (sym num)
    ] in
    record {
      whole =
          subst (λ l. unbroken (some 0) l ≡ true) (append_assoc s.decoded s.queue.packets (p ∷ []))
            (unbroken-snoc (some 0) (s.decoded ++ s.queue.packets) p v.whole
              (inr (ap (λ o. is_number o m.number) next ∙ eq_test m.number)));
      ready = inr (
          ap (next_behind (some 0)) (sym (append_assoc s.decoded s.queue.packets (p ∷ [])))
          ∙ follows_number s (s.decoded ++ s.queue.packets) m false num c);
      within = omega (arith, length-append s.queue.packets (p ∷ []));
    }

take-IsSound : (s : Session) → IsSound s → IsSound (take_from s)
take-IsSound s v = by_packets s.queue.packets s.queue.wait_keyframe s.decoded s.count v
  where
    by_packets :
        (ps : List MediaPacket) (wait : Bool) (decoded : List MediaPacket) (count : ℕ)
        → IsSound (record {
          queue = record { packets = ps; wait_keyframe = wait };
          decoded = decoded;
          count = count;
        })
        → IsSound (record {
          queue = (pop_packet (record { packets = ps; wait_keyframe = wait })).0;
          decoded = decode decoded (pop_packet (record { packets = ps; wait_keyframe = wait })).1;
          count = count;
        })
    by_packets [] wait decoded count v = v
    by_packets (p ∷ ps) wait decoded count v =
        let e = append_assoc decoded (p ∷ []) ps in
        let within = v.within in
        record { whole = rw e v.whole; ready = rw e v.ready; within = omega arith }

happen-IsSound : (s : Session) (events : List Event) → IsSound s → IsSound (happen s events)
unfolding happen
happen-IsSound s [] v = v
happen-IsSound s (comes keyframe control usable ∷ events) v =
    happen-IsSound (come_to s keyframe control usable) events (
      come-IsSound s (numbered s.count keyframe control usable) _ refl v
        (enqueue-Enqueued s.queue (numbered s.count keyframe control usable)))
happen-IsSound s (taken ∷ events) v = happen-IsSound (take_from s) events (take-IsSound s v)

-- However messages come and the decoder takes packets, each packet that it has taken or that waits
-- for it is a keyframe, a control message, the very first message that came, or comes right behind
-- the message before it, which is no control message and stands before it in the same order; and
-- the queue never exceeds its capacity.
pub decoder_unbroken :
    (events : List Event)
    → (unbroken
          (some 0)
          ((happen just_opened events).decoded ++ (happen just_opened events).queue.packets)
        ≡ true)
      × (length (happen just_opened events).queue.packets ≤ input_queue_capacity)
unfolding unbroken next_behind
decoder_unbroken events =
    let v =
      happen-IsSound just_opened events
        (record { whole = refl; ready = inr refl; within = omega arith }) in
    (v.whole, v.within)
