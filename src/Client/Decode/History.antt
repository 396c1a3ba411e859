-- ===== src/Client/Decode/History.antt =====
-- A history of the queue, and when no packet of a list misses the one before it.
use waydisplay.Prelude.{
  ◌==◌, if◌then◌else◌, Bool-cases, and_true, ℕ, ◌+◌, ◌≡◌, refl, ◌⊎◌, inl, inr, Bool, true, false,
  ◌&&◌, ◌||◌, Option, none, some, List, [], ◌∷◌, ◌++◌,
}
use waydisplay.Client.Decode.{
  enqueue_video, pop_packet, clear_decode_queue, VideoMessage, MediaPacket, DecodeQueue,
}

-- What happens to the queue: a message comes, with its kind, or the decoder takes a packet.
pub data Event : Type 0 where
  comes : (keyframe control usable : Bool) → Event
  taken : Event

-- The queue, the packets that the decoder has taken, and the count of messages so far.
pub record Session : Type 0 where
  pub queue : DecodeQueue
  pub decoded : List MediaPacket
  pub count : ℕ

-- A channel that has just opened.
abbrev pub just_opened : Session
just_opened = record { queue = clear_decode_queue; decoded = []; count = 0 }

abbrev pub numbered : ℕ → (keyframe control usable : Bool) → VideoMessage
numbered n keyframe control usable = record {
  number = n;
  keyframe = keyframe;
  control = control;
  usable = usable;
}

abbrev pub decode : List MediaPacket → Option MediaPacket → List MediaPacket
decode decoded none = decoded
decode decoded (some p) = decoded ++ p ∷ []

-- The messages are numbered as they come.
abbrev pub come_to : Session → (keyframe control usable : Bool) → Session
come_to s keyframe control usable = record s {
  queue = enqueue_video s.queue (numbered s.count keyframe control usable);
  count = s.count + 1;
}

abbrev pub take_from : Session → Session
take_from s = record s {
  queue = (pop_packet s.queue).0;
  decoded = decode s.decoded (pop_packet s.queue).1;
}

unfoldable pub happen : Session → List Event → Session
happen s [] = s
happen s (comes keyframe control usable ∷ events) =
    happen (come_to s keyframe control usable) events
happen s (taken ∷ events) = happen (take_from s) events

-- The number of the message behind a packet, but for a control message: no frame may follow it.
abbrev pub next_of : MediaPacket → Option ℕ
next_of p = if p.message.control then none else some (p.message.number + 1)

abbrev pub is_number : Option ℕ → ℕ → Bool
is_number none n = false
is_number (some m) n = m == n

-- Each packet that is neither a keyframe nor a control message comes right behind the message before
-- it; the first may be message `n` when `next` is `some n`.
unfoldable pub unbroken : Option ℕ → List MediaPacket → Bool
unbroken next [] = true
unbroken next (p ∷ ps) =
    let rest = unbroken (next_of p) ps in
    if p.message.keyframe || p.message.control
    then rest
    else is_number next p.message.number && rest

unfoldable pub next_behind : Option ℕ → List MediaPacket → Option ℕ
next_behind next [] = next
next_behind next (p ∷ ps) = next_behind (next_of p) ps

abbrev pub IsRestart : MediaPacket → Type 0
IsRestart p = (p.message.keyframe || p.message.control) ≡ true

abbrev pub Fits : Option ℕ → MediaPacket → Type 0
Fits next p = IsRestart p ⊎ (is_number next p.message.number ≡ true)

-- A packet that fits, in front of packets that are unbroken behind it.
unbroken-cons :
    (next : Option ℕ) (p : MediaPacket) (ps : List MediaPacket)
    → Fits next p
    → unbroken (next_of p) ps ≡ true
    → unbroken next (p ∷ ps) ≡ true
unfolding unbroken
unbroken-cons next p ps (inl restart) whole = rw restart whole
unbroken-cons next p ps (inr n) whole =
    elim (Bool-cases (p.message.keyframe || p.message.control)) [
      | inl e ↦ rw e whole
      | inr e ↦ rw (e, n) whole
    ]

uncons :
    (next : Option ℕ) (p : MediaPacket) (ps : List MediaPacket)
    → unbroken next (p ∷ ps) ≡ true
    → Fits next p × (unbroken (next_of p) ps ≡ true)
unfolding unbroken
uncons next p ps whole = by_flag (p.message.keyframe || p.message.control) whole
  where
    by_flag :
        (b : Bool)
        → (if b
            then unbroken (next_of p) ps
            else (is_number next p.message.number && unbroken (next_of p) ps))
          ≡ true
        → ((b ≡ true) ⊎ (is_number next p.message.number ≡ true)) × (unbroken (next_of p) ps ≡ true)
    by_flag true whole = (inl refl, whole)
    by_flag false whole =
        let both = and_true (is_number next p.message.number) (unbroken (next_of p) ps) whole in
        (inr both.0, both.1)

pub unbroken-snoc :
    (next : Option ℕ) (ps : List MediaPacket) (p : MediaPacket)
    → unbroken next ps ≡ true
    → Fits (next_behind next ps) p
    → unbroken next (ps ++ p ∷ []) ≡ true
unfolding unbroken next_behind
unbroken-snoc next [] p whole fits = unbroken-cons next p [] fits refl
unbroken-snoc next (q ∷ ps) p whole fits =
    let first = uncons next q ps whole in
    unbroken-cons next q (ps ++ p ∷ []) first.0 (unbroken-snoc (next_of q) ps p first.1 fits)

pub unbroken-prefix :
    (next : Option ℕ) (ps qs : List MediaPacket)
    → unbroken next (ps ++ qs) ≡ true
    → unbroken next ps ≡ true
unfolding unbroken
unbroken-prefix next [] qs whole = refl
unbroken-prefix next (q ∷ ps) qs whole =
    let first = uncons next q (ps ++ qs) whole in
    unbroken-cons next q ps first.0 (unbroken-prefix (next_of q) ps qs first.1)

pub next_behind-snoc :
    (next : Option ℕ) (ps : List MediaPacket) (p : MediaPacket)
    → next_behind next (ps ++ p ∷ []) ≡ next_of p
unfolding next_behind
next_behind-snoc next [] p = refl
next_behind-snoc next (q ∷ ps) p = next_behind-snoc (next_of q) ps p
