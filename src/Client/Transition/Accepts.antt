-- ===== src/Client/Transition/Accepts.antt =====
-- Which payloads of a history the decoder gets.
use waydisplay.Prelude.{
  if◌then◌else◌, Bool-cases, ◌≡◌, refl, sym, ap, ap₂, ◌∙◌, inl, inr, Bool, true, false, not, ◌&&◌,
  ◌||◌, List, [], ◌∷◌, arith,
}
use waydisplay.Client.Transition.{
  is_video_phase, transition_decide, VideoPhase, tiles_phase, awaiting_keyframe, video_phase,
  other_phase, TransitionDecision, PacketFacts,
}

-- The decisions of a history of packets, from a phase.
unfoldable pub decisions : VideoPhase → List PacketFacts → List TransitionDecision
decisions phase [] = []
decisions phase (x ∷ xs) =
    transition_decide phase x ∷ decisions (transition_decide phase x).next_phase xs

-- A packet behind which the decoder's references are gone.
abbrev pub forgets : PacketFacts → Bool
forgets x = x.resize || x.end_of_stream

-- The payloads that the decoder should get: those of a keyframe, and those behind one, as long as no
-- resize, end of stream or new content epoch has come between. `referenced` says whether it holds a
-- keyframe.
unfoldable pub decodable : Bool → List PacketFacts → List Bool
decodable referenced [] = []
decodable referenced (x ∷ xs) =
    let held = referenced && not x.content_epoch_advanced in
    if forgets x
    then false ∷ decodable false xs
    else (x.has_payload && (x.keyframe || held))
      ∷ decodable (held || (x.has_payload && x.keyframe)) xs

unfoldable pub accepted : List TransitionDecision → List Bool
accepted [] = []
accepted (d ∷ ds) = d.accept_payload ∷ accepted ds

-- Where the decoder holds a keyframe that a packet makes useless, it is reset.
unfoldable pub resets_hold : VideoPhase → List PacketFacts → Bool
resets_hold phase [] = true
resets_hold phase (x ∷ xs) =
    (not (is_video_phase phase && (forgets x || x.content_epoch_advanced))
      || (transition_decide phase x).reset_decoder)
    && resets_hold (transition_decide phase x).next_phase xs

unfoldable pub IsKnown : VideoPhase → Type 0
IsKnown tiles_phase = Unit
IsKnown awaiting_keyframe = Unit
IsKnown video_phase = Unit
IsKnown other_phase = ⊥

-- One decision: what it accepts, what it holds then, and that it resets.
record Decides (phase : VideoPhase) (x : PacketFacts) (d : TransitionDecision) : Type 0 where
  known : IsKnown d.next_phase
  accepts : d.accept_payload ≡ (
      if forgets x
      then false
      else (x.has_payload
          && (x.keyframe || (is_video_phase phase && not x.content_epoch_advanced))))
  holds : is_video_phase d.next_phase ≡ (
      if forgets x
      then false
      else ((is_video_phase phase && not x.content_epoch_advanced)
          || (x.has_payload && x.keyframe)))
  resets :
      (not (is_video_phase phase && (forgets x || x.content_epoch_advanced)) || d.reset_decoder)
      ≡ true

abbrev pub facts : (epoch eos resize key payload : Bool) → PacketFacts
facts epoch eos resize key payload = record {
  content_epoch_advanced = epoch;
  end_of_stream = eos;
  resize = resize;
  keyframe = key;
  has_payload = payload;
}

by_facts :
    (phase : VideoPhase) (epoch eos resize key payload : Bool)
    → IsKnown phase
    → Decides phase
        (facts epoch eos resize key payload)
        (transition_decide phase (facts epoch eos resize key payload))
unfolding transition_decide IsKnown
by_facts phase epoch eos resize key payload v = record {
  known = ground arith;
  accepts = ground arith;
  holds = ground arith;
  resets = ground arith;
}

decides :
    (phase : VideoPhase) (x : PacketFacts)
    → IsKnown phase
    → Decides phase x (transition_decide phase x)
decides phase x v =
    by_facts phase x.content_epoch_advanced x.end_of_stream x.resize x.keyframe x.has_payload v

decodable-cons :
    (held : Bool) (x : PacketFacts) (xs : List PacketFacts)
    → decodable held (x ∷ xs)
      ≡ (if forgets x
          then false
          else (x.has_payload && (x.keyframe || (held && not x.content_epoch_advanced))))
        ∷ decodable
            (if forgets x
              then false
              else ((held && not x.content_epoch_advanced) || (x.has_payload && x.keyframe)))
            xs
unfolding decodable
decodable-cons held x xs = elim (Bool-cases (forgets x)) [ inl e ↦ rw e refl | inr e ↦ rw e refl ]

-- From any phase of the enumeration and over any packets the decoder gets just the payloads that it
-- can decode: of a keyframe, or behind one with no resize, end of stream or new content epoch
-- between; and a packet that makes its references useless resets it.
pub transitions_exact :
    (phase : VideoPhase) (xs : List PacketFacts)
    → IsKnown phase
    → (accepted (decisions phase xs) ≡ decodable (is_video_phase phase) xs)
      × (resets_hold phase xs ≡ true)
unfolding decisions accepted decodable resets_hold
transitions_exact phase [] v = (refl, refl)
transitions_exact phase (x ∷ xs) v =
    let d = decides phase x v in
    let rest = transitions_exact (transition_decide phase x).next_phase xs d.known in
    (
      ap₂ ◌∷◌ d.accepts (rest.0 ∙ ap (λ b. decodable b xs) d.holds)
          ∙ sym (decodable-cons (is_video_phase phase) x xs),
      ap₂ ◌&&◌ d.resets rest.1,
    )
