-- ===== src/Audio/Packet/Gaps.antt =====
-- What the two ends of an audio stream know of each other, and which gaps the client finds.
use mathlib.Core.Bool.{true≢false, or-false}
use waydisplay.Prelude.{
  ltb, ◌/=◌, if◌then◌else◌, Bool-cases, eq_ne_test, ne_zero_ne, u64_max, u64, IsU64, ℕ, ◌+◌, ◌-◌,
  ◌/◌, ◌%◌, ◌≤◌, ◌<◌, ◌≡◌, refl, sym, ap, ◌∙◌, ◌≢◌, ◌⊎◌, inl, inr, Bool, true, false, not, ◌&&◌,
  ◌||◌, none, some, arith,
}
use waydisplay.Audio.Packet.{
  packet_discontinuity, is_discontinuity, is_end_of_stream, mark_discontinuity, packet_header,
  breaks_off, packet_refused, behind_packet, make_packet, no_packet_yet, restarts_at, after_packet,
  clear_for_discontinuity, follow_packet, AudioPacketHeader, AudioPacketizer, PacketOrder,
  PacketOutcome, frame_decoded, frame_broken, output_lost,
}

-- What the two ends know of each other: nothing has come yet; or a packet is lost behind the last one
-- that came; or the last one came, and the client expects what the server does.
pub Agree : AudioPacketizer → PacketOrder → (lost started : Bool) → Type 0
Agree p o lost started =
    ((started ≡ false) × ((o.expected_sequence ≡ 0) × (o.have_expected_pts ≡ false)))
    ⊎ (((lost ≡ true)
          × ((started ≡ true) × ((0 < o.expected_sequence) × (o.expected_sequence ≤ p.sequence))))
        ⊎ ((lost ≡ false)
            × ((started ≡ true)
                × ((o.expected_sequence ≡ u64 (p.sequence + 1))
                    × ((p.force_discontinuity ≡ true)
                        ⊎ ((p.have_expected_pts ≡ true)
                            × ((o.have_expected_pts ≡ true)
                                × (o.expected_pts_samples ≡ p.expected_pts_samples))))))))

pub Agree-start : (p : AudioPacketizer) → Agree p no_packet_yet false false
unfolding Agree
Agree-start p = inl (refl, (refl, refl))

pub Agree-mark_discontinuity :
    (p : AudioPacketizer) (o : PacketOrder) (lost started : Bool)
    → Agree p o lost started
    → Agree (mark_discontinuity p) o lost started
unfolding Agree
Agree-mark_discontinuity p o lost started (inl x) = inl x
Agree-mark_discontinuity p o lost started (inr (inl x)) = inr (inl x)
Agree-mark_discontinuity p o lost started (inr (inr (l, (st, (e, x))))) =
    inr (inr (l, (st, (e, inl refl))))

made_flags : (b : Bool) → ((if b then packet_discontinuity else 0) % 2 /= 0) ≡ b
made_flags true = refl
made_flags false = refl

made_no_end : (b : Bool) → ((if b then packet_discontinuity else 0) / 2 % 2 /= 0) ≡ false
made_no_end true = refl
made_no_end false = refl

no_more : (d lost : Bool) → (d || false || false) ≡ (d || (lost && false))
no_more true lost = refl
no_more false true = refl
no_more false false = refl

or_true : (d e : Bool) → (d || true || e) ≡ (d || true)
or_true true e = refl
or_true false e = refl

same_gap :
    (force other gap : Bool) → (force || gap || (other && false) || gap) ≡ (force || gap || false)
same_gap true true gap = refl
same_gap true false gap = refl
same_gap false true true = refl
same_gap false true false = refl
same_gap false false true = refl
same_gap false false false = refl

ne_flag : (a b : ℕ) → a ≢ b → (a /= b) ≡ true
ne_flag a b ne = ground arith

module _ (p : AudioPacketizer) (pts_samples duration_samples data_size : ℕ) where
  unfoldable pub made_header : AudioPacketHeader
  made_header =
      packet_header p pts_samples duration_samples data_size
        (if breaks_off p pts_samples then packet_discontinuity else 0)

  pub made :
      IsU64 p.sequence
      → (make_packet p pts_samples duration_samples data_size ≡ none)
        ⊎ ((p.sequence < u64_max)
            × (ltb (u64_max - pts_samples) duration_samples ≡ false)
            × (pts_samples + duration_samples ≤ u64_max)
            × (make_packet p pts_samples duration_samples data_size
                ≡ some (behind_packet p pts_samples duration_samples, made_header)))
  unfolding make_packet made_header
  made w = elim (Bool-cases (packet_refused p pts_samples duration_samples data_size)) [
    | inl e ↦ rw e (inl refl)
    | inr e ↦
        let more : p.sequence < u64_max = ground (arith, e) in
        let fits : ltb (u64_max - pts_samples) duration_samples ≡ false = ground (arith, e) in
        let ends : pts_samples + duration_samples ≤ u64_max = ground (arith, e) in
        rw e (inr (more, fits, ends, refl))
  ]

  sequence_gap : PacketOrder → Bool
  sequence_gap o = (o.expected_sequence /= 0) && (u64 (p.sequence + 1) /= o.expected_sequence)

  pts_gap : PacketOrder → Bool
  pts_gap o = o.have_expected_pts && (pts_samples /= o.expected_pts_samples)

  gaps_exact :
      (o : PacketOrder) (lost started : Bool)
      → p.sequence < u64_max
      → Agree p o lost started
      → (breaks_off p pts_samples || sequence_gap o || pts_gap o)
        ≡ (breaks_off p pts_samples || (lost && started))
  unfolding Agree sequence_gap pts_gap
  gaps_exact o lost started more (inl (st, (e, f))) =
      rw (e, f, st) (no_more (breaks_off p pts_samples) lost)
  gaps_exact o lost started more (inr (inl (l, (st, (low, high))))) =
      let next : u64 (p.sequence + 1) ≡ p.sequence + 1 = omega arith in
      rw
        (
          l,
          st,
          ne_zero_ne o.expected_sequence (omega arith),
          ne_flag (u64 (p.sequence + 1)) o.expected_sequence (omega arith),
        )
        (or_true (breaks_off p pts_samples)
          (o.have_expected_pts && (pts_samples /= o.expected_pts_samples)))
  gaps_exact o lost started more (inr (inr (l, (st, (e, inl force))))) = rw (l, force) refl
  gaps_exact o lost started more (inr (inr (l, (st, (e, inr (hp, (ho, same))))))) =
      rw (l, e, hp, ho, same, eq_ne_test (u64 (p.sequence + 1)) (u64 (p.sequence + 1)) refl)
        (same_gap p.force_discontinuity (u64 (p.sequence + 1) /= 0)
          (pts_samples /= p.expected_pts_samples))

  pub restart_exact :
      (o : PacketOrder) (lost started : Bool)
      → p.sequence < u64_max
      → Agree p o lost started
      → restarts_at o made_header ≡ (is_discontinuity made_header || (lost && started))
  unfolding sequence_gap pts_gap made_header
  restart_exact o lost started more v =
      ap (λ d. d || sequence_gap o || pts_gap o) (made_flags (breaks_off p pts_samples))
      ∙ gaps_exact o lost started more v
      ∙ ap (λ d. d || (lost && started)) (sym (made_flags (breaks_off p pts_samples)))

  pub no_end : is_end_of_stream made_header ≡ false
  unfolding made_header
  no_end = made_no_end (breaks_off p pts_samples)

  pub made_mark : is_discontinuity made_header ≡ breaks_off p pts_samples
  unfolding made_header
  made_mark = made_flags (breaks_off p pts_samples)

  pub Agree-delivered :
      Agree (behind_packet p pts_samples duration_samples) (after_packet made_header) false true
  unfolding Agree made_header
  Agree-delivered = inr (inr (refl, (refl, (refl, inr (refl, (refl, refl))))))

  pub Agree-lost :
      (o : PacketOrder) (lost started : Bool)
      → p.sequence < u64_max
      → Agree p o lost started
      → Agree (behind_packet p pts_samples duration_samples) o true started
  unfolding Agree
  Agree-lost o lost started more (inl x) = inl x
  Agree-lost o lost started more (inr (inl (l, (st, (low, high))))) =
      inr (inl (refl, (st, (low, omega arith))))
  Agree-lost o lost started more (inr (inr (l, (st, (e, _))))) =
      inr (inl (refl, (st, (omega arith, omega arith))))

pub Agree-cleared :
    (p : AudioPacketizer) (o : PacketOrder) (started : Bool)
    → Agree p o true started
    → Agree p (clear_for_discontinuity o) true started
unfolding Agree
Agree-cleared p o started (inl (st, (e, f))) = inl (st, (e, refl))
Agree-cleared p o started (inr (inl x)) = inr (inl x)
Agree-cleared p o started (inr (inr (l, x))) = absurd (true≢false l)

-- What the client keeps of a packet that it does not decode.
abbrev pub kept_order : Bool → PacketOrder → PacketOrder
kept_order due o = if due then clear_for_discontinuity o else o

pub Agree-kept :
    (p : AudioPacketizer) (o : PacketOrder) (due started : Bool)
    → Agree p o true started
    → Agree p (kept_order due o) true started
Agree-kept p o true started v = Agree-cleared p o started v
Agree-kept p o false started v = v

-- What the client expects behind a packet of the packetizer, at which it restarts when `due` holds.
pub follow_made :
    (frame_samples : ℕ) (o : PacketOrder) (h : AudioPacketHeader) (resets : Bool)
    (outcome : PacketOutcome) (due : Bool)
    → restarts_at o h ≡ due
    → is_end_of_stream h ≡ false
    → ltb (u64_max - h.pts_samples) h.duration_samples ≡ false
    → follow_packet frame_samples o h resets outcome ≡ (
        if due && not resets
        then none
        else if h.duration_samples /= frame_samples
        then some (kept_order due o)
        else elim outcome [
          | frame_decoded ↦ some (after_packet h)
          | frame_broken ↦ some (clear_for_discontinuity (kept_order due o))
          | output_lost ↦ none
        ])
unfolding follow_packet
follow_made frame_samples o h resets frame_decoded due e goes_on fits =
    rw (e, goes_on, fits, or-false (h.duration_samples /= frame_samples)) refl
follow_made frame_samples o h resets frame_broken due e goes_on fits =
    rw (e, goes_on, fits, or-false (h.duration_samples /= frame_samples)) refl
follow_made frame_samples o h resets output_lost due e goes_on fits =
    rw (e, goes_on, fits, or-false (h.duration_samples /= frame_samples)) refl
