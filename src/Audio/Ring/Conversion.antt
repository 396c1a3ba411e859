-- ===== src/Audio/Ring/Conversion.antt =====
-- The samples of a capture as the ring gets them, described on the list of all of them.
use native.Mathlib.Nat.{mul-le-mul_right, add-mul, mul-one}
use waydisplay.Prelude.{
  ◌==◌, if◌then◌else◌, Bool-cases, length, get_or, take, drop, replicate, length-replicate,
  get_or-replicate, ℕ, zero, suc, ◌+◌, ◌*◌, ◌≤◌, ◌<◌, ◌≡◌, refl, sym, ap, ap₂, ◌∙◌, ◌⊎◌, inl, inr,
  Bool, true, false, List, [], ◌∷◌, arith,
}
use waydisplay.Audio.Ring.{slice, capture_frame, PcmRing}

-- The place of a frame is within the frames.
frame_within : (i frames channels : ℕ) → i < frames → i * channels + channels ≤ frames * channels
frame_within i frames channels h =
    let le : (i + 1) * channels ≤ frames * channels = mul-le-mul_right channels (omega arith) in
    omega (arith, add-mul i 1 channels)

module _ {A : Type 0} where
  -- A frame is the `channels` samples of a list at its place.
  pub frame_at : ℕ → List A → ℕ → List A
  frame_at channels xs i = take channels (drop (i * channels) xs)

  drop-cons :
      (xs : List A) (p : ℕ) (d : A) → p < length xs → drop p xs ≡ get_or xs p d ∷ drop (p + 1) xs
  drop-cons [] p d h = absurd (omega arith)
  drop-cons (x ∷ xs) zero d h = refl
  drop-cons (x ∷ xs) (suc p) d h =
      let e : suc p + 1 ≡ suc (p + 1) = omega arith in rw e (drop-cons xs p d (omega arith))

  slice-eq-take :
      (d : A) (xs : List A) (p n : ℕ) → p + n ≤ length xs → slice d xs p n ≡ take n (drop p xs)
  unfolding slice
  slice-eq-take d xs p zero h = refl
  slice-eq-take d xs p (suc n) h =
      ap (λ l. get_or xs p d ∷ l) (slice-eq-take d xs (p + 1) n (omega arith))
      ∙ ap (take (suc n)) (sym (drop-cons xs p d (omega arith)))

  slice-replicate : (a : A) (m p n : ℕ) → slice a (replicate m a) p n ≡ replicate n a
  unfolding slice
  slice-replicate a m p zero = refl
  slice-replicate a m p (suc n) = ap₂ ◌∷◌ (get_or-replicate m p a) (slice-replicate a m (p + 1) n)

module _ {A : Type 0} (silence : A) (mean : A → A → A) where
  -- The mean of the first two samples, of the next two, and so on.
  pub pair_means : List A → List A
  pair_means [] = []
  pair_means (x ∷ []) = []
  pair_means (left ∷ right ∷ xs) = mean left right ∷ pair_means xs

  -- The samples that the ring gets of a capture: silence; or those of the capture, when it has as
  -- many channels; or the means of the two channels.
  pub converted : ℕ → List A → ℕ → ℕ → Bool → List A
  converted channels samples frames source_channels true = replicate (frames * channels) silence
  converted channels samples frames source_channels false =
      if source_channels == channels then samples else pair_means samples

  frame_at-pair_means :
      (xs : List A) (i : ℕ)
      → i * 2 + 1 < length xs
      → mean (get_or xs (i * 2) silence) (get_or xs (i * 2 + 1) silence) ∷ []
        ≡ take 1 (drop i (pair_means xs))
  unfolding pair_means
  frame_at-pair_means [] i h = absurd (omega arith)
  frame_at-pair_means (x ∷ []) i h = absurd (omega arith)
  frame_at-pair_means (x ∷ y ∷ xs) zero h = refl
  frame_at-pair_means (x ∷ y ∷ xs) (suc i) h =
      let e : suc i * 2 ≡ suc (suc (i * 2)) = omega arith in
      let f : suc i * 2 + 1 ≡ suc (suc (i * 2 + 1)) = omega arith in
      rw (f, e) (frame_at-pair_means xs i (omega arith))

  -- The capture's frames are those of its converted samples.
  pub capture_frame-converted :
      (r : PcmRing A) (samples : List A) (frames source_channels : ℕ) (silent : Bool) (i : ℕ)
      → (source_channels ≡ r.channels) ⊎ ((source_channels ≡ 2) × (r.channels ≡ 1))
      → frames * source_channels ≤ length samples
      → i < frames
      → capture_frame silence mean r samples source_channels silent i
        ≡ frame_at r.channels (converted r.channels samples frames source_channels silent) i
  unfolding capture_frame frame_at converted
  capture_frame-converted r samples frames source_channels true i c enough lt =
      let xs = replicate (frames * r.channels) silence in
      sym (slice-replicate silence (frames * r.channels) (i * r.channels) r.channels)
      ∙ slice-eq-take silence xs (i * r.channels) r.channels (
          omega (
            arith,
            length-replicate (frames * r.channels) silence,
            frame_within i frames r.channels lt,
          ))
  capture_frame-converted r samples frames source_channels false i c enough lt =
      elim (Bool-cases (source_channels == r.channels)) [
        | inl e ↦
            let same : source_channels ≡ r.channels = ground (arith, e) in
            rw (e, same)
              (slice-eq-take silence samples (i * r.channels) r.channels
                (omega (arith, frame_within i frames r.channels lt, ap (λ n. frames * n) same)))
        | inr e ↦
            let stereo : source_channels ≡ 2 = ground (arith, e) in
            let mono : r.channels ≡ 1 = ground (arith, e) in
            rw (e, mono, mul-one i)
              (frame_at-pair_means samples i (omega (arith, ap (λ n. frames * n) stereo)))
      ]
