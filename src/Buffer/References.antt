-- ===== src/Buffer/References.antt =====
-- A buffer is freed once, when the last reference is given back.
use waydisplay.Prelude.{
  ◌/=◌, if◌then◌else◌, Bool-cases, length, set, u32_max, sub32, ℕ, ◌+◌, ◌-◌, ◌≤◌, ◌<◌, ◌≡◌, refl,
  ap, ◌∙◌, inl, inr, false, some, [], ◌∷◌, ◌++◌, arith,
}
use waydisplay.Buffer.{
  retain_target, after_release, caller_at, now_at, Layout, Caller, holding, retaining, last_out,
  departed, Shared, Turn, load, exchange, reload, refuse, subtract, free, Reachable, begin,
  then_turn,
}
use waydisplay.Buffer.Counts.{
  owns, frees, owners, freers, all_departed, owners-set, freers-set, owners-append, freers-append,
  departed_counts, some_count, somebody_left, once,
}

record IsCounted (layout : Layout) (s : Shared) : Type 0 where
  refs_are : s.refs ≡ owners s.callers
  refs_fit : s.refs ≤ u32_max
  one_free : freers s.callers + s.freed ≡ once s.refs
  releases : s.released ≡ (if layout.inline_storage then 0 else s.freed)

sub_one : (n : ℕ) → 0 < n → n ≤ u32_max → sub32 n 1 ≡ n - 1
sub_one n pos fits = omega arith

module _ (layout : Layout) where
  -- The caller goes on, and owns and frees what it did before.
  goes_on :
      (s : Shared) (i : ℕ) (c : Caller)
      → i < length s.callers
      → owns (caller_at s i) ≡ owns c
      → frees (caller_at s i) ≡ frees c
      → IsCounted layout s
      → IsCounted layout (now_at s i c)
  goes_on s i c lt same_owns same_frees k =
      let o = owners-set s.callers i c lt in
      let f = freers-set s.callers i c lt in
      record {
        refs_are = omega (arith, k.refs_are, o, same_owns);
        refs_fit = k.refs_fit;
        one_free = ground (arith, k.one_free, f, same_frees);
        releases = k.releases;
      }

  exchanged :
      (s : Shared) (i seen stored : ℕ)
      → i < length s.callers
      → caller_at s i ≡ retaining seen
      → retain_target seen ≡ some stored
      → s.refs ≡ seen
      → IsCounted layout s
      → IsCounted layout
          (record s { refs = stored; callers = set s.callers i holding ++ holding ∷ [] })
  unfolding retain_target
  exchanged s i seen stored lt at target same k =
      let o = owners-set s.callers i holding lt in
      let f = freers-set s.callers i holding lt in
      let oa = owners-append (set s.callers i holding) (holding ∷ []) in
      let fa = freers-append (set s.callers i holding) (holding ∷ []) in
      let more : stored ≡ s.refs + 1 = ground (arith, target, same, k.refs_fit) in
      let some_refs : 0 < s.refs = ground (arith, target, same) in
      let fits : stored ≤ u32_max = ground (arith, target, same, k.refs_fit) in
      record {
        refs_are = omega (arith, k.refs_are, o, oa, ap owns at, more);
        refs_fit = fits;
        one_free = ground (arith, k.one_free, f, fa, ap frees at, more, some_refs);
        releases = k.releases;
      }

  subtracted :
      (s : Shared) (i : ℕ)
      → i < length s.callers
      → caller_at s i ≡ holding
      → IsCounted layout s
      → IsCounted layout
          (record s { refs = sub32 s.refs 1; callers = set s.callers i (after_release s.refs) })
  unfolding after_release
  subtracted s i lt at k =
      let some_refs : 0 < s.refs = owner_counts s i lt at k in
      elim (Bool-cases (s.refs /= 1)) [
        | inl others ↦
            rw (sub_one s.refs some_refs k.refs_fit, others)
              (record {
                refs_are =
                    omega (arith, k.refs_are, owners-set s.callers i departed lt, ap owns at);
                refs_fit = omega (arith, k.refs_fit);
                one_free =
                    ground
                      (arith, k.one_free, freers-set s.callers i departed lt, ap frees at, others);
                releases = k.releases;
              })
        | inr last ↦
            rw (sub_one s.refs some_refs k.refs_fit, last)
              (record {
                refs_are =
                    omega (arith, k.refs_are, owners-set s.callers i last_out lt, ap owns at);
                refs_fit = omega (arith, k.refs_fit);
                one_free =
                    ground
                      (arith, k.one_free, freers-set s.callers i last_out lt, ap frees at, last);
                releases = k.releases;
              })
      ]
    where
      owner_counts :
          (u : Shared) (j : ℕ)
          → j < length u.callers
          → caller_at u j ≡ holding
          → IsCounted layout u
          → 0 < u.refs
      owner_counts u j below here counted =
          omega (arith, owners-set u.callers j departed below, ap owns here, counted.refs_are)

  freed_now :
      (s : Shared) (i : ℕ)
      → i < length s.callers
      → caller_at s i ≡ last_out
      → IsCounted layout s
      → IsCounted layout (record s {
        callers = set s.callers i departed;
        freed = s.freed + 1;
        released = if layout.inline_storage then s.released else s.released + 1;
      })
  freed_now s i lt at k =
      let o = owners-set s.callers i departed lt in
      let f = freers-set s.callers i departed lt in
      record {
        refs_are = omega (arith, k.refs_are, o, ap owns at);
        refs_fit = k.refs_fit;
        one_free = ground (arith, k.one_free, f, ap frees at);
        releases = ground (arith, k.releases);
      }

  Turn-IsCounted : (s t : Shared) → Turn layout s t → IsCounted layout s → IsCounted layout t
  Turn-IsCounted _ _ (load s i lt at) k =
      goes_on s i (retaining s.refs) lt (ap owns at) (ap frees at) k
  Turn-IsCounted _ _ (exchange s i seen stored lt at target same) k =
      exchanged s i seen stored lt at target same k
  Turn-IsCounted _ _ (reload s i seen stored lt at target) k =
      goes_on s i (retaining s.refs) lt (ap owns at) (ap frees at) k
  Turn-IsCounted _ _ (refuse s i seen lt at target) k =
      goes_on s i holding lt (ap owns at) (ap frees at) k
  Turn-IsCounted _ _ (subtract s i lt at) k = subtracted s i lt at k
  Turn-IsCounted _ _ (free s i lt at) k = freed_now s i lt at k

  Reachable-IsCounted : (s : Shared) → Reachable layout s → IsCounted layout s
  Reachable-IsCounted _ begin = record {
    refs_are = refl;
    refs_fit = omega arith;
    one_free = refl;
    releases = ground arith;
  }
  Reachable-IsCounted _ (then_turn s t r turn) = Turn-IsCounted s t turn (Reachable-IsCounted s r)

  -- A caller that is in a call or holds its reference keeps the buffer from being counted out.
  somebody_acts : (s t : Shared) → Turn layout s t → all_departed s.callers ≡ false
  somebody_acts _ _ (load s i lt at) =
      somebody_left s.callers i lt (omega (arith, ap owns at, ap frees at))
  somebody_acts _ _ (exchange s i seen stored lt at target same) =
      somebody_left s.callers i lt (omega (arith, ap owns at, ap frees at))
  somebody_acts _ _ (reload s i seen stored lt at target) =
      somebody_left s.callers i lt (omega (arith, ap owns at, ap frees at))
  somebody_acts _ _ (refuse s i seen lt at target) =
      somebody_left s.callers i lt (omega (arith, ap owns at, ap frees at))
  somebody_acts _ _ (subtract s i lt at) =
      somebody_left s.callers i lt (omega (arith, ap owns at, ap frees at))
  somebody_acts _ _ (free s i lt at) =
      somebody_left s.callers i lt (omega (arith, ap owns at, ap frees at))

-- However the callers of a buffer interleave their loads, exchanges and subtractions: the counter is
-- the number of references that are owned, the buffer is freed exactly when every reference is
-- given back and nobody is in a call, and then once, and its release function is called as often,
-- unless the bytes stand in the buffer itself.
pub freed_once :
    (layout : Layout) (s : Shared)
    → Reachable layout s
    → (s.refs ≡ owners s.callers)
      × (s.freed ≡ (if all_departed s.callers then 1 else 0))
      × (s.released ≡ (if layout.inline_storage then 0 else s.freed))
freed_once layout s r =
    let k = Reachable-IsCounted layout s r in
    elim (Bool-cases (all_departed s.callers)) [
      | inl out ↦
          let (o, f) = departed_counts s.callers out in
          (k.refs_are, rw out (ground (arith, k.one_free, k.refs_are, o, f)), k.releases)
      | inr used ↦
          let some_one = some_count s.callers used in
          (k.refs_are, rw used (ground (arith, k.one_free, k.refs_are, some_one)), k.releases)
    ]

-- No caller takes a step, which would read or write the buffer, after the buffer is freed.
pub no_use_after_free :
    (layout : Layout) (s t : Shared) → Reachable layout s → Turn layout s t → s.freed ≡ 0
no_use_after_free layout s t r turn =
    (freed_once layout s r).1 ∙ rw (somebody_acts layout s t turn) refl
