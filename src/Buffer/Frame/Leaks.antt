-- ===== src/Buffer/Frame/Leaks.antt =====
-- No descriptor and no reference is lost when a frame is replaced.
use waydisplay.Prelude.{
  ltb, ◌==◌, Bool-cases, Option-cases, length, ℕ, zero, suc, ◌+◌, ◌≡◌, refl, ap, ◌⊎◌, inl, inr,
  Bool, true, false, ◌||◌, Option, none, some, List, [], ◌∷◌, arith,
}
use waydisplay.Buffer.{Layout}
use waydisplay.Buffer.Range.{cpu_range_valid}
use waydisplay.Buffer.Frame.{
  max_planes, plane_fds, owned_fds, owned_refs, frame_reset, kept_frame, set_cpu, dup_planes,
  set_drm_prime_dup, planes_valid, frame_valid, frame_clone, Plane, Storage, no_storage, cpu,
  drm_prime, PixelFrame, Effects,
}

-- The frame is replaced by a valid one, which owns what the call has taken, and what the old one
-- owned is given back.
pub record Replaced (old : PixelFrame) (e : Effects) : Type 0 where
  pub succeeds : e.ok ≡ true
  pub is_valid : frame_valid e.frame ≡ true
  pub owns_opened : owned_fds e.frame ≡ e.opened
  pub owns_retained : owned_refs e.frame ≡ e.retained
  pub closes_old : e.closed ≡ owned_fds old
  pub gives_back_old : e.given_back ≡ owned_refs old

-- The frame stays, and what the call has taken it has given back.
pub record Kept (old : PixelFrame) (e : Effects) : Type 0 where
  pub fails : e.ok ≡ false
  pub same_frame : e.frame ≡ old
  pub closes_opened : e.closed ≡ e.opened
  pub gives_back_retained : e.given_back ≡ e.retained

-- The descriptors that the first `k` calls of dup from the plane `i` on return, up to the first that
-- fails.
pub duplicates : (ℕ → Option ℕ) → ℕ → ℕ → List ℕ
duplicates dup i zero = []
duplicates dup i (suc k) = elim (dup i) [ none ↦ [] | some copy ↦ copy ∷ duplicates dup (i + 1) k ]

-- The planes that the loop fills hold what it has opened, and these are what the calls returned.
dup_planes-opened :
    (dup : ℕ → Option ℕ) (i : ℕ) (ps : List Plane)
    → let (through, filled, copies) = dup_planes dup i ps in
      (plane_fds filled ≡ copies) × (k : ℕ) × (copies ≡ duplicates dup i k)
unfolding dup_planes duplicates
dup_planes-opened dup i [] = (refl, 0, refl)
dup_planes-opened dup i (p ∷ ps) = elim (Option-cases p.fd) [
  | inl closed ↦ rw closed (refl, 0, refl)
  | inr (fd, is_open) ↦ elim (Bool-cases (p.stride == 0)) [
    | inl empty ↦ rw (is_open, empty) (refl, 0, refl)
    | inr stride ↦ elim (Option-cases (dup i)) [
      | inl fails ↦ rw (is_open, stride, fails) (refl, 0, refl)
      | inr (copy, made) ↦
          let (held, k, calls) = dup_planes-opened dup (i + 1) ps in
          rw (is_open, stride, made)
            (ap (λ l. copy ∷ l) held, suc k, rw (duplicates, made) (ap (λ l. copy ∷ l) calls))
    ]
  ]
]

dup_planes_lem :
    (dup : ℕ → Option ℕ) (i : ℕ) (ps : List Plane)
    → (dup_planes dup i ps).0 ≡ true
    → (planes_valid (dup_planes dup i ps).1 ≡ true) × (length (dup_planes dup i ps).1 ≡ length ps)
unfolding dup_planes
dup_planes_lem dup i [] ok = (refl, refl)
dup_planes_lem dup i (p ∷ ps) ok = elim (Option-cases p.fd) [
  | inl closed ↦ absurd (ground (arith, rw closed at ok))
  | inr (fd, is_open) ↦ elim (Bool-cases (p.stride == 0)) [
    | inl empty ↦ absurd (ground (arith, rw (is_open, empty) at ok))
    | inr stride ↦ elim (Option-cases (dup i)) [
      | inl fails ↦ absurd (ground (arith, rw (is_open, stride, fails) at ok))
      | inr (copy, made) ↦
          let (all, len) = dup_planes_lem dup (i + 1) ps (rw (is_open, stride, made) at ok) in
          rw (is_open, stride, made) (ground (arith, stride, all), ap suc len)
    ]
  ]
]

kept_frame-Kept : (f : PixelFrame) → Kept f (kept_frame f)
kept_frame-Kept f = record {
  fails = refl;
  same_frame = refl;
  closes_opened = refl;
  gives_back_retained = refl;
}

has_pixels :
    (layout : Layout) (offset width height stride : ℕ)
    → cpu_range_valid layout offset width height stride ≡ true
    → (width == 0 || height == 0) ≡ false
unfolding cpu_range_valid
has_pixels layout offset width height stride ok = ground (arith, ok)

set_cpu-cases :
    (f : PixelFrame) (retains : Bool) (buffer : ℕ) (layout : Layout)
    (offset width height stride fourcc pts : ℕ)
    → let e = set_cpu f retains buffer layout offset width height stride fourcc pts in
      Replaced f e ⊎ Kept f e
unfolding set_cpu frame_valid frame_reset
set_cpu-cases f retains buffer layout offset width height stride fourcc pts =
    elim (Bool-cases (cpu_range_valid layout offset width height stride)) [
      | inr out ↦ inr (rw out (kept_frame-Kept f))
      | inl good ↦ elim (Bool-cases retains) [
        | inr none_left ↦ inr (rw (good, none_left) (kept_frame-Kept f))
        | inl kept ↦ inl (
            rw (good, kept)
              (record {
                succeeds = refl;
                is_valid = rw (has_pixels layout offset width height stride good, good) refl;
                owns_opened = refl;
                owns_retained = refl;
                closes_old = refl;
                gives_back_old = refl;
              }))
      ]
    ]

-- What a call has opened is what its calls of dup have returned, in order.
pub OpenedBy : (ℕ → Option ℕ) → Effects → Type 0
OpenedBy dup e = (k : ℕ) × (e.opened ≡ duplicates dup 0 k)

set_cpu-OpenedBy :
    (f : PixelFrame) (dup : ℕ → Option ℕ) (retains : Bool) (buffer : ℕ) (layout : Layout)
    (offset width height stride fourcc pts : ℕ)
    → OpenedBy dup (set_cpu f retains buffer layout offset width height stride fourcc pts)
unfolding set_cpu duplicates OpenedBy
set_cpu-OpenedBy f dup retains buffer layout offset width height stride fourcc pts =
    elim (Bool-cases (cpu_range_valid layout offset width height stride)) [
      | inr out ↦ rw out (0, refl)
      | inl good ↦ elim (Bool-cases retains) [
        | inr none_left ↦ rw (good, none_left) (0, refl)
        | inl kept ↦ rw (good, kept) (0, refl)
      ]
    ]

set_drm-OpenedBy :
    (f : PixelFrame) (dup : ℕ → Option ℕ) (width height fourcc pts : ℕ) (planes : List Plane)
    → OpenedBy dup (set_drm_prime_dup f dup width height fourcc pts planes)
unfolding set_drm_prime_dup duplicates OpenedBy
set_drm-OpenedBy f dup width height fourcc pts planes =
    let bad =
      width == 0 || (height == 0 || (length planes == 0 || ltb max_planes (length planes))) in
    elim (Bool-cases bad) [
      | inl out ↦ rw out (0, refl)
      | inr shaped ↦ let (_, k, calls) = dup_planes-opened dup 0 planes in rw shaped (k, calls)
    ]

set_drm-cases :
    (f : PixelFrame) (dup : ℕ → Option ℕ) (width height fourcc pts : ℕ) (planes : List Plane)
    → let e = set_drm_prime_dup f dup width height fourcc pts planes in Replaced f e ⊎ Kept f e
unfolding set_drm_prime_dup frame_valid frame_reset
set_drm-cases f dup width height fourcc pts planes =
    let bad =
      width == 0 || (height == 0 || (length planes == 0 || ltb max_planes (length planes))) in
    elim (Bool-cases bad) [
      | inl out ↦ inr (rw out (kept_frame-Kept f))
      | inr shaped ↦ elim (Bool-cases (dup_planes dup 0 planes).0) [
        | inr fails ↦ inr (
            rw (shaped, fails)
              (record {
                fails = refl;
                same_frame = refl;
                closes_opened = (dup_planes-opened dup 0 planes).0;
                gives_back_retained = refl;
              }))
        | inl through ↦
            let (all, len) = dup_planes_lem dup 0 planes through in
            let pixels : (width == 0 || height == 0) ≡ false = ground (arith, shaped) in
            let count : (length (dup_planes dup 0 planes).1 == 0
                  || ltb max_planes (length (dup_planes dup 0 planes).1))
                ≡ false =
              ground (arith, shaped, len) in
            inl (
              rw (shaped, through)
                (record {
                  succeeds = refl;
                  is_valid = rw (pixels, count) all;
                  owns_opened = (dup_planes-opened dup 0 planes).0;
                  owns_retained = refl;
                  closes_old = refl;
                  gives_back_old = refl;
                }))
      ]
    ]

-- What clone_loses_nothing says of a call onto the frame `old`.
pub Accounted : (ℕ → Option ℕ) → PixelFrame → Effects → Type 0
Accounted dup old e = OpenedBy dup e × (Replaced old e ⊎ Kept old e)

-- Cloning a frame onto another one, whatever the outcomes of the duplications of its descriptors and
-- of retaining its buffer: the descriptors that it opens are those that the duplications return, up
-- to the first that fails; and either the other frame becomes valid and owns exactly the descriptors
-- that were opened and the reference that was taken, and everything that it owned before is closed
-- or given back; or it stays as it is, and each descriptor that was opened is closed again.
pub clone_loses_nothing :
    (destination : PixelFrame) (dup : ℕ → Option ℕ) (retains : Bool) (source : PixelFrame)
    → Accounted dup destination (frame_clone destination dup retains source)
unfolding frame_clone Accounted OpenedBy duplicates
clone_loses_nothing d dup retains source = elim (Bool-cases (frame_valid source)) [
  | inr bad ↦ rw bad ((0, refl), inr (kept_frame-Kept d))
  | inl good ↦ rw good (by_storage source.storage)
]
  where
    by_storage :
        (s : Storage)
        → let e : Effects = (elim s [
          | no_storage ↦ kept_frame d
          | cpu buffer layout offset stride ↦
              set_cpu d retains buffer layout offset source.width source.height stride source.fourcc
                source.pts_usec
          | drm_prime planes ↦
              set_drm_prime_dup d dup source.width source.height source.fourcc source.pts_usec
                planes
        ]) in
          Accounted dup d e
    by_storage no_storage = ((0, refl), inr (kept_frame-Kept d))
    by_storage (cpu buffer layout offset stride) = (
      set_cpu-OpenedBy d dup retains buffer layout offset source.width source.height stride
          source.fourcc source.pts_usec,
      set_cpu-cases d retains buffer layout offset source.width source.height stride source.fourcc
          source.pts_usec,
    )
    by_storage (drm_prime planes) = (
      set_drm-OpenedBy d dup source.width source.height source.fourcc source.pts_usec planes,
      set_drm-cases d dup source.width source.height source.fourcc source.pts_usec planes,
    )
