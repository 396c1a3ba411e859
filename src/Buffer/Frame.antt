-- ===== src/Buffer/Frame.antt =====
-- Frames that own a buffer reference or file descriptors, src/common/wd_frame.c. A function gives
-- the new frame, and which descriptors it has opened and closed and which references it has taken
-- and given back.
pub mod Leaks
use waydisplay.Prelude.{
  ltb, ◌==◌, ◌/=◌, if◌then◌else◌, length, ℕ, ◌+◌, Bool, true, false, not, ◌&&◌, ◌||◌, Option, none,
  some, List, [], ◌∷◌,
}
use waydisplay.Buffer.{Layout}
use waydisplay.Buffer.Range.{cpu_range_valid}

-- struct wd_frame_drm_plane; `none` is a negative descriptor.
pub record Plane : Type 0 where
  pub fd : Option ℕ
  pub stride : ℕ
  pub offset : ℕ
  pub modifier : ℕ

-- enum wd_frame_storage with what the frame owns: the number of a buffer and its layout, or the
-- planes in use, of which there are four at most.
pub data Storage : Type 0 where
  no_storage : Storage
  cpu : ℕ → Layout → ℕ → ℕ → Storage
  drm_prime : List Plane → Storage

-- struct wd_frame
pub record PixelFrame : Type 0 where
  pub storage : Storage
  pub width : ℕ
  pub height : ℕ
  pub fourcc : ℕ
  pub pts_usec : ℕ

-- What a call has done.
pub record Effects : Type 0 where
  pub frame : PixelFrame
  pub ok : Bool
  pub opened : List ℕ
  pub closed : List ℕ
  pub retained : List ℕ
  pub given_back : List ℕ

abbrev pub max_planes : ℕ
max_planes = 4

-- wd_frame_init
abbrev pub frame_init : PixelFrame
frame_init = record { storage = no_storage; width = 0; height = 0; fourcc = 0; pts_usec = 0 }

abbrev pub plane_fds : List Plane → List ℕ
plane_fds [] = []
plane_fds (p ∷ ps) = elim p.fd [ none ↦ plane_fds ps | some fd ↦ fd ∷ plane_fds ps ]

-- The descriptors that wd_frame_reset closes.
abbrev pub owned_fds : PixelFrame → List ℕ
owned_fds f = elim f.storage [
  | no_storage ↦ []
  | cpu _ _ _ _ ↦ []
  | drm_prime planes ↦ plane_fds planes
]

-- The references that wd_frame_reset gives back.
abbrev pub owned_refs : PixelFrame → List ℕ
owned_refs f = elim f.storage [
  | no_storage ↦ []
  | cpu buffer _ _ _ ↦ buffer ∷ []
  | drm_prime _ ↦ []
]

-- wd_frame_reset
unfoldable pub frame_reset : PixelFrame → Effects
frame_reset f = record {
  frame = frame_init;
  ok = true;
  opened = [];
  closed = owned_fds f;
  retained = [];
  given_back = owned_refs f;
}

-- A call that returns false before it has done anything.
abbrev pub kept_frame : PixelFrame → Effects
kept_frame f = record {
  frame = f;
  ok = false;
  opened = [];
  closed = [];
  retained = [];
  given_back = [];
}

-- wd_frame_set_cpu_xrgb8888; `retains` is the outcome of wd_buffer_retain.
unfoldable pub set_cpu : PixelFrame → Bool → ℕ → Layout → ℕ → ℕ → ℕ → ℕ → ℕ → ℕ → Effects
unfolding cpu_range_valid frame_reset
set_cpu f retains buffer layout offset width height stride fourcc pts =
    if not (cpu_range_valid layout offset width height stride)
    then kept_frame f
    else if not retains
    then kept_frame f
    else (let reset = frame_reset f in
        record {
          frame = record {
            storage = cpu buffer layout offset stride;
            width = width;
            height = height;
            fourcc = fourcc;
            pts_usec = pts;
          };
          ok = true;
          opened = [];
          closed = reset.closed;
          retained = buffer ∷ [];
          given_back = reset.given_back;
        })

-- The loop of wd_frame_set_drm_prime_dup from plane `i` on: whether it gets through, the planes that
-- it has filled, and the descriptors that the calls of wd_frame_dup_cloexec have opened. `dup i` is
-- the outcome of the call for the plane.
unfoldable pub dup_planes : (ℕ → Option ℕ) → ℕ → List Plane → Bool × List Plane × List ℕ
dup_planes dup i [] = (true, [], [])
dup_planes dup i (p ∷ ps) =
    let (through, filled, copies) = dup_planes dup (i + 1) ps in
    elim p.fd [
      | none ↦ (false, [], [])
      | some _ ↦ if p.stride == 0 then (false, [], []) else elim (dup i) [
        | none ↦ (false, [], [])
        | some copy ↦ (through, record p { fd = some copy } ∷ filled, copy ∷ copies)
      ]
    ]

-- wd_frame_set_drm_prime_dup: the temporary frame takes the place of `f`, or it is reset.
unfoldable pub set_drm_prime_dup :
    PixelFrame → (ℕ → Option ℕ) → ℕ → ℕ → ℕ → ℕ → List Plane → Effects
unfolding dup_planes frame_reset
set_drm_prime_dup f dup width height fourcc pts planes =
    if width == 0 || (height == 0 || (length planes == 0 || ltb max_planes (length planes)))
    then kept_frame f
    else (let (through, filled, copies) = dup_planes dup 0 planes in
        let temporary : PixelFrame = record {
          storage = drm_prime filled;
          width = width;
          height = height;
          fourcc = fourcc;
          pts_usec = pts;
        } in
        let reset = frame_reset (if through then f else temporary) in
        record {
          frame = if through then temporary else f;
          ok = through;
          opened = copies;
          closed = reset.closed;
          retained = [];
          given_back = reset.given_back;
        })

abbrev pub planes_valid : List Plane → Bool
planes_valid [] = true
planes_valid (p ∷ ps) = elim p.fd [ none ↦ false | some _ ↦ p.stride /= 0 && planes_valid ps ]

-- wd_frame_valid
unfoldable pub frame_valid : PixelFrame → Bool
unfolding cpu_range_valid
frame_valid f = if f.width == 0 || f.height == 0 then false else elim f.storage [
  | no_storage ↦ false
  | cpu buffer layout offset stride ↦ cpu_range_valid layout offset f.width f.height stride
  | drm_prime planes ↦
      if length planes == 0 || ltb max_planes (length planes) then false else planes_valid planes
]

-- wd_frame_clone, onto another frame.
unfoldable pub frame_clone : PixelFrame → (ℕ → Option ℕ) → Bool → PixelFrame → Effects
unfolding frame_valid set_cpu set_drm_prime_dup
frame_clone destination dup retains source =
    if not (frame_valid source) then kept_frame destination else elim source.storage [
      | no_storage ↦ kept_frame destination
      | cpu buffer layout offset stride ↦
          set_cpu destination retains buffer layout offset source.width source.height stride
            source.fourcc source.pts_usec
      | drm_prime planes ↦
          set_drm_prime_dup destination dup source.width source.height source.fourcc source.pts_usec
            planes
    ]
