-- ===== src/Pacing.antt =====
-- src/server/wd_frame_pacing.c: when the next frame is captured.
pub mod Rate
mod Tests
use waydisplay.Prelude.{
  ltb, leb, ◌==◌, ◌/=◌, if◌then◌else◌, u64_max, u64, ℕ, ◌+◌, ◌-◌, ◌/◌, Bool, true, false,
}

-- WD_DEFAULT_SESSION_FPS and WD_MAX_SESSION_FPS
abbrev pub default_session_fps : ℕ
default_session_fps = 60

abbrev pub max_session_fps : ℕ
max_session_fps = 240

-- wd_frame_rate_normalize_client_request
pub normalize_client_request : ℕ → ℕ
normalize_client_request requested_fps =
    if requested_fps == 0
    then default_session_fps
    else if ltb max_session_fps requested_fps
    then max_session_fps
    else requested_fps

-- wd_frame_service_interval_ms
pub service_interval_ms : ℕ → ℕ → ℕ → ℕ
service_interval_ms capture minimum maximum =
    let minimum_ms = if minimum == 0 then 1 else minimum in
    let maximum_ms = if ltb maximum minimum_ms then minimum_ms else maximum in
    let capture_fps = if capture == 0 then 1 else capture in
    let interval_ms = 1000 / capture_fps in
    let raised = if ltb interval_ms minimum_ms then minimum_ms else interval_ms in
    if ltb maximum_ms raised then maximum_ms else raised

-- struct wd_frame_pacing_state
pub record PacingState : Type 0 where
  pub next_deadline_ns : ℕ
  pub last_admitted_ns : ℕ
  pub capture_fps : ℕ

-- wd_frame_pacing_reset
pub pacing_reset : PacingState → PacingState
pacing_reset s = record { next_deadline_ns = 0; last_admitted_ns = 0; capture_fps = 0 }

-- WD_NSEC_PER_SEC
abbrev pub nsec_per_sec : ℕ
nsec_per_sec = 1_000_000_000

-- wd_frame_interval_ns
pub frame_interval_ns : ℕ → ℕ
frame_interval_ns fps =
    let capture_fps = if fps == 0 then 1 else fps in
    u64 (nsec_per_sec + capture_fps - 1) / capture_fps

-- `UINT64_MAX - base < interval ? UINT64_MAX : base + interval`
abbrev pub deadline_after : ℕ → ℕ → ℕ
deadline_after base interval_ns =
    if ltb (u64_max - base) interval_ns then u64_max else base + interval_ns

-- The change of the capture rate while frames are flowing.
abbrev pub retuned : PacingState → ℕ → ℕ → PacingState
retuned s fps interval_ns =
    if s.capture_fps /= fps
    then record s {
      capture_fps = fps;
      next_deadline_ns = deadline_after s.last_admitted_ns interval_ns;
    }
    else s

-- The admission test and the next deadline.
abbrev pub admitted : PacingState → ℕ → ℕ → PacingState × Bool
admitted s now_ns interval_ns =
    if ltb now_ns s.next_deadline_ns
    then (s, false)
    else (let base =
          if leb interval_ns (now_ns - s.next_deadline_ns) then now_ns else s.next_deadline_ns in
        (
          record s {
            last_admitted_ns = now_ns;
            next_deadline_ns = deadline_after base interval_ns;
          },
          true,
        ))

-- wd_frame_pacing_due
pub pacing_due : PacingState → ℕ → ℕ → PacingState × Bool
pacing_due s now_ns fps =
    let capture_fps = if fps == 0 then 1 else fps in
    let interval_ns = frame_interval_ns capture_fps in
    if s.last_admitted_ns == 0
    then (
      record {
        capture_fps = capture_fps;
        last_admitted_ns = (if now_ns /= 0 then now_ns else 1);
        next_deadline_ns = deadline_after now_ns interval_ns;
      },
      true,
    )
    else admitted (retuned s capture_fps interval_ns) now_ns interval_ns
