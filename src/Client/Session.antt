-- ===== src/Client/Session.antt =====
-- src/client/client_session.c: the descriptors of a connection and its phase. A descriptor below 0,
-- which is none, is `none`; the session is not null. What the functions pass to shutdown(2) and
-- close(2) is a list beside the new state.
pub mod Closes
use waydisplay.Prelude.{
  if◌then◌else◌, ℕ, Bool, true, false, not, ◌&&◌, Option, none, some, List, [], ◌∷◌, ◌++◌,
}

-- enum wd_client_session_phase
pub data SessionPhase : Type 0 where
  session_idle session_connecting session_connected session_stopping : SessionPhase

-- struct wd_client_session
pub record ClientSession : Type 0 where
  pub control_fd : Option ℕ
  pub input_fd : Option ℕ
  pub selection_fd : Option ℕ
  pub video_fd : Option ℕ
  pub audio_fd : Option ℕ
  pub udp_fd : Option ℕ
  pub phase : SessionPhase

-- wd_client_session_init
abbrev pub session_init : ClientSession
session_init = record {
  control_fd = none;
  input_fd = none;
  selection_fd = none;
  video_fd = none;
  audio_fd = none;
  udp_fd = none;
  phase = session_idle;
}

abbrev pub is_closed : Option ℕ → Bool
is_closed none = true
is_closed (some fd) = false

-- wd_client_session_fds_closed
abbrev pub fds_closed : ClientSession → Bool
fds_closed s =
    is_closed s.control_fd
    && is_closed s.input_fd
    && is_closed s.selection_fd
    && is_closed s.video_fd
    && is_closed s.audio_fd
    && is_closed s.udp_fd

-- wd_client_session_begin_connect
unfoldable pub begin_connect : ClientSession → ClientSession × Bool
begin_connect s = elim s.phase [
  | session_idle ↦
      if not (fds_closed s) then (s, false) else (record s { phase = session_connecting }, true)
  | session_connecting ↦ (s, false)
  | session_connected ↦ (s, false)
  | session_stopping ↦ (s, false)
]

-- wd_client_session_mark_connected
unfoldable pub mark_connected : ClientSession → ClientSession
mark_connected s = elim s.phase [
  | session_connecting ↦ record s { phase = session_connected }
  | session_idle ↦ s
  | session_connected ↦ s
  | session_stopping ↦ s
]

-- wd_client_session_begin_shutdown
unfoldable pub begin_shutdown : ClientSession → ClientSession × Bool
begin_shutdown s = elim s.phase [
  | session_stopping ↦ (s, false)
  | session_idle ↦ (record s { phase = session_stopping }, true)
  | session_connecting ↦ (record s { phase = session_stopping }, true)
  | session_connected ↦ (record s { phase = session_stopping }, true)
]

-- wd_client_session_shutdown_fd and wd_client_session_close_fd, by what they pass on.
abbrev pub passed_on : Option ℕ → List ℕ
passed_on none = []
passed_on (some fd) = fd ∷ []

-- wd_client_session_shutdown_open_fds
abbrev pub shutdown_open_fds : ClientSession → List ℕ
shutdown_open_fds s =
    passed_on s.control_fd
    ++ passed_on s.input_fd
    ++ passed_on s.selection_fd
    ++ passed_on s.video_fd
    ++ passed_on s.audio_fd
    ++ passed_on s.udp_fd

-- wd_client_session_close_open_fds
unfoldable pub close_open_fds : ClientSession → ClientSession × List ℕ
close_open_fds s = (
  record {
    control_fd = none;
    input_fd = none;
    selection_fd = none;
    video_fd = none;
    audio_fd = none;
    udp_fd = none;
    phase = session_idle;
  },
  passed_on s.control_fd
      ++ passed_on s.input_fd
      ++ passed_on s.selection_fd
      ++ passed_on s.video_fd
      ++ passed_on s.audio_fd
      ++ passed_on s.udp_fd,
)
