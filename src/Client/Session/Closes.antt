-- ===== src/Client/Session/Closes.antt =====
-- A session is left once and can be entered again.
use waydisplay.Prelude.{ℕ, ◌≡◌, refl, true, false, Option, []}
use waydisplay.Client.Session.{
  begin_connect, mark_connected, begin_shutdown, shutdown_open_fds, close_open_fds, SessionPhase,
  session_idle, session_connecting, session_connected, session_stopping, ClientSession,
}

-- A shutdown and what may follow it.
abbrev pub EndsAndReopens : ClientSession → Type 0
EndsAndReopens s =
    ((begin_shutdown (begin_shutdown s).0).1 ≡ false)
    × (((begin_connect (begin_shutdown s).0).1 ≡ false)
        × ((mark_connected (begin_shutdown s).0 ≡ (begin_shutdown s).0)
            × (((close_open_fds (begin_shutdown s).0).1 ≡ shutdown_open_fds s)
                × (((close_open_fds (close_open_fds (begin_shutdown s).0).0).1 ≡ [])
                    × ((begin_connect (close_open_fds (begin_shutdown s).0).0).1 ≡ true)))))

by_phase :
    (control input selection video audio udp : Option ℕ) (phase : SessionPhase)
    → EndsAndReopens (record {
      control_fd = control;
      input_fd = input;
      selection_fd = selection;
      video_fd = video;
      audio_fd = audio;
      udp_fd = udp;
      phase = phase;
    })
unfolding begin_shutdown begin_connect mark_connected close_open_fds
by_phase c i s v a u session_idle = (refl, (refl, (refl, (refl, (refl, refl)))))
by_phase c i s v a u session_connecting = (refl, (refl, (refl, (refl, (refl, refl)))))
by_phase c i s v a u session_connected = (refl, (refl, (refl, (refl, (refl, refl)))))
by_phase c i s v a u session_stopping = (refl, (refl, (refl, (refl, (refl, refl)))))

-- A shutdown takes effect once; behind it no connection begins and a late mark of one has no effect.
-- A close passes on the same open descriptors as the shutdown, in the same order, a second close none,
-- and then a new connection may begin.
pub leaves_cleanly : (s : ClientSession) → EndsAndReopens s
leaves_cleanly s =
    by_phase s.control_fd s.input_fd s.selection_fd s.video_fd s.audio_fd s.udp_fd s.phase
