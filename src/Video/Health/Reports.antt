-- ===== src/Video/Health/Reports.antt =====
-- What a health class says about the reports of the client.
use waydisplay.Prelude.{◌≡◌, ◌≢◌, ◌↔◌, ◌⊎◌, Bool, true, arith}
use waydisplay.Video.Health.{
  health_classify, health_for_window, HealthClass, decoder_overloaded, pipeline_stall, hard_failure,
  HealthMetrics,
}

-- The class that the controller acts on.
abbrev pub window_health : HealthMetrics → Bool → Bool → HealthClass
window_health m visible focused = health_for_window (health_classify m) visible focused

-- A hidden or unfocused window never hides a failure: the class acted on is a hard failure exactly
-- when the client reported a failed decode or publication, a decoder overload exactly when it
-- reported none of these but dropped compressed packets, and a stall only for a visible and
-- focused window to which frames were sent and came in with none presented.
pub window_health_exact :
    (m : HealthMetrics) (visible focused : Bool)
    → ((window_health m visible focused ≡ hard_failure) ↔ (
        (m.client_reports ≢ 0)
        × ((m.client_decode_failures ≢ 0) ⊎ (m.client_publish_failures ≢ 0))))
      × ((window_health m visible focused ≡ decoder_overloaded) ↔ (
          (m.client_reports ≢ 0)
          × (m.client_decode_failures ≡ 0)
          × (m.client_publish_failures ≡ 0)
          × (m.client_decode_queue_drops ≢ 0)))
      × ((window_health m visible focused ≢ pipeline_stall)
          ⊎ ((visible ≡ true)
              × (focused ≡ true)
              × (m.server_frames_tx ≢ 0)
              × (m.client_frames_presented ≡ 0)
              × ((m.client_frames_seen ≢ 0) ⊎ (m.client_frames_decoded ≢ 0))))
unfolding health_for_window health_classify
window_health_exact m visible focused =
    ((ground arith, ground arith), (ground arith, ground arith), ground arith)
