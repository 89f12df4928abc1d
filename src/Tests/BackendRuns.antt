-- ===== src/Tests/BackendRuns.antt =====
-- src/standalone/pw_host/status.rs: two streams come up, and a failure.
use nam_audio_pipe.Base.{◌≡◌, refl, true, false, List, [], ◌∷◌}
use nam_audio_pipe.Host.BackendStatus.{
  running_state, set_state_locked, update_stream_health_locked, set_stream_active, mark_format_ok,
  mark_failed, StreamStatus, capture, playback, initial, Call, streaming, format_ok, run,
}
use nam_audio_pipe.Host.BackendStatus.Coherence.{IsCoherent, run-IsCoherent}
use nam_audio_pipe.Host.BackendStatus.Sticky.{failure_sticky, is_down}

abbrev latches : StreamStatus
latches = record {
  capture_active = true;
  playback_active = true;
  capture_format_ok = true;
  playback_format_ok = false;
  format_contract_ok = false;
}

abbrev coming_up : List Call
coming_up = streaming capture true ∷ streaming playback true ∷ format_ok playback ∷ []

comes_up : (run coming_up (initial latches)).state ≡ running_state
unfolding set_stream_active mark_format_ok update_stream_health_locked set_state_locked
comes_up = refl

run-IsCoherent_example : IsCoherent (run coming_up (initial latches))
run-IsCoherent_example = run-IsCoherent coming_up latches

failure_sticky_example :
    ((run coming_up (mark_failed 1 2 (initial latches))).failed ≡ true)
    × (is_down (run coming_up (mark_failed 1 2 (initial latches))).state ≡ true)
failure_sticky_example = failure_sticky 1 2 coming_up (initial latches) refl
