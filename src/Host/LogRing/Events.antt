-- ===== src/Host/LogRing/Events.antt =====
-- src/standalone/pw_host/rt_log_ring.rs: the calls of the RT thread, the drainer and the control
-- thread as events.
use nam_audio_pipe.Base.{if◌then◌else◌, Bool, List, [], ◌∷◌, ◌++◌}
use nam_audio_pipe.Recording.Spsc.{Spsc}
use nam_audio_pipe.Host.LogRing.{
  RtLogRecord, LogRing, install, restore_deactivate, try_offload, drain,
}

-- An event: a log call with the mark of its thread, a turn of the drainer, an install with the
-- rollback variable and whether the drainer can be spawned, or a restore.
pub data Event : Type 0 where
  log_call : Bool → RtLogRecord → Event
  drain_turn : Event
  install_call : Bool → Bool → Event
  restore_call : Event

module _ (R : Spsc RtLogRecord) where
  abbrev pub step : Event → LogRing R → LogRing R
  step (log_call marked r) s = (try_offload R marked r s).1
  step drain_turn s = drain R s
  step (install_call rollback spawned) s = install R rollback spawned s
  step restore_call s = restore_deactivate R s

  abbrev pub run : List Event → LogRing R → LogRing R
  run [] s = s
  run (e ∷ es) s = run es (step e s)

  -- The record of a log call for which `try_offload` returns true.
  abbrev pub taken : Event → LogRing R → List RtLogRecord
  taken (log_call marked r) s = if (try_offload R marked r s).0 then r ∷ [] else []
  taken _ s = []

  abbrev pub all_taken : List Event → LogRing R → List RtLogRecord
  all_taken [] s = []
  all_taken (e ∷ es) s = taken e s ++ all_taken es (step e s)
