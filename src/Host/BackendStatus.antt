-- ===== src/Host/BackendStatus.antt =====
-- src/standalone/pw_host/status.rs: the lifecycle state of the PipeWire backend with its lock-free
-- mirrors, and the stream latches of spa_format.rs. A call is one step: the source stores the mirrors
-- and latches of `set_stream_active` and `mark_terminated` outside the state lock, so a call that
-- overlaps another one is not covered;
-- texts and durations are numbers that name them; waking the control loop is left out.
pub mod Coherence
pub mod Sticky
use nam_audio_pipe.Base.{
  ℕ, ◌&&◌, not, if◌then◌else◌, Bool, true, false, Option, none, some, List, [], ◌∷◌, is_some,
}

pub data BackendState : Type 0 where
  starting : BackendState
  running_state : BackendState
  degraded : ℕ → BackendState
  reconnecting : ℕ → ℕ → ℕ → BackendState
  failed_state : ℕ → ℕ → BackendState
  terminated : BackendState

unfoldable pub matches_failed_flag : BackendState → Bool → Bool
matches_failed_flag (failed_state stream reason) failed = failed
matches_failed_flag starting failed = not failed
matches_failed_flag running_state failed = not failed
matches_failed_flag (degraded reason) failed = not failed
matches_failed_flag (reconnecting attempt total backoff) failed = not failed
matches_failed_flag terminated failed = true

abbrev pub is_running_state : BackendState → Bool
is_running_state running_state = true
is_running_state _ = false

-- The stream names that the latches know, and every other name.
pub data Stream : Type 0 where
  capture : Stream
  playback : Stream
  other : ℕ → Stream

pub record StreamStatus : Type 0 where
  pub capture_active : Bool
  pub playback_active : Bool
  pub capture_format_ok : Bool
  pub playback_format_ok : Bool
  pub format_contract_ok : Bool

pub record Backend : Type 0 where
  pub failed : Bool
  pub capture_active : Bool
  pub playback_active : Bool
  pub running : Bool
  pub state : BackendState
  pub failure_detail : Option (ℕ × ℕ)
  pub stream_status : StreamStatus

abbrev pub mark_stream_active : Stream → Bool → StreamStatus → StreamStatus
mark_stream_active capture active s = record s { capture_active = active }
mark_stream_active playback active s = record s { playback_active = active }
mark_stream_active (other name) active s = s

abbrev pub refresh_contract : StreamStatus → StreamStatus
refresh_contract s = record s { format_contract_ok = s.capture_format_ok && s.playback_format_ok }

abbrev pub mark_format_contract_ok : Stream → StreamStatus → StreamStatus
mark_format_contract_ok capture s = refresh_contract (record s { capture_format_ok = true })
mark_format_contract_ok playback s = refresh_contract (record s { playback_format_ok = true })
mark_format_contract_ok (other name) s = refresh_contract s

-- The latches of `reject_negotiated_format_violation`.
abbrev pub reject_format : Stream → StreamStatus → StreamStatus
reject_format capture s = record s { capture_format_ok = false; format_contract_ok = false }
reject_format playback s = record s { playback_format_ok = false; format_contract_ok = false }
reject_format (other name) s = record s { format_contract_ok = false }

unfoldable pub set_state_locked : BackendState → Backend → Backend
set_state_locked state b = record b { state = state; running = is_running_state state }

-- Both formats are valid and both streams are active.
abbrev pub recovers : BackendState → Bool
recovers starting = true
recovers (reconnecting attempt total backoff) = true
recovers (degraded reason) = true
recovers _ = false

-- The reason text of a lost format contract.
abbrev pub contract_violation : ℕ
contract_violation = 0

abbrev pub is_degraded : BackendState → Bool
is_degraded (degraded reason) = true
is_degraded _ = false

unfoldable pub update_stream_health_locked : Backend → Backend
update_stream_health_locked b =
    let both_active = b.capture_active && b.playback_active in
    let both_format_ok = b.stream_status.capture_format_ok && b.stream_status.playback_format_ok in
    if b.failed
    then b
    else if both_active && both_format_ok
    then (if recovers b.state then set_state_locked running_state b else b)
    else if is_running_state b.state
    then (if not both_active
        then set_state_locked starting b
        else if not both_format_ok
        then set_state_locked (degraded contract_violation) b
        else b)
    else if is_degraded b.state && both_format_ok
    then set_state_locked starting b
    else b

abbrev pub store_active : Stream → Bool → Backend → Backend
store_active capture active b = record b { capture_active = active }
store_active playback active b = record b { playback_active = active }
store_active (other name) active b = b

abbrev pub latch_active : Stream → Bool → Backend → Backend
latch_active stream active b = record b {
  stream_status = mark_stream_active stream active b.stream_status;
}

unfoldable pub set_stream_active : Stream → Bool → Backend → Backend
set_stream_active stream active b =
    update_stream_health_locked (latch_active stream active (store_active stream active b))

unfoldable pub mark_format_ok : Stream → Backend → Backend
mark_format_ok stream b =
    update_stream_health_locked
      (record b { stream_status = mark_format_contract_ok stream b.stream_status })

unfoldable pub mark_running : Backend → Backend
mark_running b = if b.failed then b else set_state_locked running_state b

unfoldable pub mark_degraded : ℕ → Backend → Backend
mark_degraded reason b = if b.failed then b else set_state_locked (degraded reason) b

unfoldable pub mark_failed : ℕ → ℕ → Backend → Backend
mark_failed stream reason b = record (set_state_locked (failed_state stream reason) b) {
  failure_detail = some (stream, reason);
  failed = true;
}

-- Both streams are marked inactive, here and in the latches.
abbrev pub silence : Backend → Backend
silence b = record b {
  capture_active = false;
  playback_active = false;
  stream_status =
      mark_stream_active playback false (mark_stream_active capture false b.stream_status);
}

unfoldable pub mark_terminated : Backend → Backend
mark_terminated b = silence (set_state_locked terminated b)

unfoldable pub begin_reconnect : ℕ → ℕ → ℕ → Backend → Backend
begin_reconnect attempt total_attempts next_backoff b =
    set_state_locked (reconnecting attempt total_attempts next_backoff)
      (record (silence b) { failed = false; failure_detail = none })

-- `with_rt_status` and `with_rt_and_stream_status`: the default, and latches that are then cleared.
abbrev pub initial : StreamStatus → Backend
initial s = record {
  failed = false;
  capture_active = false;
  playback_active = false;
  running = false;
  state = starting;
  failure_detail = none;
  stream_status = mark_stream_active playback false (mark_stream_active capture false s);
}

unfoldable pub failure : Backend → Option (ℕ × ℕ)
failure b = if not b.failed then none else b.failure_detail

pub data Call : Type 0 where
  streaming : Stream → Bool → Call
  format_ok : Stream → Call
  violation : Stream → Call
  running_call : Call
  degrade : ℕ → Call
  fail : ℕ → ℕ → Call
  terminate : Call
  reconnect : ℕ → ℕ → ℕ → Call

abbrev pub apply : Call → Backend → Backend
apply (streaming stream active) b = set_stream_active stream active b
apply (format_ok stream) b = mark_format_ok stream b
apply (violation stream) b = record b { stream_status = reject_format stream b.stream_status }
apply running_call b = mark_running b
apply (degrade reason) b = mark_degraded reason b
apply (fail stream reason) b = mark_failed stream reason b
apply terminate b = mark_terminated b
apply (reconnect attempt total backoff) b = begin_reconnect attempt total backoff b

abbrev pub run : List Call → Backend → Backend
run [] b = b
run (c ∷ cs) b = run cs (apply c b)
