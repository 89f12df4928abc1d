-- ===== src/Recording/Status.antt =====
-- src/recording/status.rs: the observable state of the worker and the startup handshake. Paths,
-- reasons and warnings are numbers that name them; the failure flag stands beside the state.
pub mod Handshake
use nam_audio_pipe.Base.{ℕ, zero, suc, ◌+◌, if◌then◌else◌, Bool, true, false, Option, none, some}

pub data RecordingStatus : Type 0 where
  starting : RecordingStatus
  active : ℕ → Option ℕ → RecordingStatus
  failed : ℕ → RecordingStatus
  stopped : RecordingStatus

-- The shared status with its mutex, and the flag that the RT callback polls.
pub record Observed : Type 0 where
  pub status : RecordingStatus
  pub poisoned : Bool
  pub failed_flag : Bool

-- A write under the lock, which a poisoned mutex refuses.
abbrev pub write_status : (RecordingStatus → RecordingStatus) → Observed → Observed
write_status f o = if o.poisoned then o else record o { status = f o.status }

unfoldable pub record_failure : ℕ → Observed → Observed
record_failure reason o = record (write_status (λ s. failed reason) o) { failed_flag = true }

unfoldable pub mark_active : ℕ → Observed → Observed
mark_active path o = write_status (λ s. active path none) o

abbrev pub warned : Option ℕ → RecordingStatus → RecordingStatus
warned warning (active path old) = active path warning
warned warning starting = starting
warned warning (failed reason) = failed reason
warned warning stopped = stopped

unfoldable pub publish_space_warning : Option ℕ → Observed → Observed
publish_space_warning warning o = write_status (warned warning) o

pub data RecordingStartupError : Type 0 where
  startup_failed : ℕ → RecordingStartupError
  timeout : RecordingStartupError
  worker_gone : RecordingStartupError

-- What `try_recv` of the oneshot channel answers.
pub data Received : Type 0 where
  ready : ℕ → Received
  refused : ℕ → Received
  empty : Received
  closed : Received

pub data Verdict : Type 0 where
  go : ℕ → Verdict
  abort : RecordingStartupError → Verdict
  out_of_fuel : Verdict

-- The poll loop; the channel's answer and whether the deadline has passed are given by the poll.
unfoldable pub poll_init : ℕ → (ℕ → Received) → (ℕ → Bool) → ℕ → Verdict
poll_init zero rx late i = out_of_fuel
poll_init (suc fuel) rx late i =
    let rest = poll_init fuel rx late (i + 1) in
    elim (rx i) [
      | ready path ↦ go path
      | refused reason ↦ abort (startup_failed reason)
      | empty ↦ if late i then abort timeout else rest
      | closed ↦ abort worker_gone
    ]

unfoldable pub wait_for_recording_init : ℕ → (ℕ → Received) → (ℕ → Bool) → Verdict
wait_for_recording_init fuel rx late = poll_init fuel rx late 0
