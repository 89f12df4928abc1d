-- ===== src/Recording/Guard.antt =====
-- src/recording/guard.rs: the shutdown of a recording. The worker thread and the clock are
-- parameters: what the thread's handle and the deadline answer at each poll.
pub mod Shutdown
pub mod Clean
use nam_audio_pipe.Base.{
  ℕ, zero, suc, ◌+◌, ◌<◌, ◌≡◌, ◌||◌, not, ltb, max, if◌then◌else◌, Bool, true, false, Option, none,
  some,
}
use nam_audio_pipe.Recording.Transport.{
  Rings, RecordingSender, try_push_stream_stop, has_producer, leaked_slots,
}

-- Texts and durations are numbers that name them.
pub data RecordingWorkerOutcome : Type 0 where
  success : RecordingWorkerOutcome
  success_with_loss : ℕ → ℕ → RecordingWorkerOutcome
  failed : ℕ → RecordingWorkerOutcome
  panicked : ℕ → RecordingWorkerOutcome
  timed_out : RecordingWorkerOutcome

-- `ExitKind::Recording`.
abbrev pub recording_exit : ℕ
recording_exit = 6

unfoldable pub exit_code : RecordingWorkerOutcome → ℕ
exit_code success = 0
exit_code (success_with_loss blocks frames) = recording_exit
exit_code (failed reason) = recording_exit
exit_code (panicked message) = recording_exit
exit_code timed_out = recording_exit

-- What `JoinHandle::join` gives: the worker's result, or its panic.
pub data Joined : Type 0 where
  ok : Joined
  err : ℕ → Joined
  panic : ℕ → Joined

-- A spawned worker: whether it is finished at a poll, and what its join gives.
pub record Worker : Type 0 where
  pub finished : ℕ → Bool
  pub result : Joined

abbrev pub join_outcome : Joined → RecordingWorkerOutcome
join_outcome ok = success
join_outcome (err e) = failed e
join_outcome (panic m) = panicked m

-- The poll loop of `join_recording_io`. `late` tells whether the deadline has passed at a poll;
-- `none` is a loop that is still running.
unfoldable pub poll_join : ℕ → (ℕ → Bool) → Worker → ℕ → Option RecordingWorkerOutcome
poll_join zero late w i = none
poll_join (suc fuel) late w i =
    let rest = poll_join fuel late w (i + 1) in
    if w.finished i then some (join_outcome w.result) else if late i then some timed_out else rest

unfoldable pub join_recording_io : ℕ → (ℕ → Bool) → Option Worker → Option RecordingWorkerOutcome
join_recording_io fuel late none = some success
join_recording_io fuel late (some w) = poll_join fuel late w 0

-- The loop of `push_stream_stop`. Between two tries the worker may have taken items out:
-- `meanwhile` is what it does to the rings.
unfoldable pub push_stream_stop :
    {R : Rings}
    → ℕ
    → (ℕ → Bool)
    → (RecordingSender R → RecordingSender R)
    → ℕ
    → RecordingSender R
    → Option (RecordingSender R)
push_stream_stop zero late meanwhile i s = none
push_stream_stop (suc fuel) late meanwhile i s =
    let tried = try_push_stream_stop s in
    let rest = push_stream_stop fuel late meanwhile (i + 1) (meanwhile tried.1) in
    if tried.0
    then some tried.1
    else if not (has_producer tried.1)
    then some tried.1
    else if late i
    then some tried.1
    else rest

-- The counters of the capture path that `classify_loss` reads.
pub record Overruns : Type 0 where
  pub count : ℕ
  pub frames : ℕ

unfoldable pub classify_loss : Overruns → RecordingWorkerOutcome → ℕ → RecordingWorkerOutcome
classify_loss o success leaked =
    if ltb 0 (max o.count leaked) || ltb 0 o.frames
    then success_with_loss (max o.count leaked) o.frames
    else success
classify_loss o (success_with_loss blocks frames) leaked = success_with_loss blocks frames
classify_loss o (failed reason) leaked = failed reason
classify_loss o (panicked message) leaked = panicked message
classify_loss o timed_out leaked = timed_out

abbrev pub sender_leaks : {R : Rings} → Option (RecordingSender R) → ℕ
sender_leaks none = 0
sender_leaks (some s) = leaked_slots s

-- Whether the sender of `teardown` got through its bounded retry, which a failed worker skips.
abbrev pub signalled :
    {R : Rings}
    → ℕ
    → (ℕ → Bool)
    → (RecordingSender R → RecordingSender R)
    → Bool
    → Option (RecordingSender R)
    → Option Bool
signalled fuel late meanwhile has_failed none = some true
signalled fuel late meanwhile true (some s) = some true
signalled fuel late meanwhile false (some s) = elim (push_stream_stop fuel late meanwhile 0 s) [
  | none ↦ none
  | some after ↦ some true
]

-- `teardown` and then `classify_loss`, as `shutdown` runs them; `none` is a loop that still runs.
unfoldable pub shutdown :
    {R : Rings}
    → ℕ
    → (ℕ → Bool)
    → ℕ
    → (ℕ → Bool)
    → (RecordingSender R → RecordingSender R)
    → Overruns
    → Bool
    → Option (RecordingSender R)
    → Option Worker
    → Option RecordingWorkerOutcome
shutdown stop_fuel stop_late join_fuel join_late meanwhile o has_failed sender handle =
    elim (signalled stop_fuel stop_late meanwhile has_failed sender) [
      | none ↦ none
      | some done ↦ elim (join_recording_io join_fuel join_late handle) [
        | none ↦ none
        | some outcome ↦ some (classify_loss o outcome (sender_leaks sender))
      ]
    ]
