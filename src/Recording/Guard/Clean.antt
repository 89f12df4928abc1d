-- ===== src/Recording/Guard/Clean.antt =====
-- src/recording/guard.rs, `exit_code` and `shutdown`: what exit code 0 means.
use nam_audio_pipe.Base.{
  ℕ, zero, suc, ◌+◌, ◌≡◌, inl, inr, refl, ap, ◌∙◌, Bool, true, Option, none, some, arith,
  Bool-cases, Option-cases,
}
use mathlib.Core.Option.{some-injective}
use nam_audio_pipe.Recording.Transport.{Rings, RecordingSender}
use nam_audio_pipe.Recording.Guard.{
  RecordingWorkerOutcome, success, success_with_loss, failed, panicked, timed_out, exit_code,
  Joined, ok, err, panic, Worker, join_outcome, poll_join, join_recording_io, Overruns,
  classify_loss, sender_leaks, signalled, shutdown,
}

-- The worker of a handle has finished without an error, or there was no worker.
pub data Finished : Option Worker → Type 0 where
  no_worker : Finished none
  finished_ok : (w : Worker) (i : ℕ) → w.finished i ≡ true → w.result ≡ ok → Finished (some w)

exit_code-zero : (out : RecordingWorkerOutcome) → exit_code out ≡ 0 → out ≡ success
unfolding exit_code
exit_code-zero success h = refl
exit_code-zero (success_with_loss b f) h = absurd (omega (arith, h))
exit_code-zero (failed r) h = absurd (omega (arith, h))
exit_code-zero (panicked m) h = absurd (omega (arith, h))
exit_code-zero timed_out h = absurd (omega (arith, h))

join_outcome-success : (r : Joined) → join_outcome r ≡ success → r ≡ ok
join_outcome-success ok h = refl
join_outcome-success (err e) h = cc
join_outcome-success (panic m) h = cc

poll_join-success :
    (late : ℕ → Bool) (w : Worker) (fuel i : ℕ)
    → poll_join fuel late w i ≡ some success
    → Finished (some w)
unfolding poll_join
poll_join-success late w zero i h = cc
poll_join-success late w (suc fuel) i h = elim (Bool-cases (w.finished i)) [
  | inl f ↦
      finished_ok w i f
        (join_outcome-success w.result (some-injective _ _ (rw (f, poll_join) at h)))
  | inr f ↦ elim (Bool-cases (late i)) [
    | inl l ↦ timed_out≢success (some-injective _ _ (rw (f, l, poll_join) at h))
    | inr l ↦ poll_join-success late w fuel (i + 1) (rw (f, l, poll_join) at h)
  ]
]
  where
    timed_out≢success : timed_out ≡ success → Finished (some w)
    timed_out≢success e = cc

join-success :
    (late : ℕ → Bool) (fuel : ℕ) (handle : Option Worker)
    → join_recording_io fuel late handle ≡ some success
    → Finished handle
unfolding join_recording_io
join-success late fuel none h = no_worker
join-success late fuel (some w) h = poll_join-success late w fuel 0 h

classify_loss-success :
    (o : Overruns) (out : RecordingWorkerOutcome) (leaked : ℕ)
    → classify_loss o out leaked ≡ success
    → (out ≡ success) × (o.count ≡ 0) × (o.frames ≡ 0) × (leaked ≡ 0)
unfolding classify_loss
classify_loss-success o success leaked h = (refl, ground arith, ground arith, ground arith)
classify_loss-success o (success_with_loss b f) leaked h = cc
classify_loss-success o (failed r) leaked h = cc
classify_loss-success o (panicked m) leaked h = cc
classify_loss-success o timed_out leaked h = cc

-- When `shutdown` ends with an outcome of exit code 0: the worker has finished and returned no error
-- (or none was there), and no block was dropped by an overrun, no frame and no slot was lost.
pub exit_code-clean :
    {R : Rings} (stop_late join_late : ℕ → Bool) (stop_fuel join_fuel : ℕ)
    (meanwhile : RecordingSender R → RecordingSender R) (o : Overruns) (has_failed : Bool)
    (sender : Option (RecordingSender R)) (handle : Option Worker) (out : RecordingWorkerOutcome)
    → shutdown stop_fuel stop_late join_fuel join_late meanwhile o has_failed sender handle
      ≡ some out
    → exit_code out ≡ 0
    → Finished handle × (o.count ≡ 0) × (o.frames ≡ 0) × (sender_leaks sender ≡ 0)
unfolding shutdown
exit_code-clean sl jl sf jf m o has_failed sender handle out h z =
    elim (Option-cases (signalled sf sl m has_failed sender)) [
      | inl e ↦ cc (rw (e, shutdown) at h)
      | inr (b, e) ↦ elim (Option-cases (join_recording_io jf jl handle)) [
        | inl f ↦ cc (rw (e, f, shutdown) at h)
        | inr (joined, f) ↦
            let same : classify_loss o joined (sender_leaks sender) ≡ out =
              some-injective _ _ (rw (e, f, shutdown) at h) in
            let (won, blocks, frames, leaks) =
              classify_loss-success o joined (sender_leaks sender) (same ∙ exit_code-zero out z) in
            (join-success jl jf handle (f ∙ ap some won), blocks, frames, leaks)
      ]
    ]
