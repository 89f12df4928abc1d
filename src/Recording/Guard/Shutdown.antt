-- ===== src/Recording/Guard/Shutdown.antt =====
-- src/recording/guard.rs, `RecordingWorkerGuard::shutdown`: that it ends, and what a clean exit means.
use nam_audio_pipe.Base.{
  ℕ, zero, suc, ◌+◌, ◌≤◌, ◌<◌, ◌≡◌, inl, inr, refl, Bool, true, false, Option, none, some, arith,
  Bool-cases, not_yet,
}
use nam_audio_pipe.Recording.Transport.{Rings, RecordingSender, try_push_stream_stop, has_producer}
use nam_audio_pipe.Recording.Guard.{
  RecordingWorkerOutcome, success, timed_out, Worker, join_outcome, poll_join, join_recording_io,
  push_stream_stop, Overruns, classify_loss, sender_leaks, signalled, shutdown,
}

poll_join-ends :
    (late : ℕ → Bool) (w : Worker) (k fuel i : ℕ)
    → late k ≡ true
    → i ≤ k
    → k < i + fuel
    → (o : RecordingWorkerOutcome) × (poll_join fuel late w i ≡ some o)
unfolding poll_join
poll_join-ends late w k zero i h a b = absurd (omega (arith, a, b))
poll_join-ends late w k (suc fuel) i h a b = elim (Bool-cases (w.finished i)) [
  | inl f ↦ rw (f, poll_join) (join_outcome w.result, refl)
  | inr f ↦ elim (Bool-cases (late i)) [
    | inl l ↦ rw (f, l, poll_join) (timed_out, refl)
    | inr l ↦
        rw (f, l, poll_join)
          (poll_join-ends late w k fuel (i + 1) h (not_yet late i k a l h) (omega (arith, b)))
  ]
]

module _ {R : Rings} where
  push_stream_stop-ends :
      (late : ℕ → Bool) (meanwhile : RecordingSender R → RecordingSender R) (k fuel i : ℕ)
      (s : RecordingSender R)
      → late k ≡ true
      → i ≤ k
      → k < i + fuel
      → (t : RecordingSender R) × (push_stream_stop fuel late meanwhile i s ≡ some t)
  unfolding push_stream_stop
  push_stream_stop-ends late m k zero i s h a b = absurd (omega (arith, a, b))
  push_stream_stop-ends late m k (suc fuel) i s h a b =
      elim (Bool-cases (try_push_stream_stop s).0) [
        | inl t ↦ rw (t, push_stream_stop) ((try_push_stream_stop s).1, refl)
        | inr t ↦ elim (Bool-cases (has_producer (try_push_stream_stop s).1)) [
          | inr p ↦ rw (t, p, push_stream_stop) ((try_push_stream_stop s).1, refl)
          | inl p ↦ elim (Bool-cases (late i)) [
            | inl l ↦ rw (t, p, l, push_stream_stop) ((try_push_stream_stop s).1, refl)
            | inr l ↦
                rw (t, p, l, push_stream_stop)
                  (push_stream_stop-ends late m k fuel (i + 1) (m (try_push_stream_stop s).1) h
                    (not_yet late i k a l h) (omega (arith, b)))
          ]
        ]
      ]

  signalled-ends :
      (late : ℕ → Bool) (meanwhile : RecordingSender R → RecordingSender R) (k fuel : ℕ)
      (has_failed : Bool) (sender : Option (RecordingSender R))
      → late k ≡ true
      → k < fuel
      → signalled fuel late meanwhile has_failed sender ≡ some true
  signalled-ends late m k fuel has_failed none h b = refl
  signalled-ends late m k fuel true (some s) h b = refl
  signalled-ends late m k fuel false (some s) h b =
      let (t, e) = push_stream_stop-ends late m k fuel 0 s h (omega arith) (omega (arith, b)) in
      rw (e, signalled) refl

join_recording_io-ends :
    (late : ℕ → Bool) (k fuel : ℕ) (handle : Option Worker)
    → late k ≡ true
    → k < fuel
    → (o : RecordingWorkerOutcome) × (join_recording_io fuel late handle ≡ some o)
unfolding join_recording_io
join_recording_io-ends late k fuel none h b = (success, refl)
join_recording_io-ends late k fuel (some w) h b =
    poll_join-ends late w k fuel 0 h (omega arith) (omega (arith, b))

-- When each of the two deadlines has passed at some poll, that many polls and one more are enough:
-- `shutdown` ends with an outcome, whatever the worker does.
pub shutdown-ends :
    {R : Rings} (stop_late join_late : ℕ → Bool) (j k stop_fuel join_fuel : ℕ)
    (meanwhile : RecordingSender R → RecordingSender R) (o : Overruns) (has_failed : Bool)
    (sender : Option (RecordingSender R)) (handle : Option Worker)
    → stop_late j ≡ true
    → join_late k ≡ true
    → j < stop_fuel
    → k < join_fuel
    → (out : RecordingWorkerOutcome) × (shutdown stop_fuel stop_late join_fuel join_late meanwhile o
          has_failed sender handle
        ≡ some out)
unfolding shutdown
shutdown-ends sl jl j k sf jf m o has_failed sender handle hs hj bs bj =
    let sent : signalled sf sl m has_failed sender ≡ some true =
      signalled-ends sl m j sf has_failed sender hs bs in
    let (out, e) = join_recording_io-ends jl k jf handle hj bj in
    rw (sent, e, shutdown) (classify_loss o out (sender_leaks sender), refl)
