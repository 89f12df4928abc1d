-- ===== src/Tests/WorkerRuns.antt =====
-- src/recording/guard.rs and src/recording/status.rs: a worker that answers after three polls.
use nam_audio_pipe.Base.{
  ℕ, ◌≡◌, refl, ltb, leb, if◌then◌else◌, true, false, none, some, [], ◌∷◌, arith,
}
use nam_audio_pipe.Recording.Spsc.{bounded}
use nam_audio_pipe.Recording.Buffer.{ControlPayload, RingPayload}
use nam_audio_pipe.Recording.Pool.{Descriptor}
use nam_audio_pipe.Recording.Transport.{
  Rings, RecordingSender, disabled, try_push_stream_stop, has_producer, leaked_slots,
}
use nam_audio_pipe.Recording.Guard.{
  RecordingWorkerOutcome, success, exit_code, ok, Worker, Overruns, shutdown, sender_leaks,
  poll_join, join_recording_io, push_stream_stop, classify_loss,
}
use nam_audio_pipe.Recording.Guard.Shutdown.{shutdown-ends}
use nam_audio_pipe.Recording.Guard.Clean.{Finished, exit_code-clean}
use nam_audio_pipe.Recording.Status.{
  active, failed, Observed, record_failure, Received, ready, empty, wait_for_recording_init,
}
use nam_audio_pipe.Recording.Status.Handshake.{
  IsQuiet, Decided, wait_for_recording_init_lem, publish_all, failure_visible,
}

abbrev rings : Rings
rings = record {
  F = bounded ℕ;
  W = bounded Descriptor;
  C = bounded ControlPayload;
  I = bounded RingPayload;
}

abbrev worker : Worker
worker = record { finished = λ i. leb 3 i; result = ok }

abbrev no_loss : Overruns
no_loss = record { count = 0; frames = 0 }

-- The deadline of the join passes at poll 10, that of the stop token at once.
shutdown-ends_example :
    (out : RecordingWorkerOutcome) × (shutdown 1
        (λ i. true)
        11
        (λ i. leb 10 i)
        (λ (s : RecordingSender rings). s)
        no_loss
        false
        (some disabled)
        (some worker)
      ≡ some out)
shutdown-ends_example =
    shutdown-ends (λ i. true) (λ i. leb 10 i) 0 10 1 11 (λ (s : RecordingSender rings). s) no_loss
      false (some disabled) (some worker) refl refl (omega arith) (omega arith)

exit_code-clean_example :
    Finished (some worker)
    × (no_loss.count ≡ 0)
    × (no_loss.frames ≡ 0)
    × (sender_leaks {R = rings} (some disabled) ≡ 0)
unfolding shutdown push_stream_stop try_push_stream_stop has_producer disabled join_recording_io
    poll_join classify_loss leaked_slots exit_code
exit_code-clean_example =
    exit_code-clean (λ i. true) (λ i. leb 10 i) 1 11 (λ (s : RecordingSender rings). s) no_loss
      false (some disabled) (some worker) success refl refl

abbrev handshake : ℕ → Received
handshake i = if ltb i 2 then empty else ready 7

wait_for_recording_init_example :
    (k : ℕ) × IsQuiet handshake (λ i. leb 1000 i) 0 k
    × Decided handshake
        (λ i. leb 1000 i)
        k
        (wait_for_recording_init 1001 handshake (λ i. leb 1000 i))
wait_for_recording_init_example =
    wait_for_recording_init_lem handshake (λ i. leb 1000 i) 1000 1001 refl (omega arith)

abbrev recording : Observed
recording = record { status = active 7 none; poisoned = false; failed_flag = false }

failure_visible_example :
    ((publish_all (some 1 ∷ none ∷ []) (record_failure 28 recording)).status ≡ failed 28)
    × ((publish_all (some 1 ∷ none ∷ []) (record_failure 28 recording)).failed_flag ≡ true)
failure_visible_example = failure_visible 28 (some 1 ∷ none ∷ []) recording refl
