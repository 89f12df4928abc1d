-- ===== src/Recording/Disk/Entry/Reported.antt =====
-- src/recording/disk.rs: what the result of the worker, the failure flag and the startup handshake
-- say about the recording.
use nam_audio_pipe.Base.{
  ℕ, ◌+◌, ◌<◌, ◌≡◌, refl, true, false, inl, inr, none, some, List, [], length, Bool-cases,
}
use nam_audio_pipe.Recording.Status.{Observed, record_failure}
use nam_audio_pipe.Recording.Transport.{Rings, Live, create_recording_transport}
use nam_audio_pipe.Recording.Disk.Worker.{WavSink, Worker}
use nam_audio_pipe.Recording.Disk.Loop.{
  Producers, Ended, returned, panicked, out_of_fuel, disk_writer_loop_pool, disk_writer_loop_inline,
}
use nam_audio_pipe.Recording.Disk.Parts.{SinkLaws, Played, played, Files}
use nam_audio_pipe.Recording.Disk.Parts.Ending.{IsConcluded, complete, aborted}
use nam_audio_pipe.Recording.Disk.Session.{Session, started, Reaches}
use nam_audio_pipe.Recording.Disk.Session.Racing.{LastCalls, stop_completes}
use nam_audio_pipe.Recording.Disk.Entry.{
  OutputDir, validate_output_dir, publish_worker_result, fail_startup, Answer, accepted, rejected,
  Receiver, pool_receiver, inline_receiver, Exit, exited, no_exit, published, run_receiver,
  disk_writer_loop,
}
use nam_audio_pipe.Recording.Delivery.{Link}
use nam_audio_pipe.Recording.Delivery.Arrival.{opened}

-- A recording that is complete in finalized files, or a failure that the RT callback can see.
pub data IsAccounted {S : WavSink} (L : SinkLaws S) (ps : List Played) : Exit S → Type 0 where
  whole :
      (answer : Answer) (w : Worker S)
      → w.wav_writer ≡ none
      → Files L w.finalized ps
      → IsAccounted L ps (exited true answer w)
  flagged :
      (answer : Answer) (w : Worker S)
      → w.status.failed_flag ≡ true
      → IsAccounted L ps (exited false answer w)

raised : (reason : ℕ) (o : Observed) → (publish_worker_result false reason o).failed_flag ≡ true
unfolding publish_worker_result record_failure
raised reason o = refl

published-IsAccounted :
    {A : Type 0} {S : WavSink} {L : SinkLaws S} {ps : List Played} (reason : ℕ) (answer : Answer)
    (e : Ended A S)
    → IsConcluded L ps e
    → IsAccounted L ps (published reason answer e)
published-IsAccounted reason answer e (complete a w c fs) = whole answer _ c fs
published-IsAccounted reason answer e (aborted a w) = flagged answer _ (raised reason w.status)

-- From a transport that `create_recording_transport` built and a worker that has just started, after
-- any interleaving of calls and turns that went well, when the last calls with the stop token are in
-- or race into the worker's turn: with at least two turns more than the work ring then holds items the
-- worker publishes a result. It is `Ok`, and then every block that the calls accepted behind the first
-- format stands in finalized files, in order and in its format; or it is an error, and then the failure flag is raised.
pub flagged_or_complete :
    {R : Rings} {S : WavSink} (L : SinkLaws S) (fuel i reason : ℕ) (answer : Answer)
    (env : Producers (Live R)) (live : Live R) (status : Observed) (s : Session R S) (l : Link R)
    → create_recording_transport ≡ some live
    → Reaches (record { link = opened live; worker = started status }) s
    → ((j : ℕ) (t : Live R) → (env.before_turn) j t ≡ t)
    → LastCalls env i s l
    → length ((R.W).contents l.live.pool.work) + 1 < fuel
    → IsAccounted L
        (played none l.accepted)
        (published reason answer (disk_writer_loop_pool fuel env i s.link.live s.worker))
flagged_or_complete L fuel i reason answer env live status s l made r still calls enough =
    published-IsAccounted reason answer (disk_writer_loop_pool fuel env i s.link.live s.worker)
      (stop_completes {L = L} fuel i env live status s l made r still calls enough)

-- How the handshake, the result and the flag agree.
pub data IsReported {S : WavSink} (dir : OutputDir) (base_dir reason : ℕ) : Exit S → Type 0 where
  not_started :
      (w : Worker S)
      → validate_output_dir dir ≡ false
      → w.finalized ≡ []
      → w.wav_writer ≡ none
      → w.status.failed_flag ≡ true
      → IsReported dir base_dir reason (exited false (rejected reason) w)
  failed_later :
      (w : Worker S)
      → validate_output_dir dir ≡ true
      → w.status.failed_flag ≡ true
      → IsReported dir base_dir reason (exited false (accepted base_dir) w)
  went_well :
      (w : Worker S)
      → validate_output_dir dir ≡ true
      → IsReported dir base_dir reason (exited true (accepted base_dir) w)
  lost : validate_output_dir dir ≡ true → IsReported dir base_dir reason no_exit

module _ {S : WavSink} (dir : OutputDir) (base_dir reason : ℕ)
    (usable : validate_output_dir dir ≡ true) where
  published-IsReported :
      {A : Type 0} (e : Ended A S)
      → IsReported dir base_dir reason (published reason (accepted base_dir) e)
  published-IsReported (returned true a w) = went_well _ usable
  published-IsReported (returned false a w) = failed_later _ usable (raised reason w.status)
  published-IsReported panicked = lost usable
  published-IsReported out_of_fuel = lost usable

  run_receiver-IsReported :
      {R : Rings} (fuel : ℕ) (receiver : Receiver R) (status : Observed)
      → IsReported dir base_dir reason
          (run_receiver {S = S} fuel reason (accepted base_dir) receiver status)
  unfolding run_receiver
  run_receiver-IsReported fuel (pool_receiver env s) status =
      published-IsReported (disk_writer_loop_pool fuel env 0 s (started status))
  run_receiver-IsReported {R} fuel (inline_receiver env r) status =
      published-IsReported (disk_writer_loop_inline R.I fuel env 0 r (started status))

-- For every answer of the file system, transport and environment of the worker: when the output
-- directory is not usable, the worker fails, the handshake carries the reason and no file was made;
-- otherwise the handshake carries the directory. Whenever the worker returns an error, the failure
-- flag that the RT callback polls is raised.
pub failure_reported :
    {R : Rings} {S : WavSink} (fuel base_dir reason : ℕ) (dir : OutputDir) (receiver : Receiver R)
    (status : Observed)
    → IsReported dir base_dir reason
        (disk_writer_loop {S = S} fuel base_dir reason dir receiver status)
unfolding disk_writer_loop fail_startup record_failure
failure_reported fuel base_dir reason dir receiver status =
    elim (Bool-cases (validate_output_dir dir)) [
      | inl e ↦
          rw (e, disk_writer_loop) (run_receiver-IsReported dir base_dir reason e fuel receiver _)
      | inr e ↦ rw (e, disk_writer_loop) (not_started _ e refl refl refl)
    ]
