-- ===== src/Recording/Disk/Entry.antt =====
-- src/recording/disk.rs: the whole of the worker, from the check of the output directory to the
-- result that it publishes. An error's text is the number of its reason.
pub mod Reported
use nam_audio_pipe.Base.{ℕ, ◌≡◌, refl, not, if◌then◌else◌, Bool, true, false, List, []}
use nam_audio_pipe.Recording.Spsc.{Spsc}
use nam_audio_pipe.Recording.Buffer.{RingPayload}
use nam_audio_pipe.Recording.Status.{
  Observed, stopped, failed, write_status, record_failure, mark_active,
}
use nam_audio_pipe.Recording.Transport.{Rings, Live}
use nam_audio_pipe.Recording.Disk.Worker.{WavSink, Worker}
use nam_audio_pipe.Recording.Disk.Loop.{
  Producers, Ended, returned, panicked, out_of_fuel, disk_writer_loop_pool, disk_writer_loop_inline,
}
use nam_audio_pipe.Recording.Disk.Session.{started}

-- What the file system answers about the output directory and the probe file in it.
pub record OutputDir : Type 0 where
  pub is_dir : Bool
  pub probe_created : Bool
  pub probe_written : Bool
  pub probe_synced : Bool

-- `true` is `Ok`.
unfoldable pub validate_output_dir : OutputDir → Bool
validate_output_dir d =
    if not d.is_dir
    then false
    else if not d.probe_created
    then false
    else if not d.probe_written
    then false
    else d.probe_synced

unfoldable pub publish_worker_result : Bool → ℕ → Observed → Observed
publish_worker_result true reason o = write_status (λ s. stopped) o
publish_worker_result false reason o = record_failure reason o

-- What was sent over the startup handshake.
pub data Answer : Type 0 where
  accepted : ℕ → Answer
  rejected : ℕ → Answer

unfoldable pub fail_startup : ℕ → Observed → Answer × Observed
fail_startup reason o = (rejected reason, record_failure reason o)

pub data Receiver (R : Rings) : Type 0 where
  pool_receiver : Producers (Live R) → Live R → Receiver R
  inline_receiver : Producers (R.I).Ring → (R.I).Ring → Receiver R

-- The end of the worker; the rings that it leaves are dropped.
pub data Exit (S : WavSink) : Type 0 where
  exited : Bool → Answer → Worker S → Exit S
  -- A panic, or the fuel ran out.
  no_exit : Exit S

module _ {S : WavSink} where
  abbrev pub published : {A : Type 0} → ℕ → Answer → Ended A S → Exit S
  published reason answer (returned result a w) =
      exited result answer (record w { status = publish_worker_result result reason w.status })
  published reason answer panicked = no_exit
  published reason answer out_of_fuel = no_exit

  module _ {R : Rings} where
    -- `disk_writer_loop_inner` by the transport, and the publication of its result.
    unfoldable pub run_receiver : ℕ → ℕ → Answer → Receiver R → Observed → Exit S
    run_receiver fuel reason answer (pool_receiver env s) status =
        published reason answer (disk_writer_loop_pool fuel env 0 s (started status))
    run_receiver fuel reason answer (inline_receiver env r) status =
        published reason answer (disk_writer_loop_inline R.I fuel env 0 r (started status))

    unfoldable pub disk_writer_loop : ℕ → ℕ → ℕ → OutputDir → Receiver R → Observed → Exit S
    disk_writer_loop fuel base_dir reason dir receiver status =
        if validate_output_dir dir
        then run_receiver fuel reason (accepted base_dir) receiver (mark_active base_dir status)
        else exited false (fail_startup reason status).0 (started (fail_startup reason status).1)
