-- ===== src/Tests/StatusRuns.antt =====
-- src/standalone/pw_host/stream_status.rs: a read that an update overtakes, and one that nothing
-- disturbs.
use nam_audio_pipe.Base.{◌≡◌, refl, arith, List, [], ◌∷◌}
use nam_audio_pipe.Host.StreamStatus.{
  resampler, idle, at_start, returned, initial, unpack_latency_pair, Step, write, read, step, run,
}
use nam_audio_pipe.Host.StreamStatus.Snapshot.{read_snapshot, quiet_read}

-- An update of the resampler's latency.
abbrev update : List Step
update =
    write (resampler 64) ∷ write (resampler 64) ∷ write (resampler 64) ∷ write (resampler 64) ∷ []

-- The read begins behind the update.
abbrev calm : List Step
calm =
    write (resampler 64)
    ∷ write (resampler 64)
    ∷ write (resampler 64)
    ∷ write (resampler 64)
    ∷ read
    ∷ read
    ∷ read
    ∷ read
    ∷ []

-- The update begins behind the first load of the reader.
abbrev overtaken : List Step
overtaken =
    read
    ∷ read
    ∷ write (resampler 64)
    ∷ write (resampler 64)
    ∷ read
    ∷ read
    ∷ write (resampler 64)
    ∷ write (resampler 64)
    ∷ read
    ∷ []

overtaken_retries : (run overtaken initial).reader ≡ at_start
unfolding step
overtaken_retries = refl

read_snapshot_example :
    ((run calm initial).writer ≡ idle)
    × (64 ≡ (run calm initial).applied_resampler_latency)
    × (0 ≡ (run calm initial).applied_cabsim_latency)
    × (0 ≡ (run calm initial).applied_oversample_latency)
unfolding step
read_snapshot_example = read_snapshot calm 64 0 0 (omega arith) refl

quiet_read_example :
    (run
      (read ∷ read ∷ read ∷ read ∷ read ∷ [])
      (record (run update initial) { reader = at_start })).reader
    ≡ returned 64 0 0
unfolding step
quiet_read_example = quiet_read update (omega arith) refl

pair_unpacks : unpack_latency_pair (run update initial).applied_latency_pair ≡ (64, 0)
unfolding step
pair_unpacks = refl
