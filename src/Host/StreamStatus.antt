-- ===== src/Host/StreamStatus.antt =====
-- src/standalone/pw_host/stream_status.rs: the latencies that the RT thread publishes under a sequence
-- lock, and the reader's loop. Each atomic access of the writer and of the reader is a step of its own,
-- and the steps interleave in any order of one sequence: the weaker orderings of the hardware are not
-- modelled. A `compare_exchange_weak` that fails is retried with the same value, so the loop around it
-- is one step.
pub mod Sequence
pub mod Snapshot
use nam_audio_pipe.Base.{ℕ, ◌+◌, ◌*◌, ◌/◌, ◌%◌, ◌==◌, if◌then◌else◌, List, [], ◌∷◌, u64_max}

pub data Update : Type 0 where
  resampler : ℕ → Update
  cabsim : ℕ → Update
  oversample : ℕ → Update

-- What the writer has done of an update.
pub data Writer : Type 0 where
  idle : Writer
  begun : Update → Writer
  stored : Update → Writer
  paired : Writer

-- What the reader has loaded in one turn of its loop.
pub data Reader : Type 0 where
  at_start : Reader
  has_sequence : ℕ → Reader
  has_resampler : ℕ → ℕ → Reader
  has_cabsim : ℕ → ℕ → ℕ → Reader
  has_all : ℕ → ℕ → ℕ → ℕ → Reader
  returned : ℕ → ℕ → ℕ → Reader

pub record Latencies : Type 0 where
  pub latency_sequence : ℕ
  pub applied_resampler_latency : ℕ
  pub applied_cabsim_latency : ℕ
  pub applied_oversample_latency : ℕ
  pub applied_latency_pair : ℕ
  pub writer : Writer
  pub reader : Reader

abbrev pub initial : Latencies
initial = record {
  latency_sequence = 0;
  applied_resampler_latency = 0;
  applied_cabsim_latency = 0;
  applied_oversample_latency = 0;
  applied_latency_pair = 0;
  writer = idle;
  reader = at_start;
}

-- For two `u32`, whose bits do not overlap.
abbrev pub pack_latency_pair : ℕ → ℕ → ℕ
pack_latency_pair res cab = res * 4294967296 + cab

abbrev pub unpack_latency_pair : ℕ → ℕ × ℕ
unpack_latency_pair packed = ((packed / 4294967296) % 4294967296, packed % 4294967296)

abbrev pub bump_sequence : Writer → Latencies → Latencies
bump_sequence w s = record s {
  latency_sequence = (s.latency_sequence + 1) % (u64_max + 1);
  writer = w;
}

abbrev pub update_latency_pair_compat : Latencies → Latencies
update_latency_pair_compat s = record s {
  applied_latency_pair = pack_latency_pair s.applied_resampler_latency s.applied_cabsim_latency;
  writer = paired;
}

-- The next access of the writer; an idle one begins the update u.
abbrev pub write_from : Writer → Update → Latencies → Latencies
write_from idle u s = bump_sequence (begun u) s
write_from (begun (resampler n)) u s = record s {
  applied_resampler_latency = n;
  writer = stored (resampler n);
}
write_from (begun (cabsim n)) u s = record s {
  applied_cabsim_latency = n;
  writer = stored (cabsim n);
}
write_from (begun (oversample n)) u s = record s {
  applied_oversample_latency = n;
  writer = stored (oversample n);
}
write_from (stored (resampler n)) u s = update_latency_pair_compat s
write_from (stored (cabsim n)) u s = update_latency_pair_compat s
write_from (stored (oversample n)) u s = bump_sequence idle s
write_from paired u s = bump_sequence idle s

-- The next access of the reader; behind a result it begins another call.
abbrev pub read_from : Reader → Latencies → Reader
read_from at_start s =
    if s.latency_sequence % 2 == 0 then has_sequence s.latency_sequence else at_start
read_from (has_sequence s0) s = has_resampler s0 s.applied_resampler_latency
read_from (has_resampler s0 res) s = has_cabsim s0 res s.applied_cabsim_latency
read_from (has_cabsim s0 res cab) s = has_all s0 res cab s.applied_oversample_latency
read_from (has_all s0 res cab os) s =
    if s0 == s.latency_sequence then returned res cab os else at_start
read_from (returned res cab os) s = at_start

pub data Step : Type 0 where
  write : Update → Step
  read : Step

unfoldable pub step : Step → Latencies → Latencies
step (write u) s = write_from s.writer u s
step read s = record s { reader = read_from s.reader s }

abbrev pub run : List Step → Latencies → Latencies
run [] s = s
run (e ∷ es) s = run es (step e s)
