-- ===== src/Host/Callback/Recorder.antt =====
-- src/standalone/pw_host/rt_callback/process.rs: the recording of the capture callback. A load of the
-- shared failure flag is an argument, `none` where there is no flag; so is the cast of the host's
-- rate to the bit pattern of an `f32`. The source slices the resampled channels to `n_pw`
-- samples, which the DSP has written.
use nam_audio_pipe.Base.{
  ℕ, ◌+◌, ◌*◌, ◌%◌, ◌==◌, ◌&&◌, ltb, not, if◌then◌else◌, Bool, true, false, Option, none, some,
  List, take, u64_max,
}
use nam_audio_pipe.Recording.Buffer.{
  AlignedBlock, AudioMetadata, audio, max_block_size, new_uninit, fill_planar,
}
use nam_audio_pipe.Recording.Pool.{Pool}
use nam_audio_pipe.Recording.Transport.{
  Rings, PoolSender, RecordingSender, pool_transport, inline_transport, push_audio,
  try_push_metadata, has_producer,
}

-- What the callback keeps between two quanta for the recording, and the global overrun counters.
pub record Recorder (R : Rings) : Type 0 where
  pub sender : RecordingSender R
  pub meta_sent : Bool
  pub meta_rate : ℕ
  pub data_available : Option Bool
  pub block : AlignedBlock
  pub overrun_count : ℕ
  pub overrun_frames : ℕ

-- `is_some_and` of a load of the failure flag.
abbrev pub is_failed : Option Bool → Bool
is_failed none = false
is_failed (some b) = b

abbrev pub stored : Bool → Option Bool → Option Bool
stored b none = none
stored b (some old) = some b

-- What the callback does with the samples of one quantum: the loads of the failure flag stand
-- before and behind the DSP.
pub record Quantum : Type 0 where
  pub rate : ℕ
  pub n_pw : ℕ
  pub left : List ℕ
  pub right : List ℕ
  pub failed_before : Option Bool
  pub failed_behind : Option Bool

module _ {R : Rings} where
  abbrev pub hint : Bool → Recorder R → Recorder R
  hint b s = record s { data_available = stored b s.data_available }

  -- A lost block of `n` frames.
  abbrev pub overrun : ℕ → Recorder R → Recorder R
  overrun n s = record s {
    overrun_count = (s.overrun_count + 1) % (u64_max + 1);
    overrun_frames = (s.overrun_frames + n) % (u64_max + 1);
  }

  abbrev pub confirmed : ℕ → Bool × RecordingSender R → Recorder R → Recorder R
  confirmed rate (true, sender) s =
      hint true (record s { sender = sender; meta_sent = true; meta_rate = rate })
  confirmed rate (false, sender) s = record s { sender = sender }

  -- By the sticky flag.
  abbrev pub announce : Bool → ℕ → AudioMetadata → Recorder R → Recorder R
  announce true rate meta s = s
  announce false rate meta s = confirmed rate (try_push_metadata meta s.sender) s

  -- A new rate invalidates the flag.
  abbrev pub invalidated : Bool → Recorder R → Recorder R
  invalidated true s = s
  invalidated false s = record s { meta_sent = false }

  abbrev pub announce_current : ℕ → AudioMetadata → Recorder R → Recorder R
  announce_current rate meta s = announce s.meta_sent rate meta s

  unfoldable pub send_recording_metadata : (ℕ → ℕ) → ℕ → Option Bool → Recorder R → Recorder R
  send_recording_metadata f32_bits rate failed s =
      if is_failed failed
      then hint false s
      else announce_current rate
          (record { sample_rate = f32_bits rate; bit_depth = 32; channels = 2 })
          (invalidated (s.meta_rate == rate) s)

  -- The pool arm behind `try_acquire`, the fill and `publish`.
  abbrev pub pooled : ℕ → PoolSender R → Bool × Pool R.F R.W → Recorder R → Recorder R
  pooled n_pw t (true, p) s =
      hint true (record s { sender = pool_transport (record t { pool = some p }) })
  pooled n_pw t (false, p) s =
      overrun n_pw (record s { sender = pool_transport (record t { pool = some p }) })

  abbrev pub inlined : ℕ → Bool × (R.I).Ring → Recorder R → Recorder R
  inlined n_pw (true, r) s = hint true (record s { sender = inline_transport (some r) })
  inlined n_pw (false, r) s = overrun n_pw (record s { sender = inline_transport (some r) })

  abbrev pub to_pool :
      ℕ → List ℕ → List ℕ → PoolSender R → Option (Pool R.F R.W) → Recorder R → Recorder R
  to_pool n_pw left right t none s = s
  to_pool n_pw left right t (some p) s =
      pooled n_pw t (push_audio (take n_pw left) (take n_pw right) p) s

  abbrev pub to_ring : ℕ → List ℕ → List ℕ → Option (R.I).Ring → Recorder R → Recorder R
  to_ring n_pw left right none s = s
  to_ring n_pw left right (some r) s =
      inlined n_pw ((R.I).push r (audio (fill_planar s.block (take n_pw left) (take n_pw right))))
        (record s { block = new_uninit max_block_size })

  abbrev pub to_sender : ℕ → List ℕ → List ℕ → RecordingSender R → Recorder R → Recorder R
  to_sender n_pw left right (pool_transport t) s = to_pool n_pw left right t t.pool s
  to_sender n_pw left right (inline_transport producer) s = to_ring n_pw left right producer s

  unfoldable pub send_recording_audio : ℕ → List ℕ → List ℕ → Option Bool → Recorder R → Recorder R
  send_recording_audio n_pw left right failed s =
      if n_pw == 0
      then s
      else if is_failed failed
      then hint false s
      else if ltb max_block_size (n_pw * 2)
      then overrun n_pw s
      else to_sender n_pw left right s.sender s

  -- By the sticky flag.
  abbrev pub record_samples : Bool → Quantum → Recorder R → Recorder R
  record_samples true q s = send_recording_audio q.n_pw q.left q.right q.failed_behind s
  record_samples false q s =
      if has_producer s.sender && ltb 0 q.n_pw && not (is_failed q.failed_behind)
      then overrun q.n_pw s
      else s

  abbrev pub record_announced : Quantum → Recorder R → Recorder R
  record_announced q s = record_samples s.meta_sent q s

  -- The recording steps of `process_dsp_buffer`.
  unfoldable pub record_quantum : (ℕ → ℕ) → Quantum → Recorder R → Recorder R
  record_quantum f32_bits q s =
      record_announced q (send_recording_metadata f32_bits q.rate q.failed_before s)
