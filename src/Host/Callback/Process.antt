-- ===== src/Host/Callback/Process.antt =====
-- src/standalone/pw_host/rt_callback/process.rs, `process_dsp_buffer`: the callback on a dequeued
-- buffer. What the DSP makes of the samples is an argument, and the telemetry is left out.
pub mod Closed
use nam_audio_pipe.Base.{
  ℕ, ◌+◌, ◌%◌, u64_max, ◌==◌, not, ltb, if◌then◌else◌, Bool, true, false, Option, none, some, List,
  [], ◌∷◌,
}
use nam_audio_pipe.Recording.Transport.{Rings}
use nam_audio_pipe.Host.Callback.Buffers.{
  Host, Channel, Data, silence_available_datas, resolve_capture_chunk_window,
  handle_spa_pair_fail_closed, stamp_chunk,
}
use nam_audio_pipe.Host.Callback.Recorder.{Recorder, Quantum, record_quantum}

-- A slice of `f32`s: its address and its length.
pub record Slice : Type 0 where
  pub address : ℕ
  pub len : ℕ

-- What the callback leaves: the two slices that the DSP ran on, if it ran, the descriptors, the
-- host's memory and flag before the DSP writes, and the recorder.
pub record Left (R : Rings) : Type 0 where
  pub processed : Option (Slice × Slice)
  pub datas : List Data
  pub host : Host
  pub recorder : Recorder R

abbrev pub channel_of : Data → ℕ × ℕ → Channel
channel_of d (offset, size) = record { ptr = d.ptr; max = d.maxsize; offset = offset; size = size }

-- `from_raw_parts_mut` at the sum of a pointer and an offset, which wraps in a release build.
abbrev pub samples_at : Channel → ℕ → Slice
samples_at c n = record { address = (c.ptr + c.offset) % (u64_max + 1); len = n }

abbrev pub stamped : Data → Data
stamped d = record d { chunk = stamp_chunk 0 d.chunk }

module _ {R : Rings} (max_bridge_buf : ℕ) (f32_bits : ℕ → ℕ) where
  -- The early return with both chunks stamped empty.
  abbrev pub give_up : Data → Data → List Data → Recorder R → Host → Left R
  give_up d_l d_r ds s h = record {
    processed = none;
    datas = stamped d_l ∷ stamped d_r ∷ ds;
    host = h;
    recorder = s;
  }

  abbrev pub ran :
      ℕ × ℕ
      → ℕ × ℕ
      → Data
      → Data
      → List Data
      → Quantum
      → Recorder R
      → Option (ℕ × ℕ) × Host
      → Left R
  ran window_l window_r d_l d_r ds q s (none, h) = give_up d_l d_r ds s h
  ran window_l window_r d_l d_r ds q s (some (n_bytes, n_samples), h) = record {
    processed =
        if ltb 0 n_samples
        then some (
          samples_at (channel_of d_l window_l) n_samples,
          samples_at (channel_of d_r window_r) n_samples,
        )
        else none;
    datas = d_l ∷ d_r ∷ ds;
    host = h;
    recorder = if ltb 0 n_samples then record_quantum f32_bits q s else s;
  }

  abbrev pub right_window :
      Data → Data → List Data → Quantum → Recorder R → ℕ × ℕ → Option (ℕ × ℕ) × Host → Left R
  right_window d_l d_r ds q s window_l (none, h) = give_up d_l d_r ds s h
  right_window d_l d_r ds q s window_l (some window_r, h) = ran window_l window_r d_l d_r ds q s (
      handle_spa_pair_fail_closed max_bridge_buf (channel_of d_l window_l) d_l.chunk
        (channel_of d_r window_r) d_r.chunk h)

  abbrev pub left_window :
      Data → Data → List Data → Quantum → Recorder R → Option (ℕ × ℕ) × Host → Left R
  left_window d_l d_r ds q s (none, h) = give_up d_l d_r ds s h
  left_window d_l d_r ds q s (some window_l, h) = right_window d_l d_r ds q s window_l (
      resolve_capture_chunk_window max_bridge_buf d_r.chunk (channel_of d_l (0, 0))
        (channel_of d_r (0, 0)) h)

  abbrev pub too_few : List Data → Recorder R → Host → Left R
  too_few ds s h =
      let silenced = silence_available_datas max_bridge_buf ds h.memory in
      record {
        processed = none;
        datas = silenced.0;
        host = record h { violation = true; memory = silenced.1 };
        recorder = s;
      }

  abbrev pub process_datas : List Data → Quantum → Recorder R → Host → Left R
  process_datas [] q s h = too_few [] s h
  process_datas (d ∷ []) q s h = too_few (d ∷ []) s h
  process_datas (d_l ∷ d_r ∷ ds) q s h = left_window d_l d_r ds q s (
      resolve_capture_chunk_window max_bridge_buf d_l.chunk (channel_of d_l (0, 0))
        (channel_of d_r (0, 0)) h)

  -- The flag says whether the negotiated format is the stereo one.
  unfoldable pub process_dsp_buffer : Bool → List Data → Quantum → Recorder R → Host → Left R
  process_dsp_buffer format_contract_ok ds q s h =
      if format_contract_ok
      then process_datas ds q s h
      else record { processed = none; datas = ds; host = h; recorder = s }
