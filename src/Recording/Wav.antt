-- ===== src/Recording/Wav.antt =====
-- src/recording/disk.rs, `AsyncWavWriter`: the writer of one capture file, over any function for its
-- header; Building has the one of src/recording/wav_header.rs. The checkpoint interval, which the
-- source computes in floating point, is given to `open`.
pub mod Data
pub mod Capture
pub mod Sink
pub mod Building
use nam_audio_pipe.Base.{
  ℕ, zero, suc, ◌+◌, ◌-◌, ◌*◌, ◌/◌, ◌%◌, ◌==◌, ltb, leb, ◌&&◌, if◌then◌else◌, Bool, true, false,
  Option, none, some, List, [], ◌∷◌, ◌++◌, length, take, drop, u32_max, u64_max,
}
use nam_audio_pipe.Recording.Buffer.{AlignedBlock, AudioMetadata, as_slice}
use nam_audio_pipe.Recording.Io.{WriteAt, Written, complete, Outcome, write_all_at}

-- A header for a format and a count of data bytes; `none` is an error.
abbrev pub Header : Type 0
Header = AudioMetadata → ℕ → Option (List ℕ)

pub record AsyncWavWriter (B : WriteAt) : Type 0 where
  pub file : B.File
  pub metadata : AudioMetadata
  pub header_len : ℕ
  pub data_bytes_written : ℕ
  pub current_offset : ℕ
  pub bytes_since_checkpoint : ℕ
  pub checkpoint_interval_bytes : ℕ

-- `f32::to_le_bytes` of a bit pattern.
abbrev pub le_bytes : ℕ → List ℕ
le_bytes x = x % 256 ∷ x / 256 % 256 ∷ x / 65536 % 256 ∷ x / 16777216 % 256 ∷ []

-- The loop over the frames: a left sample, then the right one of the same frame.
unfoldable pub interleave : List ℕ → List ℕ → List ℕ
interleave [] right = []
interleave (l ∷ left) [] = []
interleave (l ∷ left) (r ∷ right) = le_bytes l ++ (le_bytes r ++ interleave left right)

unfoldable pub block_bytes : ℕ → List ℕ → List ℕ
block_bytes valid_samples xs =
    interleave (take (valid_samples / 2) xs) (drop (valid_samples / 2) xs)

abbrev pub is_complete : Written → Bool
is_complete complete = true
is_complete _ = false

module _ {B : WriteAt} where
  -- `AsyncWavWriter::open` on a file that was created just now.
  unfoldable pub open_writer : Header → ℕ → B.File → AudioMetadata → Option (AsyncWavWriter B)
  open_writer header interval file meta = elim (header meta 0) [
    | none ↦ none
    | some h ↦
        let out = write_all_at B file h 0 in
        if is_complete out.result
        then some (record {
          file = out.file;
          metadata = meta;
          header_len = length h;
          data_bytes_written = 0;
          current_offset = length h;
          bytes_since_checkpoint = 0;
          checkpoint_interval_bytes = interval;
        })
        else none
  ]

  -- The counters behind a block that is on disk.
  abbrev pub advance : ℕ → B.File → AsyncWavWriter B → AsyncWavWriter B
  advance bytes_len file w = record w {
    file = file;
    data_bytes_written = (w.data_bytes_written + bytes_len % (u32_max + 1)) % (u32_max + 1);
    current_offset = (w.current_offset + bytes_len) % (u64_max + 1);
    bytes_since_checkpoint = (w.bytes_since_checkpoint + bytes_len) % (u64_max + 1);
  }

  -- `write_block` on the valid samples; `false` is its error.
  unfoldable pub write_samples : ℕ → List ℕ → AsyncWavWriter B → Bool × AsyncWavWriter B
  write_samples valid_samples xs w =
      let out = write_all_at B w.file (block_bytes valid_samples xs) w.current_offset in
      if is_complete out.result
      then (true, advance (valid_samples * 4) out.file w)
      else (false, record w { file = out.file })

  -- `none`: the block holds a place that was never written.
  unfoldable pub write_block : AlignedBlock → AsyncWavWriter B → Option (Bool × AsyncWavWriter B)
  write_block b w =
      if b.valid_len == 0
      then some (true, w)
      else elim (as_slice b) [ none ↦ none | some xs ↦ some (write_samples b.valid_len xs w) ]

  unfoldable pub would_overflow : ℕ → AsyncWavWriter B → Bool
  would_overflow sample_count w =
      if ltb u64_max (w.data_bytes_written + sample_count * 4)
      then true
      else ltb (u32_max - (w.header_len - 8)) (w.data_bytes_written + sample_count * 4)

  unfoldable pub checkpoint_due : AsyncWavWriter B → Bool
  checkpoint_due w =
      ltb 0 w.checkpoint_interval_bytes && leb w.checkpoint_interval_bytes w.bytes_since_checkpoint

  unfoldable pub rewrite_header_and_sync : Header → AsyncWavWriter B → Bool × AsyncWavWriter B
  rewrite_header_and_sync header w = elim (header w.metadata w.data_bytes_written) [
    | none ↦ (false, w)
    | some h ↦
        let out = write_all_at B w.file h 0 in
        let synced = (B.sync_all) out.file in
        if is_complete out.result
        then (synced.0, record w { file = synced.1 })
        else (false, record w { file = out.file })
  ]

  unfoldable pub checkpoint : Header → AsyncWavWriter B → Bool × AsyncWavWriter B
  checkpoint header w =
      let out = rewrite_header_and_sync header w in
      if out.0 then (true, record (out.1) { bytes_since_checkpoint = 0 }) else out

  unfoldable pub finalize : Header → AsyncWavWriter B → Bool × AsyncWavWriter B
  finalize header w = rewrite_header_and_sync header w
