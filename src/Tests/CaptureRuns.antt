-- ===== src/Tests/CaptureRuns.antt =====
-- src/recording/io.rs and the writer of src/recording/disk.rs over a backend that writes at most
-- three bytes at a time.
use nam_audio_pipe.Base.{
  ℕ, ◌+◌, ◌%◌, ◌≤◌, ◌≡◌, min, refl, sym, ap, ◌∙◌, Bool, true, false, Option, none, some, List, [],
  ◌∷◌, length, replicate, u32_max, ltb, if◌then◌else◌, arith,
}
use mathlib.Core.Option.{some-injective}
use nam_audio_pipe.Recording.Buffer.{AudioMetadata}
use nam_audio_pipe.Recording.Io.{
  WriteAt, Submission, wrote, refused, overwritten, write_all_at, write_loop,
}
use nam_audio_pipe.Recording.Io.Persisted.{IsPersisted, write_all_at_lem}
use nam_audio_pipe.Recording.Disk.Creation.{
  Opened, already_exists, AreTaken, Settled, create_new_capture, create_new_capture_lem,
}
use nam_audio_pipe.Recording.Wav.{
  Header, AsyncWavWriter, block_bytes, interleave, open_writer, write_samples, would_overflow,
  checkpoint,
}
use nam_audio_pipe.Recording.Wav.Capture.{Runs, opened, block, checked, unsynced, counters_exact}

abbrev count : Submission → ℕ
count (wrote n) = n
count (refused e) = 0

abbrev is_wrote : Submission → Bool
is_wrote (wrote n) = true
is_wrote (refused e) = false

-- A file is its bytes.
abbrev pub short_writes : WriteAt
short_writes = record {
  File = ℕ → Option ℕ;
  byte = λ f i. f i;
  write_at =
      λ f buf offset. (wrote (min 3 (length buf)), overwritten f buf offset (min 3 (length buf)));
  sync_all = λ f. (true, f);
  byte_sync = λ f i. refl;
  wrote_le = λ f buf offset n e. omega (arith, ap count e);
  byte_wrote = λ f buf offset n e i. ap (λ k. overwritten f buf offset k i) (ap count e);
  byte_refused = λ f buf offset n e i. cc;
}

abbrev pub blank : ℕ → Option ℕ
blank i = none

write_all_at_example :
    (n : ℕ) × IsPersisted short_writes blank
      (1 ∷ 2 ∷ 3 ∷ 4 ∷ 5 ∷ [])
      10
      (write_all_at short_writes blank (1 ∷ 2 ∷ 3 ∷ 4 ∷ 5 ∷ []) 10)
      n
write_all_at_example = write_all_at_lem short_writes blank (1 ∷ 2 ∷ 3 ∷ 4 ∷ 5 ∷ []) 10 (omega arith)

abbrev cd : AudioMetadata
cd = record { sample_rate = 44100; bit_depth = 32; channels = 2 }

-- Ten bytes that state the size modulo 256.
abbrev pub tiny_header : Header
tiny_header m n = some (replicate 10 (n % 256))

tiny_header_fixed : (n : ℕ) (h : List ℕ) → tiny_header cd n ≡ some h → length h ≡ 10
tiny_header_fixed n h e = ap length (sym (some-injective _ _ e)) ∙ refl

abbrev fresh_file : AsyncWavWriter short_writes
fresh_file = record {
  file = (write_all_at short_writes blank (replicate 10 0) 0).file;
  metadata = cd;
  header_len = 10;
  data_bytes_written = 0;
  current_offset = 10;
  bytes_since_checkpoint = 0;
  checkpoint_interval_bytes = 1000;
}

abbrev one_frame : AsyncWavWriter short_writes
one_frame = (write_samples 2 (258 ∷ 772 ∷ []) fresh_file).1

one_frame_runs :
    Runs tiny_header cd (checkpoint tiny_header one_frame).1 (block_bytes 2 (258 ∷ 772 ∷ []))
unfolding open_writer write_all_at write_loop write_samples would_overflow block_bytes interleave
one_frame_runs =
    checked one_frame
      (block fresh_file 1 (258 ∷ 772 ∷ []) (opened 1000 blank fresh_file refl) refl refl refl)

counters_exact_example :
    ((checkpoint tiny_header one_frame).1.data_bytes_written
      ≡ length (block_bytes 2 (258 ∷ 772 ∷ [])))
    × ((checkpoint tiny_header one_frame).1.current_offset
        ≡ 10 + length (block_bytes 2 (258 ∷ 772 ∷ [])))
    × ((checkpoint tiny_header one_frame).1.bytes_since_checkpoint ≡ unsynced one_frame_runs)
    × (length (block_bytes 2 (258 ∷ 772 ∷ [])) + 2 ≤ u32_max)
counters_exact_example =
    counters_exact tiny_header cd 10 tiny_header_fixed (omega arith) (omega arith)
      (checkpoint tiny_header one_frame).1 (block_bytes 2 (258 ∷ 772 ∷ [])) one_frame_runs

-- The first two suffixes are taken.
abbrev crowded : ℕ → Opened
crowded i = if ltb i 2 then already_exists else Opened.opened

create_new_capture_example :
    (k : ℕ) × (k ≤ u32_max)
    × AreTaken crowded 0 k
    × Settled crowded k (create_new_capture 4294967296 crowded)
create_new_capture_example = create_new_capture_lem crowded 4294967296 (omega arith)
