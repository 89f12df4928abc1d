-- ===== src/Recording/Disk/Parts.antt =====
-- src/recording/disk.rs: what the files of a session hold, and how the calls of the worker change
-- it. A sink owes the worker the laws below.
pub mod Opening
pub mod Writing
pub mod Processing
pub mod Ending
use nam_audio_pipe.Base.{
  ℕ, ◌*◌, ◌/◌, ◌≤◌, ◌≡◌, refl, ap, Bool, true, false, Option, none, some, List, [], ◌∷◌, ◌++◌,
  length,
}
use nam_audio_pipe.Recording.Buffer.{AlignedBlock, AudioMetadata, as_slice, max_block_size}
use nam_audio_pipe.Recording.Delivery.{Event, sound, new_format, missed}
use nam_audio_pipe.Recording.Disk.Worker.{WavSink, Worker, and_then}

-- A block as `fill_planar` leaves it: `xs` are its two channels.
pub record IsFilled (b : AlignedBlock) (xs : List ℕ) : Type 0 where
  pub samples : as_slice b ≡ some xs
  pub size : length xs ≡ b.valid_len
  pub whole : 2 * (b.valid_len / 2) ≡ b.valid_len
  pub small : b.valid_len ≤ max_block_size

-- `IsHolding` of a writer: the blocks behind its header. `IsComplete`: behind a header that says so.
pub record SinkLaws (S : WavSink) : Type 1 where
  pub IsHolding : S.Writer → AudioMetadata → List (List ℕ) → Type 0
  pub IsComplete : S.Writer → AudioMetadata → List (List ℕ) → Type 0
  pub fresh :
      (part : ℕ) (m : AudioMetadata) (w : S.Writer) (path : ℕ)
      → (S.create) part m ≡ some (w, path)
      → IsHolding w m []
  pub format :
      (w : S.Writer) (m : AudioMetadata) (xss : List (List ℕ))
      → IsHolding w m xss
      → (S.metadata) w ≡ m
  pub fits :
      (w : S.Writer) (m : AudioMetadata) (b : AlignedBlock) (xs : List ℕ)
      → IsHolding w m []
      → IsFilled b xs
      → (S.would_overflow) b.valid_len w ≡ false
  pub appended :
      (w : S.Writer) (m : AudioMetadata) (xss : List (List ℕ)) (b : AlignedBlock) (xs : List ℕ)
      → IsHolding w m xss
      → IsFilled b xs
      → (S.would_overflow) b.valid_len w ≡ false
      → ((S.write_block) b w).0 ≡ true
      → IsHolding ((S.write_block) b w).1 m (xss ++ xs ∷ [])
  pub synced :
      (w : S.Writer) (m : AudioMetadata) (xss : List (List ℕ))
      → IsHolding w m xss
      → IsHolding ((S.checkpoint) w).1 m xss
  pub completed :
      (w : S.Writer) (m : AudioMetadata) (xss : List (List ℕ))
      → IsHolding w m xss
      → ((S.finalize) w).0 ≡ true
      → IsComplete ((S.finalize) w).1 m xss

-- A block with the format that it is recorded in.
abbrev pub Played : Type 0
Played = AudioMetadata × List ℕ

abbrev pub tagged : AudioMetadata → List (List ℕ) → List Played
tagged m [] = []
tagged m (xs ∷ xss) = (m, xs) ∷ tagged m xss

-- What a capture of the events is to hold, file borders forgotten: each block in the format that was
-- announced last, and nothing for a block before the first format.
abbrev pub played_one : Option AudioMetadata → Event → List Played
played_one none e = []
played_one (some m) (sound xs) = (m, xs) ∷ []
played_one (some m) (new_format n) = []
played_one (some m) missed = []

abbrev pub format_after : Option AudioMetadata → Event → Option AudioMetadata
format_after o (sound xs) = o
format_after o (new_format n) = some n
format_after o missed = o

abbrev pub played : Option AudioMetadata → List Event → List Played
played o [] = []
played o (e ∷ es) = played_one o e ++ played (format_after o e) es

abbrev pub last_format : Option AudioMetadata → List Event → Option AudioMetadata
last_format o [] = o
last_format o (e ∷ es) = last_format (format_after o e) es

-- What closed files hold together.
pub data Files {S : WavSink} (L : SinkLaws S) : List S.Writer → List Played → Type 0 where
  no_files : Files L [] []
  file :
      {ws : List S.Writer} {ps : List Played} (w : S.Writer) (m : AudioMetadata)
      (xss : List (List ℕ))
      → Files L ws ps
      → (L.IsComplete) w m xss
      → Files L (ws ++ w ∷ []) (ps ++ tagged m xss)

-- What the closed files and the open one hold together, and the format of the open one.
pub data IsRecording {S : WavSink} (L : SinkLaws S) (s : Worker S)
    : Option AudioMetadata → List Played → Type 0 where
  between :
      {ps : List Played} → s.wav_writer ≡ none → Files L s.finalized ps → IsRecording L s none ps
  inside :
      {ps : List Played} (w : S.Writer) (m : AudioMetadata) (xss : List (List ℕ))
      → s.wav_writer ≡ some w
      → (L.IsHolding) w m xss
      → Files L s.finalized ps
      → IsRecording L s (some m) (ps ++ tagged m xss)

pub tagged-snoc :
    (m : AudioMetadata) (xss : List (List ℕ)) (xs : List ℕ)
    → tagged m (xss ++ xs ∷ []) ≡ tagged m xss ++ (m, xs) ∷ []
tagged-snoc m [] xs = refl
tagged-snoc m (ys ∷ xss) xs = ap (◌∷◌ (m, ys)) (tagged-snoc m xss xs)

-- A chain of two calls succeeds when both do.
pub and_then-ok :
    {S : WavSink} (o : Bool × Worker S) (f : Worker S → Bool × Worker S)
    → (and_then o f).0 ≡ true
    → (o.0 ≡ true) × (and_then o f ≡ f o.1)
and_then-ok (true, s) f h = (refl, refl)
and_then-ok (false, s) f h = cc
