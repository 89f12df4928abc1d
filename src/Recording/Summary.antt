-- ===== src/Recording/Summary.antt =====
-- src/recording/summary.rs: the tally of a session over its segments. The directory, the duration
-- and the printed line, which only `render` reads, are left out; a path is a number that names it,
-- and the sample rate stays the bit pattern of the metadata, before its cast to `u32`.
use nam_audio_pipe.Base.{ℕ, ◌+◌, ◌%◌, List, [], ◌∷◌, ◌++◌, u64_max}

pub record CaptureSegment : Type 0 where
  pub path : ℕ
  pub data_bytes : ℕ
  pub frames : ℕ
  pub sample_rate : ℕ

pub record CaptureSummary : Type 0 where
  pub segments : List CaptureSegment

unfoldable pub push_segment : CaptureSegment → CaptureSummary → CaptureSummary
push_segment segment s = record s { segments = s.segments ++ segment ∷ [] }

abbrev pub grown : ℕ → ℕ → CaptureSegment → CaptureSegment
grown frames bytes segment = record segment {
  frames = (segment.frames + frames) % (u64_max + 1);
  data_bytes = (segment.data_bytes + bytes) % (u64_max + 1);
}

-- `last_mut`, and the write through it.
abbrev pub grow_last : ℕ → ℕ → List CaptureSegment → List CaptureSegment
grow_last frames bytes [] = []
grow_last frames bytes (x ∷ []) = grown frames bytes x ∷ []
grow_last frames bytes (x ∷ y ∷ ys) = x ∷ grow_last frames bytes (y ∷ ys)

unfoldable pub add_block : ℕ → ℕ → CaptureSummary → CaptureSummary
add_block frames bytes s = record s { segments = grow_last frames bytes s.segments }

abbrev pub sum_bytes : List CaptureSegment → ℕ
sum_bytes [] = 0
sum_bytes (x ∷ xs) = (x.data_bytes + sum_bytes xs) % (u64_max + 1)

unfoldable pub total_bytes : CaptureSummary → ℕ
total_bytes s = sum_bytes s.segments
