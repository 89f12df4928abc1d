-- ===== src/Recording/Buffer.antt =====
-- src/recording/buffer.rs: the planar audio block. A sample is the bit pattern of its `f32`; a
-- place of the array that was never written is `none`.
pub mod Planar
use nam_audio_pipe.Base.{
  ℕ, ◌+◌, ◌-◌, ◌*◌, ◌/◌, ◌==◌, ◌&&◌, Bool, List, [], ◌∷◌, ◌++◌, map, Option, none, some, min,
  length, take, drop, replicate,
}

pub record AlignedBlock : Type 0 where
  pub cells : List (Option ℕ)
  pub valid_len : ℕ

abbrev pub max_block_size : ℕ
max_block_size = 16384

abbrev pub control_capacity : ℕ
control_capacity = 4

-- `sample_rate` is the bit pattern of its `f32`.
pub record AudioMetadata : Type 0 where
  pub sample_rate : ℕ
  pub bit_depth : ℕ
  pub channels : ℕ

-- `PartialEq` of the metadata. The rates are casts of a `u32`, for which equal floats have equal
-- bit patterns.
abbrev pub meta_eq : AudioMetadata → AudioMetadata → Bool
meta_eq a b =
    a.sample_rate == b.sample_rate && a.bit_depth == b.bit_depth && a.channels == b.channels

pub data ControlPayload : Type 0 where
  metadata : ℕ → AudioMetadata → ControlPayload
  stream_stop : ControlPayload

-- The payload of the inline ring, which carries all three kinds.
pub data RingPayload : Type 0 where
  audio : AlignedBlock → RingPayload
  format : AudioMetadata → RingPayload
  stop : RingPayload

-- `AlignedBlock::new`: every sample is 0.0.
pub new : ℕ → AlignedBlock
new size = record { cells = replicate size (some 0); valid_len = 0 }

unfoldable pub new_uninit : ℕ → AlignedBlock
new_uninit size = record { cells = replicate size none; valid_len = 0 }

-- `write_copy_of_slice` into the first places of a slot.
abbrev pub write_copy : List (Option ℕ) → List ℕ → List (Option ℕ)
write_copy slot src = map some src ++ drop (length src) slot

-- The frames that `fill_planar` takes from its two slices.
abbrev pub fill_frames : ℕ → List ℕ → List ℕ → ℕ
fill_frames size left right = min (min (length left) (length right)) (size / 2)

unfoldable pub fill_planar : AlignedBlock → List ℕ → List ℕ → AlignedBlock
fill_planar b left right =
    let n = fill_frames (length b.cells) left right in
    record {
      cells =
          write_copy (take n b.cells) (take n left) ++ write_copy (drop n b.cells) (take n right);
      valid_len = length (take n left) + length (take n right);
    }

-- Reads a region; `none` when a place of it was never written.
unfoldable pub assume_init : List (Option ℕ) → Option (List ℕ)
assume_init [] = some []
assume_init (none ∷ cs) = none
assume_init (some x ∷ cs) = elim (assume_init cs) [ none ↦ none | some xs ↦ some (x ∷ xs) ]

unfoldable pub as_slice : AlignedBlock → Option (List ℕ)
as_slice b = assume_init (take b.valid_len b.cells)

unfoldable pub frames : AlignedBlock → ℕ
frames b = b.valid_len / 2

pub is_empty : AlignedBlock → Bool
is_empty b = b.valid_len == 0

pub left_slice : AlignedBlock → Option (List ℕ)
unfolding frames
left_slice b = assume_init (take (frames b) b.cells)

pub right_slice : AlignedBlock → Option (List ℕ)
unfolding frames
right_slice b = assume_init (take (2 * frames b - frames b) (drop (frames b) b.cells))
