-- ===== src/Recording/Wav/Building.antt =====
-- src/recording/wav_header.rs, `build_wav_header`: the header that hound writes for an empty file, with
-- its three size fields patched. The bytes of that empty header are the crate's and a parameter; its
-- errors, and those of the code here, are `none`.
pub mod Sizes
use nam_audio_pipe.Base.{
  ℕ, zero, suc, ◌+◌, ◌-◌, ◌*◌, ◌/◌, ◌==◌, ltb, leb, ◌&&◌, if◌then◌else◌, Bool, true, false, Option,
  none, some, List, [], ◌∷◌, ◌++◌, length, take, drop, u32_max,
}
use nam_audio_pipe.Recording.Buffer.{AudioMetadata}
use nam_audio_pipe.Recording.Wav.{le_bytes}

-- "data" and "fact".
abbrev pub data_id : List ℕ
data_id = 100 ∷ 97 ∷ 116 ∷ 97 ∷ []

abbrev pub fact_id : List ℕ
fact_id = 102 ∷ 97 ∷ 99 ∷ 116 ∷ []

abbrev pub begins_with : List ℕ → List ℕ → Bool
begins_with [] xs = true
begins_with (t ∷ ts) [] = false
begins_with (t ∷ ts) (x ∷ xs) = t == x && begins_with ts xs

abbrev pub moved_on : Bool → Option ℕ → Option ℕ
moved_on true behind = some 0
moved_on false none = none
moved_on false (some i) = some (suc i)

-- The first window that is `tag`.
unfoldable pub position : List ℕ → List ℕ → Option ℕ
position tag [] = none
position tag (x ∷ xs) = moved_on (begins_with tag (x ∷ xs)) (position tag xs)

abbrev pub last_of : Bool → Option ℕ → Option ℕ
last_of here (some i) = some (suc i)
last_of true none = some 0
last_of false none = none

-- The last one.
unfoldable pub rposition : List ℕ → List ℕ → Option ℕ
rposition tag [] = none
rposition tag (x ∷ xs) = last_of (begins_with tag (x ∷ xs)) (rposition tag xs)

-- `header[at..at + len].copy_from_slice(bytes)`.
unfoldable pub patch : ℕ → List ℕ → List ℕ → List ℕ
patch at bytes h = take at h ++ (bytes ++ drop (at + length bytes) h)

abbrev pub from_le_bytes : List ℕ → ℕ
from_le_bytes (a ∷ b ∷ c ∷ d ∷ rest) = a + 256 * b + 65536 * c + 16777216 * d
from_le_bytes _ = 0

unfoldable pub patch_fact_at : ℕ → List ℕ → Option ℕ → List ℕ
patch_fact_at samples_per_channel h none = h
patch_fact_at samples_per_channel h (some fact_pos) =
    if leb (fact_pos + 12) (length h) && leb 4 (from_le_bytes (drop (fact_pos + 4) h))
    then patch (fact_pos + 8) (le_bytes samples_per_channel) h
    else h

unfoldable pub patch_fact : AudioMetadata → ℕ → List ℕ → Option (List ℕ)
patch_fact meta data_bytes h =
    let bytes_per_frame = meta.channels * (meta.bit_depth / 8) in
    if meta.bit_depth == 32
    then (if bytes_per_frame == 0
        then none
        else some (patch_fact_at (data_bytes / bytes_per_frame) h (position fact_id h)))
    else some h

unfoldable pub patch_data : AudioMetadata → ℕ → List ℕ → Option ℕ → Option (List ℕ)
patch_data meta data_bytes h none = none
patch_data meta data_bytes h (some data_pos) =
    if ltb (length h) (data_pos + 8)
    then none
    else patch_fact meta data_bytes (patch (data_pos + 4) (le_bytes data_bytes) h)

unfoldable pub patch_sizes : AudioMetadata → ℕ → Option (List ℕ) → Option (List ℕ)
patch_sizes meta data_bytes none = none
patch_sizes meta data_bytes (some h) =
    let riff_size = length h - 8 + data_bytes in
    let riff = patch 4 (le_bytes riff_size) h in
    if ltb (length h) 8
    then none
    else if ltb u32_max riff_size
    then none
    else patch_data meta data_bytes riff (rposition data_id riff)

-- `empty_header` is what hound's writer leaves when it is finalized with no samples.
abbrev pub build_wav_header :
    (AudioMetadata → Option (List ℕ)) → AudioMetadata → ℕ → Option (List ℕ)
build_wav_header empty_header meta data_bytes = patch_sizes meta data_bytes (empty_header meta)
