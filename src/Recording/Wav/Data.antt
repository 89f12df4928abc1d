-- ===== src/Recording/Wav/Data.antt =====
-- src/recording/disk.rs, `AsyncWavWriter`: what the capture file holds after any sequence of blocks
-- and checkpoints.
use mathlib.Core.Path.{subst}
use mathlib.Core.Bool.{false≢true}
use native.Mathlib.Nat.{zero-add}
use nam_audio_pipe.Base.{
  ℕ, zero, suc, ◌+◌, ◌-◌, ◌*◌, ◌/◌, ◌≤◌, ◌<◌, ◌≡◌, min, refl, sym, ap, ◌∙◌, ltb, true, false,
  Option, some, List, [], ◌∷◌, ◌++◌, length, take, drop, get_elem?, u32_max, u64_max, arith,
  length-append, length-take, length-drop, Bool-cases, Option-cases, inl, inr, ◌⊎◌, ltb→lt, ltb→le,
}
use nam_audio_pipe.Recording.Io.{
  WriteAt, Written, complete, write_zero, invalid_data, failed, out_of_fuel, Outcome, write_all_at,
  overwritten,
}
use nam_audio_pipe.Recording.Io.Persisted.{IsPersisted, write_all_at_lem}
use nam_audio_pipe.Recording.Wav.{
  Header, AsyncWavWriter, interleave, block_bytes, is_complete, advance, write_samples,
  would_overflow, rewrite_header_and_sync,
}

-- The file behind the header is `payload`, and the counters say so.
pub record IsRecorded {B : WriteAt} (w : AsyncWavWriter B) (payload : List ℕ) : Type 0 where
  pub size : length payload ≡ w.data_bytes_written
  pub offset : w.current_offset ≡ w.header_len + w.data_bytes_written
  pub bytes :
      (i : ℕ) → i < length payload → (B.byte) w.file (w.header_len + i) ≡ get_elem? payload i
  pub envelope : 8 ≤ w.header_len
  -- The size field of the RIFF header holds what it has to.
  pub riff : w.data_bytes_written + (w.header_len - 8) ≤ u32_max

length-interleave : (l r : List ℕ) → length (interleave l r) ≡ 8 * min (length l) (length r)
unfolding interleave
length-interleave [] r = ground arith
length-interleave (x ∷ l) [] = ground arith
length-interleave (x ∷ l) (y ∷ r) = omega (arith, length-interleave l r)

-- A block of whole frames gives four bytes a sample.
pub length-block_bytes :
    (k : ℕ) (xs : List ℕ) → length xs ≡ 2 * k → length (block_bytes (2 * k) xs) ≡ 2 * k * 4
unfolding block_bytes
length-block_bytes k xs h = omega (
  arith,
  length-interleave (take (2 * k / 2) xs) (drop (2 * k / 2) xs),
  length-take (2 * k / 2) xs,
  length-drop (2 * k / 2) xs,
  h,
)

complete_lem : (w : Written) → is_complete w ≡ true → w ≡ complete
complete_lem complete h = refl
complete_lem write_zero h = cc
complete_lem invalid_data h = cc
complete_lem (failed e) h = cc
complete_lem out_of_fuel h = cc

pub get_elem?-append_left :
    (xs ys : List ℕ) (i : ℕ) → i < length xs → get_elem? (xs ++ ys) i ≡ get_elem? xs i
get_elem?-append_left [] ys i h = absurd (omega arith)
get_elem?-append_left (x ∷ xs) ys zero h = refl
get_elem?-append_left (x ∷ xs) ys (suc i) h = get_elem?-append_left xs ys i (omega arith)

pub get_elem?-append_right :
    (xs ys : List ℕ) (i j : ℕ) → i ≡ length xs + j → get_elem? (xs ++ ys) i ≡ get_elem? ys j
get_elem?-append_right [] ys i j h = let same : i ≡ j = omega (arith, h) in ap (get_elem? ys) same
get_elem?-append_right (x ∷ xs) ys zero j h = absurd (omega arith)
get_elem?-append_right (x ∷ xs) ys (suc i) j h = get_elem?-append_right xs ys i j (omega (arith, h))

-- What a write of the whole buffer leaves at a place inside and outside it.
module _ (old : ℕ → Option ℕ) (buf : List ℕ) (offset : ℕ) where
  overwritten_in :
      (i : ℕ)
      → i < length buf
      → overwritten old buf offset (length buf) (offset + i) ≡ get_elem? buf i
  overwritten_in i h =
      let same : offset + i - offset ≡ i = omega arith in ground (arith, ap (get_elem? buf) same)

  overwritten_below : (n i : ℕ) → i < offset → overwritten old buf offset n i ≡ old i
  overwritten_below n i h = ground arith

  overwritten_above : (n i : ℕ) → offset + n ≤ i → overwritten old buf offset n i ≡ old i
  overwritten_above n i h = ground arith

module _ {B : WriteAt} (w : AsyncWavWriter B) (payload : List ℕ) (v : IsRecorded w payload) where
  fits_word : w.current_offset ≤ 2 * u32_max + 8
  fits_word = omega (arith, v.offset, v.riff, v.envelope)

  module _ (k : ℕ) (xs : List ℕ) (whole : length xs ≡ 2 * k)
      (room : would_overflow (2 * k) w ≡ false) where
    grown : w.data_bytes_written + 2 * k * 4 + (w.header_len - 8) ≤ u32_max
    unfolding would_overflow
    grown = ground (arith, v.riff)

    abbrev block : List ℕ
    block = block_bytes (2 * k) xs

    abbrev out : Outcome B
    out = write_all_at B w.file block w.current_offset

    in_range : w.current_offset + length block ≤ u64_max
    in_range = omega (arith, fits_word, length-block_bytes k xs whole, grown)

    written :
        is_complete out.result ≡ true
        → IsPersisted B w.file block w.current_offset out (length block)
    written h =
        let (n, p) = write_all_at_lem B w.file block w.current_offset in_range in
        subst (λ m. IsPersisted B w.file block w.current_offset out m)
          (p.whole (complete_lem out.result h)) p

    placed :
        is_complete out.result ≡ true
        → (i : ℕ) → i < length (payload ++ block)
        → (ltb i (length payload) ≡ true) ⊎ (ltb i (length payload) ≡ false)
        → (B.byte) out.file (w.header_len + i) ≡ get_elem? (payload ++ block) i
    placed h i b (inl e) =
        let before : i < length payload = ltb→lt i (length payload) e in
        (written h).on_disk (w.header_len + i)
        ∙ overwritten_below ((B.byte) w.file) block w.current_offset (length block)
            (w.header_len + i) (omega (arith, before, v.offset, v.size))
        ∙ v.bytes i before
        ∙ sym (get_elem?-append_left payload block i before)
    placed h i b (inr e) =
        let behind : length payload ≤ i = ltb→le i (length payload) e in
        let at : w.header_len + i ≡ w.current_offset + (i - length payload) =
          omega (arith, behind, v.offset, v.size) in
        (written h).on_disk (w.header_len + i)
        ∙ ap (overwritten ((B.byte) w.file) block w.current_offset (length block)) at
        ∙ overwritten_in ((B.byte) w.file) block w.current_offset (i - length payload)
            (omega (arith, b, behind, length-append payload block))
        ∙ sym (get_elem?-append_right payload block i (i - length payload) (omega (arith, behind)))

    advance-IsRecorded :
        is_complete out.result ≡ true
        → IsRecorded (advance (2 * k * 4) out.file w) (payload ++ block)
    advance-IsRecorded h = record {
      size =
          omega (arith, length-append payload block, v.size, length-block_bytes k xs whole, grown);
      offset = omega (arith, v.offset, fits_word, grown);
      bytes = λ i b. placed h i b (Bool-cases (ltb i (length payload)));
      envelope = v.envelope;
      riff = omega (arith, grown);
    }

    pub write_samples-IsRecorded :
        (write_samples (2 * k) xs w).0 ≡ true
        → IsRecorded (write_samples (2 * k) xs w).1 (payload ++ block)
    unfolding write_samples
    write_samples-IsRecorded h = elim (Bool-cases (is_complete out.result)) [
      | inl e ↦ rw (e, write_samples) (advance-IsRecorded e)
      | inr e ↦ absurd (false≢true (rw (e, write_samples) at h))
    ]

  -- A rewrite of the header, whatever becomes of it, touches nothing behind the header.
  module _ (header : Header)
      (fixed : (n : ℕ) (h : List ℕ) → header w.metadata n ≡ some h → length h ≡ w.header_len) where
    kept_file :
        (f : B.File)
        → ((i : ℕ) → w.header_len ≤ i → (B.byte) f i ≡ (B.byte) w.file i)
        → IsRecorded (record w { file = f }) payload
    kept_file f same = record {
      size = v.size;
      offset = v.offset;
      bytes = λ i b. same (w.header_len + i) (omega arith) ∙ v.bytes i b;
      envelope = v.envelope;
      riff = v.riff;
    }

    module _ (h : List ℕ) (made : header w.metadata w.data_bytes_written ≡ some h) where
      abbrev rewritten : Outcome B
      rewritten = write_all_at B w.file h 0

      header_fits : 0 + length h ≤ u64_max
      header_fits = omega (arith, fixed w.data_bytes_written h made, v.riff)

      behind_header : (i : ℕ) → w.header_len ≤ i → (B.byte) rewritten.file i ≡ (B.byte) w.file i
      behind_header i b =
          let (n, p) = write_all_at_lem B w.file h 0 header_fits in
          p.on_disk i
          ∙ overwritten_above ((B.byte) w.file) h 0 n i
              (omega (arith, p.in_buffer, fixed w.data_bytes_written h made))

      on_header :
          is_complete rewritten.result ≡ true
          → (i : ℕ) → i < length h
          → (B.byte) rewritten.file i ≡ get_elem? h i
      on_header e i b =
          let (n, p) = write_all_at_lem B w.file h 0 header_fits in
          let same : n ≡ length h = p.whole (complete_lem rewritten.result e) in
          p.on_disk i
          ∙ ap (λ m. overwritten ((B.byte) w.file) h 0 m i) same
          ∙ ap (overwritten ((B.byte) w.file) h 0 (length h)) (sym (zero-add i))
          ∙ overwritten_in ((B.byte) w.file) h 0 i b

    pub rewrite-IsRecorded : IsRecorded (rewrite_header_and_sync header w).1 payload
    unfolding rewrite_header_and_sync
    rewrite-IsRecorded = elim (Option-cases (header w.metadata w.data_bytes_written)) [
      | inl e ↦ rw (e, rewrite_header_and_sync) v
      | inr (h, e) ↦ elim (Bool-cases (is_complete (write_all_at B w.file h 0).result)) [
        | inl c ↦
            rw (e, c, rewrite_header_and_sync)
              (kept_file _ (λ i b. (B.byte_sync) _ i ∙ behind_header h e i b))
        | inr c ↦ rw (e, c, rewrite_header_and_sync) (kept_file _ (behind_header h e))
      ]
    ]

    pub rewrite-header :
        (rewrite_header_and_sync header w).0 ≡ true
        → (h : List ℕ) × (header w.metadata w.data_bytes_written ≡ some h)
          × ((i : ℕ)
              → i < length h
              → (B.byte) (rewrite_header_and_sync header w).1.file i ≡ get_elem? h i)
    unfolding rewrite_header_and_sync
    rewrite-header s = elim (Option-cases (header w.metadata w.data_bytes_written)) [
      | inl e ↦ absurd (false≢true (rw (e, rewrite_header_and_sync) at s))
      | inr (h, e) ↦ elim (Bool-cases (is_complete (write_all_at B w.file h 0).result)) [
        | inl c ↦ (
          h,
          e,
          rw (e, c, rewrite_header_and_sync) (λ i b. (B.byte_sync) _ i ∙ on_header h e c i b),
        )
        | inr c ↦ absurd (false≢true (rw (e, c, rewrite_header_and_sync) at s))
      ]
    ]
