-- ===== src/Recording/Wav/Capture.antt =====
-- src/recording/disk.rs, `AsyncWavWriter`: the whole life of a capture file, from `open` through
-- blocks and checkpoints to `finalize`.
use mathlib.Core.Path.{subst}
use mathlib.Core.Option.{some-injective}
use nam_audio_pipe.Base.{
  ℕ, ◌+◌, ◌-◌, ◌*◌, ◌≤◌, ◌<◌, ◌≡◌, refl, sym, ap, ◌∙◌, true, false, some, List, [], ◌++◌, length,
  get_elem?, u32_max, u64_max, arith, Bool-cases, Option-cases, inl, inr, ◌⊎◌, ltb, if◌then◌else◌,
  length-append, ◌%◌, Bool, ltb→lt, ltb→le,
}
use nam_audio_pipe.Recording.Buffer.{AudioMetadata}
use nam_audio_pipe.Recording.Io.{WriteAt, write_all_at}
use nam_audio_pipe.Recording.Wav.{
  Header, AsyncWavWriter, block_bytes, is_complete, open_writer, write_samples, would_overflow,
  rewrite_header_and_sync, checkpoint, finalize,
}
use nam_audio_pipe.Recording.Wav.Data.{
  length-block_bytes, IsRecorded, write_samples-IsRecorded, rewrite-IsRecorded, rewrite-header,
  get_elem?-append_left, get_elem?-append_right,
}

-- A writer with the bytes of the blocks that it wrote, in order. Before each block the guard says
-- that it fits, as `write_block_with_overflow_rollover` asks; checkpoints may fail.
pub data Runs {B : WriteAt} (header : Header) (meta : AudioMetadata)
    : AsyncWavWriter B → List ℕ → Type 0 where
  opened :
      (interval : ℕ) (file : B.File) (w : AsyncWavWriter B)
      → open_writer header interval file meta ≡ some w
      → Runs header meta w []
  block :
      {payload : List ℕ} (w : AsyncWavWriter B) (k : ℕ) (xs : List ℕ)
      → Runs header meta w payload
      → length xs ≡ 2 * k
      → would_overflow (2 * k) w ≡ false
      → (write_samples (2 * k) xs w).0 ≡ true
      → Runs header meta (write_samples (2 * k) xs w).1 (payload ++ block_bytes (2 * k) xs)
  checked :
      {payload : List ℕ} (w : AsyncWavWriter B)
      → Runs header meta w payload
      → Runs header meta (checkpoint header w).1 payload

-- The bytes since the last checkpoint that went well.
abbrev pub unsynced :
    {B : WriteAt} {header : Header} {meta : AudioMetadata} {w : AsyncWavWriter B} {payload : List ℕ}
    → Runs header meta w payload
    → ℕ
unsynced (opened interval file w made) = 0
unsynced (block w k xs r whole room done) =
    let before = unsynced r in before + length (block_bytes (2 * k) xs)
unsynced {header = header} (checked w r) =
    let before = unsynced r in if (checkpoint header w).0 then 0 else before

pub record IsKept {B : WriteAt} (meta : AudioMetadata) (size : ℕ) (w : AsyncWavWriter B)
    (payload : List ℕ) : Type 0 where
  pub recorded : IsRecorded w payload
  pub format : w.metadata ≡ meta
  pub header_size : w.header_len ≡ size

module _ {B : WriteAt} (header : Header) (w : AsyncWavWriter B) where
  write_samples-same :
      (n : ℕ) (xs : List ℕ)
      → ((write_samples n xs w).1.metadata ≡ w.metadata)
        × ((write_samples n xs w).1.header_len ≡ w.header_len)
  unfolding write_samples
  write_samples-same n xs =
      elim (Bool-cases
        (is_complete (write_all_at B w.file (block_bytes n xs) w.current_offset).result)) [
          | inl e ↦ rw (e, write_samples) (refl, refl)
          | inr e ↦ rw (e, write_samples) (refl, refl)
        ]

  rewrite-same :
      ((rewrite_header_and_sync header w).1.metadata ≡ w.metadata)
      × ((rewrite_header_and_sync header w).1.header_len ≡ w.header_len)
  unfolding rewrite_header_and_sync
  rewrite-same = elim (Option-cases (header w.metadata w.data_bytes_written)) [
    | inl e ↦ rw (e, rewrite_header_and_sync) (refl, refl)
    | inr (h, e) ↦ elim (Bool-cases (is_complete (write_all_at B w.file h 0).result)) [
      | inl c ↦ rw (e, c, rewrite_header_and_sync) (refl, refl)
      | inr c ↦ rw (e, c, rewrite_header_and_sync) (refl, refl)
    ]
  ]

lower : (b : Bool) (n m : ℕ) → n ≤ m → (if b then 0 else n) ≤ m
lower true n m h = omega arith
lower false n m h = h

opened-unsynced :
    {B : WriteAt} (header : Header) (meta : AudioMetadata) (interval : ℕ) (file : B.File)
    (w : AsyncWavWriter B)
    → open_writer header interval file meta ≡ some w
    → w.bytes_since_checkpoint ≡ 0
unfolding open_writer
opened-unsynced {B} header meta interval file w made = elim (Option-cases (header meta 0)) [
  | inl e ↦ cc (rw (e, open_writer) at made)
  | inr (h, e) ↦ elim (Bool-cases (is_complete (write_all_at B file h 0).result)) [
    | inl c ↦
        ap (λ (u : AsyncWavWriter B). u.bytes_since_checkpoint)
          (sym (some-injective _ _ (rw (e, c, open_writer) at made)))
    | inr c ↦ cc (rw (e, c, open_writer) at made)
  ]
]

written-unsynced :
    {B : WriteAt} (w : AsyncWavWriter B) (n : ℕ) (xs : List ℕ)
    → (write_samples n xs w).0 ≡ true
    → (write_samples n xs w).1.bytes_since_checkpoint
      ≡ (w.bytes_since_checkpoint + n * 4) % (u64_max + 1)
unfolding write_samples
written-unsynced {B} w n xs done =
    elim (Bool-cases
      (is_complete (write_all_at B w.file (block_bytes n xs) w.current_offset).result)) [
        | inl e ↦ rw (e, write_samples) refl
        | inr e ↦ cc (rw (e, write_samples) at done)
      ]

checked-unsynced :
    {B : WriteAt} (header : Header) (w : AsyncWavWriter B)
    → (checkpoint header w).1.bytes_since_checkpoint
      ≡ (if (checkpoint header w).0 then 0 else w.bytes_since_checkpoint)
unfolding checkpoint rewrite_header_and_sync
checked-unsynced {B} header w = elim (Option-cases (header w.metadata w.data_bytes_written)) [
  | inl e ↦ rw (e, checkpoint, rewrite_header_and_sync) refl
  | inr (h, e) ↦ elim (Bool-cases (is_complete (write_all_at B w.file h 0).result)) [
    | inl c ↦ elim (Bool-cases ((B.sync_all) (write_all_at B w.file h 0).file).0) [
      | inl s ↦ rw (e, c, s, checkpoint, rewrite_header_and_sync) refl
      | inr s ↦ rw (e, c, s, checkpoint, rewrite_header_and_sync) refl
    ]
    | inr c ↦ rw (e, c, checkpoint, rewrite_header_and_sync) refl
  ]
]

module _ {B : WriteAt} (header : Header) (meta : AudioMetadata) (size : ℕ)
    (fixed : (n : ℕ) (h : List ℕ) → header meta n ≡ some h → length h ≡ size) (envelope : 8 ≤ size)
    (small : size - 8 ≤ u32_max) where
  fixed_for :
      (w : AsyncWavWriter B)
      → w.metadata ≡ meta
      → w.header_len ≡ size
      → (n : ℕ) (h : List ℕ) → header w.metadata n ≡ some h
      → length h ≡ w.header_len
  fixed_for w e f n h made = fixed n h (ap (λ m. header m n) (sym e) ∙ made) ∙ sym f

  opened-IsKept :
      (interval : ℕ) (file : B.File) (w : AsyncWavWriter B)
      → open_writer header interval file meta ≡ some w
      → IsKept meta size w []
  unfolding open_writer
  opened-IsKept interval file w made = elim (Option-cases (header meta 0)) [
    | inl e ↦ cc (rw (e, open_writer) at made)
    | inr (h, e) ↦ elim (Bool-cases (is_complete (write_all_at B file h 0).result)) [
      | inl c ↦
          subst (λ u. IsKept meta size u []) (some-injective _ _ (rw (e, c, open_writer) at made))
            (record {
              recorded = record {
                size = refl;
                offset = omega arith;
                bytes = λ i b. absurd (omega arith);
                envelope = omega (arith, fixed 0 h e);
                riff = omega (arith, fixed 0 h e);
              };
              format = refl;
              header_size = fixed 0 h e;
            })
      | inr c ↦ cc (rw (e, c, open_writer) at made)
    ]
  ]

  rewrite-IsKept :
      (w : AsyncWavWriter B) (payload : List ℕ)
      → IsKept meta size w payload
      → IsKept meta size (rewrite_header_and_sync header w).1 payload
  rewrite-IsKept w payload v = record {
    recorded = rewrite-IsRecorded w payload v.recorded header (fixed_for w v.format v.header_size);
    format = (rewrite-same header w).0 ∙ v.format;
    header_size = (rewrite-same header w).1 ∙ v.header_size;
  }

  checkpoint-IsKept :
      (w : AsyncWavWriter B) (payload : List ℕ)
      → IsKept meta size w payload
      → IsKept meta size (checkpoint header w).1 payload
  unfolding checkpoint
  checkpoint-IsKept w payload v =
      let u = rewrite-IsKept w payload v in
      elim (Bool-cases (rewrite_header_and_sync header w).0) [
        | inl e ↦
            rw (e, checkpoint)
              (record {
                recorded = record {
                  size = u.recorded.size;
                  offset = u.recorded.offset;
                  bytes = u.recorded.bytes;
                  envelope = u.recorded.envelope;
                  riff = u.recorded.riff;
                };
                format = u.format;
                header_size = u.header_size;
              })
        | inr e ↦ rw (e, checkpoint) u
      ]

  pub Runs-IsKept :
      (w : AsyncWavWriter B) (payload : List ℕ)
      → Runs header meta w payload
      → IsKept meta size w payload
  Runs-IsKept w payload (opened interval file u made) = opened-IsKept interval file u made
  Runs-IsKept w payload (block {payload = p} u k xs r whole room done) =
      let v = Runs-IsKept u p r in
      record {
        recorded = write_samples-IsRecorded u p v.recorded k xs whole room done;
        format = (write_samples-same header u (2 * k) xs).0 ∙ v.format;
        header_size = (write_samples-same header u (2 * k) xs).1 ∙ v.header_size;
      }
  Runs-IsKept w payload (checked {payload = p} u r) = checkpoint-IsKept u p (Runs-IsKept u p r)

  unsynced_le :
      (w : AsyncWavWriter B) (payload : List ℕ) (runs : Runs header meta w payload)
      → unsynced runs ≤ length payload
  unsynced_le w payload (opened interval file u made) = omega arith
  unsynced_le w payload (block {payload = p} u k xs r whole room done) =
      omega (arith, unsynced_le u p r, length-append p (block_bytes (2 * k) xs))
  unsynced_le w payload (checked {payload = p} u r) =
      lower (checkpoint header u).0 (unsynced r) (length p) (unsynced_le u p r)

  Runs-unsynced :
      (w : AsyncWavWriter B) (payload : List ℕ) (runs : Runs header meta w payload)
      → w.bytes_since_checkpoint ≡ unsynced runs
  Runs-unsynced w payload (opened interval file u made) =
      opened-unsynced header meta interval file u made
  Runs-unsynced w payload (block {payload = p} u k xs r whole room done) =
      let v = Runs-IsKept w payload (block u k xs r whole room done) in
      written-unsynced u (2 * k) xs done
      ∙ omega (
        arith,
        Runs-unsynced u p r,
        unsynced_le u p r,
        length-append p (block_bytes (2 * k) xs),
        length-block_bytes k xs whole,
        v.recorded.size,
        v.recorded.riff,
      )
  Runs-unsynced w payload (checked {payload = p} u r) =
      checked-unsynced header u
      ∙ ap (λ n. if (checkpoint header u).0 then 0 else n) (Runs-unsynced u p r)

  module _ (w : AsyncWavWriter B) (payload : List ℕ) (runs : Runs header meta w payload) where
    -- After any blocks and checkpoints, the three counters of the writer are exact, so none of them has
    -- wrapped: the data bytes, the offset behind them, and the bytes of the blocks since the last
    -- checkpoint that went well. And the size that the RIFF header has to state still fits 32 bits.
    pub counters_exact :
        (w.data_bytes_written ≡ length payload)
        × (w.current_offset ≡ size + length payload)
        × (w.bytes_since_checkpoint ≡ unsynced runs)
        × (length payload + (size - 8) ≤ u32_max)
    counters_exact =
        let v = Runs-IsKept w payload runs in
        (
          sym v.recorded.size,
          omega (arith, v.recorded.offset, v.recorded.size, v.header_size),
          Runs-unsynced w payload runs,
          omega (arith, v.recorded.riff, v.recorded.size, v.header_size),
        )

    joined :
        (f : B.File) (h : List ℕ) (i : ℕ)
        → length h ≡ size
        → ((j : ℕ) → j < length h → (B.byte) f j ≡ get_elem? h j)
        → ((j : ℕ) → j < length payload → (B.byte) f (size + j) ≡ get_elem? payload j)
        → i < length h + length payload
        → (ltb i (length h) ≡ true) ⊎ (ltb i (length h) ≡ false)
        → (B.byte) f i ≡ get_elem? (h ++ payload) i
    joined f h i e head body b (inl c) =
        let before : i < length h = ltb→lt i (length h) c in
        head i before ∙ sym (get_elem?-append_left h payload i before)
    joined f h i e head body b (inr c) =
        let behind : length h ≤ i = ltb→le i (length h) c in
        let at : i ≡ size + (i - length h) = omega (arith, behind, e) in
        ap ((B.byte) f) at
        ∙ body (i - length h) (omega (arith, b, behind))
        ∙ sym (get_elem?-append_right h payload i (i - length h) (omega (arith, behind)))

    -- For a format whose header has one length: when `finalize` succeeds after any blocks and any
    -- checkpoints, failed ones among them, the file is the header that states the number of data
    -- bytes, followed by the interleaved bytes of the blocks in the order they were written.
    pub finalized_file :
        (finalize header w).0 ≡ true
        → (h : List ℕ) × (header meta (length payload) ≡ some h)
          × ((i : ℕ)
              → i < length h + length payload
              → (B.byte) (finalize header w).1.file i ≡ get_elem? (h ++ payload) i)
    unfolding finalize
    finalized_file done =
        let v = Runs-IsKept w payload runs in
        let u = rewrite-IsKept w payload v in
        let (h, made, on_disk) =
          rewrite-header w payload v.recorded header (fixed_for w v.format v.header_size) done in
        let stated : header meta (length payload) ≡ some h =
          ap (λ m. header m (length payload)) (sym v.format)
          ∙ ap (header w.metadata) v.recorded.size
          ∙ made in
        (
          h,
          stated,
          λ i b.
              joined (rewrite_header_and_sync header w).1.file h i (fixed (length payload) h stated)
                on_disk
                (λ j c.
                  ap (λ k. (B.byte) (rewrite_header_and_sync header w).1.file (k + j))
                    (sym u.header_size)
                  ∙ u.recorded.bytes j c)
                b (Bool-cases (ltb i (length h))),
        )
