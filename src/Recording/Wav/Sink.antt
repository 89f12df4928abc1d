-- ===== src/Recording/Wav/Sink.antt =====
-- src/recording/disk.rs, `TokioUringSink`: the production sink, whose writers are `AsyncWavWriter`s,
-- and that it keeps the laws that the worker relies on.
use mathlib.Core.Path.{subst}
use mathlib.Core.List.{append-nil, append_assoc}
use mathlib.Core.Option.{some-injective}
use nam_audio_pipe.Base.{
  ℕ, ◌+◌, ◌*◌, ◌/◌, ◌==◌, ◌≤◌, ◌<◌, ◌≡◌, sym, ap, ◌∙◌, Bool, true, false, inl, inr, Option, none,
  some, List, [], ◌∷◌, ◌++◌, length, length-zero, get_elem?, u32_max, arith, Bool-cases, ==→eq,
}
use nam_audio_pipe.Recording.Buffer.{AlignedBlock, AudioMetadata, as_slice, max_block_size}
use nam_audio_pipe.Recording.Io.{WriteAt}
use nam_audio_pipe.Recording.Disk.Creation.{
  Opened, Created, created, exhausted, error, out_of_fuel, create_new_capture,
}
use nam_audio_pipe.Recording.Disk.Worker.{WavSink}
use nam_audio_pipe.Recording.Disk.Parts.{SinkLaws, IsFilled}
use nam_audio_pipe.Recording.Wav.{
  Header, AsyncWavWriter, block_bytes, interleave, open_writer, write_samples, write_block,
  would_overflow, checkpoint_due, checkpoint, finalize,
}
use nam_audio_pipe.Recording.Wav.Capture.{Runs, opened, block, checked, Runs-IsKept, finalized_file}

-- The volume below the output directory: what an exclusive open of a part's candidate answers, the
-- new file and its path, and the free bytes at a probe. The interval and the warning are computed in
-- floating point.
pub record Volume (B : WriteAt) : Type 0 where
  pub open_at : ℕ → ℕ → Opened
  pub file_at : ℕ → ℕ → B.File
  pub path_at : ℕ → ℕ → ℕ
  pub available_bytes : ℕ → Option ℕ
  pub interval : AudioMetadata → ℕ
  pub low_space_warning : ℕ → AudioMetadata → Option ℕ

-- The bytes of blocks behind each other.
abbrev pub bytes : List (List ℕ) → List ℕ
bytes [] = []
bytes (xs ∷ xss) = block_bytes (length xs) xs ++ bytes xss

module _ {B : WriteAt} (header : Header) (vol : Volume B) where
  abbrev pub named : ℕ → Option (AsyncWavWriter B) → Option (AsyncWavWriter B × ℕ)
  named path none = none
  named path (some w) = some (w, path)

  abbrev pub open_created : ℕ → AudioMetadata → Created → Option (AsyncWavWriter B × ℕ)
  open_created part meta (created k) =
      named ((vol.path_at) part k)
        (open_writer header ((vol.interval) meta) ((vol.file_at) part k) meta)
  open_created part meta exhausted = none
  open_created part meta (error e) = none
  open_created part meta out_of_fuel = none

  -- `AsyncWavWriter::create`. There are as many turns as suffixes.
  unfoldable pub create : ℕ → AudioMetadata → Option (AsyncWavWriter B × ℕ)
  create part meta = open_created part meta (create_new_capture (u32_max + 1) ((vol.open_at) part))

  -- A read of a place that was never written counts as an error; no filled block has one.
  abbrev pub block_result :
      AsyncWavWriter B → Option (Bool × AsyncWavWriter B) → Bool × AsyncWavWriter B
  block_result w none = (false, w)
  block_result w (some o) = o

  abbrev pub uring_sink : WavSink
  uring_sink = record {
    Writer = AsyncWavWriter B;
    metadata = λ w. w.metadata;
    would_overflow = would_overflow;
    write_block = λ b w. block_result w (write_block b w);
    checkpoint_due = checkpoint_due;
    checkpoint = checkpoint header;
    finalize = finalize header;
    create = create;
    free_bytes = λ i meta. (vol.available_bytes) i;
    low_space_warning = vol.low_space_warning;
  }

  -- A writer behind its header, with the blocks in order.
  abbrev pub IsHolding : AsyncWavWriter B → AudioMetadata → List (List ℕ) → Type 0
  IsHolding w m xss = Runs header m w (bytes xss)

  -- The file is the header that states the size of the blocks' bytes, and then those bytes.
  abbrev pub IsComplete : AsyncWavWriter B → AudioMetadata → List (List ℕ) → Type 0
  IsComplete w m xss =
      (h : List ℕ) × (header m (length (bytes xss)) ≡ some h)
      × ((i : ℕ)
          → i < length h + length (bytes xss)
          → (B.byte) w.file i ≡ get_elem? (h ++ bytes xss) i)

bytes-snoc :
    (xss : List (List ℕ)) (xs : List ℕ)
    → bytes (xss ++ xs ∷ []) ≡ bytes xss ++ block_bytes (length xs) xs
bytes-snoc [] xs = append-nil (block_bytes (length xs) xs)
bytes-snoc (ys ∷ xss) xs =
    ap (λ l. block_bytes (length ys) ys ++ l) (bytes-snoc xss xs)
    ∙ sym (append_assoc (block_bytes (length ys) ys) (bytes xss) (block_bytes (length xs) xs))

named-same :
    {B : WriteAt} (header : Header) (vol : Volume B) (path : ℕ) (o : Option (AsyncWavWriter B))
    {w : AsyncWavWriter B} {p : ℕ}
    → named header vol path o ≡ some (w, p)
    → o ≡ some w
named-same header vol path none e = cc
named-same header vol path (some u) e = ap some (ap (λ q. q.0) (some-injective _ _ e))

-- What the sink relies on: headers of one length for each format, small enough that a block fits.
pub record HeaderLaws (header : Header) : Type 0 where
  pub size : AudioMetadata → ℕ
  pub fixed : (m : AudioMetadata) (n : ℕ) (h : List ℕ) → header m n ≡ some h → length h ≡ size m
  pub envelope : (m : AudioMetadata) → 8 ≤ size m
  pub small : (m : AudioMetadata) → size m + 4 * max_block_size ≤ u32_max

module _ {B : WriteAt} (header : Header) (vol : Volume B) (laws : HeaderLaws header) where
  created-opened :
      (part : ℕ) (m : AudioMetadata) (c : Created) (w : AsyncWavWriter B) (path : ℕ)
      → open_created header vol part m c ≡ some (w, path)
      → Runs header m w []
  created-opened part m exhausted w path e = cc
  created-opened part m (error r) w path e = cc
  created-opened part m out_of_fuel w path e = cc
  created-opened part m (created k) w path e = opened ((vol.interval) m) ((vol.file_at) part k) w (
      named-same header vol ((vol.path_at) part k)
        (open_writer header ((vol.interval) m) ((vol.file_at) part k) m) e)

  room :
      (w : AsyncWavWriter B) (m : AudioMetadata) (n : ℕ)
      → n ≤ max_block_size
      → Runs header m w []
      → would_overflow n w ≡ false
  unfolding would_overflow
  room w m n b r =
      let small : _ = laws.small m in
      let v =
        Runs-IsKept header m (laws.size m) (laws.fixed m) (laws.envelope m) (omega (arith, small)) w
          [] r in
      ground (arith, v.recorded.size, v.header_size, small, b)

  write_block-empty :
      (w : AsyncWavWriter B) (b : AlignedBlock)
      → (b.valid_len == 0) ≡ true
      → write_block b w ≡ some (true, w)
  unfolding write_block
  write_block-empty w b e = ground arith

  write_block-samples :
      (w : AsyncWavWriter B) (b : AlignedBlock) (xs : List ℕ)
      → (b.valid_len == 0) ≡ false
      → as_slice b ≡ some xs
      → write_block b w ≡ some (write_samples b.valid_len xs w)
  unfolding write_block
  write_block-samples w b xs e s = ground arith

  appended-samples :
      (w : AsyncWavWriter B) (m : AudioMetadata) (xss : List (List ℕ)) (n : ℕ) (xs : List ℕ)
      → Runs header m w (bytes xss)
      → length xs ≡ n
      → 2 * (n / 2) ≡ n
      → would_overflow n w ≡ false
      → (write_samples n xs w).0 ≡ true
      → Runs header m (write_samples n xs w).1 (bytes (xss ++ xs ∷ []))
  appended-samples w m xss n xs r size whole fits done =
      subst (Runs header m (write_samples n xs w).1)
        (ap (λ k. bytes xss ++ block_bytes k xs) (sym size) ∙ sym (bytes-snoc xss xs))
        (subst (λ k. Runs header m (write_samples k xs w).1 (bytes xss ++ block_bytes k xs)) whole
          (block w (n / 2) xs r (size ∙ sym whole) (ap (λ k. would_overflow k w) whole ∙ fits)
            (ap (λ k. (write_samples k xs w).0) whole ∙ done)))

  appended-nothing :
      (w : AsyncWavWriter B) (m : AudioMetadata) (xss : List (List ℕ)) (xs : List ℕ)
      → Runs header m w (bytes xss)
      → xs ≡ []
      → Runs header m w (bytes (xss ++ xs ∷ []))
  unfolding block_bytes interleave
  appended-nothing w m xss xs r e =
      subst (Runs header m w)
        (sym (
          bytes-snoc xss xs
          ∙ ap (λ l. bytes xss ++ block_bytes (length l) l) e
          ∙ append-nil (bytes xss)))
        r

  appended :
      (w : AsyncWavWriter B) (m : AudioMetadata) (xss : List (List ℕ)) (b : AlignedBlock)
      (xs : List ℕ)
      → Runs header m w (bytes xss)
      → IsFilled b xs
      → would_overflow b.valid_len w ≡ false
      → (block_result header vol w (write_block b w)).0 ≡ true
      → Runs header m (block_result header vol w (write_block b w)).1 (bytes (xss ++ xs ∷ []))
  appended w m xss b xs r f fits done = elim (Bool-cases (b.valid_len == 0)) [
    | inl e ↦
        subst (λ o. Runs header m (block_result header vol w o).1 (bytes (xss ++ xs ∷ [])))
          (sym (write_block-empty w b e))
          (appended-nothing w m xss xs r (length-zero xs (f.size ∙ ==→eq b.valid_len 0 e)))
    | inr e ↦
        let wrote : _ = write_block-samples w b xs e f.samples in
        subst (λ o. Runs header m (block_result header vol w o).1 (bytes (xss ++ xs ∷ [])))
          (sym wrote)
          (appended-samples w m xss b.valid_len xs r f.size f.whole fits
            (ap (λ o. (block_result header vol w o).0) (sym wrote) ∙ done))
  ]

  -- The production sink keeps what the worker relies on: a part that was opened is a file with its
  -- header, blocks land behind each other, checkpoints keep them, and a finalized file states their
  -- size.
  pub uring_laws : SinkLaws (uring_sink header vol)
  unfolding create block_bytes
  uring_laws = record {
    IsHolding = IsHolding header vol;
    IsComplete = IsComplete header vol;
    fresh = λ part m w path e.
        created-opened part m (create_new_capture (u32_max + 1) ((vol.open_at) part)) w path e;
    format = λ w m xss r.
        (Runs-IsKept header m (laws.size m) (laws.fixed m) (laws.envelope m)
          (omega (arith, laws.small m)) w (bytes xss) r).format;
    fits = λ w m b xs r f. room w m b.valid_len f.small r;
    appended = appended;
    synced = λ w m xss r. checked w r;
    completed = λ w m xss r done.
        finalized_file header m (laws.size m) (laws.fixed m) (laws.envelope m)
          (omega (arith, laws.small m)) w (bytes xss) r done;
  }
