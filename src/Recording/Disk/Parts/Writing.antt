-- ===== src/Recording/Disk/Parts/Writing.antt =====
-- src/recording/disk.rs, `write_block_with_overflow_rollover`: a block lands behind the blocks before
-- it, in the open file or in the one that the rollover opens.
use mathlib.Core.Path.{subst}
use mathlib.Core.List.{append_assoc, append-nil}
use nam_audio_pipe.Base.{
  ℕ, ◌≡◌, refl, sym, ap, ◌∙◌, Bool, true, false, inl, inr, Option, none, some, List, [], ◌∷◌, ◌++◌,
  Bool-cases,
}
use nam_audio_pipe.Recording.Buffer.{AlignedBlock, AudioMetadata}
use nam_audio_pipe.Recording.Delivery.{sound}
use nam_audio_pipe.Recording.Disk.Worker.{
  WavSink, Worker, written, write_to, write_current, rolled, write_block_with_overflow_rollover,
  open_new_part,
}
use nam_audio_pipe.Recording.Disk.Parts.{
  SinkLaws, IsFilled, Played, tagged, played_one, Files, IsRecording, between, inside, and_then-ok,
  tagged-snoc,
}
use nam_audio_pipe.Recording.Disk.Parts.Opening.{IsOpened, open_new_part-IsOpened}

module _ {S : WavSink} (b : AlignedBlock) where
  write_current-write_to :
      (s : Worker S) (o : Option S.Writer) → s.wav_writer ≡ o → write_current b s ≡ write_to o b s
  unfolding write_current
  write_current-write_to s o e = ap (λ w. write_to w b s) e

  rollover-rolled :
      (s : Worker S) (o : Option S.Writer)
      → s.wav_writer ≡ o
      → write_block_with_overflow_rollover b s ≡ rolled o b s
  unfolding write_block_with_overflow_rollover
  rollover-rolled s o e = ap (λ w. rolled w b s) e

module _ {S : WavSink} {L : SinkLaws S} (b : AlignedBlock) (xs : List ℕ)
    (filled : IsFilled b xs) where
  -- One more block in the open file.
  longer :
      {ps : List Played} (s : Worker S) (w : S.Writer) (m : AudioMetadata) (xss : List (List ℕ))
      → s.wav_writer ≡ some w
      → (L.IsHolding) w m (xss ++ xs ∷ [])
      → Files L s.finalized ps
      → IsRecording L s (some m) ((ps ++ tagged m xss) ++ played_one (some m) (sound xs))
  longer {ps = ps} s w m xss e v fs =
      subst (IsRecording L s (some m))
        (ap (λ t. ps ++ t) (tagged-snoc m xss xs)
          ∙ sym (append_assoc ps (tagged m xss) ((m, xs) ∷ [])))
        (inside w m (xss ++ xs ∷ []) e v fs)

  written-IsRecording :
      {ps : List Played} (s : Worker S) (m : AudioMetadata) (xss : List (List ℕ))
      (o : Bool × S.Writer)
      → (o.0 ≡ true → (L.IsHolding) o.1 m (xss ++ xs ∷ []))
      → Files L s.finalized ps
      → (written b o s).0 ≡ true
      → IsRecording L
          (written b o s).1
          (some m)
          ((ps ++ tagged m xss) ++ played_one (some m) (sound xs))
  written-IsRecording s m xss (false, w) v fs h = cc
  written-IsRecording s m xss (true, w) v fs h = elim (Bool-cases ((S.checkpoint_due) w)) [
    | inl e ↦
        rw e
          (longer _ ((S.checkpoint) w).1 m xss refl ((L.synced) w m (xss ++ xs ∷ []) (v refl)) fs)
    | inr e ↦ rw e (longer _ w m xss refl (v refl) fs)
  ]

  -- The write into the open file, which has room.
  write_inside :
      {ps : List Played} (s : Worker S) (w : S.Writer) (m : AudioMetadata) (xss : List (List ℕ))
      → s.wav_writer ≡ some w
      → (L.IsHolding) w m xss
      → Files L s.finalized ps
      → (S.would_overflow) b.valid_len w ≡ false
      → (write_current b s).0 ≡ true
      → IsRecording L
          (write_current b s).1
          (some m)
          ((ps ++ tagged m xss) ++ played_one (some m) (sound xs))
  write_inside {ps = ps} s w m xss e v fs room h =
      let same : _ = write_current-write_to b s (some w) e in
      subst
        (λ (t : Bool × Worker S).
          IsRecording L t.1 (some m) ((ps ++ tagged m xss) ++ played_one (some m) (sound xs)))
        (sym same)
        (written-IsRecording s m xss ((S.write_block) b w) ((L.appended) w m xss b xs v filled room)
          fs (ap (λ t. t.0) (sym same) ∙ h))

  -- The write into the part that the rollover has opened.
  write_opened :
      {ps : List Played} (s : Worker S) (m : AudioMetadata)
      → IsOpened L s m ps
      → (write_current b s).0 ≡ true
      → IsRecording L (write_current b s).1 (some m) (ps ++ played_one (some m) (sound xs))
  write_opened {ps = ps} s m v h =
      subst
        (λ l. IsRecording L (write_current b s).1 (some m) (l ++ played_one (some m) (sound xs)))
        (append-nil ps)
        (write_inside s v.writer m [] v.current v.blank v.files
          ((L.fits) v.writer m b xs v.blank filled) h)

  rolled-IsRecording :
      {ps : List Played} (s : Worker S) (w : S.Writer) (m : AudioMetadata) (xss : List (List ℕ))
      → s.wav_writer ≡ some w
      → (L.IsHolding) w m xss
      → Files L s.finalized ps
      → (rolled (some w) b s).0 ≡ true
      → IsRecording L
          (rolled (some w) b s).1
          (some m)
          ((ps ++ tagged m xss) ++ played_one (some m) (sound xs))
  rolled-IsRecording {ps = ps} s w m xss e v fs h =
      elim (Bool-cases ((S.would_overflow) b.valid_len w)) [
        | inr room ↦ rw room (write_inside s w m xss e v fs room (rw room at h))
        | inl over ↦
            let (done, same) =
              and_then-ok (open_new_part ((S.metadata) w) s) (write_current b) (rw over at h) in
            let opened : IsOpened L (open_new_part ((S.metadata) w) s).1 m (ps ++ tagged m xss) =
              subst (λ n. IsOpened L (open_new_part ((S.metadata) w) s).1 n (ps ++ tagged m xss))
                ((L.format) w m xss v)
                (open_new_part-IsOpened ((S.metadata) w) s (inside w m xss e v fs) done) in
            rw over (
              subst
                (λ (t : Bool × Worker S).
                  IsRecording L t.1 (some m)
                    ((ps ++ tagged m xss) ++ played_one (some m) (sound xs)))
                (sym same)
                (write_opened (open_new_part ((S.metadata) w) s).1 m opened
                  (ap (λ t. t.0) (sym same) ∙ rw over at h)))
      ]

  pub rollover-IsRecording :
      {o : Option AudioMetadata} {ps : List Played} (s : Worker S)
      → IsRecording L s o ps
      → (write_block_with_overflow_rollover b s).0 ≡ true
      → IsRecording L (write_block_with_overflow_rollover b s).1 o (ps ++ played_one o (sound xs))
  rollover-IsRecording {ps = ps} s (between e fs) h =
      let idle : write_block_with_overflow_rollover b s ≡ (true, s) =
        rollover-rolled b s none e ∙ write_current-write_to b s none e in
      subst (λ (t : Bool × Worker S). IsRecording L t.1 none (ps ++ [])) (sym idle)
        (subst (IsRecording L s none) (sym (append-nil ps)) (between e fs))
  rollover-IsRecording s (inside {ps = ps} w m xss e v fs) h =
      let same : _ = rollover-rolled b s (some w) e in
      subst
        (λ (t : Bool × Worker S).
          IsRecording L t.1 (some m) ((ps ++ tagged m xss) ++ played_one (some m) (sound xs)))
        (sym same) (rolled-IsRecording s w m xss e v fs (ap (λ t. t.0) (sym same) ∙ h))
