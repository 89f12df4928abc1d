-- ===== src/Recording/Disk/Parts/Processing.antt =====
-- src/recording/disk.rs: what a turn of the pool loop adds to the recording, whatever it took.
use mathlib.Core.Path.{subst}
use mathlib.Core.List.{append_assoc, append-nil}
use nam_audio_pipe.Base.{
  ℕ, ◌≡◌, refl, sym, ap, ◌∙◌, Bool, true, false, Option, none, some, List, [], ◌∷◌, ◌++◌,
}
use nam_audio_pipe.Recording.Buffer.{AlignedBlock, AudioMetadata, as_slice}
use nam_audio_pipe.Recording.Pool.{Descriptor}
use nam_audio_pipe.Recording.Disk.Intake.{Taken, empty, barrier, block, fault}
use nam_audio_pipe.Recording.Disk.Worker.{WavSink, Worker, maybe_check_space, recheck, recheck_of}
use nam_audio_pipe.Recording.Disk.Loop.{process}
use nam_audio_pipe.Recording.Disk.Parts.{
  SinkLaws, IsFilled, Files, Played, played, played_one, format_after, last_format, IsRecording,
  between, inside,
}
use nam_audio_pipe.Recording.Disk.Parts.Opening.{open_new_part-IsOpened, IsOpened-IsRecording}
use nam_audio_pipe.Recording.Disk.Parts.Writing.{rollover-IsRecording}
use nam_audio_pipe.Recording.Delivery.{Event, missed, heard, read_block}

pub played-append :
    (o : Option AudioMetadata) (es fs : List Event)
    → played o (es ++ fs) ≡ played o es ++ played (last_format o es) fs
played-append o [] fs = refl
played-append o (e ∷ es) fs =
    ap (λ l. played_one o e ++ l) (played-append (format_after o e) es fs)
    ∙ sym (append_assoc (played_one o e) (played (format_after o e) es) _)

pub last_format-append :
    (o : Option AudioMetadata) (es fs : List Event)
    → last_format o (es ++ fs) ≡ last_format (last_format o es) fs
last_format-append o [] fs = refl
last_format-append o (e ∷ es) fs = last_format-append (format_after o e) es fs

missed_nothing : (o : Option AudioMetadata) → played o (missed ∷ []) ≡ []
missed_nothing none = refl
missed_nothing (some m) = refl

pub format_nothing :
    (o : Option AudioMetadata) (m : AudioMetadata) → played o (Event.new_format m ∷ []) ≡ []
format_nothing none m = refl
format_nothing (some n) m = refl

-- A block that the worker reads is a filled one.
abbrev pub IsReadable : Taken → Type 0
IsReadable t = (d : Descriptor) (b : AlignedBlock) → t ≡ block d b → (xs : List ℕ) × IsFilled b xs

module _ {S : WavSink} where
  recheck-same :
      (m : AudioMetadata) (free : Option ℕ) (s : Worker S)
      → ((recheck m free s).wav_writer ≡ s.wav_writer)
        × ((recheck m free s).finalized ≡ s.finalized)
  recheck-same m none s = (refl, refl)
  recheck-same m (some free) s = (refl, refl)

  recheck_of-same :
      (w : Option S.Writer) (s : Worker S)
      → ((recheck_of w s).wav_writer ≡ s.wav_writer) × ((recheck_of w s).finalized ≡ s.finalized)
  recheck_of-same none s = (refl, refl)
  recheck_of-same (some w) s = recheck-same ((S.metadata) w) _ _

  pub maybe_check_space-same :
      (due : Bool) (s : Worker S)
      → ((maybe_check_space due s).wav_writer ≡ s.wav_writer)
        × ((maybe_check_space due s).finalized ≡ s.finalized)
  unfolding maybe_check_space
  maybe_check_space-same false s = (refl, refl)
  maybe_check_space-same true s = recheck_of-same s.wav_writer s

module _ {S : WavSink} {L : SinkLaws S} where
  unchanged :
      {o : Option AudioMetadata} {ps ns : List Played} (s : Worker S)
      → ns ≡ []
      → IsRecording L s o ps
      → IsRecording L s o (ps ++ ns)
  unchanged {o = o} {ps = ps} s e v =
      subst (IsRecording L s o) (sym (ap (λ n. ps ++ n) e ∙ append-nil ps)) v

  heard_block :
      {o : Option AudioMetadata} (ps : List Played) (s : Worker S) (b : AlignedBlock) (xs : List ℕ)
      → as_slice b ≡ some xs
      → IsRecording L s o (ps ++ played_one o (Event.sound xs))
      → IsRecording L s
          (last_format o (read_block (as_slice b) ∷ []))
          (ps ++ played o (read_block (as_slice b) ∷ []))
  heard_block {o = o} ps s b xs e v =
      subst
        (λ r.
          IsRecording L s (last_format o (read_block r ∷ [])) (ps ++ played o (read_block r ∷ [])))
        (sym e)
        (subst (λ l. IsRecording L s o (ps ++ l)) (sym (append-nil (played_one o (Event.sound xs))))
          v)

  pub process-IsRecording :
      {o : Option AudioMetadata} {ps : List Played} (t : Taken) (s : Worker S)
      → IsReadable t
      → IsRecording L s o ps
      → (process t s).0 ≡ true
      → IsRecording L (process t s).1 (last_format o (heard t)) (ps ++ played o (heard t))
  unfolding process
  process-IsRecording empty s r v h = unchanged s refl v
  process-IsRecording {o = o} fault s r v h = unchanged s (missed_nothing o) v
  process-IsRecording {o = o} (barrier d none) s r v h = unchanged s (missed_nothing o) v
  process-IsRecording {o = o} (barrier d (some m)) s r v h =
      unchanged (process (barrier d (some m)) s).1 (format_nothing o m)
        (IsOpened-IsRecording m (process (barrier d (some m)) s).1 (open_new_part-IsOpened m s v h))
  process-IsRecording {ps = ps} (block d b) s r v h =
      let (xs, filled) = r d b refl in
      heard_block ps (process (block d b) s).1 b xs filled.samples
        (rollover-IsRecording b xs filled s v h)

  pub same-IsRecording :
      {o : Option AudioMetadata} {ps : List Played} (s t : Worker S)
      → t.wav_writer ≡ s.wav_writer
      → t.finalized ≡ s.finalized
      → IsRecording L s o ps
      → IsRecording L t o ps
  same-IsRecording s t e f (between {ps = ps} c fs) =
      between (e ∙ c) (subst (λ l. Files L l ps) (sym f) fs)
  same-IsRecording s t e f (inside {ps = ps} w m xss c v fs) =
      inside w m xss (e ∙ c) v (subst (λ l. Files L l ps) (sym f) fs)
