-- ===== src/Recording/Disk/Parts/Opening.antt =====
-- src/recording/disk.rs, `open_new_part` and the finalization of the open file: no block that was
-- recorded is lost when a file ends.
use mathlib.Core.Path.{subst}
use mathlib.Core.List.{append-nil}
use nam_audio_pipe.Base.{
  ℕ, ◌%◌, ◌+◌, ◌≡◌, refl, sym, ap, ◌∙◌, Bool, true, false, Option, none, some, List, [], ◌++◌,
  u32_max,
}
use nam_audio_pipe.Recording.Buffer.{AudioMetadata}
use nam_audio_pipe.Recording.Disk.Worker.{
  WavSink, Worker, closed, taken, finalize_current, registered, next_part, open_new_part,
  publish_space_status, status_for,
}
use nam_audio_pipe.Recording.Disk.Parts.{
  SinkLaws, Played, tagged, Files, file, IsRecording, between, inside, and_then-ok,
}

module _ {S : WavSink} where
  pub finalize_current-taken :
      (s : Worker S) (o : Option S.Writer) → s.wav_writer ≡ o → finalize_current s ≡ taken o s
  unfolding finalize_current
  finalize_current-taken s o e = ap (λ w. taken w s) e

  -- A space check changes the status only.
  pub status_for-same :
      (m : AudioMetadata) (free : Option ℕ) (s : Worker S)
      → ((status_for m free s).wav_writer ≡ s.wav_writer)
        × ((status_for m free s).finalized ≡ s.finalized)
        × ((status_for m free s).part_counter ≡ s.part_counter)
        × ((status_for m free s).summary ≡ s.summary)
  status_for-same m none s = (refl, refl, refl, refl)
  status_for-same m (some free) s = (refl, refl, refl, refl)

-- A part that was opened just now, with what the closed files hold.
pub record IsOpened {S : WavSink} (L : SinkLaws S) (s : Worker S) (m : AudioMetadata)
    (ps : List Played) : Type 0 where
  pub writer : S.Writer
  pub current : s.wav_writer ≡ some writer
  pub blank : (L.IsHolding) writer m []
  pub files : Files L s.finalized ps

module _ {S : WavSink} {L : SinkLaws S} where
  closed-IsRecording :
      {ps : List Played} (s : Worker S) (m : AudioMetadata) (xss : List (List ℕ))
      (o : Bool × S.Writer)
      → Files L s.finalized ps
      → (o.0 ≡ true → (L.IsComplete) o.1 m xss)
      → (closed o s).0 ≡ true
      → IsRecording L (closed o s).1 none (ps ++ tagged m xss)
  closed-IsRecording s m xss (true, w) fs whole h = between refl (file w m xss fs (whole refl))
  closed-IsRecording s m xss (false, w) fs whole h = cc

  pub finalize_current-IsRecording :
      {o : Option AudioMetadata} {ps : List Played} (s : Worker S)
      → IsRecording L s o ps
      → (finalize_current s).0 ≡ true
      → IsRecording L (finalize_current s).1 none ps
  finalize_current-IsRecording {ps = ps} s (between e fs) h =
      subst (λ (t : Bool × Worker S). IsRecording L t.1 none ps)
        (sym (finalize_current-taken s none e)) (between e fs)
  finalize_current-IsRecording {ps = ps} s (inside w m xss e v fs) h =
      subst (λ (t : Bool × Worker S). IsRecording L t.1 none ps)
        (sym (finalize_current-taken s (some w) e))
        (closed-IsRecording s m xss ((S.finalize) w) fs ((L.completed) w m xss v)
          (ap (λ t. t.0) (sym (finalize_current-taken s (some w) e)) ∙ h))

  registered-IsOpened :
      {ps : List Played} (m : AudioMetadata) (made : Option (S.Writer × ℕ)) (s : Worker S)
      → Files L s.finalized ps
      → ((w : S.Writer) (path : ℕ) → made ≡ some (w, path) → (L.IsHolding) w m [])
      → (registered m made s).0 ≡ true
      → IsOpened L (registered m made s).1 m ps
  unfolding publish_space_status
  registered-IsOpened m none s fs holds h = cc
  registered-IsOpened {ps = ps} m (some (w, path)) s fs holds h = record {
    writer = w;
    current = refl;
    blank = holds w path refl;
    files = subst (λ l. Files L l ps) (sym (status_for-same m _ _).1) fs;
  }

  next_part-IsOpened :
      {ps : List Played} (m : AudioMetadata) (s : Worker S)
      → IsRecording L s none ps
      → (next_part m s).0 ≡ true
      → IsOpened L (next_part m s).1 m ps
  next_part-IsOpened m s (between e fs) h =
      registered-IsOpened m ((S.create) ((s.part_counter + 1) % (u32_max + 1)) m)
        (record s { part_counter = (s.part_counter + 1) % (u32_max + 1) }) fs
        (λ w path made. (L.fresh) ((s.part_counter + 1) % (u32_max + 1)) m w path made) h

  pub open_new_part-IsOpened :
      {o : Option AudioMetadata} {ps : List Played} (m : AudioMetadata) (s : Worker S)
      → IsRecording L s o ps
      → (open_new_part m s).0 ≡ true
      → IsOpened L (open_new_part m s).1 m ps
  unfolding open_new_part
  open_new_part-IsOpened {ps = ps} m s v h =
      let (done, same) = and_then-ok (finalize_current s) (next_part m) h in
      subst (λ (t : Bool × Worker S). IsOpened L t.1 m ps) (sym same)
        (next_part-IsOpened m (finalize_current s).1 (finalize_current-IsRecording s v done)
          (ap (λ t. t.0) (sym same) ∙ h))

  pub IsOpened-IsRecording :
      {ps : List Played} (m : AudioMetadata) (s : Worker S)
      → IsOpened L s m ps
      → IsRecording L s (some m) ps
  IsOpened-IsRecording {ps = ps} m s v =
      subst (IsRecording L s (some m)) (append-nil ps)
        (inside v.writer m [] v.current v.blank v.files)
