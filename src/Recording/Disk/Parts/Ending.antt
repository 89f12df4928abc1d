-- ===== src/Recording/Disk/Parts/Ending.antt =====
-- src/recording/disk.rs: how a drain loop ends.
use nam_audio_pipe.Base.{◌≡◌, refl, Bool, true, false, Option, none, List}
use nam_audio_pipe.Recording.Buffer.{AudioMetadata}
use nam_audio_pipe.Recording.Disk.Worker.{WavSink, Worker, finalize_current}
use nam_audio_pipe.Recording.Disk.Loop.{Ended, returned, proceed, conclude}
use nam_audio_pipe.Recording.Disk.Parts.{SinkLaws, Played, Files, IsRecording, between}
use nam_audio_pipe.Recording.Disk.Parts.Opening.{finalize_current-IsRecording}

-- How a recording ends: with everything in finalized files, or with an error.
pub data IsConcluded {A : Type 0} {S : WavSink} (L : SinkLaws S) (ps : List Played)
    : Ended A S → Type 0 where
  complete :
      (s : A) (w : Worker S)
      → w.wav_writer ≡ none
      → Files L w.finalized ps
      → IsConcluded L ps (returned true s w)
  aborted : (s : A) (w : Worker S) → IsConcluded L ps (returned false s w)

nothing_open :
    {S : WavSink} {L : SinkLaws S} {ps : List Played} (w : Worker S)
    → IsRecording L w none ps
    → (w.wav_writer ≡ none) × Files L w.finalized ps
nothing_open w (between e fs) = (e, fs)

pub proceed-true :
    {A : Type 0} {S : WavSink} (a : A) (o : Bool × Worker S) (rest : Worker S → Ended A S)
    → o.0 ≡ true
    → proceed a o rest ≡ rest o.1
proceed-true a (true, w) rest h = refl
proceed-true a (false, w) rest h = cc

pub proceed-false :
    {A : Type 0} {S : WavSink} (a : A) (o : Bool × Worker S) (rest : Worker S → Ended A S)
    → o.0 ≡ false
    → proceed a o rest ≡ returned false a o.1
proceed-false a (true, w) rest h = cc
proceed-false a (false, w) rest h = refl

module _ {A : Type 0} {S : WavSink} {L : SinkLaws S} where
  closing :
      {ps : List Played} (s : A) (o : Bool × Worker S)
      → (o.0 ≡ true → IsRecording L o.1 none ps)
      → IsConcluded L ps (returned o.0 s o.1)
  closing s (true, w) v = complete s w (nothing_open w (v refl)).0 (nothing_open w (v refl)).1
  closing s (false, w) v = aborted s w

  pub conclude-IsConcluded :
      {o : Option AudioMetadata} {ps : List Played} (s : A) (w : Worker S)
      → IsRecording L w o ps
      → IsConcluded L ps (conclude s w)
  conclude-IsConcluded s w v =
      closing s (finalize_current w) (λ h. finalize_current-IsRecording w v h)
