-- ===== src/Recording/Capture.antt =====
-- The recording as a whole: src/recording/transport.rs, the worker of src/recording/disk.rs, its
-- production sink and the files that it writes.
use nam_audio_pipe.Base.{ℕ, ◌+◌, ◌<◌, ◌≡◌, none, some, length, List, Option, arith}
use nam_audio_pipe.Recording.Io.{WriteAt}
use nam_audio_pipe.Recording.Status.{Observed}
use nam_audio_pipe.Recording.Transport.{Rings, Live, create_recording_transport}
use nam_audio_pipe.Recording.Buffer.{AudioMetadata}
use nam_audio_pipe.Recording.Wav.Building.{build_wav_header}
use nam_audio_pipe.Recording.Wav.Building.Sizes.{HoundLaws, build_wav_header-AreStated}
use nam_audio_pipe.Recording.Wav.Sink.{Volume, HeaderLaws, uring_sink, uring_laws}
use nam_audio_pipe.Recording.Disk.Loop.{Producers, disk_writer_loop_pool}
use nam_audio_pipe.Recording.Disk.Parts.{played}
use nam_audio_pipe.Recording.Disk.Session.{Session, started, Reaches}
use nam_audio_pipe.Recording.Disk.Session.Racing.{LastCalls}
use nam_audio_pipe.Recording.Disk.Entry.{Answer, published}
use nam_audio_pipe.Recording.Disk.Entry.Reported.{IsAccounted, flagged_or_complete}
use nam_audio_pipe.Recording.Delivery.{Link}
use nam_audio_pipe.Recording.Delivery.Arrival.{opened}

-- The headers of `build_wav_header` are what the sink relies on.
pub header_laws :
    {empty_header : AudioMetadata → Option (List ℕ)}
    → HoundLaws empty_header
    → HeaderLaws (build_wav_header empty_header)
header_laws laws = record {
  size = laws.size;
  fixed = λ m n h e. (build_wav_header-AreStated laws m n h e).total;
  envelope = λ m. omega (arith, laws.envelope m);
  small = laws.small;
}

module _ {R : Rings} {B : WriteAt} (empty_header : AudioMetadata → Option (List ℕ))
    (laws : HoundLaws empty_header) (vol : Volume B) where
  -- For the production sink over any backend that does what `WriteAt` documents, with the headers of
  -- `build_wav_header` over hound's: from a transport that `create_recording_transport` built and a
  -- worker that has just started, after any interleaving of the RT thread's calls with turns of the
  -- worker that went well, the last calls with the stop token are in before the turn, or race into it
  -- behind its look at an empty pool, and nobody sends any more. Then the worker publishes a result
  -- within two turns more than the work ring then holds items. It is an error, and then the failure
  -- flag is raised; or it is `Ok`, and then the closed files, each of them the header for the size of
  -- its data followed by that data, hold together exactly the blocks that the calls accepted behind
  -- the first format, in order, each in a file of the format announced last before it.
  pub capture_on_disk :
      (fuel i reason : ℕ) (answer : Answer) (env : Producers (Live R)) (live : Live R)
      (status : Observed) (s : Session R (uring_sink (build_wav_header empty_header) vol))
      (l : Link R)
      → create_recording_transport ≡ some live
      → Reaches (record { link = opened live; worker = started status }) s
      → ((j : ℕ) (t : Live R) → (env.before_turn) j t ≡ t)
      → LastCalls env i s l
      → length ((R.W).contents l.live.pool.work) + 1 < fuel
      → IsAccounted
          (uring_laws (build_wav_header empty_header) vol (header_laws laws))
          (played none l.accepted)
          (published reason answer (disk_writer_loop_pool fuel env i s.link.live s.worker))
  capture_on_disk fuel i reason answer env live status s l made r still calls enough =
      flagged_or_complete (uring_laws (build_wav_header empty_header) vol (header_laws laws)) fuel i
        reason answer env live status s l made r still calls enough
