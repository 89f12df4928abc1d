-- ===== src/Recording/Disk/Session/Agreement.antt =====
-- src/recording/disk.rs: the pool loop and the inline loop, which records over the rollback transport,
-- of one sequence of events.
use nam_audio_pipe.Base.{ℕ, ◌+◌, ◌<◌, ◌≡◌, none, some, List, length}
use nam_audio_pipe.Recording.Spsc.{Spsc}
use nam_audio_pipe.Recording.Buffer.{RingPayload}
use nam_audio_pipe.Recording.Status.{Observed}
use nam_audio_pipe.Recording.Transport.{Rings, Live, create_recording_transport}
use nam_audio_pipe.Recording.Disk.Worker.{WavSink}
use nam_audio_pipe.Recording.Disk.Loop.{Producers, disk_writer_loop_pool, disk_writer_loop_inline}
use nam_audio_pipe.Recording.Disk.Parts.{SinkLaws, played}
use nam_audio_pipe.Recording.Disk.Parts.Ending.{IsConcluded}
use nam_audio_pipe.Recording.Disk.Session.{Session, started, Reaches}
use nam_audio_pipe.Recording.Disk.Session.Racing.{LastCalls, stop_completes}
use nam_audio_pipe.Recording.Disk.Session.Inline.{IsCarrying, inline_completes}
use nam_audio_pipe.Recording.Delivery.{Link}
use nam_audio_pipe.Recording.Delivery.Arrival.{opened}

module _ {R : Rings} {S : WavSink} (L : SinkLaws S) where
  -- Take the pool loop at the end of a recording, with the last calls in or racing into its turn, and
  -- an inline loop that has just started on a ring that holds what those calls accepted and behind it
  -- the stop token, to which nobody adds. With enough turns, each of the two loops either returns an
  -- error, or it returns with no file open and with finalized files that hold the same blocks in the
  -- same formats: those that were accepted behind the first format, in order.
  pub transports_agree :
      (fuel i : ℕ) (env : Producers (Live R)) (live : Live R) (status : Observed) (s : Session R S)
      (l : Link R) (I : Spsc RingPayload) (inline_env : Producers I.Ring) (turns : ℕ) (r : I.Ring)
      {rs : List RingPayload}
      → create_recording_transport ≡ some live
      → Reaches (record { link = opened live; worker = started status }) s
      → ((j : ℕ) (t : Live R) → (env.before_turn) j t ≡ t)
      → LastCalls env i s l
      → length ((R.W).contents l.live.pool.work) + 1 < fuel
      → ((j : ℕ) (t : I.Ring) → (inline_env.before_turn) j t ≡ t)
      → IsCarrying rs l.accepted
      → I.contents r ≡ rs
      → length l.accepted < turns
      → IsConcluded L
          (played none l.accepted)
          (disk_writer_loop_pool fuel env i s.link.live s.worker)
        × IsConcluded L
            (played none l.accepted)
            (disk_writer_loop_inline I turns inline_env 0 r (started {S = S} status))
  transports_agree fuel i env live status s l I inline_env turns r made reached still calls enough
        quiet carried held more =
      (
        stop_completes {L = L} fuel i env live status s l made reached still calls enough,
        inline_completes {L = L} I inline_env quiet turns r status carried held more,
      )
