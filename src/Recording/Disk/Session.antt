-- ===== src/Recording/Disk/Session.antt =====
-- src/recording/disk.rs together with src/recording/transport.rs: the turns of the worker's pool loop
-- between the calls of the RT thread, in every order.
pub mod Reading
pub mod Recorded
pub mod Draining
pub mod Stopping
pub mod Racing
pub mod Inline
pub mod Agreement
use nam_audio_pipe.Base.{ℕ, ◌≡◌, Bool, true, none, some, List, [], ◌++◌}
use nam_audio_pipe.Recording.Status.{Observed}
use nam_audio_pipe.Recording.Transport.{Rings, Live}
use nam_audio_pipe.Recording.Disk.Intake.{take_next, finish}
use nam_audio_pipe.Recording.Disk.Worker.{WavSink, Worker, maybe_check_space}
use nam_audio_pipe.Recording.Disk.Loop.{process}
use nam_audio_pipe.Recording.Delivery.{Link, Call, heard}

pub record Session (R : Rings) (S : WavSink) : Type 0 where
  pub link : Link R
  pub worker : Worker S

-- The locals at the start of a loop.
abbrev pub started : {S : WavSink} → Observed → Worker S
started status = record {
  wav_writer = none;
  part_counter = 0;
  status = status;
  summary = record { segments = [] };
  finalized = [];
  probes = 0;
}

abbrev pub received : {R : Rings} → Link R → Link R
received l = record l {
  live = finish (take_next l.live).0 (take_next l.live).1;
  delivered = l.delivered ++ heard (take_next l.live).0;
}

-- Calls of the RT thread.
pub data Sends {R : Rings} (l : Link R) : Link R → Type 0 where
  none_sent : Sends l l
  sent : {m k : Link R} → Sends l m → Call m k → k.delivered ≡ m.delivered → Sends l k

pub data Step {R : Rings} {S : WavSink} : Session R S → Session R S → Type 0 where
  -- A call of the RT thread, or a look at a pool with nothing in it.
  rt_call :
      (s : Session R S) (l : Link R)
      → Call s.link l
      → l.delivered ≡ s.link.delivered
      → Step s (record s { link = l })
  -- A turn that went well: what was taken is processed and released.
  turn :
      (s : Session R S)
      → (process (take_next s.link.live).0 s.worker).0 ≡ true
      → Step s (record s {
        link = received s.link;
        worker = (process (take_next s.link.live).0 s.worker).1;
      })
  idle :
      (s : Session R S) (due : Bool) → Step s (record s { worker = maybe_check_space due s.worker })

pub data Reaches {R : Rings} {S : WavSink} (s : Session R S) : Session R S → Type 0 where
  here : Reaches s s
  next : {t u : Session R S} → Reaches s t → Step t u → Reaches s u
