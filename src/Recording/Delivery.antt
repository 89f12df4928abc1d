-- ===== src/Recording/Delivery.antt =====
-- src/recording/transport.rs and the intake of src/recording/disk.rs together: what the RT thread's
-- calls accepted, and what the worker took out, over every order of the two threads' calls.
pub mod Queued
pub mod Sending
pub mod Format
pub mod Receiving
pub mod Order
pub mod Arrival
use nam_audio_pipe.Base.{
  ℕ, ◌≡◌, Bool, true, false, Option, none, some, List, [], ◌∷◌, ◌++◌, take, length,
}
use nam_audio_pipe.Recording.Spsc.{Spsc}
use nam_audio_pipe.Recording.Buffer.{
  AlignedBlock, AudioMetadata, ControlPayload, metadata, stream_stop, fill_frames, max_block_size,
  as_slice,
}
use nam_audio_pipe.Recording.Pool.{Pool, Descriptor}
use nam_audio_pipe.Recording.Transport.{Rings, Live, push_metadata, push_audio}
use nam_audio_pipe.Recording.Disk.Intake.{Taken, empty, barrier, block, fault, take_next, finish}

-- `sound` carries the valid region of a block; `missed` stands for a barrier without its metadata,
-- for a read of unwritten places and for a panic of the intake.
pub data Event : Type 0 where
  sound : List ℕ → Event
  new_format : AudioMetadata → Event
  missed : Event

-- The samples of an audio call that reach the block: both channels cut to the same frames.
abbrev pub kept : List ℕ → List ℕ → List ℕ
kept left right =
    take (fill_frames max_block_size left right) left
    ++ take (fill_frames max_block_size left right) right

abbrev pub read_block : Option (List ℕ) → Event
read_block none = missed
read_block (some xs) = sound xs

abbrev pub heard : Taken → List Event
heard empty = []
heard fault = missed ∷ []
heard (barrier d none) = missed ∷ []
heard (barrier d (some m)) = new_format m ∷ []
heard (block d b) = read_block (as_slice b) ∷ []

abbrev pub note : Bool → Event → List Event → List Event
note true e log = log ++ e ∷ []
note false e log = log

pub record Link (R : Rings) : Type 0 where
  pub live : Live R
  -- The terminal token was accepted: the RT loop has stopped before it is sent.
  pub stopped : Bool
  pub accepted : List Event
  pub delivered : List Event

pub data Call {R : Rings} : Link R → Link R → Type 0 where
  send_format :
      (l : Link R) (m : AudioMetadata)
      → l.stopped ≡ false
      → Call l (record l {
        live = (push_metadata m l.live).1;
        accepted = note (push_metadata m l.live).0 (new_format m) l.accepted;
      })
  send_sound :
      (l : Link R) (left right : List ℕ)
      → l.stopped ≡ false
      → Call l (record l {
        live = record (l.live) { pool = (push_audio left right l.live.pool).1 };
        accepted = note (push_audio left right l.live.pool).0 (sound (kept left right)) l.accepted;
      })
  send_stop :
      (l : Link R)
      → l.stopped ≡ false
      → Call l (record l {
        live = record (l.live) { control = ((R.C).push l.live.control stream_stop).1 };
        stopped = ((R.C).push l.live.control stream_stop).0;
      })
  receive :
      (l : Link R)
      → Call l (record l {
        live = finish (take_next l.live).0 (take_next l.live).1;
        delivered = l.delivered ++ heard (take_next l.live).0;
      })

pub data Runs {R : Rings} (l : Link R) : Link R → Type 0 where
  here : Runs l l
  next : {t u : Link R} → Runs l t → Call t u → Runs l u
