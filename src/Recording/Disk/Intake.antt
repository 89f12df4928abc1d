-- ===== src/Recording/Disk/Intake.antt =====
-- src/recording/disk.rs: how the worker takes the next thing from the pool transport. A barrier is
-- resolved against the control ring by the loop of `handle_control_barrier`.
use nam_audio_pipe.Base.{
  ℕ, zero, suc, ◌+◌, ◌-◌, ◌%◌, ◌==◌, ltb, if◌then◌else◌, Option, none, some, length, u16_mod,
}
use nam_audio_pipe.Recording.Spsc.{Spsc}
use nam_audio_pipe.Recording.Buffer.{
  AlignedBlock, AudioMetadata, ControlPayload, metadata, stream_stop,
}
use nam_audio_pipe.Recording.Pool
use nam_audio_pipe.Recording.Pool.{Pool, Descriptor, is_barrier, try_pop, release}
use nam_audio_pipe.Recording.Transport.{Rings, Live}

-- The outer `none`: the fuel ran out. The inner one: the barrier had no matching metadata.
unfoldable pub match_metadata :
    (C : Spsc ControlPayload) → ℕ → ℕ → C.Ring → Option (Option AudioMetadata × C.Ring)
match_metadata C zero barrier_seq c = none
match_metadata C (suc fuel) barrier_seq c =
    let rest = match_metadata C fuel barrier_seq (C.pop c).1 in
    elim (C.peek c) [
      | none ↦ some (none, c)
      | some (metadata seq meta) ↦
          let diff = (barrier_seq + u16_mod - seq) % u16_mod in
          if diff == 0
          then elim (C.pop c).0 [
            | some (metadata s m) ↦ some (some m, (C.pop c).1)
            | _ ↦ some (none, (C.pop c).1)
          ]
          else if ltb diff 0x8000
          then rest
          else some (none, c)
      | some stream_stop ↦ some (none, c)
    ]

-- What one turn of the drain loop found in the work ring.
pub data Taken : Type 0 where
  empty : Taken
  barrier : Descriptor → Option AudioMetadata → Taken
  block : Descriptor → AlignedBlock → Taken
  -- A panic: the block's index is out of range.
  fault : Taken

module _ {R : Rings} where
  abbrev pub resolved :
      Descriptor → Live R → Option (Option AudioMetadata × (R.C).Ring) → Taken × Live R
  resolved d s none = (fault, s)
  resolved d s (some (meta, c)) = (barrier d meta, record s { control = c })

  abbrev pub fetched : Descriptor → Live R → Option AlignedBlock → Taken × Live R
  fetched d s none = (fault, s)
  fetched d s (some b) = (block d b, s)

  -- The control loop runs at most once for each queued item, and once more.
  abbrev pub resolve : Descriptor → Live R → Taken × Live R
  resolve d s =
      resolved d s
        (match_metadata R.C (suc (length ((R.C).contents s.control))) d.valid_len s.control)

  abbrev pub fetch : Descriptor → Live R → Taken × Live R
  fetch d s = fetched d s (Pool.block s.pool d)

  -- `try_pop`, then the control loop for a barrier or the read access to the block.
  unfoldable pub take_next : Live R → Taken × Live R
  take_next s =
      let popped = try_pop s.pool in
      elim popped.0 [
        | none ↦ (empty, record s { pool = popped.1 })
        | some d ↦
            if is_barrier d
            then resolve d (record s { pool = popped.1 })
            else fetch d (record s { pool = popped.1 })
      ]

  -- `in_flight.release()` at the end of the turn.
  unfoldable pub finish : Taken → Live R → Live R
  finish empty s = s
  finish fault s = s
  finish (barrier d meta) s = record s { pool = (release d s.pool).1 }
  finish (block d b) s = record s { pool = (release d s.pool).1 }
