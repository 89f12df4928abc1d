-- ===== src/Recording/Disk/Loop.antt =====
-- src/recording/disk.rs: the two drain loops and what stands around them. A turn of a loop is one
-- step of the fuel. What the producer threads do in between is a parameter, and so are the clock and
-- the writes to the hint flag, which carry no decision, left out.
use nam_audio_pipe.Base.{
  ℕ, zero, suc, ◌+◌, ◌==◌, ◌&&◌, if◌then◌else◌, Bool, true, false, Option, none, some, length,
}
use nam_audio_pipe.Recording.Spsc.{Spsc}
use nam_audio_pipe.Recording.Buffer.{
  ControlPayload, metadata, stream_stop, RingPayload, audio, format, stop,
}
use nam_audio_pipe.Recording.Pool.{leak}
use nam_audio_pipe.Recording.Transport.{Rings, Live, is_fully_drained}
use nam_audio_pipe.Recording.Disk.Intake.{Taken, empty, barrier, block, fault, take_next, finish}
use nam_audio_pipe.Recording.Disk.Worker.{
  WavSink, Worker, finalize_current, open_new_part, write_block_with_overflow_rollover,
  maybe_check_space,
}

-- What the producers did when the worker looks at the rings in turn `i`: before the pool is polled,
-- and between that and the control ring. The flags say that the producer ends were dropped (the
-- first one that of the single ring of the inline loop), the clock that the space check is due.
pub record Producers (A : Type 0) : Type 0 where
  pub before_turn : ℕ → A → A
  pub before_control : ℕ → A → A
  pub control_abandoned : ℕ → Bool
  pub work_abandoned : ℕ → Bool
  pub space_check_due : ℕ → Bool

pub data Ended (A : Type 0) (S : WavSink) : Type 0 where
  -- The loop's result, `false` for an error, with the rings and the locals that it leaves.
  returned : Bool → A → Worker S → Ended A S
  panicked : Ended A S
  out_of_fuel : Ended A S

-- The `?` behind a call in a loop, and the rest of the loop.
abbrev pub proceed :
    {A : Type 0} {S : WavSink} → A → Bool × Worker S → (Worker S → Ended A S) → Ended A S
proceed a (true, w) rest = rest w
proceed a (false, w) rest = returned false a w

-- The block in flight behind an error: it is dropped unreleased, which counts a lost slot.
abbrev pub dropped : {R : Rings} → Live R → Live R
dropped t = record t { pool = leak t.pool }

-- The terminal drain of the control ring.
unfoldable pub discard_control : (C : Spsc ControlPayload) → ℕ → C.Ring → Option C.Ring
discard_control C zero c = none
discard_control C (suc fuel) c = elim (C.pop c).0 [
  | none ↦ some (C.pop c).1
  | some x ↦ discard_control C fuel (C.pop c).1
]

module _ {S : WavSink} where
  -- What a turn does with the thing that it took: `handle_control_barrier` behind its own loop, or
  -- the write of a block.
  unfoldable pub process : Taken → Worker S → Bool × Worker S
  process empty w = (true, w)
  process fault w = (true, w)
  process (barrier d none) w = (true, w)
  process (barrier d (some meta)) w = open_new_part meta w
  process (block d b) w = write_block_with_overflow_rollover b w

  module _ {R : Rings} where
    abbrev pub drained :
        Worker S
        → (Live R → Worker S → Ended (Live R) S)
        → (Live R → Worker S → Ended (Live R) S)
        → Taken × Live R
        → Ended (Live R) S
    drained w rest again (empty, t) = rest t w
    drained w rest again (fault, t) = panicked
    drained w rest again (barrier d m, t) =
        proceed (dropped t) (process (barrier d m) w) (again (finish (barrier d m) t))
    drained w rest again (block d b, t) =
        proceed (dropped t) (process (block d b) w) (again (finish (block d b) t))

    -- The terminal drain of the pool.
    unfoldable pub drain_pool :
        ℕ → (Live R → Worker S → Ended (Live R) S) → Live R → Worker S → Ended (Live R) S
    drain_pool zero rest s w = out_of_fuel
    drain_pool (suc fuel) rest s w = drained w rest (drain_pool fuel rest) (take_next s)

  -- The end of both terminal paths: the open file is finalized. The summary is a log line.
  abbrev pub conclude : {A : Type 0} → A → Worker S → Ended A S
  conclude a w = returned (finalize_current w).0 a (finalize_current w).1

  module _ {R : Rings} where
    abbrev pub concluded : Live R → Worker S → Option (R.C).Ring → Ended (Live R) S
    concluded s w none = out_of_fuel
    concluded s w (some c) = conclude (record s { control = c }) w

    -- The arm of `StreamStop`.
    unfoldable pub stop_pool : ℕ → Live R → Worker S → Ended (Live R) S
    stop_pool fuel s w =
        drain_pool fuel (λ t v. concluded t v (discard_control R.C fuel t.control))
          (record s { control = ((R.C).pop s.control).1 }) w

    -- The terminal condition (2) and the idle poll.
    abbrev pub drained_or_idle :
        Producers (Live R)
        → ℕ
        → Live R
        → Worker S
        → (Live R → Worker S → Ended (Live R) S)
        → Ended (Live R) S
    drained_or_idle env i s w rest =
        if is_fully_drained (env.control_abandoned i) (env.work_abandoned i) s
        then conclude s w
        else rest s (maybe_check_space (env.space_check_due i) w)

    -- By what `control.peek()` found behind an empty pool.
    abbrev pub peeked :
        ℕ
        → Producers (Live R)
        → ℕ
        → Live R
        → Worker S
        → (Live R → Worker S → Ended (Live R) S)
        → Option ControlPayload
        → Ended (Live R) S
    peeked fuel env i s w rest none = drained_or_idle env i s w rest
    peeked fuel env i s w rest (some stream_stop) = stop_pool fuel s w
    peeked fuel env i s w rest (some (metadata seq meta)) =
        if env.work_abandoned i && env.control_abandoned i
        then rest (record s { control = ((R.C).pop s.control).1 }) w
        else drained_or_idle env i s w rest

    -- By what `pool.try_pop()` found.
    abbrev pub polled :
        ℕ
        → Producers (Live R)
        → ℕ
        → Worker S
        → (Live R → Worker S → Ended (Live R) S)
        → Taken × Live R
        → Ended (Live R) S
    polled fuel env i w rest (empty, t) =
        let s = (env.before_control) i t in peeked fuel env i s w rest ((R.C).peek s.control)
    polled fuel env i w rest (fault, t) = panicked
    polled fuel env i w rest (barrier d m, t) =
        proceed (dropped t) (process (barrier d m) w) (rest (finish (barrier d m) t))
    polled fuel env i w rest (block d b, t) =
        proceed (dropped t) (process (block d b) w) (rest (finish (block d b) t))

    unfoldable pub disk_writer_loop_pool :
        ℕ → Producers (Live R) → ℕ → Live R → Worker S → Ended (Live R) S
    disk_writer_loop_pool zero env i s w = out_of_fuel
    disk_writer_loop_pool (suc fuel) env i s w =
        polled (suc fuel) env i w (disk_writer_loop_pool fuel env (i + 1))
          (take_next ((env.before_turn) i s))

  module _ (I : Spsc RingPayload) where
    -- By what `consumer.pop()` found, and the ring behind it.
    abbrev pub picked :
        Producers I.Ring
        → ℕ
        → Worker S
        → (I.Ring → Worker S → Ended I.Ring S)
        → Option RingPayload × I.Ring
        → Ended I.Ring S
    picked env i w rest (some (format meta), r) = proceed r (open_new_part meta w) (rest r)
    picked env i w rest (some (audio b), r) =
        proceed r (write_block_with_overflow_rollover b w) (rest r)
    picked env i w rest (some stop, r) = conclude r w
    picked env i w rest (none, r) =
        if env.control_abandoned i && length (I.contents r) == 0
        then conclude r w
        else rest r (maybe_check_space (env.space_check_due i) w)

    unfoldable pub disk_writer_loop_inline :
        ℕ → Producers I.Ring → ℕ → I.Ring → Worker S → Ended I.Ring S
    disk_writer_loop_inline zero env i r w = out_of_fuel
    disk_writer_loop_inline (suc fuel) env i r w =
        picked env i w (disk_writer_loop_inline fuel env (i + 1)) (I.pop ((env.before_turn) i r))
