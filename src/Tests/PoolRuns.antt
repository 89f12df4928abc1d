-- ===== src/Tests/PoolRuns.antt =====
-- src/recording/pool.rs and src/recording/buffer.rs: a pool of two slots at work.
use nam_audio_pipe.Base.{
  ℕ, ◌+◌, ◌<◌, ◌≡◌, refl, true, none, some, [], ◌∷◌, arith, sum_by, replicate,
}
use nam_audio_pipe.Recording.Spsc.{bounded}
use nam_audio_pipe.Recording.Buffer.{AlignedBlock, new_uninit, max_block_size, control_capacity}
use nam_audio_pipe.Recording.Pool
use nam_audio_pipe.Recording.Pool.{
  Pool, Descriptor, try_acquire, fill_slot, publish, try_pop, release, control_barrier_slot,
}
use nam_audio_pipe.Recording.Pool.Session.{
  Session, Reach, here, next, acquire, publish_slot, pop, start, lose, places, in_flight, only,
  held, held_block,
}
use nam_audio_pipe.Recording.Pool.Protocol.{
  exactly_once, try_acquire_exclusive, release_infallible, publish_infallible,
}

abbrev Slots : Type 0
Slots = Pool (bounded ℕ) (bounded Descriptor)

-- What `new` builds for two slots.
abbrev two_slots : Slots
two_slots = record {
  slots = replicate 2 (new_uninit max_block_size);
  slot_leaks = 0;
  work = record { items = []; limit = 2 + control_capacity };
  free = record { items = 0 ∷ 1 ∷ []; limit = 2 };
}

two_slots_made : Pool.new 2 ≡ some two_slots
unfolding Pool.new
two_slots_made = refl

-- The RT thread holds slot 0.
abbrev holding : Session (bounded ℕ) (bounded Descriptor)
holding = record (start two_slots) { pool = (try_acquire two_slots).1; rt = some 0 }

holding_runs : Reach (start two_slots) holding
unfolding try_acquire
holding_runs = next here (acquire (start two_slots) 0 refl refl)

exactly_once_example : places 0 holding ≡ 1
exactly_once_example =
    exactly_once 2 two_slots holding (omega arith) (omega arith) two_slots_made holding_runs 0

publish_infallible_example : (publish 0 holding.pool).0 ≡ true
unfolding try_acquire
publish_infallible_example =
    publish_infallible 2 two_slots holding (omega arith) (omega arith) two_slots_made holding_runs 0
      refl (omega arith)

try_acquire_exclusive_example :
    (1 < 2)
    × (in_flight (only 1) [] ≡ 0)
    × (held_block (only 1) holding.io ≡ 0)
    × (held (only 1) holding.rt ≡ 0)
    × (sum_by (only 1) [] ≡ 0)
unfolding try_acquire
try_acquire_exclusive_example =
    try_acquire_exclusive 2 two_slots holding (omega arith) (omega arith) two_slots_made
      holding_runs 1 refl

-- The slot went through the work ring, and the I/O thread holds its block.
abbrev sent : Session (bounded ℕ) (bounded Descriptor)
sent = record holding {
  pool = (publish 0 holding.pool).1;
  rt = none;
  lost = lose (publish 0 holding.pool).0 0 [];
}

abbrev block_zero : Descriptor
block_zero = record { slot = 0; valid_len = 0 }

abbrev reading : Session (bounded ℕ) (bounded Descriptor)
reading = record sent { pool = (try_pop sent.pool).1; io = some block_zero }

reading_runs : Reach (start two_slots) reading
unfolding try_acquire publish try_pop new_uninit
reading_runs =
    next (next holding_runs (publish_slot holding 0 refl)) (pop sent block_zero refl refl)

release_infallible_example : (release block_zero reading.pool).0 ≡ true
release_infallible_example =
    release_infallible 2 two_slots reading (omega arith) (omega arith) two_slots_made reading_runs
      block_zero refl

-- Two frames in a block of eight places.
abbrev small_block : AlignedBlock
small_block = new_uninit 8
