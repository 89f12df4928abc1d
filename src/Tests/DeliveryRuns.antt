-- ===== src/Tests/DeliveryRuns.antt =====
-- src/recording/transport.rs with the worker's intake: a block and a format change on their way.
use nam_audio_pipe.Base.{
  ℕ, ◌+◌, ◌≡◌, refl, true, none, some, List, [], ◌∷◌, ◌++◌, length, ltb, replicate, range,
}
use nam_audio_pipe.Recording.Spsc.{bounded}
use nam_audio_pipe.Recording.Buffer.{
  AudioMetadata, ControlPayload, RingPayload, new_uninit, fill_planar, max_block_size,
  control_capacity,
}
use nam_audio_pipe.Recording.Pool
use nam_audio_pipe.Recording.Pool.{Pool, Descriptor, pool_capacity, work_is_empty}
use nam_audio_pipe.Recording.Transport.{
  Rings, Live, push_audio, push_metadata, create_recording_transport, is_fully_drained,
}
use nam_audio_pipe.Recording.Disk.Intake.{take_next, finish, match_metadata}
use nam_audio_pipe.Recording.Delivery.{
  Event, sound, new_format, heard, kept, note, Link, send_format, send_sound, receive, Runs, here,
  next,
}
use nam_audio_pipe.Recording.Delivery.Arrival.{
  opened, delivered_in_order, drained_complete, barrier_never_pending, audio_accepted,
}

abbrev pub rings : Rings
rings = record {
  F = bounded ℕ;
  W = bounded Descriptor;
  C = bounded ControlPayload;
  I = bounded RingPayload;
}

abbrev pub ready : Live rings
ready = record {
  control = record { items = []; limit = control_capacity };
  pool = record {
    slots = replicate pool_capacity (new_uninit max_block_size);
    slot_leaks = 0;
    work = record { items = []; limit = pool_capacity + control_capacity };
    free = record { items = range 0 pool_capacity; limit = pool_capacity };
  };
  pending_barrier = none;
  next_seq = 1;
}

pub ready_made : create_recording_transport ≡ some ready
unfolding create_recording_transport Pool.new
ready_made = refl

-- A format change, two frames of audio, and a turn of the worker.
abbrev pub cd : AudioMetadata
cd = record { sample_rate = 44100; bit_depth = 32; channels = 2 }

abbrev pub announced : Link rings
announced = record (opened ready) {
  live = (push_metadata cd ready).1;
  accepted = note (push_metadata cd ready).0 (new_format cd) [];
}

abbrev pub played : Link rings
played = record announced {
  live = record (announced.live) {
    pool = (push_audio (1 ∷ 2 ∷ []) (3 ∷ 4 ∷ []) announced.live.pool).1;
  };
  accepted =
      note (push_audio (1 ∷ 2 ∷ []) (3 ∷ 4 ∷ []) announced.live.pool).0
        (sound (kept (1 ∷ 2 ∷ []) (3 ∷ 4 ∷ []))) announced.accepted;
}

abbrev received : Link rings
received = record played {
  live = finish (take_next played.live).0 (take_next played.live).1;
  delivered = played.delivered ++ heard (take_next played.live).0;
}

received_runs : Runs (opened ready) received
received_runs =
    next
      (next (next here (send_format (opened ready) cd refl))
        (send_sound announced (1 ∷ 2 ∷ []) (3 ∷ 4 ∷ []) refl))
      (receive played)

delivered_in_order_example :
    (waiting : List Event) × (received.delivered ++ waiting ≡ received.accepted)
    × (length waiting ≡ length received.live.pool.work.items)
delivered_in_order_example = delivered_in_order ready received ready_made received_runs

barrier_never_pending_example : received.live.pending_barrier ≡ none
barrier_never_pending_example = barrier_never_pending ready received ready_made received_runs

audio_accepted_example :
    (push_audio (5 ∷ []) (6 ∷ []) received.live.pool).0
    ≡ ltb 0 (length received.live.pool.free.items)
audio_accepted_example = audio_accepted ready received ready_made received_runs (5 ∷ []) (6 ∷ [])

-- A second turn takes the block.
abbrev both_received : Link rings
both_received = record received {
  live = finish (take_next received.live).0 (take_next received.live).1;
  delivered = received.delivered ++ heard (take_next received.live).0;
}

both_received_runs : Runs (opened ready) both_received
both_received_runs = next received_runs (receive received)

drained_complete_example :
    (both_received.delivered ≡ both_received.accepted)
    × (true ≡ true)
    × (true ≡ true)
    × (both_received.live.control.items ≡ [])
    × (both_received.live.pool.work.items ≡ [])
unfolding is_fully_drained work_is_empty finish take_next Pool.try_pop push_audio Pool.try_acquire
    push_metadata Pool.try_push_barrier Pool.publish Pool.fill_slot fill_planar new_uninit
    match_metadata Pool.release Pool.block
drained_complete_example =
    drained_complete ready both_received ready_made both_received_runs true true refl
