-- ===== src/Recording/Transport.antt =====
-- src/recording/transport.rs: the sender and the receiver of a recording. The producer end and the
-- consumer end of a ring are one value here; that the producer end was dropped is a flag of the
-- receiver. The inline transport is modelled as a release build runs it, without the debug tripwire.
use nam_audio_pipe.Base.{
  ℕ, ◌+◌, ◌%◌, ◌==◌, ◌&&◌, ◌||◌, if◌then◌else◌, Bool, true, false, Option, none, some, List, length,
  is_some, u16_mod,
}
use nam_audio_pipe.Recording.Spsc.{Spsc}
use nam_audio_pipe.Recording.Buffer.{
  AudioMetadata, meta_eq, ControlPayload, RingPayload, metadata, stream_stop, audio, format, stop,
  control_capacity, max_block_size, new_uninit, fill_planar,
}
use nam_audio_pipe.Recording.Pool
use nam_audio_pipe.Recording.Pool.{
  Pool, Descriptor, pool_capacity, try_acquire, fill_slot, publish, try_push_barrier, work_is_empty,
}

-- The rings that the transport is built on, one for each kind of item.
pub record Rings : Type 1 where
  pub F : Spsc ℕ
  pub W : Spsc Descriptor
  pub C : Spsc ControlPayload
  pub I : Spsc RingPayload

-- The `Pool` variant of the sender.
pub record PoolSender (R : Rings) : Type 0 where
  pub control : Option (R.C).Ring
  pub pool : Option (Pool R.F R.W)
  pub pending_barrier : Option (ℕ × AudioMetadata)
  pub next_seq : ℕ

pub data RecordingSender (R : Rings) : Type 0 where
  pool_transport : PoolSender R → RecordingSender R
  inline_transport : Option (R.I).Ring → RecordingSender R

-- The `Pool` variant with both channels present.
pub record Live (R : Rings) : Type 0 where
  pub control : (R.C).Ring
  pub pool : Pool R.F R.W
  pub pending_barrier : Option (ℕ × AudioMetadata)
  pub next_seq : ℕ

-- The pool arm of `try_push_audio`: acquire, fill in place, publish.
unfoldable pub push_audio :
    {F : Spsc ℕ} {W : Spsc Descriptor} → List ℕ → List ℕ → Pool F W → Bool × Pool F W
push_audio left right p =
    let got = try_acquire p in
    elim got.0 [ none ↦ (false, got.1) | some idx ↦ publish idx (fill_slot idx left right got.1) ]

module _ {R : Rings} where
  abbrev pub enabled : Live R → PoolSender R
  enabled s = record {
    control = some s.control;
    pool = some s.pool;
    pending_barrier = s.pending_barrier;
    next_seq = s.next_seq;
  }

  -- `RecordingSender::none`.
  unfoldable pub disabled : RecordingSender R
  disabled =
      pool_transport (record { control = none; pool = none; pending_barrier = none; next_seq = 1 })

  unfoldable pub has_producer : RecordingSender R → Bool
  has_producer (pool_transport s) = is_some s.control || is_some s.pool
  has_producer (inline_transport producer) = is_some producer

  -- The identical metadata reached the control ring before: only its barrier is sent again.
  abbrev pub retry_barrier : ℕ → Live R → Bool × Live R
  retry_barrier seq s =
      let sent = try_push_barrier seq s.pool in
      if sent.0
      then (true, record s { pool = sent.1; pending_barrier = none })
      else (false, record s { pool = sent.1 })

  abbrev pub send_barrier : ℕ → AudioMetadata → Live R → Bool × Live R
  send_barrier seq meta s =
      let sent = try_push_barrier seq s.pool in
      if sent.0
      then (true, record s { pool = sent.1; pending_barrier = none })
      else (false, record s { pool = sent.1; pending_barrier = some (seq, meta) })

  abbrev pub send_metadata : AudioMetadata → Live R → Bool × Live R
  send_metadata meta s =
      let pushed = (R.C).push s.control (metadata s.next_seq meta) in
      if pushed.0
      then send_barrier s.next_seq meta
          (record s { control = pushed.1; next_seq = (s.next_seq + 1) % u16_mod })
      else (false, record s { control = pushed.1 })

  -- By the pending barrier that an earlier call left.
  abbrev pub push_after : Option (ℕ × AudioMetadata) → AudioMetadata → Live R → Bool × Live R
  push_after none meta s = send_metadata meta s
  push_after (some (p_seq, p_meta)) meta s =
      if meta_eq p_meta meta then retry_barrier p_seq s else send_metadata meta s

  unfoldable pub push_metadata : AudioMetadata → Live R → Bool × Live R
  push_metadata meta s = push_after s.pending_barrier meta s

  unfoldable pub try_push_metadata : AudioMetadata → RecordingSender R → Bool × RecordingSender R
  try_push_metadata meta (pool_transport s) = elim s.control [
    | none ↦ (false, pool_transport s)
    | some c ↦ elim s.pool [
      | none ↦ (false, pool_transport s)
      | some p ↦
          let sent = push_metadata meta (record {
            control = c;
            pool = p;
            pending_barrier = s.pending_barrier;
            next_seq = s.next_seq;
          }) in
          (sent.0, pool_transport (enabled sent.1))
    ]
  ]
  try_push_metadata meta (inline_transport producer) = elim producer [
    | none ↦ (false, inline_transport none)
    | some r ↦ let sent = (R.I).push r (format meta) in (sent.0, inline_transport (some sent.1))
  ]

  unfoldable pub try_push_audio : List ℕ → List ℕ → RecordingSender R → Bool × RecordingSender R
  try_push_audio left right (pool_transport s) = elim s.pool [
    | none ↦ (false, pool_transport s)
    | some p ↦
        let sent = push_audio left right p in
        (sent.0, pool_transport (record s { pool = some sent.1 }))
  ]
  try_push_audio left right (inline_transport producer) = elim producer [
    | none ↦ (false, inline_transport none)
    | some r ↦
        let sent = (R.I).push r (audio (fill_planar (new_uninit max_block_size) left right)) in
        (sent.0, inline_transport (some sent.1))
  ]

  unfoldable pub try_push_stream_stop : RecordingSender R → Bool × RecordingSender R
  try_push_stream_stop (pool_transport s) = elim s.control [
    | none ↦ (false, pool_transport s)
    | some c ↦
        let sent = (R.C).push c stream_stop in
        (sent.0, pool_transport (record s { control = some sent.1 }))
  ]
  try_push_stream_stop (inline_transport producer) = elim producer [
    | none ↦ (false, inline_transport none)
    | some r ↦ let sent = (R.I).push r stop in (sent.0, inline_transport (some sent.1))
  ]

  unfoldable pub leaked_slots : RecordingSender R → ℕ
  leaked_slots (pool_transport s) = elim s.pool [ none ↦ 0 | some p ↦ p.slot_leaks ]
  leaked_slots (inline_transport producer) = 0

  -- `RecordingReceiver::is_fully_drained` of the pool transport. The flags are `is_abandoned()` of
  -- the two rings.
  unfoldable pub is_fully_drained : Bool → Bool → Live R → Bool
  unfolding work_is_empty
  is_fully_drained control_abandoned work_abandoned s =
      control_abandoned
      && length ((R.C).contents s.control) == 0
      && work_abandoned
      && work_is_empty s.pool

  -- `create_recording_transport`; `none` is a panic of `RecordingPool::new`. The receiver holds the
  -- other ends of the same rings.
  unfoldable pub create_recording_transport : Option (Live R)
  create_recording_transport = elim (Pool.new {F = R.F} {W = R.W} pool_capacity) [
    | none ↦ none
    | some p ↦ some (record {
      control = (R.C).new control_capacity;
      pool = p;
      pending_barrier = none;
      next_seq = 1;
    })
  ]
