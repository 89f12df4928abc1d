-- ===== src/Recording/Delivery/Arrival.antt =====
-- src/recording/transport.rs, `try_push_audio` and `try_push_metadata`, against the worker of
-- src/recording/disk.rs: what arrives, over every order of the two threads' calls.
use mathlib.Core.Path.{subst}
use mathlib.Core.List.{append-nil}
use mathlib.Core.Option.{some-injective}
use nam_audio_pipe.Base.{
  ℕ, suc, ◌<◌, ◌≡◌, refl, sym, ◌∙◌, ap, ltb, Bool, true, false, inl, inr, none, some, List, [],
  ◌++◌, length, arith, Option-cases, length-zero, lt→ltb,
}
use nam_audio_pipe.Recording.Spsc.{Spsc}
use nam_audio_pipe.Recording.Buffer.{AlignedBlock, AudioMetadata, ControlPayload, control_capacity}
use nam_audio_pipe.Recording.Pool
use nam_audio_pipe.Recording.Pool.{
  Pool, Descriptor, is_barrier, control_barrier_slot, pool_capacity, work_is_empty, try_acquire,
}
use mathlib.Core.Bool.{false≢true}
use nam_audio_pipe.Recording.Pool.Ownership.{try_acquire-eq_some}
use nam_audio_pipe.Recording.Pool.Start.{new_lem}
use nam_audio_pipe.Recording.Pool.Protocol.{start_lem}
use nam_audio_pipe.Recording.Transport.{
  Rings, Live, push_audio, push_metadata, create_recording_transport, is_fully_drained,
}
use nam_audio_pipe.Recording.Delivery.{Event, Link, Runs, here, next}
use nam_audio_pipe.Recording.Delivery.Queued.{Queued, done, audio, format, Queued-of}
use nam_audio_pipe.Recording.Delivery.Sending.{IsRested, Sent, Sends, refused, push_audio-Sends}
use nam_audio_pipe.Recording.Delivery.Sending
use nam_audio_pipe.Recording.Delivery.Format.{Formats, full, push_metadata-Formats}
use nam_audio_pipe.Recording.Delivery.Format
use nam_audio_pipe.Recording.Delivery.Order.{Kept, Call-Kept, paired, few_barriers}

-- A recording that has just been set up.
abbrev pub opened : {R : Rings} → Live R → Link R
opened s = record { live = s; stopped = false; accepted = []; delivered = [] }

pub Runs-Kept : {R : Rings} (n : ℕ) {l t : Link R} → Kept n l → Runs l t → Kept n t
Runs-Kept n v here = v
Runs-Kept n v (next r c) = let (w, k) = Runs-Kept n v r in Call-Kept n w c k

created_lem :
    {R : Rings} (p : Pool R.F R.W) (s : Live R)
    → Pool.new pool_capacity ≡ some p
    → create_recording_transport {R = R} ≡ some s
    → s ≡ record {
      control = (R.C).new control_capacity;
      pool = p;
      pending_barrier = none;
      next_seq = 1;
    }
unfolding create_recording_transport
created_lem p s e made = some-injective _ _ (sym made ∙ rw (e, create_recording_transport) refl)

pub opened-Kept :
    {R : Rings} (s : Live R) → create_recording_transport ≡ some s → Kept pool_capacity (opened s)
opened-Kept {R} s made =
    let (p, e, free, cap, work, room, slots) =
      new_lem {F = R.F} {W = R.W} pool_capacity (omega arith) (omega arith) in
    let sound : _ = start_lem {F = R.F} {W = R.W} pool_capacity (omega arith) (omega arith) p e in
    subst (λ t. Kept pool_capacity (opened t)) (sym (created_lem p s e made))
      (
        [],
        record {
          rested = record { small = omega arith; owned = sound.0; sized = sound.1 };
          clear = refl;
          room = (R.C).capacity_new control_capacity;
          few = omega (arith, ap length ((R.C).contents_new control_capacity));
          queued = Queued-of refl refl work ((R.C).contents_new control_capacity) done;
          order = refl;
        },
      )

pub length-Queued :
    {slots : List AlignedBlock} {end : List ControlPayload} {ds : List Descriptor}
    {c : List ControlPayload} {es : List Event}
    → Queued slots end ds c es
    → length es ≡ length ds
length-Queued done = refl
length-Queued (audio h g r q) = ap suc (length-Queued q)
length-Queued (format h e q) = ap suc (length-Queued q)

drained_empty :
    {R : Rings} (a b : Bool) (s : Live R)
    → is_fully_drained a b s ≡ true
    → length ((R.W).contents s.pool.work) ≡ 0
unfolding is_fully_drained work_is_empty
drained_empty a b s h = ground arith

drained_rings :
    {R : Rings} (a b : Bool) (s : Live R)
    → is_fully_drained a b s ≡ true
    → (a ≡ true) × (b ≡ true) × (length ((R.C).contents s.control) ≡ 0)
unfolding is_fully_drained work_is_empty
drained_rings a b s h = (ground arith, ground arith, ground arith)

push_audio-acquired :
    {F : Spsc ℕ} {W : Spsc Descriptor} (left right : List ℕ) (p : Pool F W)
    → (push_audio left right p).0 ≡ true
    → 0 < length (F.contents p.free)
unfolding push_audio
push_audio-acquired left right p h = elim (Option-cases (try_acquire p).0) [
  | inl e ↦ absurd (false≢true (rw (e, push_audio) at h))
  | inr (i, e) ↦ omega (arith, ap length (try_acquire-eq_some p e).0)
]

Sends-accepted :
    {F : Spsc ℕ} {W : Spsc Descriptor} (n : ℕ) (p : Pool F W) (left right : List ℕ)
    (o : Bool × Pool F W)
    → Sends n p left right o
    → (o.0 ≡ true → 0 < length (F.contents p.free))
    → o.0 ≡ ltb 0 (length (F.contents p.free))
Sends-accepted n p left right o (refused q rested none_free work slots) h =
    ground (arith, ap length none_free)
Sends-accepted n p left right o (Sending.sent q rested s) h = sym (lt→ltb 0 _ (h refl))

Formats-accepted :
    {R : Rings} (n : ℕ) (s : Live R) (m : AudioMetadata) (o : Bool × Live R)
    → Formats n s m o
    → (R.C).capacity s.control ≡ control_capacity
    → o.0 ≡ ltb (length ((R.C).contents s.control)) control_capacity
Formats-accepted n s m o (full q same clear contents capacity no_room) cap = ground arith
Formats-accepted n s m o (Format.sent q rested clear contents capacity work slots less) cap =
    ground arith

module _ {R : Rings} (s : Live R) (l : Link R) (made : create_recording_transport ≡ some s)
    (runs : Runs (opened s) l) where
  kept_lem : Kept pool_capacity l
  kept_lem = Runs-Kept pool_capacity (opened-Kept s made) runs

  -- From a transport that `create_recording_transport` built, after any interleaving of the calls of
  -- the RT thread and the turns of the worker: what the worker took out, followed by as many events
  -- as the work ring holds, is what the calls accepted, in the order of the calls.
  pub delivered_in_order :
      (waiting : List Event) × (l.delivered ++ waiting ≡ l.accepted)
      × (length waiting ≡ length ((R.W).contents l.live.pool.work))
  delivered_in_order = (kept_lem.0, kept_lem.1.order, length-Queued kept_lem.1.queued)

  -- After any interleaving, once `is_fully_drained` answers yes the worker has everything that the
  -- calls accepted, both producer ends are gone, so that nothing more can come, and both rings are
  -- empty.
  pub drained_complete :
      (control_abandoned work_abandoned : Bool)
      → is_fully_drained control_abandoned work_abandoned l.live ≡ true
      → (l.delivered ≡ l.accepted)
        × (control_abandoned ≡ true)
        × (work_abandoned ≡ true)
        × ((R.C).contents l.live.control ≡ [])
        × ((R.W).contents l.live.pool.work ≡ [])
  drained_complete a b h =
      let none_left : kept_lem.0 ≡ [] =
        length-zero kept_lem.0 (length-Queued kept_lem.1.queued ∙ drained_empty a b l.live h) in
      let (gone_c, gone_w, no_control) = drained_rings a b l.live h in
      (
        sym (append-nil l.delivered)
            ∙ sym (ap (λ w. l.delivered ++ w) none_left)
            ∙ kept_lem.1.order,
        gone_c,
        gone_w,
        length-zero ((R.C).contents l.live.control) no_control,
        length-zero ((R.W).contents l.live.pool.work) (drained_empty a b l.live h),
      )

  -- After any interleaving, no barrier is pending: `try_push_barrier` never finds the work ring full.
  pub barrier_never_pending : l.live.pending_barrier ≡ none
  barrier_never_pending = kept_lem.1.clear

  -- After any interleaving, an audio call is accepted exactly when a slot is free, whatever barriers
  -- wait in the work ring.
  pub audio_accepted :
      (left right : List ℕ)
      → (push_audio left right l.live.pool).0 ≡ ltb 0 (length ((R.F).contents l.live.pool.free))
  audio_accepted left right =
      Sends-accepted pool_capacity l.live.pool left right (push_audio left right l.live.pool)
        (push_audio-Sends pool_capacity l.live.pool left right kept_lem.1.rested
          (few_barriers pool_capacity l kept_lem.0 kept_lem.1))
        (push_audio-acquired left right l.live.pool)

  -- After any interleaving before the terminal token, a metadata call is accepted exactly when the
  -- control ring has room.
  format_accepted :
      (m : AudioMetadata)
      → l.stopped ≡ false
      → (push_metadata m l.live).0 ≡ ltb (length ((R.C).contents l.live.control)) control_capacity
  format_accepted m e =
      Formats-accepted pool_capacity l.live m (push_metadata m l.live)
        (push_metadata-Formats pool_capacity l.live m kept_lem.1.rested kept_lem.1.clear
          kept_lem.1.room (paired pool_capacity l kept_lem.0 kept_lem.1 e))
        kept_lem.1.room
