-- ===== src/Recording/Delivery/Order.antt =====
-- The invariant of src/recording/transport.rs against the worker of src/recording/disk.rs: between
-- two calls, each accepted event that has not arrived is queued, and no barrier is pending.
use mathlib.Core.Path.{subst}
use mathlib.Core.List.{append-nil, append_assoc}
use nam_audio_pipe.Base.{
  ℕ, ◌<◌, ◌≤◌, ◌≡◌, refl, sym, ◌∙◌, ap, ltb, Bool, true, false, inl, inr, none, some, List, [], ◌∷◌,
  ◌++◌, length, arith, Bool-cases, length-append, get_elem?-set_self, get_elem?-some_lt, take,
}
use nam_audio_pipe.Recording.Buffer.{
  AudioMetadata, ControlPayload, metadata, stream_stop, control_capacity, as_slice, fill_planar,
  fill_frames,
}
use nam_audio_pipe.Recording.Buffer.Planar.{as_slice-fill}
use nam_audio_pipe.Recording.Pool.{Pool, control_barrier_slot}
use nam_audio_pipe.Recording.Pool.Protocol.{barriers}
use nam_audio_pipe.Recording.Transport.{Rings, Live, push_audio, push_metadata}
use nam_audio_pipe.Recording.Disk.Intake.{Taken, take_next, finish}
use nam_audio_pipe.Recording.Delivery.{
  Event, sound, new_format, heard, kept, note, Link, Call, send_format, send_sound, send_stop,
  receive,
}
use nam_audio_pipe.Recording.Delivery.Queued.{
  Queued, Queued-of, Queued-set, Queued-audio, Queued-format, Queued-stop, barriers-Queued,
}
use nam_audio_pipe.Recording.Delivery.Sending.{IsRested, Sent, Sends, refused, push_audio-Sends}
use nam_audio_pipe.Recording.Delivery.Sending
use nam_audio_pipe.Recording.Delivery.Format.{Formats, full, push_metadata-Formats}
use nam_audio_pipe.Recording.Delivery.Format
use nam_audio_pipe.Recording.Delivery.Receiving.{Receives, nothing, first, receive-Receives}

-- What stands behind the last metadata in the control ring.
abbrev pub last : Bool → List ControlPayload
last true = stream_stop ∷ []
last false = []

-- Between two calls, `waiting` is on its way.
pub record IsCarried {R : Rings} (n : ℕ) (l : Link R) (waiting : List Event) : Type 0 where
  pub rested : IsRested n l.live.pool
  pub clear : l.live.pending_barrier ≡ none
  pub room : (R.C).capacity l.live.control ≡ control_capacity
  pub few : length ((R.C).contents l.live.control) ≤ control_capacity
  pub queued :
      Queued l.live.pool.slots
        (last l.stopped)
        ((R.W).contents l.live.pool.work)
        ((R.C).contents l.live.control)
        waiting
  pub order : l.delivered ++ waiting ≡ l.accepted

abbrev pub Kept : {R : Rings} → ℕ → Link R → Type 0
Kept n t = (u : List Event) × IsCarried n t u

module _ {R : Rings} (n : ℕ) (l : Link R) (w : List Event) (v : IsCarried n l w) where
  pub Queued-running :
      l.stopped ≡ false
      → Queued l.live.pool.slots []
          ((R.W).contents l.live.pool.work)
          ((R.C).contents l.live.control)
          w
  Queued-running e =
      subst
        (λ b.
          Queued l.live.pool.slots (last b) ((R.W).contents l.live.pool.work)
            ((R.C).contents l.live.control) w)
        e v.queued

  more : (e : Event) → l.delivered ++ (w ++ e ∷ []) ≡ l.accepted ++ e ∷ []
  more e = sym (append_assoc l.delivered w (e ∷ [])) ∙ ap (λ a. a ++ e ∷ []) v.order

  pub paired :
      l.stopped ≡ false
      → barriers ((R.W).contents l.live.pool.work) ≡ length ((R.C).contents l.live.control)
  paired e = omega (arith, barriers-Queued (Queued-running e))

  -- At most as many barriers wait as the control ring holds.
  pub few_barriers : barriers ((R.W).contents l.live.pool.work) ≤ control_capacity
  few_barriers = omega (arith, barriers-Queued v.queued, v.few)

  format_keeps :
      (m : AudioMetadata) (o : Bool × Live R)
      → l.stopped ≡ false
      → Formats n l.live m o
      → Kept n (record l { live = o.1; accepted = note o.0 (new_format m) l.accepted })
  format_keeps m o e (full q same clear contents capacity no_room) = (
    w,
    record {
      rested = subst (IsRested n) (sym same) v.rested;
      clear = clear;
      room = capacity ∙ v.room;
      few = omega (arith, ap length contents, v.few);
      queued =
          Queued-of (ap (λ p. p.slots) same) refl (ap (λ p. (R.W).contents p.work) same) contents
            v.queued;
      order = v.order;
    },
  )
  format_keeps m o e (Format.sent q rested clear contents capacity work slots less) = (
    w ++ new_format m ∷ [],
    record {
      rested = rested;
      clear = clear;
      room = capacity ∙ v.room;
      few = omega (
        arith,
        ap length contents,
        length-append ((R.C).contents l.live.control) (metadata l.live.next_seq m ∷ []),
        less,
        v.room,
      );
      queued = Queued-of slots (ap last e) work contents (
          Queued-format (record { slot = control_barrier_slot; valid_len = l.live.next_seq }) m
            (Queued-running e) refl);
      order = more (new_format m);
    },
  )

  module _ {left right : List ℕ} {q : Pool R.F R.W} (s : Sent l.live.pool q left right) where
    present : s.slot < length l.live.pool.slots
    present = get_elem?-some_lt l.live.pool.slots s.slot s.found

    -- The filled block reads back as the frames that the call kept.
    reads : as_slice (fill_planar s.old left right) ≡ some (kept left right)
    reads =
        as_slice-fill s.old left right
        ∙ ap
            (λ k.
              some (take (fill_frames k left right) left ++ take (fill_frames k left right) right))
            s.fit

  sound_keeps :
      (left right : List ℕ) (o : Bool × Pool R.F R.W)
      → l.stopped ≡ false
      → Sends n l.live.pool left right o
      → Kept n (record l {
        live = record (l.live) { pool = o.1 };
        accepted = note o.0 (sound (kept left right)) l.accepted;
      })
  sound_keeps left right o e (refused q rested no_slot work slots) = (
    w,
    record {
      rested = rested;
      clear = v.clear;
      room = v.room;
      few = v.few;
      queued = Queued-of slots refl work refl v.queued;
      order = v.order;
    },
  )
  sound_keeps left right o e (Sending.sent q rested s) = (
    w ++ sound (kept left right) ∷ [],
    record {
      rested = rested;
      clear = v.clear;
      room = v.room;
      few = v.few;
      queued = Queued-of (s.slots) (ap last e) s.work refl (
          Queued-audio (record { slot = s.slot; valid_len = s.len })
            (Queued-set s.slot (fill_planar s.old left right) (Queued-running e) s.unused)
            (ground (arith, s.in_range))
            (get_elem?-set_self l.live.pool.slots s.slot (fill_planar s.old left right) (present s))
            (reads s));
      order = more (sound (kept left right));
    },
  )

  stop_keeps :
      l.stopped ≡ false
      → Kept n (record l {
        live = record (l.live) { control = ((R.C).push l.live.control stream_stop).1 };
        stopped = ((R.C).push l.live.control stream_stop).0;
      })
  stop_keeps e =
      elim (Bool-cases
        (ltb (length ((R.C).contents l.live.control)) ((R.C).capacity l.live.control))) [
          | inl h ↦ (
            w,
            stop_carried (Queued-stop (Queued-running e)) (pushed_stop h)
                (ap last ((R.C).push_accepted l.live.control stream_stop ∙ h)),
          )
          | inr h ↦ (
            w,
            stop_carried (Queued-running e) (refused_stop h)
                (ap last ((R.C).push_accepted l.live.control stream_stop ∙ h)),
          )
        ]
    where
      pushed_stop :
          ltb (length ((R.C).contents l.live.control)) ((R.C).capacity l.live.control) ≡ true
          → (R.C).contents ((R.C).push l.live.control stream_stop).1
            ≡ (R.C).contents l.live.control ++ stream_stop ∷ []
      pushed_stop h = (R.C).contents_push l.live.control stream_stop ∙ rw h refl

      refused_stop :
          ltb (length ((R.C).contents l.live.control)) ((R.C).capacity l.live.control) ≡ false
          → (R.C).contents ((R.C).push l.live.control stream_stop).1 ≡ (R.C).contents l.live.control
      refused_stop h = (R.C).contents_push l.live.control stream_stop ∙ rw h refl

      few_stop :
          length ((R.C).contents ((R.C).push l.live.control stream_stop).1) ≤ control_capacity
      few_stop = ground (
        arith,
        (R.C).contents_push l.live.control stream_stop,
        length-append ((R.C).contents l.live.control) (stream_stop ∷ []),
        v.few,
        v.room,
      )

      stop_carried :
          {end c : List ControlPayload}
          → Queued l.live.pool.slots end ((R.W).contents l.live.pool.work) c w
          → (R.C).contents ((R.C).push l.live.control stream_stop).1 ≡ c
          → last ((R.C).push l.live.control stream_stop).0 ≡ end
          → IsCarried n
              (record l {
                live = record (l.live) { control = ((R.C).push l.live.control stream_stop).1 };
                stopped = ((R.C).push l.live.control stream_stop).0;
              })
              w
      stop_carried q ec ee = record {
        rested = v.rested;
        clear = v.clear;
        room = (R.C).capacity_push l.live.control stream_stop ∙ v.room;
        few = few_stop;
        queued = Queued-of refl ee refl ec q;
        order = v.order;
      }

module _ {R : Rings} (n : ℕ) (l : Link R) where
  receive_keeps :
      (w : List Event) (o : Taken × Live R)
      → IsCarried n l w
      → Receives n (last l.stopped) l.live w o
      → Kept n (record l { live = finish o.0 o.1; delivered = l.delivered ++ heard o.0 })
  unfolding finish
  receive_keeps w o v (nothing q a) = (
    [],
    record {
      rested = a.rested;
      clear = a.pending ∙ v.clear;
      room = a.capacity ∙ v.room;
      few = omega (arith, a.fewer, v.few);
      queued = a.queued;
      order = ap (λ d. d ++ []) (append-nil l.delivered) ∙ v.order;
    },
  )
  receive_keeps w o v (first e es t q heard_e a) = (
    es,
    record {
      rested = a.rested;
      clear = a.pending ∙ v.clear;
      room = a.capacity ∙ v.room;
      few = omega (arith, a.fewer, v.few);
      queued = a.queued;
      order =
          ap (λ h. (l.delivered ++ h) ++ es) heard_e
          ∙ append_assoc l.delivered (e ∷ []) es
          ∙ v.order;
    },
  )

pub Call-Kept :
    {R : Rings} (n : ℕ) {l t : Link R} (w : List Event) → Call l t → IsCarried n l w → Kept n t
Call-Kept n w (send_format l m e) v =
    format_keeps n l w v m (push_metadata m l.live) e
      (push_metadata-Formats n l.live m v.rested v.clear v.room (paired n l w v e))
Call-Kept n w (send_sound l left right e) v =
    sound_keeps n l w v left right (push_audio left right l.live.pool) e
      (push_audio-Sends n l.live.pool left right v.rested (few_barriers n l w v))
Call-Kept n w (send_stop l e) v = stop_keeps n l w v e
Call-Kept n w (receive l) v =
    receive_keeps n l w (take_next l.live) v
      (receive-Receives n (last l.stopped) l.live v.rested w v.queued)
