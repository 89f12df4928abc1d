-- ===== src/Recording/Disk/Session/Racing.antt =====
-- src/recording/disk.rs, `disk_writer_loop_pool`: the end of a recording, with the calls that race
-- into the worker's last turns.
use mathlib.Core.Path.{subst}
use nam_audio_pipe.Base.{
  ℕ, zero, suc, ◌+◌, ◌<◌, ◌≡◌, refl, sym, ap, ◌∙◌, Bool, true, inl, inr, none, some, List, [], ◌∷◌,
  length, head?, arith, Bool, ◌&&◌, false, ◌⊎◌,
}
use nam_audio_pipe.Recording.Buffer.{
  AlignedBlock, AudioMetadata, ControlPayload, stream_stop, metadata,
}
use nam_audio_pipe.Recording.Pool.{Descriptor, pool_capacity, work_is_empty}
use nam_audio_pipe.Recording.Status.{Observed}
use nam_audio_pipe.Recording.Transport.{Rings, Live, create_recording_transport, is_fully_drained}
use nam_audio_pipe.Recording.Disk.Intake.{Taken, empty, barrier, block, fault, take_next}
use nam_audio_pipe.Recording.Disk.Worker.{WavSink, Worker, maybe_check_space}
use nam_audio_pipe.Recording.Disk.Loop.{
  Producers, Ended, process, stop_pool, peeked, polled, disk_writer_loop_pool,
}
use nam_audio_pipe.Recording.Disk.Parts.{SinkLaws, played}
use nam_audio_pipe.Recording.Disk.Parts.Ending.{IsConcluded}
use nam_audio_pipe.Recording.Disk.Session.{Session, started, turn, idle, Reaches, Sends, received}
use nam_audio_pipe.Recording.Disk.Session.Recorded.{
  IsAbreast, Step-IsAbreast, Sends-IsAbreast, Reaches-IsAbreast, started-IsAbreast,
}
use nam_audio_pipe.Recording.Delivery.{Event, Link}
use nam_audio_pipe.Recording.Delivery.Queued.{Queued, done, audio, format}
use nam_audio_pipe.Recording.Delivery.Order.{last}
use nam_audio_pipe.Recording.Delivery.Arrival.{length-Queued, opened}
use nam_audio_pipe.Recording.Disk.Parts.Processing.{played-append}
use nam_audio_pipe.Recording.Disk.Session.Draining.{stop-concludes}
use nam_audio_pipe.Recording.Disk.Session.Stopping.{stopped_loop}

-- How the sending ends, by the turn `i` of the worker: everything with the token is in before the turn,
-- or the last calls come between the turn's look at an empty pool and its look at the control ring,
-- while at least one of the producer ends is still there.
pub data LastCalls {R : Rings} {S : WavSink} (env : Producers (Live R)) (i : ℕ) (s : Session R S)
    : Link R → Type 0 where
  all_in :
      s.link.stopped ≡ true
      → ((j : ℕ) (t : Live R) → (env.before_control) j t ≡ t)
      → LastCalls env i s s.link
  racing :
      (l : Link R)
      → (take_next s.link.live).0 ≡ empty
      → Sends (received s.link) l
      → l.stopped ≡ true
      → (env.before_control) i (take_next s.link.live).1 ≡ l.live
      → ((j : ℕ) (t : Live R) → i < j → (env.before_control) j t ≡ t)
      → (env.work_abandoned i && env.control_abandoned i) ≡ false
      → LastCalls env i s l

-- What the control ring begins with behind a token that was sent.
token_or_format :
    {slots : List AlignedBlock} {ds : List Descriptor} {c : List ControlPayload} {es : List Event}
    → Queued slots (stream_stop ∷ []) ds c es
    → (c ≡ stream_stop ∷ [])
      ⊎ ((q : ℕ) × (m : AudioMetadata) × (tl : List ControlPayload) × (c ≡ metadata q m ∷ tl))
token_or_format done = inl refl
token_or_format (audio h g r q) = token_or_format q
token_or_format (format {c = tl} {q = k} {m = m} h e q) = inr (k, m, tl, refl)

not_drained :
    {R : Rings} (a b : Bool) (s : Live R) {x : ControlPayload} {tl : List ControlPayload}
    → (R.C).contents s.control ≡ x ∷ tl
    → is_fully_drained a b s ≡ false
unfolding is_fully_drained work_is_empty
not_drained {R} a b s e = rw e (ground arith)

polled_empty :
    {R : Rings} {S : WavSink} (fuel i : ℕ) (env : Producers (Live R)) (w : Worker S)
    (more : Live R → Worker S → Ended (Live R) S) (o : Taken × Live R) (t : Live R)
    → o.0 ≡ empty
    → (env.before_control) i o.1 ≡ t
    → peeked fuel env i t w more ((R.C).peek t.control) ≡ polled fuel env i w more o
polled_empty {R = R} fuel i env w more (empty, q) t e b =
    ap (λ (u : Live R). peeked fuel env i u w more ((R.C).peek u.control)) (sym b)
polled_empty fuel i env w more (fault, q) t e b = cc
polled_empty fuel i env w more (barrier d m, q) t e b = cc
polled_empty fuel i env w more (block d x, q) t e b = cc

module _ {R : Rings} {S : WavSink} {L : SinkLaws S} (fuel i : ℕ) (env : Producers (Live R))
    (l : Link R) (w : Worker S) (v : IsAbreast L (record { link = l; worker = w }))
    (ended : l.stopped ≡ true) (still : (j : ℕ) (t : Live R) → (env.before_turn) j t ≡ t)
    (quiet : (j : ℕ) (t : Live R) → i < j → (env.before_control) j t ≡ t)
    (alive : (env.work_abandoned i && env.control_abandoned i) ≡ false)
    (enough : length ((R.W).contents l.live.pool.work) < fuel) where
  abbrev rest : Live R → Worker S → Ended (Live R) S
  rest = disk_writer_loop_pool fuel env (i + 1)

  abbrev Goal : Ended (Live R) S → Type 0
  Goal = IsConcluded L (played none l.accepted)

  queued_lem :
      Queued l.live.pool.slots
        (stream_stop ∷ [])
        ((R.W).contents l.live.pool.work)
        ((R.C).contents l.live.control)
        v.kept.0
  queued_lem =
      subst
        (λ b.
          Queued l.live.pool.slots (last b) ((R.W).contents l.live.pool.work)
            ((R.C).contents l.live.control) v.kept.0)
        ended v.kept.1.queued

  -- The token is at the head: the drain takes what raced in.
  raced_token :
      (R.C).contents l.live.control ≡ stream_stop ∷ [] → Goal (stop_pool (suc fuel) l.live w)
  raced_token token =
      subst (λ ps. IsConcluded L ps (stop_pool (suc fuel) l.live w))
        (sym (played-append none l.delivered v.kept.0) ∙ ap (played none) v.kept.1.order)
        (stop-concludes pool_capacity fuel l.live w v.kept.0 v.recording v.kept.1.rested queued_lem
          token (omega (arith, enough, length-Queued queued_lem)))

  -- A format is at the head, and its barrier in the pool: the loop goes on.
  raced_format :
      (q : ℕ) (m : AudioMetadata) (tl : List ControlPayload)
      → (R.C).contents l.live.control ≡ metadata q m ∷ tl
      → Goal (peeked (suc fuel) env i l.live w rest (some (metadata q m)))
  raced_format q m tl head =
      rw (alive, not_drained (env.control_abandoned i) (env.work_abandoned i) l.live head)
        (stopped_loop fuel (i + 1) env
          (record { link = l; worker = maybe_check_space (env.space_check_due i) w }) still
          (λ j t b. quiet j t (omega arith))
          (Step-IsAbreast L v (idle (record { link = l; worker = w }) (env.space_check_due i)))
          ended enough)

  raced : Goal (peeked (suc fuel) env i l.live w rest ((R.C).peek l.live.control))
  raced = elim (token_or_format queued_lem) [
    | inl token ↦
        subst (λ o. Goal (peeked (suc fuel) env i l.live w rest o))
          (sym ((R.C).peek_item l.live.control ∙ ap head? token)) (raced_token token)
    | inr (q, m, tl, head) ↦
        subst (λ o. Goal (peeked (suc fuel) env i l.live w rest o))
          (sym ((R.C).peek_item l.live.control ∙ ap head? head)) (raced_format q m tl head)
  ]

module _ {R : Rings} {S : WavSink} {L : SinkLaws S} where
  -- The turn that finds the pool empty, and the calls behind that look.
  received-IsAbreast :
      (s : Session R S)
      → IsAbreast L s
      → (take_next s.link.live).0 ≡ empty
      → IsAbreast L (record { link = received s.link; worker = s.worker })
  unfolding process
  received-IsAbreast s v e =
      subst (λ w. IsAbreast L (record { link = received s.link; worker = w }))
        (ap (λ t. (process t s.worker).1) e)
        (Step-IsAbreast L v (turn s (ap (λ t. (process t s.worker).0) e)))

  ending_loop :
      (fuel i : ℕ) (env : Producers (Live R)) (s : Session R S) (l : Link R)
      → ((j : ℕ) (t : Live R) → (env.before_turn) j t ≡ t)
      → IsAbreast L s
      → LastCalls env i s l
      → length ((R.W).contents l.live.pool.work) + 1 < fuel
      → IsConcluded L
          (played none l.accepted)
          (disk_writer_loop_pool fuel env i s.link.live s.worker)
  unfolding disk_writer_loop_pool
  ending_loop fuel i env s l still v (all_in ended quiet) enough =
      stopped_loop fuel i env s still (λ j t b. quiet j t) v ended (omega (arith, enough))
  ending_loop zero i env s l still v (racing k e sends ended between quiet alive) enough =
      absurd (omega (arith, enough))
  ending_loop (suc fuel) i env s l still v (racing k e sends ended between quiet alive) enough =
      subst
        (λ t.
          IsConcluded L (played none k.accepted) (
            polled (suc fuel) env i s.worker (disk_writer_loop_pool fuel env (i + 1))
              (take_next t)))
        (sym (still i s.link.live))
        (subst (IsConcluded L (played none k.accepted))
          (polled_empty (suc fuel) i env s.worker (disk_writer_loop_pool fuel env (i + 1))
            (take_next s.link.live) k.live e between)
          (raced fuel i env k s.worker (Sends-IsAbreast L s.worker (received-IsAbreast s v e) sends)
            ended still quiet alive (omega (arith, enough))))

  -- From a transport that `create_recording_transport` built and a worker that has just started, after
  -- any interleaving of calls and turns that went well: the last calls, with the stop token, are in
  -- before the turn, or they race into it behind its look at an empty pool, and nobody sends any more.
  -- With at least two turns more than the work ring then holds items, the pool loop returns. Unless it
  -- returns an error, no file is left open, and the finalized files hold exactly the blocks that the
  -- calls accepted behind the first format, in order and each in the format announced last before it.
  pub stop_completes :
      (fuel i : ℕ) (env : Producers (Live R)) (live : Live R) (status : Observed) (s : Session R S)
      (l : Link R)
      → create_recording_transport ≡ some live
      → Reaches (record { link = opened live; worker = started status }) s
      → ((j : ℕ) (t : Live R) → (env.before_turn) j t ≡ t)
      → LastCalls env i s l
      → length ((R.W).contents l.live.pool.work) + 1 < fuel
      → IsConcluded L
          (played none l.accepted)
          (disk_writer_loop_pool fuel env i s.link.live s.worker)
  stop_completes fuel i env live status s l made r still calls enough =
      ending_loop fuel i env s l still
        (Reaches-IsAbreast L (started-IsAbreast L live status made) r) calls enough
