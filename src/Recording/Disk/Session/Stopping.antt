-- ===== src/Recording/Disk/Session/Stopping.antt =====
-- src/recording/disk.rs, `disk_writer_loop_pool`: the end of a recording. The stop token is behind
-- everything that was sent, and the loop ends with all of it in finalized files.
use mathlib.Core.Path.{subst}
use mathlib.Core.List.{append-nil}
use nam_audio_pipe.Base.{
  ℕ, zero, suc, ◌+◌, ◌<◌, ◌≤◌, ◌≡◌, ◌≢◌, refl, sym, ap, ◌∙◌, Bool, true, inl, inr, none, List, [],
  ◌∷◌, ◌++◌, length, head?, arith, Bool-cases,
}
use nam_audio_pipe.Recording.Buffer.{AlignedBlock, ControlPayload, stream_stop}
use nam_audio_pipe.Recording.Pool.{Descriptor, pool_capacity}
use nam_audio_pipe.Recording.Transport.{Rings, Live}
use nam_audio_pipe.Recording.Disk.Intake.{Taken, empty, barrier, block, fault, take_next, finish}
use nam_audio_pipe.Recording.Disk.Worker.{WavSink, Worker}
use nam_audio_pipe.Recording.Disk.Loop.{
  Producers, Ended, dropped, proceed, process, stop_pool, peeked, polled, disk_writer_loop_pool,
}
use nam_audio_pipe.Recording.Disk.Parts.{SinkLaws, played}
use nam_audio_pipe.Recording.Disk.Parts.Ending.{IsConcluded, aborted, proceed-true, proceed-false}
use nam_audio_pipe.Recording.Disk.Session.{Session, turn}
use nam_audio_pipe.Recording.Disk.Session.Recorded.{
  list_head, Queued-sound, IsAbreast, Step-IsAbreast,
}
use nam_audio_pipe.Recording.Delivery.{Event, missed, heard, Link}
use nam_audio_pipe.Recording.Delivery.Queued.{Queued, done, Queued-of}
use nam_audio_pipe.Recording.Delivery.Order.{last}
use nam_audio_pipe.Recording.Delivery.Arrival.{length-Queued}
use nam_audio_pipe.Recording.Delivery.Sending.{IsRested}
use nam_audio_pipe.Recording.Delivery.Receiving.{Receives, nothing, first, receive-Receives}
use nam_audio_pipe.Recording.Disk.Session.Draining.{Queued-none, stop-concludes}

module _ {R : Rings} {S : WavSink} (L : SinkLaws S) where
  -- What is left for the turns behind a turn that took one of `k` things.
  abbrev Continues : (Live R → Worker S → Ended (Live R) S) → Link R → ℕ → Type 0
  Continues rest l k =
      (t : Session R S)
      → IsAbreast L t
      → t.link.stopped ≡ true
      → t.link.accepted ≡ l.accepted
      → suc (length ((R.W).contents t.link.live.pool.work)) ≡ k
      → IsConcluded L (played none l.accepted) (rest t.link.live t.worker)

module _ {R : Rings} {S : WavSink} {L : SinkLaws S} where
  module _ (s : Session R S) (v : IsAbreast L s) (ended : s.link.stopped ≡ true)
      (rest : Live R → Worker S → Ended (Live R) S) (k : ℕ) (more : Continues L rest s.link k) where
    abbrev Goal : Ended (Live R) S → Type 0
    Goal = IsConcluded L (played none s.link.accepted)

    -- A turn that took something ends the loop by its error, or goes on.
    advance :
        (t : Taken) (q : Live R)
        → take_next s.link.live ≡ (t, q)
        → suc (length ((R.W).contents (finish t q).pool.work)) ≡ k
        → Goal (proceed (dropped q) (process t s.worker) (rest (finish t q)))
    advance t q e count = elim (Bool-cases (process t s.worker).0) [
      | inr h ↦
          subst Goal (sym (proceed-false (dropped q) (process t s.worker) (rest (finish t q)) h))
            (aborted (dropped q) (process t s.worker).1)
      | inl h ↦
          subst Goal (sym (proceed-true (dropped q) (process t s.worker) (rest (finish t q)) h)) (
            subst (λ o. Goal (rest (finish o.0 o.1) (process o.0 s.worker).1)) e
              (more _ (Step-IsAbreast L v (turn s (ap (λ o. (process o.0 s.worker).0) e ∙ h))) ended
                refl
                (ap (λ o. suc (length ((R.W).contents (finish o.0 o.1).pool.work))) e ∙ count)))
    ]

    module _ (fuel i : ℕ) (env : Producers (Live R))
        (quiet : (t : Live R) → (env.before_control) i t ≡ t) where
      took :
          (t : Taken) (q : Live R) (e : Event)
          → take_next s.link.live ≡ (t, q)
          → heard t ≡ e ∷ []
          → e ≢ missed
          → suc (length ((R.W).contents (finish t q).pool.work)) ≡ k
          → Goal (polled (suc fuel) env i s.worker rest (t, q))
      took empty q e same h sound count = cc
      took fault q e same h sound count = absurd (sound (sym (list_head h)))
      took (barrier d m) q e same h sound count = advance (barrier d m) q same count
      took (block d b) q e same h sound count = advance (block d b) q same count

      -- An empty pool: the token stands at the head of the control ring.
      emptied :
          (q : Live R)
          → IsRested pool_capacity q.pool
          → (R.W).contents q.pool.work ≡ []
          → (R.C).contents q.control ≡ stream_stop ∷ []
          → s.link.delivered ≡ s.link.accepted
          → Goal (polled (suc fuel) env i s.worker rest (empty, q))
      emptied q rested none_left token all =
          subst (λ t. Goal (peeked (suc fuel) env i t s.worker rest ((R.C).peek t.control)))
            (sym (quiet q))
            (subst (λ o. Goal (peeked (suc fuel) env i q s.worker rest o))
              (sym ((R.C).peek_item q.control ∙ ap head? token))
              (subst (λ a. IsConcluded L (played none a) (stop_pool (suc fuel) q s.worker)) all
                (subst (λ ps. IsConcluded L ps (stop_pool (suc fuel) q s.worker))
                  (append-nil (played none s.link.delivered))
                  (stop-concludes pool_capacity fuel q s.worker [] v.recording rested
                    (Queued-of refl refl none_left token done) token (omega arith)))))

      settle :
          {slots : List AlignedBlock} {ds : List Descriptor} {c : List ControlPayload} {b : Bool}
          (es : List Event) (o : Taken × Live R)
          → take_next s.link.live ≡ o
          → s.link.delivered ++ es ≡ s.link.accepted
          → b ≡ true
          → length es ≡ k
          → Queued slots (last b) ds c es
          → Receives pool_capacity (last b) s.link.live es o
          → Goal (polled (suc fuel) env i s.worker rest o)
      settle es o e order b count queued (nothing q a) =
          emptied q a.rested (Queued-none a.queued).0 ((Queued-none a.queued).1 ∙ ap last b)
            (sym (append-nil s.link.delivered) ∙ order)
      settle es o e order b count queued (first x xs t q h a) =
          took t q x e h (Queued-sound x queued) (omega (arith, length-Queued a.queued, count))

  -- The loop ends once nobody sends any more.
  pub stopped_loop :
      (fuel i : ℕ) (env : Producers (Live R)) (s : Session R S)
      → ((j : ℕ) (t : Live R) → (env.before_turn) j t ≡ t)
      → ((j : ℕ) (t : Live R) → i ≤ j → (env.before_control) j t ≡ t)
      → IsAbreast L s
      → s.link.stopped ≡ true
      → length ((R.W).contents s.link.live.pool.work) < fuel
      → IsConcluded L
          (played none s.link.accepted)
          (disk_writer_loop_pool fuel env i s.link.live s.worker)
  unfolding disk_writer_loop_pool
  stopped_loop zero i env s still quiet v ended enough = absurd (omega (arith, enough))
  stopped_loop (suc fuel) i env s still quiet v ended enough =
      subst
        (λ l.
          IsConcluded L (played none s.link.accepted) (
            polled (suc fuel) env i s.worker (disk_writer_loop_pool fuel env (i + 1))
              (take_next l)))
        (sym (still i s.link.live))
        (settle s v ended (disk_writer_loop_pool fuel env (i + 1))
          (length ((R.W).contents s.link.live.pool.work))
          (λ t u last_sent same count.
            subst
              (λ a.
                IsConcluded L (played none a)
                  (disk_writer_loop_pool fuel env (i + 1) t.link.live t.worker))
              same
              (stopped_loop fuel (i + 1) env t still (λ j t b. quiet j t (omega arith)) u last_sent
                (omega (arith, count, enough))))
          fuel i env (λ t. quiet i t (omega arith)) v.kept.0 (take_next s.link.live) refl
          v.kept.1.order ended (length-Queued v.kept.1.queued) v.kept.1.queued
          (receive-Receives pool_capacity (last s.link.stopped) s.link.live v.kept.1.rested v.kept.0
            v.kept.1.queued))
