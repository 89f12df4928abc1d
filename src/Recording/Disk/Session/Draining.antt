-- ===== src/Recording/Disk/Session/Draining.antt =====
-- src/recording/disk.rs, `disk_writer_loop_pool`: the arm of `StreamStop`, which drains what raced in.
use mathlib.Core.Path.{subst}
use mathlib.Core.List.{append-nil, append_assoc}
use nam_audio_pipe.Base.{
  ℕ, zero, suc, ◌<◌, ◌≡◌, ◌≢◌, refl, sym, ap, ◌∙◌, inl, inr, Option, some, List, [], ◌∷◌, ◌++◌,
  length, tail, arith, Bool-cases,
}
use nam_audio_pipe.Recording.Spsc.{Spsc}
use nam_audio_pipe.Recording.Buffer.{AlignedBlock, AudioMetadata, ControlPayload, stream_stop}
use nam_audio_pipe.Recording.Pool.{Descriptor}
use nam_audio_pipe.Recording.Transport.{Rings, Live}
use nam_audio_pipe.Recording.Disk.Intake.{Taken, empty, barrier, block, fault, take_next, finish}
use nam_audio_pipe.Recording.Disk.Worker.{WavSink, Worker}
use nam_audio_pipe.Recording.Disk.Loop.{
  Ended, dropped, proceed, process, drained, drain_pool, discard_control, concluded, stop_pool,
}
use nam_audio_pipe.Recording.Disk.Parts.{SinkLaws, Played, played, IsRecording}
use nam_audio_pipe.Recording.Disk.Parts.Ending.{
  IsConcluded, aborted, proceed-true, proceed-false, conclude-IsConcluded,
}
use nam_audio_pipe.Recording.Disk.Session.Recorded.{list_head, rested-IsReadable, Queued-sound}
use nam_audio_pipe.Recording.Delivery.{Event, missed, heard}
use nam_audio_pipe.Recording.Delivery.Queued.{Queued, done, audio, format, Queued-of}
use nam_audio_pipe.Recording.Delivery.Sending.{IsRested}
use nam_audio_pipe.Recording.Delivery.Receiving.{Receives, nothing, first, receive-Receives}
use nam_audio_pipe.Recording.Disk.Parts.Processing.{IsReadable, process-IsRecording, played-append}
use nam_audio_pipe.Recording.Disk.Parts.{last_format}

-- A control ring with nothing in it is discarded at once.
discard_empty :
    (C : Spsc ControlPayload) (fuel : ℕ) (c : C.Ring)
    → C.contents c ≡ []
    → discard_control C (suc fuel) c ≡ some (C.pop c).1
unfolding discard_control
discard_empty C fuel c e = ground (arith, C.pop_item c)

-- Behind the token stand blocks only.
Queued-token :
    {slots : List AlignedBlock} {ds : List Descriptor} {c : List ControlPayload} {es : List Event}
    → Queued slots (stream_stop ∷ []) ds c es
    → c ≡ stream_stop ∷ []
    → Queued slots [] ds [] es
Queued-token done e = done
Queued-token (audio h g r q) e = audio h g r (Queued-token q e)
Queued-token (format h e q) f = cc

pub Queued-none :
    {slots : List AlignedBlock} {end : List ControlPayload} {ds : List Descriptor}
    {c : List ControlPayload}
    → Queued slots end ds c []
    → (ds ≡ []) × (c ≡ end)
Queued-none done = (refl, refl)

module _ {R : Rings} {S : WavSink} {L : SinkLaws S} where
  drain_nothing :
      {o : Option AudioMetadata} {ps : List Played} {n : ℕ} {s : Live R} (fuel : ℕ) (w : Worker S)
      (again : Live R → Worker S → Ended (Live R) S) (q : Taken × Live R)
      → IsRecording L w o ps
      → Receives n [] s [] q
      → IsConcluded L ps
          (drained w (λ t v. concluded t v (discard_control R.C (suc fuel) t.control)) again q)
  drain_nothing {ps = ps} fuel w again q v (nothing t a) =
      subst (λ o. IsConcluded L ps (concluded t w o))
        (sym (discard_empty R.C fuel t.control (Queued-none a.queued).1))
        (conclude-IsConcluded (record t { control = ((R.C).pop t.control).1 }) w v)

  drain_processed :
      {o : Option AudioMetadata} {ps : List Played} (w : Worker S)
      (again : Live R → Worker S → Ended (Live R) S) (t : Taken) (l : Live R) (e : Event)
      (es : List Event)
      → IsRecording L w o ps
      → IsReadable t
      → heard t ≡ e ∷ []
      → ((u : Worker S) (m : Option AudioMetadata) (qs : List Played)
          → IsRecording L u m qs
          → IsConcluded L (qs ++ played m es) (again (finish t l) u))
      → IsConcluded L
          (ps ++ played o (e ∷ es))
          (proceed (dropped l) (process t w) (again (finish t l)))
  drain_processed {o = o} {ps = ps} w again t l e es v r h more =
      elim (Bool-cases (process t w).0) [
        | inr f ↦
            subst (IsConcluded L (ps ++ played o (e ∷ es)))
              (sym (proceed-false (dropped l) (process t w) (again (finish t l)) f))
              (aborted (dropped l) (process t w).1)
        | inl f ↦
            subst (IsConcluded L (ps ++ played o (e ∷ es)))
              (sym (proceed-true (dropped l) (process t w) (again (finish t l)) f))
              (subst (λ qs. IsConcluded L qs (again (finish t l) (process t w).1))
                (append_assoc ps (played o (heard t)) (played (last_format o (heard t)) es)
                  ∙ ap (◌++◌ ps)
                      (sym (played-append o (heard t) es) ∙ ap (λ hs. played o (hs ++ es)) h))
                (more (process t w).1 (last_format o (heard t)) (ps ++ played o (heard t))
                  (process-IsRecording t w r v f)))
      ]

  drain_taken :
      {o : Option AudioMetadata} {ps : List Played} (fuel : ℕ) (w : Worker S)
      (again : Live R → Worker S → Ended (Live R) S) (t : Taken) (l : Live R) (e : Event)
      (es : List Event)
      → IsRecording L w o ps
      → IsReadable t
      → heard t ≡ e ∷ []
      → e ≢ missed
      → ((u : Worker S) (m : Option AudioMetadata) (qs : List Played)
          → IsRecording L u m qs
          → IsConcluded L (qs ++ played m es) (again (finish t l) u))
      → IsConcluded L
          (ps ++ played o (e ∷ es))
          (drained w (λ t v. concluded t v (discard_control R.C (suc fuel) t.control)) again (t, l))
  drain_taken fuel w again empty l e es v r h sound more = cc
  drain_taken fuel w again fault l e es v r h sound more = absurd (sound (sym (list_head h)))
  drain_taken fuel w again (barrier d m) l e es v r h sound more =
      drain_processed w again (barrier d m) l e es v r h more
  drain_taken fuel w again (block d b) l e es v r h sound more =
      drain_processed w again (block d b) l e es v r h more

  -- What a turn of the drain does with what it took.
  drain_step :
      {o : Option AudioMetadata} {ps : List Played} {n : ℕ} {s : Live R} (fuel : ℕ) (w : Worker S)
      (again : Live R → Worker S → Ended (Live R) S) (es : List Event) (q : Taken × Live R)
      → IsRecording L w o ps
      → IsReadable q.0
      → Queued s.pool.slots [] ((R.W).contents s.pool.work) ((R.C).contents s.control) es
      → Receives n [] s es q
      → ((fs : List Event) (t : Live R) (u : Worker S) (m : Option AudioMetadata) (qs : List Played)
          → suc (length fs) ≡ length es
          → IsRested n t.pool
          → Queued t.pool.slots [] ((R.W).contents t.pool.work) ((R.C).contents t.control) fs
          → IsRecording L u m qs
          → IsConcluded L (qs ++ played m fs) (again t u))
      → IsConcluded L
          (ps ++ played o es)
          (drained w (λ t v. concluded t v (discard_control R.C (suc fuel) t.control)) again q)
  drain_step {ps = ps} fuel w again [] q v r queued (nothing t a) more =
      subst
        (λ l. IsConcluded L l (
          drained w (λ t v. concluded t v (discard_control R.C (suc fuel) t.control)) again
            (empty, t)))
        (sym (append-nil ps)) (drain_nothing fuel w again (empty, t) v (nothing t a))
  drain_step {o = o} {ps = ps} fuel w again (e ∷ es) q v r queued (first x xs t l h a) more =
      drain_taken fuel w again t l e es v r h (Queued-sound e queued)
        (λ u m qs c. more es (finish t l) u m qs refl a.rested a.queued c)

  -- With a turn for each queued event and one more, the drain takes all of them.
  drain-concludes :
      {o : Option AudioMetadata} {ps : List Played} (n fuel left : ℕ) (s : Live R) (w : Worker S)
      (es : List Event)
      → IsRecording L w o ps
      → IsRested n s.pool
      → Queued s.pool.slots [] ((R.W).contents s.pool.work) ((R.C).contents s.control) es
      → length es < left
      → IsConcluded L
          (ps ++ played o es)
          (drain_pool left (λ t v. concluded t v (discard_control R.C (suc fuel) t.control)) s w)
  unfolding drain_pool
  drain-concludes n fuel zero s w es v rested queued enough = absurd (omega (arith, enough))
  drain-concludes n fuel (suc left) s w es v rested queued enough =
      drain_step fuel w
        (drain_pool left (λ t v. concluded t v (discard_control R.C (suc fuel) t.control))) es
        (take_next s) v (rested-IsReadable n [] s es rested queued) queued
        (receive-Receives n [] s rested es queued)
        (λ fs t u m qs count r q c.
          drain-concludes n fuel left t u fs c r q (omega (arith, count, enough)))

  -- The token is at the head of the control ring, and behind it whatever the work ring holds.
  pub stop-concludes :
      {o : Option AudioMetadata} {ps : List Played} (n fuel : ℕ) (s : Live R) (w : Worker S)
      (es : List Event)
      → IsRecording L w o ps
      → IsRested n s.pool
      → Queued s.pool.slots
          (stream_stop ∷ [])
          ((R.W).contents s.pool.work)
          ((R.C).contents s.control)
          es
      → (R.C).contents s.control ≡ stream_stop ∷ []
      → length es < suc fuel
      → IsConcluded L (ps ++ played o es) (stop_pool (suc fuel) s w)
  unfolding stop_pool
  stop-concludes n fuel s w es v rested queued token enough =
      let popped : (R.C).contents ((R.C).pop s.control).1 ≡ [] =
        (R.C).contents_pop s.control ∙ ap tail token in
      drain-concludes n fuel (suc fuel) (record s { control = ((R.C).pop s.control).1 }) w es v
        rested (Queued-of refl refl refl popped (Queued-token queued token)) enough
