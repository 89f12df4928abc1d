-- ===== src/Recording/Disk/Session/Inline.antt =====
-- src/recording/disk.rs, `disk_writer_loop_inline`: the rollback transport, whose one ring carries the
-- formats, the blocks and the stop token.
use mathlib.Core.Path.{subst}
use mathlib.Core.List.{append_assoc, append-nil}
use nam_audio_pipe.Base.{
  ℕ, zero, suc, ◌+◌, ◌<◌, ◌≡◌, refl, sym, ap, ◌∙◌, Bool, true, false, Option, none, some, List, [],
  ◌∷◌, ◌++◌, length, head?, tail, arith,
}
use nam_audio_pipe.Recording.Spsc.{Spsc}
use nam_audio_pipe.Recording.Buffer.{AlignedBlock, AudioMetadata, RingPayload, audio, format, stop}
use nam_audio_pipe.Recording.Status.{Observed}
use nam_audio_pipe.Recording.Disk.Worker.{
  WavSink, Worker, open_new_part, write_block_with_overflow_rollover,
}
use nam_audio_pipe.Recording.Disk.Loop.{Producers, Ended, proceed, picked, disk_writer_loop_inline}
use nam_audio_pipe.Recording.Disk.Parts.{
  SinkLaws, IsFilled, Played, played, played_one, IsRecording, between, no_files,
}
use nam_audio_pipe.Recording.Disk.Parts.Opening.{open_new_part-IsOpened, IsOpened-IsRecording}
use nam_audio_pipe.Recording.Disk.Parts.Writing.{rollover-IsRecording}
use nam_audio_pipe.Recording.Disk.Parts.Ending.{IsConcluded, aborted, conclude-IsConcluded}
use nam_audio_pipe.Recording.Disk.Session.{started}
use nam_audio_pipe.Recording.Delivery.{Event, sound, new_format}

-- The ring behind a stopped recording: filled blocks and formats, then the token.
pub data IsCarrying : List RingPayload → List Event → Type 0 where
  ended : (after : List RingPayload) → IsCarrying (stop ∷ after) []
  block :
      {rs : List RingPayload} {es : List Event} (b : AlignedBlock) (xs : List ℕ)
      → IsFilled b xs
      → IsCarrying rs es
      → IsCarrying (audio b ∷ rs) (sound xs ∷ es)
  change :
      {rs : List RingPayload} {es : List Event} (m : AudioMetadata)
      → IsCarrying rs es
      → IsCarrying (format m ∷ rs) (new_format m ∷ es)

played-new_format :
    (o : Option AudioMetadata) (m : AudioMetadata) (es : List Event)
    → played o (new_format m ∷ es) ≡ played (some m) es
played-new_format none m es = refl
played-new_format (some n) m es = refl

module _ (I : Spsc RingPayload) (env : Producers I.Ring)
    (quiet : (j : ℕ) (r : I.Ring) → (env.before_turn) j r ≡ r) where
  at_head :
      {rs : List RingPayload} (i : ℕ) (r : I.Ring) (x : RingPayload)
      → I.contents r ≡ x ∷ rs
      → (I.pop ((env.before_turn) i r) ≡ (some x, (I.pop r).1)) × (I.contents (I.pop r).1 ≡ rs)
  at_head i r x e = (
    ap I.pop (quiet i r) ∙ ap (λ h. (h, (I.pop r).1)) (I.pop_item r ∙ ap head? e),
    I.contents_pop r ∙ ap tail e,
  )

module _ {S : WavSink} {L : SinkLaws S} (I : Spsc RingPayload) where
  -- A call that went well is followed by the rest of the loop.
  continued :
      {ps : List Played} (r : I.Ring) (o : Bool × Worker S) (rest : Worker S → Ended I.Ring S)
      → (o.0 ≡ true → IsConcluded L ps (rest o.1))
      → IsConcluded L ps (proceed r o rest)
  continued r (true, w) rest v = v refl
  continued r (false, w) rest v = aborted r w

  module _ (env : Producers I.Ring) (quiet : (j : ℕ) (r : I.Ring) → (env.before_turn) j r ≡ r) where
    -- What the next payload decides, for a rest of the loop that fits its ring.
    inline_turn :
        {rs : List RingPayload} {es : List Event} {o : Option AudioMetadata} {ps : List Played}
        (i : ℕ) (r : I.Ring) (w : Worker S) (rest : I.Ring → Worker S → Ended I.Ring S)
        → IsCarrying rs es
        → I.contents r ≡ rs
        → IsRecording L w o ps
        → ((ts : List RingPayload) (fs : List Event) (n : Option AudioMetadata) (qs : List Played)
              (u : Worker S)
            → IsCarrying ts fs
            → I.contents (I.pop r).1 ≡ ts
            → suc (length fs) ≡ length es
            → IsRecording L u n qs
            → IsConcluded L (qs ++ played n fs) (rest (I.pop r).1 u))
        → IsConcluded L (ps ++ played o es) (picked I env i w rest (I.pop ((env.before_turn) i r)))
    inline_turn {ps = ps} i r w rest (ended after) e v more =
        let (found, behind) = at_head I env quiet i r stop e in
        subst (λ q. IsConcluded L (ps ++ []) (picked I env i w rest q)) (sym found)
          (subst (λ l. IsConcluded L l (picked I env i w rest (some stop, (I.pop r).1)))
            (sym (append-nil ps)) (conclude-IsConcluded (I.pop r).1 w v))
    inline_turn {o = o} {ps = ps} i r w rest (block {es = es} b xs filled c) e v more =
        let (found, behind) = at_head I env quiet i r (audio b) e in
        subst
          (λ q.
            IsConcluded L (ps ++ (played_one o (sound xs) ++ played o es))
              (picked I env i w rest q))
          (sym found)
          (continued (I.pop r).1 (write_block_with_overflow_rollover b w) (rest (I.pop r).1) (λ h.
            subst
              (λ l. IsConcluded L l (rest (I.pop r).1 (write_block_with_overflow_rollover b w).1))
              (append_assoc ps (played_one o (sound xs)) (played o es))
              (more _ es o (ps ++ played_one o (sound xs))
                (write_block_with_overflow_rollover b w).1 c behind refl
                (rollover-IsRecording b xs filled w v h))))
    inline_turn {o = o} {ps = ps} i r w rest (change {es = es} m c) e v more =
        let (found, behind) = at_head I env quiet i r (format m) e in
        subst (λ q. IsConcluded L (ps ++ played o (new_format m ∷ es)) (picked I env i w rest q))
          (sym found)
          (continued (I.pop r).1 (open_new_part m w) (rest (I.pop r).1) (λ h.
            subst (λ l. IsConcluded L (ps ++ l) (rest (I.pop r).1 (open_new_part m w).1))
              (sym (played-new_format o m es))
              (more _ es (some m) ps (open_new_part m w).1 c behind refl
                (IsOpened-IsRecording m (open_new_part m w).1 (open_new_part-IsOpened m w v h)))))

    inline_loop :
        {rs : List RingPayload} {es : List Event} {o : Option AudioMetadata} {ps : List Played}
        (fuel i : ℕ) (r : I.Ring) (w : Worker S)
        → IsCarrying rs es
        → I.contents r ≡ rs
        → length es < fuel
        → IsRecording L w o ps
        → IsConcluded L (ps ++ played o es) (disk_writer_loop_inline I fuel env i r w)
    unfolding disk_writer_loop_inline
    inline_loop zero i r w c e enough v = absurd (omega (arith, enough))
    inline_loop (suc fuel) i r w c e enough v =
        inline_turn i r w (disk_writer_loop_inline I fuel env (i + 1)) c e v
          (λ ts fs n qs u d f count x.
            inline_loop fuel (i + 1) (I.pop r).1 u d f (omega (arith, count, enough)) x)

    -- When the ring holds formats and filled blocks and behind them the stop token, and nobody sends
    -- any more: with more turns than there are items before the token, the inline loop of a worker
    -- that has just started returns. Unless it returns an error, no file is left open, and the
    -- finalized files hold exactly the blocks before the token and behind the first format, in order
    -- and each in the format announced last before it.
    pub inline_completes :
        {rs : List RingPayload} {es : List Event} (fuel : ℕ) (r : I.Ring) (status : Observed)
        → IsCarrying rs es
        → I.contents r ≡ rs
        → length es < fuel
        → IsConcluded L
            (played none es)
            (disk_writer_loop_inline I fuel env 0 r (started {S = S} status))
    inline_completes fuel r status c e enough =
        inline_loop fuel 0 r (started status) c e enough (between refl no_files)
