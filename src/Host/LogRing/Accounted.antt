-- ===== src/Host/LogRing/Accounted.antt =====
-- src/standalone/pw_host/rt_log_ring.rs: what becomes of the log events that the ring path takes.
use mathlib.Core.Path.{subst}
use mathlib.Core.Option.{some-injective}
use mathlib.Core.List.{append_assoc, append-nil}
use nam_audio_pipe.Base.{
  ℕ, suc, ◌+◌, ◌%◌, ◌≡◌, refl, sym, ap, ◌∙◌, ◌&&◌, not, if◌then◌else◌, Bool, true, false, inl, inr,
  Option, none, some, List, [], ◌∷◌, ◌++◌, arith, Bool-cases, head?, tail, u64_max,
}
use nam_audio_pipe.Recording.Spsc.{Spsc}
use nam_audio_pipe.Host.LogRing.{
  RtLogRecord, LogRing, initial, install, seated, try_offload, offload, push_or_count, emitted,
  drain_from, drain, rt_ring_capacity,
}
use nam_audio_pipe.Host.LogRing.Events.{
  Event, log_call, drain_turn, install_call, restore_call, step, run, taken, all_taken,
}
use nam_audio_pipe.Host.LogRing.Routed.{try_offload-routed, run-initial-IsRouted}

-- `Lost n kept all`: `kept` is `all` without n of its items, in the same order.
pub data Lost : ℕ → List RtLogRecord → List RtLogRecord → Type 0 where
  nothing : Lost 0 [] []
  keep :
      {n : ℕ} {kept all : List RtLogRecord} (r : RtLogRecord)
      → Lost n kept all
      → Lost n (r ∷ kept) (r ∷ all)
  lose :
      {n : ℕ} {kept all : List RtLogRecord} (r : RtLogRecord)
      → Lost n kept all
      → Lost (suc n) kept (r ∷ all)

keep_last :
    {n : ℕ} {kept all : List RtLogRecord} (r : RtLogRecord)
    → Lost n kept all
    → Lost n (kept ++ r ∷ []) (all ++ r ∷ [])
keep_last r nothing = keep r nothing
keep_last r (keep x more) = keep x (keep_last r more)
keep_last r (lose x more) = lose x (keep_last r more)

lose_last :
    {n : ℕ} {kept all : List RtLogRecord} (r : RtLogRecord)
    → Lost n kept all
    → Lost (suc n) kept (all ++ r ∷ [])
lose_last r nothing = lose r nothing
lose_last r (keep x more) = keep x (lose_last r more)
lose_last r (lose x more) = lose x (lose_last r more)

module _ (R : Spsc RtLogRecord) where
  abbrev pub waiting : Option R.Ring → List RtLogRecord
  waiting none = []
  waiting (some ring) = R.contents ring

  pub record IsKept (all : List RtLogRecord) (queue drained : List RtLogRecord) (dropped : ℕ)
      : Type 0 where
    pub lost : ℕ
    pub order : Lost lost (drained ++ queue) all
    pub counted : dropped ≡ lost % (u64_max + 1)

  abbrev Kept : List RtLogRecord → LogRing R → Type 0
  Kept all s = IsKept all (waiting s.rt_producer) s.drained s.pw_log_dropped

  push-kept :
      (o : Bool × R.Ring) (r : RtLogRecord) (s : LogRing R) (all queue : List RtLogRecord)
      → R.contents o.1 ≡ (if o.0 then queue ++ r ∷ [] else queue)
      → IsKept all queue s.drained s.pw_log_dropped
      → Kept (all ++ r ∷ []) (push_or_count R o s)
  push-kept (true, ring) r s all queue h v = record {
    lost = v.lost;
    order =
        subst (λ q. Lost v.lost q (all ++ r ∷ []))
          (append_assoc s.drained queue (r ∷ []) ∙ ap (◌++◌ s.drained) (sym h))
          (keep_last r v.order);
    counted = v.counted;
  }
  push-kept (false, ring) r s all queue h v = record {
    lost = suc v.lost;
    order =
        subst (λ q. Lost (suc v.lost) q (all ++ r ∷ [])) (ap (◌++◌ s.drained) (sym h))
          (lose_last r v.order);
    counted = omega (arith, v.counted);
  }

  emitted-kept :
      (o : Option RtLogRecord × R.Ring) (s : LogRing R) (all queue : List RtLogRecord)
      → o.0 ≡ head? queue
      → R.contents o.1 ≡ tail queue
      → IsKept all queue s.drained s.pw_log_dropped
      → Kept all (emitted R o s)
  emitted-kept (none, ring) s all [] g h v =
      subst (λ q. IsKept all q s.drained s.pw_log_dropped) (sym h) v
  emitted-kept (none, ring) s all (x ∷ xs) g h v = cc
  emitted-kept (some r, ring) s all [] g h v = cc
  emitted-kept (some r, ring) s all (x ∷ xs) g h v = record {
    lost = v.lost;
    order =
        subst (λ q. Lost v.lost q all)
          (ap (λ y. s.drained ++ y ∷ xs) (sym (some-injective _ _ g))
            ∙ sym (append_assoc s.drained (r ∷ []) xs)
            ∙ ap (◌++◌ (s.drained ++ r ∷ [])) (sym h))
          v.order;
    counted = v.counted;
  }

  -- What the call takes of a producer seat.
  abbrev taken_by : Bool × LogRing R → RtLogRecord → List RtLogRecord
  taken_by o r = if o.0 then r ∷ [] else []

  offload-kept :
      (o : Option R.Ring) (r : RtLogRecord) (s : LogRing R) (all : List RtLogRecord)
      → IsKept all (waiting o) s.drained s.pw_log_dropped
      → s.rt_producer ≡ o
      → Kept (all ++ taken_by (offload R o r s) r) (offload R o r s).1
  offload-kept none r s all v e = rw (append-nil, e) v
  offload-kept (some ring) r s all v e =
      push-kept (R.push ring r) r s all (R.contents ring)
        (rw (R.push_accepted ring r) (R.contents_push ring r)) v

  try_offload-kept :
      (marked : Bool) (r : RtLogRecord) (s : LogRing R) (all : List RtLogRecord)
      → Kept all s
      → Kept (all ++ taken_by (try_offload R marked r s) r) (try_offload R marked r s).1
  unfolding try_offload
  try_offload-kept marked r s all v = elim (Bool-cases (s.ring_mode && marked)) [
    | inl e ↦ rw e (offload-kept s.rt_producer r s all v refl)
    | inr e ↦ rw (e, append-nil) v
  ]

  drain-kept :
      (o : Option R.Ring) (s : LogRing R) (all : List RtLogRecord)
      → s.rt_producer ≡ o
      → Kept all s
      → Kept all (drain_from R o s)
  drain-kept none s all e v = v
  drain-kept (some ring) s all e v =
      emitted-kept (R.pop ring) s all (R.contents ring) (R.pop_item ring) (R.contents_pop ring)
        (subst (λ o. IsKept all (waiting o) s.drained s.pw_log_dropped) e v)

  seated-kept :
      (o : Option R.Ring) (s : LogRing R) (all : List RtLogRecord)
      → s.rt_producer ≡ o
      → Kept all s
      → Kept all (seated R o s)
  seated-kept none s all e v =
      subst (λ q. IsKept all q s.drained s.pw_log_dropped)
        (ap waiting e ∙ sym (R.contents_new rt_ring_capacity)) v
  seated-kept (some ring) s all e v = v

  either_kept :
      (b : Bool) (s u : LogRing R) (all : List RtLogRecord)
      → Kept all s
      → Kept all u
      → Kept all (if b then s else u)
  either_kept true s u all v w = v
  either_kept false s u all v w = w

  install-kept :
      (rollback spawned : Bool) (s : LogRing R) (all : List RtLogRecord)
      → Kept all s
      → Kept all (install R rollback spawned s)
  install-kept rollback spawned s all v =
      let seat = either_kept (not spawned) _ _ all v (seated-kept s.rt_producer s all refl v) in
      either_kept rollback _ _ all v (either_kept s.rt_ring_installed _ _ all v seat)

  step-kept :
      (e : Event) (s : LogRing R) (all : List RtLogRecord)
      → Kept all s
      → Kept (all ++ taken R e s) (step R e s)
  unfolding drain
  step-kept (log_call marked r) s all v = try_offload-kept marked r s all v
  step-kept drain_turn s all v = rw append-nil (drain-kept s.rt_producer s all refl v)
  step-kept (install_call rollback spawned) s all v =
      rw append-nil (install-kept rollback spawned s all v)
  step-kept restore_call s all v = rw append-nil v

  run-kept :
      (es : List Event) (s : LogRing R) (all : List RtLogRecord)
      → Kept all s
      → Kept (all ++ all_taken R es s) (run R es s)
  run-kept [] s all v = rw append-nil v
  run-kept (e ∷ es) s all v =
      subst (λ l. Kept l (run R es (step R e s)))
        (append_assoc all (taken R e s) (all_taken R es (step R e s)))
        (run-kept es (step R e s) (all ++ taken R e s) (step-kept e s all v))

  -- After any interleaving of log calls, drainer turns, installs and restores, the records that the
  -- drainer emitted, followed by those still queued, are the records that the ring path took, in
  -- order, without those that were discarded, and `pw_log_dropped` is their number modulo 2^64. With
  -- the counter at 0 and fewer than 2^64 losses nothing was lost or reordered. And the ring
  -- path takes exactly the log calls of a marked thread while the route is armed: none of these falls
  -- back to the synchronous path.
  pub log_accounted :
      (es : List Event)
      → IsKept
          (all_taken R es (initial R))
          (waiting (run R es (initial R)).rt_producer)
          (run R es (initial R)).drained
          (run R es (initial R)).pw_log_dropped
        × ((marked : Bool) (r : RtLogRecord)
            → (try_offload R marked r (run R es (initial R))).0
              ≡ ((run R es (initial R)).ring_mode && marked))
  log_accounted es = (
    run-kept es (initial R) [] (record { lost = 0; order = nothing; counted = omega arith }),
    λ marked r. try_offload-routed R marked r (run R es (initial R)) (run-initial-IsRouted R es),
  )
