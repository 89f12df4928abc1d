-- ===== src/Host/LogRing/Routed.antt =====
-- src/standalone/pw_host/rt_log_ring.rs: the routing gate and the producer behind it.
use nam_audio_pipe.Base.{
  ◌≡◌, refl, ◌&&◌, not, if◌then◌else◌, Bool, true, false, inl, inr, Option, none, some, List, [],
  ◌∷◌, Bool-cases, is_some,
}
use nam_audio_pipe.Recording.Spsc.{Spsc}
use nam_audio_pipe.Host.LogRing.{
  RtLogRecord, LogRing, initial, install, seated, try_offload, offload, push_or_count, emitted,
  drain_from, drain,
}
use nam_audio_pipe.Host.LogRing.Events.{
  Event, log_call, drain_turn, install_call, restore_call, step, run,
}

left_true : (a b : Bool) → (a && b) ≡ true → a ≡ true
left_true true b e = refl
left_true false b e = cc

module _ (R : Spsc RtLogRecord) where
  -- An armed route has a producer.
  pub record IsRouted (s : LogRing R) : Type 0 where
    pub routed : s.ring_mode ≡ true → is_some s.rt_producer ≡ true
    pub latched : s.rt_ring_installed ≡ true → is_some s.rt_producer ≡ true

  either-IsRouted :
      (b : Bool) (s u : LogRing R)
      → (b ≡ true → IsRouted s)
      → IsRouted u
      → IsRouted (if b then s else u)
  either-IsRouted true s u v w = v refl
  either-IsRouted false s u v w = w

  seated-IsRouted : (o : Option R.Ring) (s : LogRing R) → IsRouted (seated R o s)
  seated-IsRouted none s = record { routed = λ e. refl; latched = λ e. refl }
  seated-IsRouted (some ring) s = record { routed = λ e. cc; latched = λ e. cc }

  install-IsRouted :
      (rollback spawned : Bool) (s : LogRing R)
      → IsRouted s
      → IsRouted (install R rollback spawned s)
  install-IsRouted rollback spawned s v =
      either-IsRouted rollback _ _ (λ e. v)
        (either-IsRouted s.rt_ring_installed _ _
          (λ e. record { routed = λ f. v.latched e; latched = v.latched })
          (either-IsRouted (not spawned) _ _ (λ e. record { routed = λ f. cc; latched = λ f. cc })
            (seated-IsRouted s.rt_producer s)))

  push_or_count-IsRouted : (o : Bool × R.Ring) (s : LogRing R) → IsRouted (push_or_count R o s)
  push_or_count-IsRouted (true, ring) s = record { routed = λ e. refl; latched = λ e. refl }
  push_or_count-IsRouted (false, ring) s = record { routed = λ e. refl; latched = λ e. refl }

  offload-IsRouted :
      (o : Option R.Ring) (r : RtLogRecord) (s : LogRing R)
      → IsRouted s
      → IsRouted (offload R o r s).1
  offload-IsRouted none r s v = v
  offload-IsRouted (some ring) r s v = push_or_count-IsRouted (R.push ring r) s

  try_offload-IsRouted :
      (marked : Bool) (r : RtLogRecord) (s : LogRing R)
      → IsRouted s
      → IsRouted (try_offload R marked r s).1
  unfolding try_offload
  try_offload-IsRouted marked r s v = elim (Bool-cases (s.ring_mode && marked)) [
    | inl e ↦ rw e (offload-IsRouted s.rt_producer r s v)
    | inr e ↦ rw e v
  ]

  emitted-IsRouted : (o : Option RtLogRecord × R.Ring) (s : LogRing R) → IsRouted (emitted R o s)
  emitted-IsRouted (none, ring) s = record { routed = λ e. refl; latched = λ e. refl }
  emitted-IsRouted (some r, ring) s = record { routed = λ e. refl; latched = λ e. refl }

  drain-IsRouted : (o : Option R.Ring) (s : LogRing R) → IsRouted s → IsRouted (drain_from R o s)
  drain-IsRouted none s v = v
  drain-IsRouted (some ring) s v = emitted-IsRouted (R.pop ring) s

  step-IsRouted : (e : Event) (s : LogRing R) → IsRouted s → IsRouted (step R e s)
  unfolding drain
  step-IsRouted (log_call marked r) s v = try_offload-IsRouted marked r s v
  step-IsRouted drain_turn s v = drain-IsRouted s.rt_producer s v
  step-IsRouted (install_call rollback spawned) s v = install-IsRouted rollback spawned s v
  step-IsRouted restore_call s v = record { routed = λ e. cc; latched = v.latched }

  run-IsRouted : (es : List Event) (s : LogRing R) → IsRouted s → IsRouted (run R es s)
  run-IsRouted [] s v = v
  run-IsRouted (e ∷ es) s v = run-IsRouted es (step R e s) (step-IsRouted e s v)

  offload-taken :
      (o : Option R.Ring) (r : RtLogRecord) (s : LogRing R)
      → is_some o ≡ true
      → (offload R o r s).0 ≡ true
  offload-taken none r s e = cc
  offload-taken (some ring) r s e = refl

  pub run-initial-IsRouted : (es : List Event) → IsRouted (run R es (initial R))
  run-initial-IsRouted es =
      run-IsRouted es (initial R) (record { routed = λ e. cc; latched = λ e. cc })

  -- The ring path takes exactly the calls of a marked thread while the route is armed.
  pub try_offload-routed :
      (marked : Bool) (r : RtLogRecord) (s : LogRing R)
      → IsRouted s
      → (try_offload R marked r s).0 ≡ (s.ring_mode && marked)
  unfolding try_offload
  try_offload-routed marked r s v = elim (Bool-cases (s.ring_mode && marked)) [
    | inl e ↦ rw e (offload-taken s.rt_producer r s (v.routed (left_true s.ring_mode marked e)))
    | inr e ↦ rw e refl
  ]
