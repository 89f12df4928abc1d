-- ===== src/Host/BackendStatus/Coherence.antt =====
-- src/standalone/pw_host/status.rs: what holds of the backend status after any calls.
use nam_audio_pipe.Base.{
  ◌&&◌, ◌≡◌, refl, ap, ◌∙◌, not, if◌then◌else◌, Bool, true, false, List, [], ◌∷◌, is_some,
}
use nam_audio_pipe.Host.BackendStatus.{
  BackendState, starting, running_state, degraded, matches_failed_flag, is_running_state, Stream,
  capture, playback, other, StreamStatus, Backend, mark_format_contract_ok, reject_format,
  set_state_locked, recovers, is_degraded, update_stream_health_locked, store_active, latch_active,
  set_stream_active, mark_format_ok, mark_running, mark_degraded, mark_failed, mark_terminated,
  begin_reconnect, initial, Call, streaming, format_ok, violation, running_call, degrade, fail,
  terminate, reconnect, apply, run,
}

-- The flags and mirrors agree with the state.
pub record IsCoherent (b : Backend) : Type 0 where
  pub flagged : matches_failed_flag b.state b.failed ≡ true
  pub mirrored : b.running ≡ is_running_state b.state
  pub detailed : is_some b.failure_detail ≡ b.failed
  pub capture_latched : b.stream_status.capture_active ≡ b.capture_active
  pub playback_latched : b.stream_status.playback_active ≡ b.playback_active

set_state_locked-IsCoherent :
    (st : BackendState) (b : Backend)
    → IsCoherent b
    → matches_failed_flag st b.failed ≡ true
    → IsCoherent (set_state_locked st b)
unfolding set_state_locked
set_state_locked-IsCoherent st b v h = record {
  flagged = h;
  mirrored = refl;
  detailed = v.detailed;
  capture_latched = v.capture_latched;
  playback_latched = v.playback_latched;
}

-- What the health update may do: nothing, or a move of a backend that has not failed.
data Moves (b : Backend) : Backend → Type 0 where
  stays : Moves b b
  moves :
      (st : BackendState)
      → b.failed ≡ false
      → matches_failed_flag st false ≡ true
      → Moves b (set_state_locked st b)

pick : {b x y : Backend} (c : Bool) → Moves b x → Moves b y → Moves b (if c then x else y)
pick true m n = m
pick false m n = n

guarded :
    {b x y : Backend} (c : Bool)
    → Moves b x
    → (c ≡ false → Moves b y)
    → Moves b (if c then x else y)
guarded true m n = m
guarded false m n = n refl

update-Moves : (b : Backend) → Moves b (update_stream_health_locked b)
unfolding update_stream_health_locked matches_failed_flag
update-Moves b = guarded b.failed stays (λ f.
    pick
      (b.capture_active
        && b.playback_active
        && (b.stream_status.capture_format_ok && b.stream_status.playback_format_ok))
      (pick (recovers b.state) (moves running_state f refl) stays)
      (pick (is_running_state b.state)
        (pick (not (b.capture_active && b.playback_active)) (moves starting f refl) (
          pick (not (b.stream_status.capture_format_ok && b.stream_status.playback_format_ok))
            (moves (degraded 0) f refl) stays))
        (pick
          (is_degraded b.state
            && (b.stream_status.capture_format_ok && b.stream_status.playback_format_ok))
          (moves starting f refl) stays)))

Moves-IsCoherent : {b c : Backend} → Moves b c → IsCoherent b → IsCoherent c
Moves-IsCoherent stays v = v
Moves-IsCoherent {b} (moves st f h) v =
    set_state_locked-IsCoherent st b v (ap (matches_failed_flag st) f ∙ h)

latched-IsCoherent :
    (stream : Stream) (active : Bool) (b : Backend)
    → IsCoherent b
    → IsCoherent (latch_active stream active (store_active stream active b))
latched-IsCoherent capture active b v = record {
  flagged = v.flagged;
  mirrored = v.mirrored;
  detailed = v.detailed;
  capture_latched = refl;
  playback_latched = v.playback_latched;
}
latched-IsCoherent playback active b v = record {
  flagged = v.flagged;
  mirrored = v.mirrored;
  detailed = v.detailed;
  capture_latched = v.capture_latched;
  playback_latched = refl;
}
latched-IsCoherent (other name) active b v = record {
  flagged = v.flagged;
  mirrored = v.mirrored;
  detailed = v.detailed;
  capture_latched = v.capture_latched;
  playback_latched = v.playback_latched;
}

format_kept :
    (stream : Stream) (s : StreamStatus)
    → ((mark_format_contract_ok stream s).capture_active ≡ s.capture_active)
      × ((mark_format_contract_ok stream s).playback_active ≡ s.playback_active)
      × ((reject_format stream s).capture_active ≡ s.capture_active)
      × ((reject_format stream s).playback_active ≡ s.playback_active)
format_kept capture s = (refl, refl, refl, refl)
format_kept playback s = (refl, refl, refl, refl)
format_kept (other name) s = (refl, refl, refl, refl)

relatched :
    (b : Backend) (s : StreamStatus)
    → s.capture_active ≡ b.stream_status.capture_active
    → s.playback_active ≡ b.stream_status.playback_active
    → IsCoherent b
    → IsCoherent (record b { stream_status = s })
relatched b s c p v = record {
  flagged = v.flagged;
  mirrored = v.mirrored;
  detailed = v.detailed;
  capture_latched = c ∙ v.capture_latched;
  playback_latched = p ∙ v.playback_latched;
}

apply-IsCoherent : (c : Call) (b : Backend) → IsCoherent b → IsCoherent (apply c b)
apply-IsCoherent (streaming stream active) b v =
    unfold set_stream_active in
    Moves-IsCoherent (update-Moves _) (latched-IsCoherent stream active b v)
apply-IsCoherent (format_ok stream) b v =
    unfold mark_format_ok in
    let (c, p, r, q) = format_kept stream b.stream_status in
    Moves-IsCoherent (update-Moves _)
      (relatched b (mark_format_contract_ok stream b.stream_status) c p v)
apply-IsCoherent (violation stream) b v =
    let (c, p, r, q) = format_kept stream b.stream_status in
    relatched b (reject_format stream b.stream_status) r q v
apply-IsCoherent running_call b v =
    unfold mark_running matches_failed_flag in
    Moves-IsCoherent (guarded b.failed stays (λ f. moves running_state f refl)) v
apply-IsCoherent (degrade reason) b v =
    unfold mark_degraded matches_failed_flag in
    Moves-IsCoherent (guarded b.failed stays (λ f. moves (degraded reason) f refl)) v
apply-IsCoherent (fail stream reason) b v =
    unfold mark_failed set_state_locked matches_failed_flag in
    record {
      flagged = refl;
      mirrored = refl;
      detailed = refl;
      capture_latched = v.capture_latched;
      playback_latched = v.playback_latched;
    }
apply-IsCoherent terminate b v =
    unfold mark_terminated set_state_locked matches_failed_flag in
    record {
      flagged = refl;
      mirrored = refl;
      detailed = v.detailed;
      capture_latched = refl;
      playback_latched = refl;
    }
apply-IsCoherent (reconnect attempt total backoff) b v =
    unfold begin_reconnect set_state_locked matches_failed_flag in
    record {
      flagged = refl;
      mirrored = refl;
      detailed = refl;
      capture_latched = refl;
      playback_latched = refl;
    }

run-apply-IsCoherent : (cs : List Call) (b : Backend) → IsCoherent b → IsCoherent (run cs b)
run-apply-IsCoherent [] b v = v
run-apply-IsCoherent (c ∷ cs) b v = run-apply-IsCoherent cs (apply c b) (apply-IsCoherent c b v)

-- From a backend that `with_rt_status` or `with_rt_and_stream_status` made, after any sequence of
-- calls that do not overlap: the failed flag matches the state as
-- `matches_failed_flag` wants it, the lock-free mirror is set exactly in the state `Running`, a
-- failure detail is kept exactly while the backend is failed, and the latches that the RT thread
-- reads are the backend's own.
pub run-IsCoherent : (cs : List Call) (s : StreamStatus) → IsCoherent (run cs (initial s))
unfolding matches_failed_flag
run-IsCoherent cs s = run-apply-IsCoherent cs (initial s) (record {
  flagged = refl;
  mirrored = refl;
  detailed = refl;
  capture_latched = refl;
  playback_latched = refl;
})
