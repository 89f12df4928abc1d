-- ===== src/Host/BackendStatus/Sticky.antt =====
-- src/standalone/pw_host/status.rs: that a failure is sticky.
use mathlib.Core.Bool.{true≢false}
use mathlib.Core.Path.{subst}
use nam_audio_pipe.Base.{ℕ, ◌||◌, ◌≡◌, refl, sym, ap, ◌∙◌, Bool, true, false, List, [], ◌∷◌, arith}
use nam_audio_pipe.Host.BackendStatus.{
  BackendState, failed_state, terminated, Stream, capture, playback, other, Backend,
  set_state_locked, update_stream_health_locked, store_active, latch_active, set_stream_active,
  mark_format_ok, mark_running, mark_degraded, mark_failed, mark_terminated, Call, streaming,
  format_ok, violation, running_call, degrade, fail, terminate, reconnect, apply, run,
}

abbrev pub is_reconnect : Call → Bool
is_reconnect (reconnect attempt total backoff) = true
is_reconnect _ = false

abbrev pub has_reconnect : List Call → Bool
has_reconnect [] = false
has_reconnect (c ∷ cs) = is_reconnect c || has_reconnect cs

-- A failed backend reports its failure, or is terminated.
abbrev pub is_down : BackendState → Bool
is_down (failed_state stream reason) = true
is_down terminated = true
is_down _ = false

update-failed : (b : Backend) → b.failed ≡ true → update_stream_health_locked b ≡ b
unfolding update_stream_health_locked
update-failed b f = ground arith

store_active-failed :
    (stream : Stream) (active : Bool) (b : Backend)
    → ((latch_active stream active (store_active stream active b)).failed ≡ b.failed)
      × ((latch_active stream active (store_active stream active b)).state ≡ b.state)
store_active-failed capture active b = (refl, refl)
store_active-failed playback active b = (refl, refl)
store_active-failed (other name) active b = (refl, refl)

abbrev IsDown : Backend → Type 0
IsDown b = (b.failed ≡ true) × (is_down b.state ≡ true)

apply-failed : (c : Call) (b : Backend) → is_reconnect c ≡ false → IsDown b → IsDown (apply c b)
apply-failed (streaming stream active) b r (f, d) =
    unfold set_stream_active in
    let (g, h) = store_active-failed stream active b in
    subst IsDown (sym (update-failed _ (g ∙ f))) (g ∙ f, ap is_down h ∙ d)
apply-failed (format_ok stream) b r (f, d) =
    unfold mark_format_ok in subst IsDown (sym (update-failed _ f)) (f, d)
apply-failed (violation stream) b r (f, d) = (f, d)
apply-failed running_call b r (f, d) = unfold mark_running in rw f (refl, d)
apply-failed (degrade reason) b r (f, d) = unfold mark_degraded in rw f (refl, d)
apply-failed (fail stream reason) b r (f, d) = unfold mark_failed set_state_locked in (refl, refl)
apply-failed terminate b r (f, d) = unfold mark_terminated set_state_locked in (f, refl)
apply-failed (reconnect attempt total backoff) b r (f, d) = absurd (true≢false r)

run-failed :
    (cs : List Call) (b : Backend) → has_reconnect cs ≡ false → IsDown b → IsDown (run cs b)
run-failed [] b r v = v
run-failed (c ∷ cs) b r v =
    run-failed cs (apply c b) (or_right (is_reconnect c) (has_reconnect cs) r)
      (apply-failed c b (or_left (is_reconnect c) (has_reconnect cs) r) v)
  where
    or_left : (x y : Bool) → x || y ≡ false → x ≡ false
    or_left false y h = refl
    or_left true y h = h

    or_right : (x y : Bool) → x || y ≡ false → y ≡ false
    or_right false y h = h
    or_right true y h = absurd (true≢false h)

-- Behind a failure, after any calls without a new reconnect cycle, the backend is still failed and
-- its state is `Failed` or, once it was terminated, `Terminated`: streams that come back, formats
-- that become valid and explicit transitions do not bring it up again.
pub failure_sticky :
    (stream reason : ℕ) (cs : List Call) (b : Backend)
    → has_reconnect cs ≡ false
    → ((run cs (mark_failed stream reason b)).failed ≡ true)
      × (is_down (run cs (mark_failed stream reason b)).state ≡ true)
unfolding mark_failed set_state_locked
failure_sticky stream reason cs b h = run-failed cs (mark_failed stream reason b) h (refl, refl)
