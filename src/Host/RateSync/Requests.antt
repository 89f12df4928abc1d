-- ===== src/Host/RateSync/Requests.antt =====
-- src/standalone/pw_host/rt_callback/rate_sync.rs: that a request is published once, that none is
-- lost, and that a failed one is not repeated.
use nam_audio_pipe.Base.{
  ℕ, ◌<◌, ◌≡◌, sym, ap, ◌∙◌, Bool, true, false, some, arith, Bool-cases, inl, inr,
}
use nam_audio_pipe.Recording.Spsc.{Spsc}
use nam_audio_pipe.Host.RateSync.{
  Rates, rates_eq, RateSyncState, record_failure, RtStatus, desired_rate, cancel_request,
  publish_request, sync_active, sync_other, sync_at, sync_rate, rollback_guard, Request, capture,
  deliver,
}

sync_active-idempotent :
    (active : Rates) (r : RtStatus) (s : RateSyncState)
    → sync_active active (sync_active active r s).0 (sync_active active r s).1
      ≡ sync_active active r s
unfolding cancel_request
sync_active-idempotent active r s = ground arith

sync_other-idempotent :
    (desired : Rates) (r : RtStatus) (s : RateSyncState)
    → sync_other desired (sync_other desired r s).0 (sync_other desired r s).1
      ≡ sync_other desired r s
unfolding publish_request
sync_other-idempotent desired r s = ground arith

sync_active-desired :
    (active : Rates) (r : RtStatus) (s : RateSyncState)
    → (sync_active active r s).1.desired_host_rate ≡ s.desired_host_rate
sync_active-desired active r s = ground arith

sync_other-desired :
    (desired : Rates) (r : RtStatus) (s : RateSyncState)
    → (sync_other desired r s).1.desired_host_rate ≡ s.desired_host_rate
sync_other-desired desired r s = ground arith

sync_at-idempotent :
    (desired active : Rates) (r : RtStatus) (s : RateSyncState)
    → sync_at desired active (sync_at desired active r s).0 (sync_at desired active r s).1
      ≡ sync_at desired active r s
sync_at-idempotent desired active r s = elim (Bool-cases (rates_eq desired active)) [
  | inl e ↦ rw (e, sync_at) (sync_active-idempotent active r s)
  | inr e ↦ rw (e, sync_at) (sync_other-idempotent desired r s)
]

sync_at-desired :
    (desired active : Rates) (r : RtStatus) (s : RateSyncState)
    → (sync_at desired active r s).1.desired_host_rate ≡ s.desired_host_rate
sync_at-desired desired active r s = elim (Bool-cases (rates_eq desired active)) [
  | inl e ↦ rw (e, sync_at) (sync_active-desired active r s)
  | inr e ↦ rw (e, sync_at) (sync_other-desired desired r s)
]

settled_rate :
    (detected current : ℕ) (s t : RateSyncState)
    → t.desired_host_rate ≡ desired_rate detected current s
    → desired_rate 0 current t ≡ desired_rate detected current s
settled_rate detected current s t h = ground arith

-- Whatever was detected and whatever is in flight: a second `sync_rate` with no new detection and
-- the same resampler and model changes neither the status nor the callback's state. A request is
-- published once.
sync_rate-idempotent :
    (detected : ℕ) (active : Rates) (nam : ℕ) (r : RtStatus) (s : RateSyncState)
    → sync_rate 0 active nam
        (sync_rate detected active nam r s).0
        (sync_rate detected active nam r s).1
      ≡ sync_rate detected active nam r s
unfolding sync_rate
sync_rate-idempotent detected active nam r s =
    let d : ℕ = desired_rate detected active.host s in
    let wanted : Rates = record { host = d; nam = nam } in
    let o : RtStatus × RateSyncState =
      sync_at wanted active r (record s { desired_host_rate = d }) in
    let kept : o.1.desired_host_rate ≡ d =
      sync_at-desired wanted active r (record s { desired_host_rate = d }) in
    ap
      (λ k.
        sync_at (record { host = k; nam = nam }) active o.0
          (record (o.1) { desired_host_rate = k }))
      (settled_rate detected active.host s o.1 kept)
    ∙ sym (ap (λ k. sync_at wanted active o.0 (record (o.1) { desired_host_rate = k })) kept)
    ∙ sync_at-idempotent wanted active r (record s { desired_host_rate = d })

-- A build that failed for the current request: the callback proceeds on the old resampler, the
-- generations agree, and `sync_rate` does not repeat the request, for as long as the detected rates
-- stay what they are.
pub failure_not_repeated :
    (active : Rates) (nam : ℕ) (r : RtStatus) (s : RateSyncState)
    → r.swap_pending ≡ true
    → 0 < r.resampler_failed_generation
    → r.resampler_failed_generation ≡ r.requested_rate_generation
    → 0 < s.desired_host_rate
    → s.last_requested_rates ≡ record { host = s.desired_host_rate; nam = nam }
    → rates_eq s.last_requested_rates active ≡ false
    → ((rollback_guard r s).0 ≡ true)
      × ((rollback_guard r s).1.applied_rate_generation
          ≡ (rollback_guard r s).1.requested_rate_generation)
      × (sync_rate 0 active nam (rollback_guard r s).1 (rollback_guard r s).2
          ≡ ((rollback_guard r s).1, (rollback_guard r s).2))
unfolding rollback_guard sync_rate record_failure
failure_not_repeated active nam r s p f g d l a = (ground arith, ground arith, ground arith)

-- A request that was published while the build for an older one ran is what the next turn of the
-- main thread builds, whether that build succeeded or not and whether its result found room.
pub request_survives_build :
    (Q : Spsc Request) (built : Bool) (q : Request) (ring : Q.Ring) (r : RtStatus) (desired : Rates)
    → 0 < desired.host
    → 0 < desired.nam
    → q.generation ≡ r.requested_rate_generation
    → capture (deliver Q built q ring (publish_request desired r)).1
      ≡ some (record {
        generation = (publish_request desired r).requested_rate_generation;
        rates = desired;
      })
unfolding capture deliver publish_request
request_survives_build Q true q ring r desired h n e = ground (arith, Q.push_accepted ring q)
request_survives_build Q false q ring r desired h n e = ground arith

-- A request that the callback cancels while its build runs, because the active rates are wanted
-- again, is built once more once that build's result is handed over: under the generation of the
-- cancellation, which is the current one, and for the cancelled rates.
pub cancelled_request_returns :
    (Q : Spsc Request) (q : Request) (ring : Q.Ring) (r : RtStatus)
    → capture r ≡ some q
    → (Q.push ring q).0 ≡ true
    → capture (deliver Q true q ring (cancel_request r)).1
      ≡ some (record { generation = (cancel_request r).requested_rate_generation; rates = q.rates })
unfolding capture deliver cancel_request
cancelled_request_returns Q q ring r h e = ground arith
