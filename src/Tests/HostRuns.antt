-- ===== src/Tests/HostRuns.antt =====
-- src/standalone/pw_host: the reconnect schedule and the rate requests at concrete inputs.
use nam_audio_pipe.Base.{
  ℕ, ◌+◌, ◌*◌, ◌^◌, ◌≤◌, ◌≡◌, min, refl, true, false, some, List, [], ◌∷◌, arith,
}
use nam_audio_pipe.Recording.Spsc.{bounded, Bounded}
use nam_audio_pipe.Host.Reconnect.{
  ReconnectCycle, production, as_millis, from_millis, backoff_for_attempt, total_millis,
  total_backoff_budget, with_backoff_timeout, trim, with_clock, begin_attempt, note_stable,
  stable_reset,
}
use nam_audio_pipe.Host.Reconnect.Backoff.{backoff_doubles, IsLargest, with_backoff_timeout_lem}
use nam_audio_pipe.Host.Reconnect.Episode.{
  Entry, asked, polled, Runs, fresh, ask, poll, granted, schedule, Streaming, granted-schedule,
  replenishes_after_window,
}
use nam_audio_pipe.Host.RateSync.{
  Rates, no_rates, RateSyncState, RtStatus, Request, sync_rate, rollback_guard, publish_request,
  cancel_request, capture, deliver,
}
use nam_audio_pipe.Host.RateSync.Requests.{
  failure_not_repeated, request_survives_build, cancelled_request_returns,
}

-- 11.75 s, as the source's comment adds up.
production_budget : total_backoff_budget production ≡ from_millis 11750
unfolding total_backoff_budget total_millis backoff_for_attempt
production_budget = refl

-- Five seconds leave room for four attempts: 3.75 s.
five_seconds : (with_backoff_timeout 5000000000).max_attempts ≡ 4
unfolding with_backoff_timeout trim total_backoff_budget total_millis backoff_for_attempt
five_seconds = refl

backoff_doubles_example :
    backoff_for_attempt production 4
    ≡ from_millis
        (min (as_millis production.initial_backoff * 2 ^ 3) (as_millis production.max_backoff))
backoff_doubles_example = backoff_doubles production 3 (omega arith)

with_backoff_timeout_example : IsLargest 5000000000 6 (with_backoff_timeout 5000000000)
with_backoff_timeout_example = with_backoff_timeout_lem 5000000000

-- One failure, a recovery, and sixty seconds of streaming.
abbrev lost : ReconnectCycle
lost = (begin_attempt (with_clock production)).1

abbrev back : ReconnectCycle
back = (note_stable 1000 lost).1

abbrev back_log : List Entry
back_log =
    polled 1000 (note_stable 1000 lost).0 ∷ asked (begin_attempt (with_clock production)).0 ∷ []

back_runs : Runs production back_log back
back_runs = poll lost 1000 (ask (with_clock production) fresh)

granted-schedule_example :
    (granted back_log ≡ schedule production back.attempts_made) × (back.attempts_made ≤ 6)
granted-schedule_example = granted-schedule production back_log back back_runs

replenishes_after_window_example :
    (since : ℕ) × Streaming since back_log
    × (since + stable_reset ≤ 60000001000)
    × ((note_stable 60000001000 back).1.attempts_made ≡ 0)
unfolding note_stable begin_attempt
replenishes_after_window_example =
    replenishes_after_window production back_log back back_runs 60000001000 refl

-- The model changes from 48 kHz to 44.1 kHz.
abbrev hi_fi : Rates
hi_fi = record { host = 48000; nam = 48000 }

abbrev cd : Rates
cd = record { host = 48000; nam = 44100 }

abbrev quiet : RtStatus
quiet = record {
  requested = no_rates;
  requested_rate_generation = 0;
  applied_rate_generation = 0;
  resampler_failed_generation = 0;
  swap_pending = false;
  needs_rebuild = false;
}

abbrev settled : RateSyncState
settled = record {
  desired_host_rate = 48000;
  last_requested_rates = no_rates;
  failed_rates = no_rates;
  failed_retry_count = 0;
}

published : (sync_rate 0 hi_fi 44100 quiet settled).0 ≡ publish_request cd quiet
unfolding sync_rate
published = refl

abbrev build_failed : RtStatus
build_failed = record {
  requested = cd;
  requested_rate_generation = 1;
  applied_rate_generation = 0;
  resampler_failed_generation = 1;
  swap_pending = true;
  needs_rebuild = false;
}

abbrev requesting : RateSyncState
requesting = record settled { last_requested_rates = cd }

failure_not_repeated_example :
    ((rollback_guard build_failed requesting).0 ≡ true)
    × ((rollback_guard build_failed requesting).1.applied_rate_generation
        ≡ (rollback_guard build_failed requesting).1.requested_rate_generation)
    × (sync_rate 0 hi_fi 44100
          (rollback_guard build_failed requesting).1
          (rollback_guard build_failed requesting).2
        ≡ ((rollback_guard build_failed requesting).1, (rollback_guard build_failed requesting).2))
failure_not_repeated_example =
    failure_not_repeated hi_fi 44100 build_failed requesting refl (omega arith) refl (omega arith)
      refl refl

abbrev building : RtStatus
building = record quiet {
  requested = cd;
  requested_rate_generation = 1;
  swap_pending = true;
  needs_rebuild = true;
}

abbrev first_build : Request
first_build = record { generation = 1; rates = cd }

abbrev no_payloads : Bounded Request
no_payloads = record { items = []; limit = 4 }

request_survives_build_example :
    capture
      (deliver (bounded Request) true first_build no_payloads (publish_request hi_fi building)).1
    ≡ some (record {
      generation = (publish_request hi_fi building).requested_rate_generation;
      rates = hi_fi;
    })
request_survives_build_example =
    request_survives_build (bounded Request) true first_build no_payloads building hi_fi
      (omega arith) (omega arith) refl

cancelled_request_returns_example :
    capture (deliver (bounded Request) true first_build no_payloads (cancel_request building)).1
    ≡ some (record { generation = (cancel_request building).requested_rate_generation; rates = cd })
unfolding capture
cancelled_request_returns_example =
    cancelled_request_returns (bounded Request) first_build no_payloads building refl refl
