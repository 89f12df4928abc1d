-- ===== src/Host/RateSync.antt =====
-- src/standalone/pw_host/rt_callback/rate_sync.rs, the rollback guard of rt_callback/process.rs and
-- the rebuild of handlers.rs: how a change of the sample rate is requested, built and resolved. The
-- atomics of the crate's `RtStatusFlags` are fields; a thread's steps are functions on them.
pub mod Requests
use nam_audio_pipe.Base.{
  ℕ, ◌+◌, ◌%◌, min, ◌==◌, ltb, leb, ◌&&◌, ◌||◌, not, if◌then◌else◌, Bool, true, false, Option, none,
  some, u32_max, u64_max,
}
use nam_audio_pipe.Recording.Spsc.{Spsc}

-- A pair of rates, the host's and the model's.
pub record Rates : Type 0 where
  pub host : ℕ
  pub nam : ℕ

abbrev pub rates_eq : Rates → Rates → Bool
rates_eq a b = a.host == b.host && a.nam == b.nam

abbrev pub no_rates : Rates
no_rates = record { host = 0; nam = 0 }

pub record RateSyncState : Type 0 where
  pub desired_host_rate : ℕ
  pub last_requested_rates : Rates
  pub failed_rates : Rates
  pub failed_retry_count : ℕ

-- `RateSyncState::new`.
abbrev pub fresh : ℕ → RateSyncState
fresh host_rate = record {
  desired_host_rate = host_rate;
  last_requested_rates = no_rates;
  failed_rates = no_rates;
  failed_retry_count = 0;
}

unfoldable pub record_failure : RateSyncState → RateSyncState
record_failure s = record s {
  failed_rates = s.last_requested_rates;
  failed_retry_count = min (s.failed_retry_count + 1) u32_max;
}

pub record RtStatus : Type 0 where
  pub requested : Rates
  pub requested_rate_generation : ℕ
  pub applied_rate_generation : ℕ
  pub resampler_failed_generation : ℕ
  pub swap_pending : Bool
  pub needs_rebuild : Bool

-- The generation behind a `fetch_add(1)` on a `u64`.
abbrev pub next_generation : RtStatus → ℕ
next_generation r = (r.requested_rate_generation + 1) % (u64_max + 1)

-- The start of `sync_rate`: `detected` is what the atomic held, `current` the resampler's host rate.
abbrev pub desired_rate : ℕ → ℕ → RateSyncState → ℕ
desired_rate detected current s =
    if not (detected == 0)
    then detected
    else if s.desired_host_rate == 0
    then current
    else s.desired_host_rate

abbrev pub forget_failure : Rates → RateSyncState → RateSyncState
forget_failure desired s =
    if rates_eq s.failed_rates desired
    then record s { failed_rates = no_rates; failed_retry_count = 0 }
    else s

-- The rebuild in flight is for other rates than the active ones.
abbrev pub superseded : Rates → RtStatus → RateSyncState → Bool
superseded active r s =
    r.swap_pending
    && not (rates_eq s.last_requested_rates no_rates)
    && not (rates_eq s.last_requested_rates active)
    && r.resampler_failed_generation == 0

unfoldable pub cancel_request : RtStatus → RtStatus
cancel_request r = record r {
  requested_rate_generation = next_generation r;
  applied_rate_generation = next_generation r;
  swap_pending = false;
  needs_rebuild = false;
}

unfoldable pub publish_request : Rates → RtStatus → RtStatus
publish_request desired r = record r {
  requested = desired;
  requested_rate_generation = next_generation r;
  needs_rebuild = true;
  swap_pending = true;
}

-- Case 1: the desired rates are the active ones.
abbrev pub sync_active : Rates → RtStatus → RateSyncState → RtStatus × RateSyncState
sync_active active r s =
    if superseded active r s
    then (cancel_request r, forget_failure active (record s { last_requested_rates = no_rates }))
    else (r, forget_failure active s)

-- Case 2: they differ.
abbrev pub sync_other : Rates → RtStatus → RateSyncState → RtStatus × RateSyncState
sync_other desired r s =
    if rates_eq s.failed_rates desired && leb 1 s.failed_retry_count
    then (r, s)
    else if r.swap_pending && rates_eq s.last_requested_rates desired
    then (r, s)
    else if not (desired.host == 0) && not (desired.nam == 0)
    then (
      publish_request desired r,
      (if rates_eq s.failed_rates desired
          then record s { last_requested_rates = desired }
          else record s {
            last_requested_rates = desired;
            failed_rates = no_rates;
            failed_retry_count = 0;
          }),
    )
    else (r, s)

abbrev pub sync_at : Rates → Rates → RtStatus → RateSyncState → RtStatus × RateSyncState
sync_at desired active r s =
    if rates_eq desired active then sync_active active r s else sync_other desired r s

-- `sync_rate` without its result, which is the active host rate on every path.
unfoldable pub sync_rate : ℕ → Rates → ℕ → RtStatus → RateSyncState → RtStatus × RateSyncState
sync_rate detected active current_nam r s =
    sync_at (record { host = desired_rate detected active.host s; nam = current_nam }) active r
      (record s { desired_host_rate = desired_rate detected active.host s })

-- The rollback guard of the callback's prologue: `true` when the callback proceeds.
unfoldable pub rollback_guard : RtStatus → RateSyncState → Bool × RtStatus × RateSyncState
rollback_guard r s =
    if not r.swap_pending
    then (true, r, s)
    else if r.resampler_failed_generation == 0
    then (false, r, s)
    else if r.resampler_failed_generation == r.requested_rate_generation
    then (
      true,
      record r {
        applied_rate_generation = r.requested_rate_generation;
        swap_pending = false;
        needs_rebuild = false;
        resampler_failed_generation = 0;
      },
      record_failure s,
    )
    else if ltb r.resampler_failed_generation r.requested_rate_generation
    then (false, record r { resampler_failed_generation = 0 }, s)
    else (true, r, s)

-- The snapshot that a build is made from, and the stamp of its payload.
pub record Request : Type 0 where
  pub generation : ℕ
  pub rates : Rates

-- `handle_resampler_rebuild` up to the build.
unfoldable pub capture : RtStatus → Option Request
capture r =
    if not r.needs_rebuild
    then none
    else if not (r.requested.host == 0) && not (r.requested.nam == 0)
    then some (record { generation = r.requested_rate_generation; rates = r.requested })
    else none

-- `rearm_rebuild_if_superseded`: the clear, then the check.
abbrev pub rearm_clear : RtStatus → RtStatus
rearm_clear r = record r { needs_rebuild = false }

abbrev pub rearm_check : ℕ → RtStatus → RtStatus
rearm_check generation r =
    if not (r.requested_rate_generation == generation) then record r { needs_rebuild = true } else r

abbrev pub rearm_rebuild_if_superseded : ℕ → RtStatus → RtStatus
rearm_rebuild_if_superseded generation r = rearm_check generation (rearm_clear r)

-- `handle_resampler_rebuild` behind the build, which `built` says to have succeeded.
unfoldable pub deliver : (Q : Spsc Request) → Bool → Request → Q.Ring → RtStatus → Q.Ring × RtStatus
deliver Q true q ring r =
    let sent = Q.push ring q in
    if sent.0
    then (
      sent.1,
      rearm_rebuild_if_superseded q.generation (record r { resampler_failed_generation = 0 }),
    )
    else (sent.1, record r { resampler_failed_generation = 0 })
deliver Q false q ring r = (
  ring,
  rearm_rebuild_if_superseded q.generation
      (record r { resampler_failed_generation = q.generation }),
)
