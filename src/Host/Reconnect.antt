-- ===== src/Host/Reconnect.antt =====
-- src/standalone/pw_host/reconnect.rs: the bounded reconnect policy and its cycle. A `Duration` and
-- an `Instant` are counts of nanoseconds; the clock's reading is an argument of the poll.
pub mod Backoff
pub mod Episode
use nam_audio_pipe.Base.{
  ℕ, zero, suc, ◌+◌, ◌-◌, ◌*◌, ◌/◌, ◌%◌, ◌^◌, min, ◌==◌, ltb, leb, ◌&&◌, ◌||◌, not, if◌then◌else◌,
  Bool, true, false, Option, none, some, u64_max,
}

abbrev pub nanos_per_milli : ℕ
nanos_per_milli = 1000000

-- `as_millis() as u64`.
abbrev pub as_millis : ℕ → ℕ
as_millis d = d / nanos_per_milli % (u64_max + 1)

abbrev pub from_millis : ℕ → ℕ
from_millis m = m * nanos_per_milli

abbrev pub production_max_attempts : ℕ
production_max_attempts = 6

abbrev pub production_initial_backoff_ms : ℕ
production_initial_backoff_ms = 250

abbrev pub production_max_backoff_ms : ℕ
production_max_backoff_ms = 4000

-- 60 seconds.
abbrev pub stable_reset : ℕ
stable_reset = 60000000000

pub record ReconnectPolicy : Type 0 where
  pub max_attempts : ℕ
  pub initial_backoff : ℕ
  pub max_backoff : ℕ
  pub enabled : Bool

abbrev pub production : ReconnectPolicy
production = record {
  max_attempts = production_max_attempts;
  initial_backoff = from_millis production_initial_backoff_ms;
  max_backoff = from_millis production_max_backoff_ms;
  enabled = true;
}

abbrev pub fail_fast : ReconnectPolicy
fail_fast = record { max_attempts = 0; initial_backoff = 0; max_backoff = 0; enabled = false }

abbrev pub is_disabled : ReconnectPolicy → Bool
is_disabled p = not p.enabled || p.max_attempts == 0

-- The saturating product of the first backoff and `1 << shift`, under the ceiling; in milliseconds.
abbrev pub backoff_millis : ReconnectPolicy → ℕ → ℕ
backoff_millis p attempt =
    min (min (as_millis p.initial_backoff * 2 ^ min (attempt - 1) 63) u64_max)
      (as_millis p.max_backoff)

unfoldable pub backoff_for_attempt : ReconnectPolicy → ℕ → ℕ
backoff_for_attempt p attempt = from_millis (backoff_millis p attempt)

-- The saturating sum over the attempts `1..=k`.
unfoldable pub total_millis : ReconnectPolicy → ℕ → ℕ
total_millis p zero = 0
total_millis p (suc k) = min (total_millis p k + as_millis (backoff_for_attempt p (suc k))) u64_max

unfoldable pub total_backoff_budget : ReconnectPolicy → ℕ
total_backoff_budget p = from_millis (total_millis p p.max_attempts)

-- The loop of `with_backoff_timeout`, which runs at most once for each attempt.
unfoldable pub trim : ℕ → ReconnectPolicy → ℕ → ReconnectPolicy
trim timeout p zero = p
trim timeout p (suc fuel) =
    let rest = trim timeout (record p { max_attempts = p.max_attempts - 1 }) fuel in
    if ltb 1 p.max_attempts && ltb timeout (total_backoff_budget p) then rest else p

unfoldable pub with_backoff_timeout : ℕ → ReconnectPolicy
with_backoff_timeout timeout = trim timeout production production.max_attempts

pub data StabilityEvent : Type 0 where
  no_event : StabilityEvent
  restored : ℕ → StabilityEvent
  replenished : StabilityEvent

pub record ReconnectCycle : Type 0 where
  pub policy : ReconnectPolicy
  pub attempts_made : ℕ
  pub stable_since : Option ℕ
  pub awaiting_restore : Bool

abbrev pub with_clock : ReconnectPolicy → ReconnectCycle
with_clock p = record {
  policy = p;
  attempts_made = 0;
  stable_since = none;
  awaiting_restore = false;
}

abbrev pub can_retry : ReconnectCycle → Bool
can_retry c = not (is_disabled c.policy) && ltb c.attempts_made c.policy.max_attempts

unfoldable pub begin_attempt : ReconnectCycle → Option ℕ × ReconnectCycle
begin_attempt c = if not (can_retry c) then (none, c) else (
  some (backoff_for_attempt c.policy (c.attempts_made + 1)),
  record c { attempts_made = c.attempts_made + 1; stable_since = none; awaiting_restore = true },
)

-- The poll behind the reset of `awaiting_restore`; `seen` is what that reset reports. An `Instant`
-- earlier than `since` counts as no time elapsed.
abbrev pub note_window :
    ℕ → StabilityEvent → ReconnectCycle → Option ℕ → StabilityEvent × ReconnectCycle
note_window now seen c none = (seen, record c { stable_since = some now })
note_window now seen c (some since) =
    if leb stable_reset (now - since)
    then (if ltb 0 c.attempts_made
        then (replenished, record c { stable_since = some now; attempts_made = 0 })
        else (seen, record c { stable_since = some now }))
    else (seen, c)

unfoldable pub note_stable : ℕ → ReconnectCycle → StabilityEvent × ReconnectCycle
note_stable now c =
    if c.awaiting_restore
    then note_window now (restored c.attempts_made) (record c { awaiting_restore = false })
        c.stable_since
    else note_window now no_event c c.stable_since

unfoldable pub note_unstable : ReconnectCycle → ReconnectCycle
note_unstable c = record c { stable_since = none }
