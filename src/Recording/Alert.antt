-- ===== src/Recording/Alert.antt =====
-- src/recording/alert.rs: the alerts of the main control loop. The clock reads milliseconds; a reason
-- is the number that names its text, and the text that `render` makes of an alert is left out.
pub mod Cadence
use nam_audio_pipe.Base.{
  ℕ, ◌-◌, ◌==◌, ◌&&◌, leb, if◌then◌else◌, Bool, true, false, Option, none, some, List, [], ◌∷◌,
}
use nam_audio_pipe.Recording.Status.{RecordingStatus, starting, active, failed, stopped}

abbrev pub alert_reminder_interval : ℕ
alert_reminder_interval = 30000

pub data AlertKind : Type 0 where
  failure : AlertKind
  space_low : AlertKind

pub record Alert : Type 0 where
  pub kind : AlertKind
  pub reason : ℕ
  pub reminder : Bool

pub record RecordingAlert : Type 0 where
  pub active_reason : Option ℕ
  pub active_kind : Option AlertKind
  pub last_emit : Option ℕ

abbrev pub with_clock : RecordingAlert
with_clock = record { active_reason = none; active_kind = none; last_emit = none }

abbrev pub condition : RecordingStatus → Option (AlertKind × ℕ)
condition starting = none
condition (active path none) = none
condition (active path (some warning)) = some (space_low, warning)
condition (failed reason) = some (failure, reason)
condition stopped = none

abbrev pub kind_eq : AlertKind → AlertKind → Bool
kind_eq failure failure = true
kind_eq failure space_low = false
kind_eq space_low failure = false
kind_eq space_low space_low = true

abbrev pub shows : Option AlertKind → Option ℕ → AlertKind → ℕ → Bool
shows none reason k r = false
shows (some kind) none k r = false
shows (some kind) (some reason) k r = kind_eq kind k && reason == r

-- `now.checked_duration_since(t)` is zero for a `t` behind `now`.
abbrev pub is_due : ℕ → Option ℕ → Bool
is_due now none = true
is_due now (some t) = leb alert_reminder_interval (now - t)

abbrev pub remind : ℕ → AlertKind → ℕ → RecordingAlert → Option Alert × RecordingAlert
remind now kind reason a =
    if is_due now a.last_emit
    then (
      some (record { kind = kind; reason = reason; reminder = true }),
      record a { last_emit = some now },
    )
    else (none, a)

abbrev pub raise : ℕ → AlertKind → ℕ → RecordingAlert → Option Alert × RecordingAlert
raise now kind reason a =
    if shows a.active_kind a.active_reason kind reason then remind now kind reason a else (
      some (record { kind = kind; reason = reason; reminder = false }),
      record { active_reason = some reason; active_kind = some kind; last_emit = some now },
    )

abbrev pub judged : ℕ → Option (AlertKind × ℕ) → RecordingAlert → Option Alert × RecordingAlert
judged now none a = (none, with_clock)
judged now (some (kind, reason)) a = raise now kind reason a

-- `none`: the lock is held or poisoned.
unfoldable pub poll : ℕ → Option RecordingStatus → RecordingAlert → Option Alert × RecordingAlert
poll now none a = (none, a)
poll now (some status) a = judged now (condition status) a
