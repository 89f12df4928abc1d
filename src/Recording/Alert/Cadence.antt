-- ===== src/Recording/Alert/Cadence.antt =====
-- src/recording/alert.rs: how often the control loop speaks about a condition that persists.
use mathlib.Core.Path.{subst}
use nam_audio_pipe.Base.{
  ℕ, ◌+◌, ◌-◌, ◌≤◌, ◌≡◌, inl, inr, refl, sym, ap, ◌∙◌, leb, true, false, Option, none, some, List,
  [], ◌∷◌, arith, Bool-cases, ◌==◌, ==→eq,
}
use nam_audio_pipe.Recording.Status.{RecordingStatus}
use nam_audio_pipe.Recording.Alert.{
  AlertKind, failure, space_low, Alert, RecordingAlert, alert_reminder_interval, condition, shows,
  raise, remind, judged, poll,
}

-- A poll: when it happens and what it finds behind the lock.
abbrev pub Poll : Type 0
Poll = ℕ × Option RecordingStatus

abbrev pub said : ℕ → Option Alert → List (ℕ × Alert) → List (ℕ × Alert)
said now none es = es
said now (some alert) es = (now, alert) ∷ es

-- What is emitted over polls, with the time of each alert.
abbrev pub emitted : List Poll → RecordingAlert → List (ℕ × Alert)
emitted [] a = []
emitted ((now, status) ∷ ps) a = said now (poll now status a).0 (emitted ps (poll now status a).1)

-- Every poll finds the lock held or the one condition.
abbrev pub IsPersisting : AlertKind → ℕ → List Poll → Type 0
IsPersisting kind reason [] = Unit
IsPersisting kind reason ((now, none) ∷ ps) = IsPersisting kind reason ps
IsPersisting kind reason ((now, some status) ∷ ps) =
    (condition status ≡ some (kind, reason)) × IsPersisting kind reason ps

-- Reminders only, each of them an interval or more behind the alert before it.
abbrev pub AreReminders : AlertKind → ℕ → ℕ → List (ℕ × Alert) → Type 0
AreReminders kind reason t [] = Unit
AreReminders kind reason t ((now, alert) ∷ es) =
    (alert ≡ record { kind = kind; reason = reason; reminder = true })
    × (t + alert_reminder_interval ≤ now)
    × AreReminders kind reason now es

-- The latches of a condition that was reported at time `t`.
abbrev latched : AlertKind → ℕ → ℕ → RecordingAlert
latched kind reason t = record {
  active_reason = some reason;
  active_kind = some kind;
  last_emit = some t;
}

shows_itself : (kind : AlertKind) (reason : ℕ) → shows (some kind) (some reason) kind reason ≡ true
shows_itself failure reason = ground arith
shows_itself space_low reason = ground arith

raise-latched :
    (kind : AlertKind) (reason t now : ℕ)
    → raise now kind reason (latched kind reason t) ≡ remind now kind reason (latched kind reason t)
raise-latched kind reason t now = rw (shows_itself kind reason) refl

reminders :
    (kind : AlertKind) (reason t : ℕ) (ps : List Poll)
    → IsPersisting kind reason ps
    → AreReminders kind reason t (emitted ps (latched kind reason t))
unfolding poll
reminders kind reason t [] v = tt
reminders kind reason t ((now, none) ∷ ps) v = reminders kind reason t ps v
reminders kind reason t ((now, some status) ∷ ps) v =
    subst (λ o. AreReminders kind reason t (said now o.0 (emitted ps o.1)))
      (sym (ap (λ c. judged now c (latched kind reason t)) v.0 ∙ raise-latched kind reason t now))
      (elim (Bool-cases (leb alert_reminder_interval (now - t))) [
        | inl e ↦ rw e (refl, ground arith, reminders kind reason now ps v.1)
        | inr e ↦ rw e (reminders kind reason t ps v.1)
      ])

-- A condition that is not on record is not shown.
shows_new :
    (k : Option AlertKind) (r : Option ℕ) (kind : AlertKind) (reason : ℕ)
    → ¬ ((k ≡ some kind) × (r ≡ some reason))
    → shows k r kind reason ≡ false
shows_new none r kind reason new = refl
shows_new (some k) none kind reason new = refl
shows_new (some failure) (some r) failure reason new = elim (Bool-cases (r == reason)) [
  | inl e ↦ absurd (new (refl, ap some (==→eq r reason e)))
  | inr e ↦ ground (arith, e)
]
shows_new (some failure) (some r) space_low reason new = refl
shows_new (some space_low) (some r) failure reason new = refl
shows_new (some space_low) (some r) space_low reason new = elim (Bool-cases (r == reason)) [
  | inl e ↦ absurd (new (refl, ap some (==→eq r reason e)))
  | inr e ↦ ground (arith, e)
]

first_raise :
    (kind : AlertKind) (reason now : ℕ) (a : RecordingAlert)
    → shows a.active_kind a.active_reason kind reason ≡ false
    → raise now kind reason a
      ≡ (some (record { kind = kind; reason = reason; reminder = false }), latched kind reason now)
first_raise kind reason now a e = rw e refl

-- When a poll finds a condition whose kind and reason are not both the ones on record, an alert for
-- it that is no reminder is emitted at once. As long as the polls behind it find the same condition
-- or the lock held, every further alert is a reminder, thirty seconds or more behind the alert
-- before it.
pub alerts_paced :
    (kind : AlertKind) (reason now : ℕ) (status : RecordingStatus) (ps : List Poll)
    (a : RecordingAlert)
    → condition status ≡ some (kind, reason)
    → ¬ ((a.active_kind ≡ some kind) × (a.active_reason ≡ some reason))
    → IsPersisting kind reason ps
    → ((poll now (some status) a).0
        ≡ some (record { kind = kind; reason = reason; reminder = false }))
      × AreReminders kind reason now (emitted ps (poll now (some status) a).1)
unfolding poll
alerts_paced kind reason now status ps a shown new v =
    let e : poll now (some status) a ≡ (
      some (record { kind = kind; reason = reason; reminder = false }),
      latched kind reason now,
    ) =
      ap (λ c. judged now c a) shown
      ∙ first_raise kind reason now a (shows_new a.active_kind a.active_reason kind reason new) in
    (
      ap (λ o. o.0) e,
      subst (λ o. AreReminders kind reason now (emitted ps o)) (sym (ap (λ o. o.1) e))
          (reminders kind reason now ps v),
    )
