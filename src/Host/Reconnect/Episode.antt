-- ===== src/Host/Reconnect/Episode.antt =====
-- src/standalone/pw_host/reconnect.rs, `ReconnectCycle`: every sequence of the control loop's calls.
use mathlib.Core.Bool.{true≢false}
use mathlib.Core.Path.{subst}
use mathlib.Core.Option.{some-injective}
use nam_audio_pipe.Base.{
  ℕ, zero, suc, ◌+◌, ◌-◌, ◌≤◌, ◌≡◌, ◌≢◌, inl, inr, ltb, leb, if◌then◌else◌, Bool, true, false,
  Option, none, some, List, [], ◌∷◌, arith, refl, sym, ap, ◌∙◌, Bool-cases,
}
use nam_audio_pipe.Host.Reconnect.{
  ReconnectPolicy, ReconnectCycle, StabilityEvent, no_event, restored, replenished, with_clock,
  can_retry, begin_attempt, note_stable, note_window, note_unstable, backoff_for_attempt,
  stable_reset,
}

-- A call with its answer.
pub data Entry : Type 0 where
  asked : Option ℕ → Entry
  polled : ℕ → StabilityEvent → Entry
  broken : Entry

-- What the calls did to a fresh cycle, the last call first.
pub data Runs (p : ReconnectPolicy) : List Entry → ReconnectCycle → Type 0 where
  fresh : Runs p [] (with_clock p)
  ask :
      {log : List Entry} (c : ReconnectCycle)
      → Runs p log c
      → Runs p (asked (begin_attempt c).0 ∷ log) (begin_attempt c).1
  poll :
      {log : List Entry} (c : ReconnectCycle) (now : ℕ)
      → Runs p log c
      → Runs p (polled now (note_stable now c).0 ∷ log) (note_stable now c).1
  break :
      {log : List Entry} (c : ReconnectCycle)
      → Runs p log c
      → Runs p (broken ∷ log) (note_unstable c)

-- The backoffs granted since the last replenishment, the last one first.
abbrev pub granted : List Entry → List ℕ
granted [] = []
granted (asked none ∷ log) = granted log
granted (asked (some d) ∷ log) = d ∷ granted log
granted (polled now replenished ∷ log) = []
granted (polled now no_event ∷ log) = granted log
granted (polled now (restored k) ∷ log) = granted log
granted (broken ∷ log) = granted log

-- The backoffs of the attempts `k`, ..., `1`.
abbrev pub schedule : ReconnectPolicy → ℕ → List ℕ
schedule p zero = []
schedule p (suc k) = backoff_for_attempt p (suc k) ∷ schedule p k

-- The last granted attempt is later than the last healthy poll.
abbrev pub recovering : List Entry → Bool
recovering [] = false
recovering (asked none ∷ log) = recovering log
recovering (asked (some d) ∷ log) = true
recovering (polled now e ∷ log) = false
recovering (broken ∷ log) = recovering log

abbrev pub is_restored : StabilityEvent → Bool
is_restored (restored k) = true
is_restored no_event = false
is_restored replenished = false

-- The last calls are healthy polls, the first of them at `since`, and refused attempts.
pub data Streaming (since : ℕ) : List Entry → Type 0 where
  from : (e : StabilityEvent) (log : List Entry) → Streaming since (polled since e ∷ log)
  still :
      (now : ℕ) (e : StabilityEvent) {log : List Entry}
      → Streaming since log
      → Streaming since (polled now e ∷ log)
  refused : {log : List Entry} → Streaming since log → Streaming since (asked none ∷ log)

-- What a reachable cycle satisfies.
record IsCounted (p : ReconnectPolicy) (log : List Entry) (c : ReconnectCycle) : Type 0 where
  pub policy : c.policy ≡ p
  pub budget : c.attempts_made ≤ p.max_attempts
  pub counted : granted log ≡ schedule p c.attempts_made
  pub window : (since : ℕ) → c.stable_since ≡ some since → Streaming since log
  pub awaiting : c.awaiting_restore ≡ recovering log
  pub announced : c.awaiting_restore ≡ true → c.stable_since ≡ none

fresh-IsCounted : (p : ReconnectPolicy) → IsCounted p [] (with_clock p)
fresh-IsCounted p = record {
  policy = refl;
  budget = omega arith;
  counted = refl;
  window = λ since h. cc;
  awaiting = refl;
  announced = λ h. refl;
}

break-IsCounted :
    (p : ReconnectPolicy) (log : List Entry) (c : ReconnectCycle)
    → IsCounted p log c
    → IsCounted p (broken ∷ log) (note_unstable c)
unfolding note_unstable
break-IsCounted p log c v = record {
  policy = v.policy;
  budget = v.budget;
  counted = v.counted;
  window = λ since h. cc;
  awaiting = v.awaiting;
  announced = λ h. refl;
}

schedule_step :
    (p : ReconnectPolicy) (k : ℕ)
    → schedule p (k + 1) ≡ backoff_for_attempt p (k + 1) ∷ schedule p k
schedule_step p k =
    let one : k + 1 ≡ suc k = omega arith in
    ap (schedule p) one ∙ sym (ap (λ j. backoff_for_attempt p j ∷ schedule p k) one)

granted_attempt :
    (p : ReconnectPolicy) (log : List Entry) (c : ReconnectCycle)
    → IsCounted p log c
    → can_retry c ≡ true
    → IsCounted p
        (asked (some (backoff_for_attempt c.policy (c.attempts_made + 1))) ∷ log)
        (record c {
          attempts_made = c.attempts_made + 1;
          stable_since = none;
          awaiting_restore = true;
        })
granted_attempt p log c v h = record {
  policy = v.policy;
  budget = ground (arith, v.policy);
  counted =
      ap (λ q. backoff_for_attempt q (c.attempts_made + 1) ∷ granted log) v.policy
      ∙ ap (◌∷◌ (backoff_for_attempt p (c.attempts_made + 1))) v.counted
      ∙ sym (schedule_step p c.attempts_made);
  window = λ since e. cc;
  awaiting = refl;
  announced = λ e. refl;
}

ask-IsCounted :
    (p : ReconnectPolicy) (log : List Entry) (c : ReconnectCycle)
    → IsCounted p log c
    → IsCounted p (asked (begin_attempt c).0 ∷ log) (begin_attempt c).1
unfolding begin_attempt
ask-IsCounted p log c v = elim (Bool-cases (can_retry c)) [
  | inl e ↦ rw (e, begin_attempt) (granted_attempt p log c v e)
  | inr e ↦ rw (e, begin_attempt) (refused_attempt p log c v)
]
  where
    refused_attempt :
        (p : ReconnectPolicy) (log : List Entry) (c : ReconnectCycle)
        → IsCounted p log c
        → IsCounted p (asked none ∷ log) c
    refused_attempt p log c v = record {
      policy = v.policy;
      budget = v.budget;
      counted = v.counted;
      window = λ since e. refused (v.window since e);
      awaiting = v.awaiting;
      announced = v.announced;
    }

begun :
    (now since : ℕ) (e : StabilityEvent) (log : List Entry)
    → some now ≡ some since
    → Streaming since (polled now e ∷ log)
begun now since e log h =
    subst (λ t. Streaming t (polled now e ∷ log)) (some-injective now since h) (from e log)

window-IsCounted :
    (p : ReconnectPolicy) (log : List Entry) (c : ReconnectCycle) (now : ℕ) (seen : StabilityEvent)
    (o : Option ℕ)
    → c.stable_since ≡ o
    → c.awaiting_restore ≡ false
    → granted (polled now seen ∷ log) ≡ granted log
    → c.policy ≡ p
    → c.attempts_made ≤ p.max_attempts
    → granted log ≡ schedule p c.attempts_made
    → ((since : ℕ) → c.stable_since ≡ some since → Streaming since log)
    → IsCounted p (polled now (note_window now seen c o).0 ∷ log) (note_window now seen c o).1
window-IsCounted p log c now seen none e w keeps policy budget counted window = record {
  policy = policy;
  budget = budget;
  counted = keeps ∙ counted;
  window = λ since h. begun now since seen log h;
  awaiting = w;
  announced = λ h. cc;
}
window-IsCounted p log c now seen (some since) e w keeps policy budget counted window =
    elim (Bool-cases (leb stable_reset (now - since))) [
      | inl full ↦ elim (Bool-cases (ltb 0 c.attempts_made)) [
        | inl used ↦
            rw (full, used)
              (record {
                policy = policy;
                budget = omega arith;
                counted = refl;
                window = λ t h. begun now t replenished log h;
                awaiting = w;
                announced = λ h. cc;
              })
        | inr unused ↦
            rw (full, unused)
              (record {
                policy = policy;
                budget = budget;
                counted = keeps ∙ counted;
                window = λ t h. begun now t seen log h;
                awaiting = w;
                announced = λ h. cc;
              })
      ]
      | inr early ↦ rw early (record {
        policy = policy;
        budget = budget;
        counted = keeps ∙ counted;
        window = λ t h. still now seen (window t h);
        awaiting = w;
        announced = λ h. cc;
      })
    ]

poll-IsCounted :
    (p : ReconnectPolicy) (log : List Entry) (c : ReconnectCycle) (now : ℕ)
    → IsCounted p log c
    → IsCounted p (polled now (note_stable now c).0 ∷ log) (note_stable now c).1
unfolding note_stable
poll-IsCounted p log c now v = elim (Bool-cases c.awaiting_restore) [
  | inl e ↦
      rw (e, note_stable)
        (window-IsCounted p log (record c { awaiting_restore = false }) now
          (restored c.attempts_made) c.stable_since refl refl refl v.policy v.budget v.counted
          v.window)
  | inr e ↦
      rw (e, note_stable)
        (window-IsCounted p log (record c { awaiting_restore = false }) now no_event c.stable_since
          refl refl refl v.policy v.budget v.counted v.window)
]

Runs-IsCounted :
    (p : ReconnectPolicy) (log : List Entry) (c : ReconnectCycle) → Runs p log c → IsCounted p log c
Runs-IsCounted p log c fresh = fresh-IsCounted p
Runs-IsCounted p log c (ask {log = l} d r) = ask-IsCounted p l d (Runs-IsCounted p l d r)
Runs-IsCounted p log c (poll {log = l} d now r) = poll-IsCounted p l d now (Runs-IsCounted p l d r)
Runs-IsCounted p log c (break {log = l} d r) = break-IsCounted p l d (Runs-IsCounted p l d r)

-- The poll, by the flag and the window that it finds.
abbrev poll_on : ℕ → ReconnectCycle → Bool → Option ℕ → StabilityEvent × ReconnectCycle
poll_on now c b o =
    if b
    then note_window now (restored c.attempts_made) (record c { awaiting_restore = false }) o
    else note_window now no_event c o

is_replenished : StabilityEvent → Bool
is_replenished replenished = true
is_replenished no_event = false
is_replenished (restored k) = false

restored≢replenished : (k : ℕ) → restored k ≢ replenished
unfolding is_replenished
restored≢replenished k h = true≢false (sym (ap is_replenished h))

no_event≢replenished : no_event ≢ replenished
unfolding is_replenished
no_event≢replenished h = true≢false (sym (ap is_replenished h))

poll_on-replenished :
    (now : ℕ) (c : ReconnectCycle) (b : Bool) (o : Option ℕ)
    → (b ≡ true → o ≡ none)
    → (poll_on now c b o).0 ≡ replenished
    → (since : ℕ) × (o ≡ some since)
      × (since + stable_reset ≤ now)
      × ((poll_on now c b o).1.attempts_made ≡ 0)
poll_on-replenished now c true none a h = absurd (restored≢replenished c.attempts_made h)
poll_on-replenished now c false none a h = absurd (no_event≢replenished h)
poll_on-replenished now c true (some since) a h = cc (a refl)
poll_on-replenished now c false (some since) a h = (since, refl, ground arith, ground arith)

poll_on-restored :
    (now : ℕ) (c : ReconnectCycle) (b : Bool) (o : Option ℕ)
    → (b ≡ true → o ≡ none)
    → is_restored (poll_on now c b o).0 ≡ b
poll_on-restored now c true none a = refl
poll_on-restored now c false none a = refl
poll_on-restored now c true (some since) a = cc (a refl)
poll_on-restored now c false (some since) a = ground arith

replenished_lem :
    (now : ℕ) (c : ReconnectCycle)
    → (c.awaiting_restore ≡ true → c.stable_since ≡ none)
    → (note_stable now c).0 ≡ replenished
    → (since : ℕ) × (c.stable_since ≡ some since)
      × (since + stable_reset ≤ now)
      × ((note_stable now c).1.attempts_made ≡ 0)
unfolding note_stable
replenished_lem now c announced h =
    poll_on-replenished now c c.awaiting_restore c.stable_since announced h

restored_lem :
    (now : ℕ) (c : ReconnectCycle)
    → (c.awaiting_restore ≡ true → c.stable_since ≡ none)
    → is_restored (note_stable now c).0 ≡ c.awaiting_restore
unfolding note_stable
restored_lem now c announced = poll_on-restored now c c.awaiting_restore c.stable_since announced

module _ (p : ReconnectPolicy) (log : List Entry) (c : ReconnectCycle) (runs : Runs p log c) where
  counted : IsCounted p log c
  counted = Runs-IsCounted p log c runs

  -- After any calls, the backoffs granted since the last replenishment are those of the attempts
  -- 1, 2, ..., `attempts_made`, each once and in this order, and they are at most `max_attempts`.
  pub granted-schedule :
      (granted log ≡ schedule p c.attempts_made) × (c.attempts_made ≤ p.max_attempts)
  granted-schedule = (counted.counted, counted.budget)

  -- After any calls, a poll that replenishes the budget ends at least 60 seconds of healthy polls
  -- that no loss of the stream and no granted attempt interrupts, and empties the episode.
  pub replenishes_after_window :
      (now : ℕ)
      → (note_stable now c).0 ≡ replenished
      → (since : ℕ) × Streaming since log
        × (since + stable_reset ≤ now)
        × ((note_stable now c).1.attempts_made ≡ 0)
  replenishes_after_window now h =
      let (since, e, le, zeroed) = replenished_lem now c counted.announced h in
      (since, counted.window since e, le, zeroed)

  -- After any calls, a poll announces a recovery exactly when an attempt was granted after the last
  -- poll: each recovery is announced once, by the first healthy poll.
  restores_once : (now : ℕ) → is_restored (note_stable now c).0 ≡ recovering log
  restores_once now = restored_lem now c counted.announced ∙ counted.awaiting
