-- ===== src/Recording/Status/Handshake.antt =====
-- src/recording/status.rs: what the handshake of the main thread decides, and that a failure stays
-- visible.
use nam_audio_pipe.Base.{
  ℕ, zero, suc, ◌+◌, ◌≤◌, ◌<◌, ◌≡◌, ◌⊎◌, inl, inr, refl, sym, ap, ◌∙◌, Bool, true, false, Option,
  List, [], ◌∷◌, arith, Bool-cases, le-split, not_yet,
}
use nam_audio_pipe.Recording.Status.{
  failed, Observed, record_failure, warned, publish_space_warning, startup_failed, timeout,
  worker_gone, Received, ready, refused, empty, closed, Verdict, go, abort, poll_init,
  wait_for_recording_init,
}

-- Polls that answer nothing, before the deadline.
pub IsQuiet : (ℕ → Received) → (ℕ → Bool) → ℕ → ℕ → Type 0
IsQuiet rx late i k = (j : ℕ) → i ≤ j → j < k → (rx j ≡ empty) × (late j ≡ false)

-- Why the loop decided what it did, at poll `k`.
pub data Decided (rx : ℕ → Received) (late : ℕ → Bool) (k : ℕ) : Verdict → Type 0 where
  by_path : (path : ℕ) → rx k ≡ ready path → Decided rx late k (go path)
  by_failure :
      (reason : ℕ) → rx k ≡ refused reason → Decided rx late k (abort (startup_failed reason))
  by_deadline : rx k ≡ empty → late k ≡ true → Decided rx late k (abort timeout)
  by_loss : rx k ≡ closed → Decided rx late k (abort worker_gone)

Received-cases :
    (r : Received)
    → ((p : ℕ) × (r ≡ ready p)) ⊎ (((e : ℕ) × (r ≡ refused e)) ⊎ ((r ≡ empty) ⊎ (r ≡ closed)))
Received-cases (ready p) = inl (p, refl)
Received-cases (refused e) = inr (inl (e, refl))
Received-cases empty = inr (inr (inl refl))
Received-cases closed = inr (inr (inr refl))

module _ (rx : ℕ → Received) (late : ℕ → Bool) where
  nothing_before : (i : ℕ) → IsQuiet rx late i i
  unfolding IsQuiet
  nothing_before i j a b = absurd (omega (arith, a, b))

  one_more :
      (i k : ℕ) → rx i ≡ empty → late i ≡ false → IsQuiet rx late (i + 1) k → IsQuiet rx late i k
  unfolding IsQuiet
  one_more i k e l q j a b = elim (le-split i j a) [
    | inl lt ↦ q j (omega (arith, lt)) b
    | inr same ↦ (ap rx (sym same) ∙ e, ap late (sym same) ∙ l)
  ]

  poll_init_lem :
      (d fuel i : ℕ)
      → late d ≡ true
      → i ≤ d
      → d < i + fuel
      → (k : ℕ) × IsQuiet rx late i k × Decided rx late k (poll_init fuel rx late i)
  unfolding poll_init
  poll_init_lem d zero i h a b = absurd (omega (arith, a, b))
  poll_init_lem d (suc fuel) i h a b = elim (Received-cases (rx i)) [
    | inl (p, e) ↦ rw (e, poll_init) (i, nothing_before i, by_path p e)
    | inr (inl (r, e)) ↦ rw (e, poll_init) (i, nothing_before i, by_failure r e)
    | inr (inr (inr e)) ↦ rw (e, poll_init) (i, nothing_before i, by_loss e)
    | inr (inr (inl e)) ↦ elim (Bool-cases (late i)) [
      | inl l ↦ rw (e, l, poll_init) (i, nothing_before i, by_deadline e l)
      | inr l ↦
          let (k, q, v) =
            poll_init_lem d fuel (i + 1) h (not_yet late i d a l h) (omega (arith, b)) in
          rw (e, l, poll_init) (k, one_more i k e l q, v)
    ]
  ]

  -- When the deadline has passed at poll `d`, `d + 1` polls decide, by the first answer that is not
  -- empty or by the deadline: the directory only if the worker sent it, the worker's failure, the
  -- timeout, or the loss of the worker. Every earlier poll found nothing and was in time.
  pub wait_for_recording_init_lem :
      (d fuel : ℕ)
      → late d ≡ true
      → d < fuel
      → (k : ℕ) × IsQuiet rx late 0 k × Decided rx late k (wait_for_recording_init fuel rx late)
  unfolding wait_for_recording_init
  wait_for_recording_init_lem d fuel h b = poll_init_lem d fuel 0 h (omega arith) (omega (arith, b))

-- The space checks that come behind a failure.
abbrev pub publish_all : List (Option ℕ) → Observed → Observed
publish_all [] o = o
publish_all (w ∷ ws) o = publish_all ws (publish_space_warning w o)

kept_flag :
    (w : Option ℕ) (o : Observed)
    → o.failed_flag ≡ true
    → (publish_space_warning w o).failed_flag ≡ true
unfolding publish_space_warning
kept_flag w o f = ground arith

kept_status :
    {reason : ℕ} (w : Option ℕ) (o : Observed)
    → o.status ≡ failed reason
    → (publish_space_warning w o).status ≡ failed reason
unfolding publish_space_warning
kept_status w o s = elim (Bool-cases o.poisoned) [
  | inl e ↦ rw (e, publish_space_warning) s
  | inr e ↦ rw (e, publish_space_warning) (ap (warned w) s)
]

publish_keeps_failure :
    (reason : ℕ) (ws : List (Option ℕ)) (o : Observed)
    → o.status ≡ failed reason
    → o.failed_flag ≡ true
    → ((publish_all ws o).status ≡ failed reason) × ((publish_all ws o).failed_flag ≡ true)
unfolding publish_space_warning
publish_keeps_failure reason [] o s f = (s, f)
publish_keeps_failure reason (w ∷ ws) o s f =
    publish_keeps_failure reason ws (publish_space_warning w o) (kept_status w o s)
      (kept_flag w o f)

-- With a lock that is not poisoned: behind a failure, any number of space checks leaves the status
-- `Failed` with its reason, and the flag that the RT callback polls raised.
pub failure_visible :
    (reason : ℕ) (ws : List (Option ℕ)) (o : Observed)
    → o.poisoned ≡ false
    → ((publish_all ws (record_failure reason o)).status ≡ failed reason)
      × ((publish_all ws (record_failure reason o)).failed_flag ≡ true)
unfolding record_failure
failure_visible reason ws o h =
    publish_keeps_failure reason ws (record_failure reason o) (rw (h, record_failure) refl) refl
