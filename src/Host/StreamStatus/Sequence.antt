-- ===== src/Host/StreamStatus/Sequence.antt =====
-- src/standalone/pw_host/stream_status.rs: the sequence of the lock, and what a turn of the reader
-- knows of the values behind it.
use mathlib.Core.Path.{subst}
use nam_audio_pipe.Base.{
  ℕ, suc, ◌+◌, ◌%◌, ◌≡◌, ◌≤◌, ◌<◌, refl, ap, ◌∙◌, ◌==◌, inl, inr, List, [], ◌∷◌, arith, Bool-cases,
  length, u64_max, ==→eq,
}
use nam_audio_pipe.Host.StreamStatus.{
  Update, resampler, cabsim, oversample, Writer, idle, begun, stored, paired, Reader, at_start,
  has_sequence, has_resampler, has_cabsim, has_all, returned, Latencies, initial, bump_sequence,
  write_from, read_from, Step, write, read, step, run,
}

-- The sequence is odd exactly while an update is under way.
abbrev pub phase : Writer → ℕ
phase idle = 0
phase (begun u) = 1
phase (stored u) = 1
phase paired = 1

-- What a turn of the reader knows while the sequence stands at q.
abbrev pub Sees : Reader → ℕ → ℕ → ℕ → ℕ → Type 0
Sees at_start q a b c = Unit {0}
Sees (has_sequence s0) q a b c = (s0 % 2 ≡ 0) × (s0 ≤ q)
Sees (has_resampler s0 res) q a b c = (s0 % 2 ≡ 0) × (s0 ≤ q) × (q ≡ s0 → res ≡ a)
Sees (has_cabsim s0 res cab) q a b c = (s0 % 2 ≡ 0) × (s0 ≤ q) × (q ≡ s0 → (res ≡ a) × (cab ≡ b))
Sees (has_all s0 res cab os) q a b c =
    (s0 % 2 ≡ 0) × (s0 ≤ q) × (q ≡ s0 → (res ≡ a) × (cab ≡ b) × (os ≡ c))
Sees (returned res cab os) q a b c = Unit {0}

-- A later sequence makes what was read of no use.
later : (r : Reader) (q p a b c x y z : ℕ) → q < p → Sees r q a b c → Sees r p x y z
later at_start q p a b c x y z h v = tt
later (has_sequence s0) q p a b c x y z h v = (v.0, omega arith)
later (has_resampler s0 res) q p a b c x y z h v =
    (v.0, omega (arith, v.1), λ e. absurd (omega (arith, v.1)))
later (has_cabsim s0 res cab) q p a b c x y z h v =
    (v.0, omega (arith, v.1), λ e. absurd (omega (arith, v.1)))
later (has_all s0 res cab os) q p a b c x y z h v =
    (v.0, omega (arith, v.1), λ e. absurd (omega (arith, v.1)))
later (returned res cab os) q p a b c x y z h v = tt

-- While the sequence is odd, so are its fields.
busy : (r : Reader) (q a b c x y z : ℕ) → q % 2 ≡ 1 → Sees r q a b c → Sees r q x y z
busy at_start q a b c x y z h v = tt
busy (has_sequence s0) q a b c x y z h v = v
busy (has_resampler s0 res) q a b c x y z h v = (v.0, v.1, λ e. absurd (omega (arith, v.0, e, h)))
busy (has_cabsim s0 res cab) q a b c x y z h v = (v.0, v.1, λ e. absurd (omega (arith, v.0, e, h)))
busy (has_all s0 res cab os) q a b c x y z h v = (v.0, v.1, λ e. absurd (omega (arith, v.0, e, h)))
busy (returned res cab os) q a b c x y z h v = tt

pub record IsSound (n : ℕ) (s : Latencies) : Type 0 where
  pub small : s.latency_sequence ≤ n
  pub parity : s.latency_sequence % 2 ≡ phase s.writer
  pub seen :
      Sees s.reader s.latency_sequence s.applied_resampler_latency s.applied_cabsim_latency
        s.applied_oversample_latency

bump_sequence-IsSound :
    (w : Writer) (n : ℕ) (s : Latencies)
    → n < u64_max
    → (s.latency_sequence + 1) % 2 ≡ phase w
    → IsSound n s
    → IsSound (suc n) (bump_sequence w s)
bump_sequence-IsSound w n s h e v = record {
  small = omega (arith, v.small);
  parity = omega (arith, v.small, h, e);
  seen = later s.reader s.latency_sequence _ _ _ _ _ _ _ (omega (arith, v.small, h)) v.seen;
}

write_from-IsSound :
    (w : Writer) (u : Update) (n : ℕ) (s : Latencies)
    → n < u64_max
    → s.writer ≡ w
    → IsSound n s
    → IsSound (suc n) (write_from w u s)
write_from-IsSound idle u n s h e v =
    bump_sequence-IsSound (begun u) n s h (omega (arith, v.parity, ap phase e)) v
write_from-IsSound (begun (resampler x)) u n s h e v = record {
  small = omega (arith, v.small);
  parity = v.parity ∙ ap phase e;
  seen = busy s.reader s.latency_sequence _ _ _ _ _ _ (v.parity ∙ ap phase e) v.seen;
}
write_from-IsSound (begun (cabsim x)) u n s h e v = record {
  small = omega (arith, v.small);
  parity = v.parity ∙ ap phase e;
  seen = busy s.reader s.latency_sequence _ _ _ _ _ _ (v.parity ∙ ap phase e) v.seen;
}
write_from-IsSound (begun (oversample x)) u n s h e v = record {
  small = omega (arith, v.small);
  parity = v.parity ∙ ap phase e;
  seen = busy s.reader s.latency_sequence _ _ _ _ _ _ (v.parity ∙ ap phase e) v.seen;
}
write_from-IsSound (stored (resampler x)) u n s h e v = record {
  small = omega (arith, v.small);
  parity = v.parity ∙ ap phase e;
  seen = v.seen;
}
write_from-IsSound (stored (cabsim x)) u n s h e v = record {
  small = omega (arith, v.small);
  parity = v.parity ∙ ap phase e;
  seen = v.seen;
}
write_from-IsSound (stored (oversample x)) u n s h e v =
    bump_sequence-IsSound idle n s h (omega (arith, v.parity, ap phase e)) v
write_from-IsSound paired u n s h e v =
    bump_sequence-IsSound idle n s h (omega (arith, v.parity, ap phase e)) v

read_from-seen :
    (r : Reader) (s : Latencies)
    → Sees r s.latency_sequence s.applied_resampler_latency s.applied_cabsim_latency
        s.applied_oversample_latency
    → Sees
        (read_from r s)
        s.latency_sequence
        s.applied_resampler_latency
        s.applied_cabsim_latency
        s.applied_oversample_latency
read_from-seen at_start s v = elim (Bool-cases (s.latency_sequence % 2 == 0)) [
  | inl e ↦ rw e (==→eq (s.latency_sequence % 2) 0 e, omega arith)
  | inr e ↦ rw e tt
]
read_from-seen (has_sequence s0) s v = (v.0, v.1, λ e. refl)
read_from-seen (has_resampler s0 res) s v = (v.0, v.1, λ e. (v.2 e, refl))
read_from-seen (has_cabsim s0 res cab) s v = (v.0, v.1, λ e. ((v.2 e).0, (v.2 e).1, refl))
read_from-seen (has_all s0 res cab os) s v = elim (Bool-cases (s0 == s.latency_sequence)) [
  | inl e ↦ rw e tt
  | inr e ↦ rw e tt
]
read_from-seen (returned res cab os) s v = tt

step-IsSound :
    (e : Step) (n : ℕ) (s : Latencies) → n < u64_max → IsSound n s → IsSound (suc n) (step e s)
unfolding step
step-IsSound (write u) n s h v = write_from-IsSound s.writer u n s h refl v
step-IsSound read n s h v = record {
  small = omega (arith, v.small);
  parity = v.parity;
  seen = read_from-seen s.reader s v.seen;
}

pub run-IsSound :
    (steps : List Step) (n : ℕ) (s : Latencies)
    → n + length steps ≤ u64_max
    → IsSound n s
    → IsSound (n + length steps) (run steps s)
run-IsSound [] n s h v = subst (λ k. IsSound k s) (omega arith) v
run-IsSound (e ∷ es) n s h v =
    subst (λ k. IsSound k (run es (step e s))) (omega arith)
      (run-IsSound es (suc n) (step e s) (omega arith) (step-IsSound e n s (omega arith) v))

pub initial-IsSound : IsSound 0 initial
initial-IsSound = record { small = omega arith; parity = omega arith; seen = tt }
