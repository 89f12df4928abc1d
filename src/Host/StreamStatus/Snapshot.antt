-- ===== src/Host/StreamStatus/Snapshot.antt =====
-- src/standalone/pw_host/stream_status.rs: a read is never torn, and returns when nobody writes.
use nam_audio_pipe.Base.{
  ℕ, ◌%◌, ◌≡◌, ◌≤◌, refl, sym, ap, ◌∙◌, ◌==◌, true, inl, inr, List, [], ◌∷◌, arith, Bool-cases,
  length, u64_max, ==→eq,
}
use nam_audio_pipe.Host.StreamStatus.{
  Writer, idle, begun, stored, paired, Reader, at_start, has_sequence, has_resampler, has_cabsim,
  has_all, returned, Latencies, initial, read_from, Step, read, step, run,
}
use nam_audio_pipe.Host.StreamStatus.Sequence.{phase, Sees, run-IsSound, initial-IsSound}

returned-current :
    (r : Reader) (s : Latencies) (res cab os : ℕ)
    → Sees r s.latency_sequence s.applied_resampler_latency s.applied_cabsim_latency
        s.applied_oversample_latency
    → read_from r s ≡ returned res cab os
    → (s.latency_sequence % 2 ≡ 0)
      × (res ≡ s.applied_resampler_latency)
      × (cab ≡ s.applied_cabsim_latency)
      × (os ≡ s.applied_oversample_latency)
returned-current at_start s res cab os v h = elim (Bool-cases (s.latency_sequence % 2 == 0)) [
  | inl e ↦ (let g : has_sequence s.latency_sequence ≡ returned res cab os = rw e at h in cc)
  | inr e ↦ (let g : at_start ≡ returned res cab os = rw e at h in cc)
]
returned-current (has_sequence s0) s res cab os v h = cc
returned-current (has_resampler s0 a) s res cab os v h = cc
returned-current (has_cabsim s0 a b) s res cab os v h = cc
returned-current (has_all s0 a b c) s res cab os v h =
    elim (Bool-cases (s0 == s.latency_sequence)) [
      | inl e ↦
          (let g : returned a b c ≡ returned res cab os = rw e at h in
            let q : s0 ≡ s.latency_sequence = ==→eq s0 s.latency_sequence e in
            let (x, y, z) = v.2 (sym q) in (omega (arith, v.0, q), cc, cc, cc))
      | inr e ↦ (let g : at_start ≡ returned res cab os = rw e at h in cc)
    ]
returned-current (returned a b c) s res cab os v h = cc

phase-idle : (w : Writer) → phase w ≡ 0 → w ≡ idle
phase-idle idle h = refl
phase-idle (begun u) h = absurd (omega arith)
phase-idle (stored u) h = absurd (omega arith)
phase-idle paired h = absurd (omega arith)

-- In any interleaving of fewer than 2^64 accesses: when the reader's next access returns, the three
-- latencies that it returns are the published ones at that moment, and no update is under way.
pub read_snapshot :
    (steps : List Step) (res cab os : ℕ)
    → length steps ≤ u64_max
    → read_from (run steps initial).reader (run steps initial) ≡ returned res cab os
    → ((run steps initial).writer ≡ idle)
      × (res ≡ (run steps initial).applied_resampler_latency)
      × (cab ≡ (run steps initial).applied_cabsim_latency)
      × (os ≡ (run steps initial).applied_oversample_latency)
read_snapshot steps res cab os h g =
    let s = run steps initial in
    let v = run-IsSound steps 0 initial (omega arith) initial-IsSound in
    let (even, x, y, z) = returned-current s.reader s res cab os v.seen g in
    (phase-idle s.writer (omega (arith, even, v.parity)), x, y, z)

==_same : (n : ℕ) → (n == n) ≡ true
==_same n = ground arith

five_reads :
    (s : Latencies)
    → s.latency_sequence % 2 ≡ 0
    → (run (read ∷ read ∷ read ∷ read ∷ read ∷ []) (record s { reader = at_start })).reader
      ≡ returned s.applied_resampler_latency s.applied_cabsim_latency s.applied_oversample_latency
unfolding step
five_reads s h = rw (h, ==_same s.latency_sequence) refl

-- While no update is under way, five accesses of the reader in a row return the published latencies.
pub quiet_read :
    (steps : List Step)
    → length steps ≤ u64_max
    → (run steps initial).writer ≡ idle
    → (run
        (read ∷ read ∷ read ∷ read ∷ read ∷ [])
        (record (run steps initial) { reader = at_start })).reader
      ≡ returned
          (run steps initial).applied_resampler_latency
          (run steps initial).applied_cabsim_latency
          (run steps initial).applied_oversample_latency
quiet_read steps h e =
    let v = run-IsSound steps 0 initial (omega arith) initial-IsSound in
    five_reads (run steps initial) (v.parity ∙ ap phase e)
