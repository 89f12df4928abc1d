-- ===== src/Host/Callback/Process/Closed.antt =====
-- src/standalone/pw_host/rt_callback/process.rs: the callback runs on a proven pair of channels or
-- gives the buffer up.
use mathlib.Core.Path.{subst}
use nam_audio_pipe.Base.{
  ℕ, ◌+◌, ◌≤◌, ◌≡◌, refl, sym, ap, ◌∙◌, true, Option, none, some, List, ◌∷◌, u64_max, ltb,
  if◌then◌else◌, ◌==◌, ◌%◌, ◌||◌, not, Bool-cases, inl, inr, arith,
}
use nam_audio_pipe.Recording.Transport.{Rings}
use nam_audio_pipe.Host.Callback.Buffers.{
  Host, Channel, ChunkPtr, Data, read_chunk_meta, resolved, resolve_capture_chunk_window,
  handle_spa_pair_fail_closed, report_ffi_contract_violation,
}
use nam_audio_pipe.Host.Callback.Safety.{IsSafePair, accepted_safe, rejected_silent}
use nam_audio_pipe.Host.Callback.Recorder.{Recorder, Quantum, record_quantum}
use nam_audio_pipe.Host.Callback.Process.{
  Left, Slice, samples_at, channel_of, stamped, ran, right_window, left_window, process_dsp_buffer,
}

-- An answer that leaves the host as it was, or flags a violation.
data IsAnswer (h : Host) (w : ℕ × ℕ) : Option (ℕ × ℕ) × Host → Type 0 where
  answered : (v : ℕ × ℕ) → v ≡ w → IsAnswer h w (some v, h)
  violated : (k : Host) → k.violation ≡ true → IsAnswer h w (none, k)

-- The window that the host declares in the chunk; that of a chunk that cannot be read is empty.
abbrev pub declared : ChunkPtr → ℕ × ℕ
declared c =
    if c.address == 0 || not (c.address % 4 == 0) then (0, 0) else (c.chunk.offset, c.chunk.size)

resolved-IsAnswer :
    (max_bridge_buf : ℕ) (l r : Channel) (h : Host) (c : ChunkPtr)
    → IsAnswer h (declared c) (resolved max_bridge_buf l r h (read_chunk_meta c))
unfolding report_ffi_contract_violation read_chunk_meta
resolved-IsAnswer max_bridge_buf l r h c = elim (Bool-cases (c.address == 0)) [
  | inl a ↦ rw a (answered (0, 0) refl)
  | inr a ↦ elim (Bool-cases (c.address % 4 == 0)) [
    | inr b ↦ rw (a, b) (answered (0, 0) refl)
    | inl b ↦ elim (Bool-cases (not (c.chunk.stride == 4) || c.chunk.flags % 2 == 1)) [
      | inl m ↦ rw (a, b, m) (violated _ refl)
      | inr m ↦ rw (a, b, m) (answered (c.chunk.offset, c.chunk.size) refl)
    ]
  ]
]

module _ {R : Rings} (max_bridge_buf : ℕ) (f32_bits : ℕ → ℕ) (d_l d_r : Data) (ds : List Data)
    (q : Quantum) (s : Recorder R) (h : Host) where
  -- The slice that the host's window of a descriptor stands for.
  abbrev whole_window : Data → ℕ → Slice
  whole_window d n = record { address = d.ptr + (declared d.chunk).0; len = n }

  -- What the callback leaves behind two or more descriptors.
  pub data IsClosed : Left R → Type 0 where
    safe :
        (n_bytes n : ℕ)
        → IsSafePair max_bridge_buf
            (channel_of d_l (declared d_l.chunk))
            (channel_of d_r (declared d_r.chunk))
            n_bytes
            n
        → IsClosed (record {
          processed = if ltb 0 n then some (whole_window d_l n, whole_window d_r n) else none;
          datas = d_l ∷ d_r ∷ ds;
          host = h;
          recorder = if ltb 0 n then record_quantum f32_bits q s else s;
        })
    refused :
        (k : Host)
        → k.violation ≡ true
        → IsClosed (record {
          processed = none;
          datas = stamped d_l ∷ stamped d_r ∷ ds;
          host = k;
          recorder = s;
        })

  module _ (end_l : d_l.ptr + d_l.maxsize ≤ u64_max) (end_r : d_r.ptr + d_r.maxsize ≤ u64_max) where
    ran-IsClosed :
        (o : Option (ℕ × ℕ) × Host)
        → handle_spa_pair_fail_closed max_bridge_buf
            (channel_of d_l (declared d_l.chunk))
            d_l.chunk
            (channel_of d_r (declared d_r.chunk))
            d_r.chunk
            h
          ≡ o
        → IsClosed
            (ran max_bridge_buf f32_bits (declared d_l.chunk) (declared d_r.chunk) d_l d_r ds q s o)
    ran-IsClosed (none, k) e = refused k (
        ap (λ (x : Option (ℕ × ℕ) × Host). x.1.violation) (sym e)
        ∙ (rejected_silent max_bridge_buf (channel_of d_l (declared d_l.chunk))
            (channel_of d_r (declared d_r.chunk)) d_l.chunk d_r.chunk h (ap (λ x. x.0) e)).0)
    ran-IsClosed (some (n_bytes, n), k) e =
        let (same, pair) =
          accepted_safe max_bridge_buf (channel_of d_l (declared d_l.chunk))
            (channel_of d_r (declared d_r.chunk)) d_l.chunk d_r.chunk h n_bytes n end_l end_r
            (ap (λ x. x.0) e) in
        let left_at : d_l.ptr + (declared d_l.chunk).0
            ≡ (d_l.ptr + (declared d_l.chunk).0) % (u64_max + 1) =
          omega (arith, pair.left.inside, end_l) in
        let right_at : d_r.ptr + (declared d_r.chunk).0
            ≡ (d_r.ptr + (declared d_r.chunk).0) % (u64_max + 1) =
          omega (arith, pair.right.inside, end_r) in
        subst
          (λ (x : Host). IsClosed (record {
            processed =
                if ltb 0 n
                then some (
                  samples_at (channel_of d_l (declared d_l.chunk)) n,
                  samples_at (channel_of d_r (declared d_r.chunk)) n,
                )
                else none;
            datas = d_l ∷ d_r ∷ ds;
            host = x;
            recorder = if ltb 0 n then record_quantum f32_bits q s else s;
          }))
          (sym same ∙ ap (λ x. x.1) e)
          (subst
            (λ (p : ℕ × ℕ). IsClosed (record {
              processed =
                  if ltb 0 n
                  then some (record { address = p.0; len = n }, record { address = p.1; len = n })
                  else none;
              datas = d_l ∷ d_r ∷ ds;
              host = h;
              recorder = if ltb 0 n then record_quantum f32_bits q s else s;
            }))
            (ap (λ a. (a, d_r.ptr + (declared d_r.chunk).0)) left_at
              ∙ ap (λ b. ((d_l.ptr + (declared d_l.chunk).0) % (u64_max + 1), b)) right_at)
            (safe n_bytes n pair))

    right-IsClosed :
        (o : Option (ℕ × ℕ) × Host)
        → IsAnswer h (declared d_r.chunk) o
        → IsClosed (right_window max_bridge_buf f32_bits d_l d_r ds q s (declared d_l.chunk) o)
    right-IsClosed o (violated k e) = refused k e
    right-IsClosed o (answered w e) =
        subst
          (λ w.
            IsClosed (
              right_window max_bridge_buf f32_bits d_l d_r ds q s (declared d_l.chunk) (some w, h)))
          (sym e) (ran-IsClosed _ refl)

    left-IsClosed :
        (o : Option (ℕ × ℕ) × Host)
        → IsAnswer h (declared d_l.chunk) o
        → IsClosed (left_window max_bridge_buf f32_bits d_l d_r ds q s o)
    unfolding resolve_capture_chunk_window
    left-IsClosed o (violated k e) = refused k e
    left-IsClosed o (answered w e) =
        subst (λ w. IsClosed (left_window max_bridge_buf f32_bits d_l d_r ds q s (some w, h)))
          (sym e)
          (right-IsClosed _ (
            resolved-IsAnswer max_bridge_buf (channel_of d_l (0, 0)) (channel_of d_r (0, 0)) h
              d_r.chunk))

    -- For a negotiated stereo format and two or more descriptors, whose regions end below the last
    -- address, whatever their chunks say: either the callback runs the DSP, when there are samples, and
    -- records, and then on the slices of the two windows that the two chunks declare, which are
    -- aligned, inside their regions, of the same size and apart, with nothing flagged, cleared or
    -- stamped before; or the violation is flagged, both chunks are stamped empty where they
    -- can be written, the DSP does not run, and nothing is recorded.
    pub process_dsp_buffer-IsClosed :
        IsClosed (process_dsp_buffer max_bridge_buf f32_bits true (d_l ∷ d_r ∷ ds) q s h)
    unfolding process_dsp_buffer resolve_capture_chunk_window
    process_dsp_buffer-IsClosed = left-IsClosed _ (
        resolved-IsAnswer max_bridge_buf (channel_of d_l (0, 0)) (channel_of d_r (0, 0)) h
          d_l.chunk)
