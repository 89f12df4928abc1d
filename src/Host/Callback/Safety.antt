-- ===== src/Host/Callback/Safety.antt =====
-- src/standalone/pw_host/rt_callback/process.rs: what an accepted pair of channels guarantees, and
-- what a rejected one leaves.
use mathlib.Core.Path.{subst}
use nam_audio_pipe.Base.{
  ℕ, ◌+◌, ◌*◌, ◌/◌, ◌%◌, ◌==◌, ◌≤◌, ◌≡◌, ◌≢◌, ◌⊎◌, inl, inr, refl, sym, ap, ◌∙◌, min, leb, ◌&&◌,
  ◌||◌, if◌then◌else◌, Bool, true, false, Option, none, some, u64_max, arith, Bool-cases,
  Option-cases, ltb, ==→eq,
}
use nam_audio_pipe.Host.Callback.Buffers.{
  Memory, Host, Channel, ChunkPtr, check_ffi_contract, check_spa_buffer_pair,
  validate_spa_channel_pair, handle_spa_pair_fail_closed, report_ffi_contract_violation,
  silence_spa_channels, try_zero_region, clearable, zero_region, bounded, is_readable, paired,
  apart, within, checked_add,
}

-- One channel whose window is a slice of samples.
pub record IsWindow (max_bridge_buf n : ℕ) (c : Channel) : Type 0 where
  pub present : c.ptr ≢ 0
  pub base_aligned : c.ptr % 4 ≡ 0
  pub window_aligned : (c.ptr + c.offset) % 4 ≡ 0
  pub inside : c.offset + c.size ≤ c.max
  pub samples : c.size ≡ 4 * n
  pub bound : n ≤ max_bridge_buf

checked_add-some : (a b e : ℕ) → checked_add a b ≡ some e → (e ≡ a + b) × (a + b ≤ u64_max)
checked_add-some a b e h = (ground arith, ground arith)

module _ (max_bridge_buf : ℕ) where
  within-some :
      (len size : ℕ) (end : Option ℕ) (v : ℕ × ℕ)
      → within max_bridge_buf len size end ≡ some v
      → (e : ℕ) × (end ≡ some e) × (e ≤ len) × (size / 4 ≤ max_bridge_buf) × (v ≡ (size, size / 4))
  within-some len size none v h = cc
  within-some len size (some e) v h = (e, refl, ground arith, ground arith, ground arith)

  check_ffi_contract_lem :
      (base len offset size : ℕ) (v : ℕ × ℕ)
      → check_ffi_contract max_bridge_buf base len offset size ≡ some v
      → (within max_bridge_buf len size (checked_add offset size) ≡ some v)
        × (base % 4 ≡ 0)
        × (offset % 4 ≡ 0)
        × (size % 4 ≡ 0)
  unfolding check_ffi_contract
  check_ffi_contract_lem base len offset size v h =
      (ground arith, ground arith, ground arith, ground arith)

-- What the comparison of two checked channels established.
record IsPaired (p_l p_r : ℕ) (left right : Option (ℕ × ℕ)) (v : ℕ × ℕ) : Type 0 where
  pub bytes_r : ℕ
  pub left_checked : left ≡ some v
  pub right_checked : right ≡ some (bytes_r, v.1)
  pub disjoint : (p_l + v.0 ≤ p_r) ⊎ (p_r + bytes_r ≤ p_l)

apart-some :
    (p_l p_r n_bytes n_samples a b : ℕ) (v : ℕ × ℕ)
    → apart p_l p_r n_bytes n_samples (some a) (some b) ≡ some v
    → (v ≡ (n_bytes, n_samples)) × ((a ≤ p_r) ⊎ (b ≤ p_l))
apart-some p_l p_r n_bytes n_samples a b v h = (ground arith, ground arith)

apart-added :
    (p_l p_r n_bytes n_samples bytes_r : ℕ) (a b : Option ℕ) (v : ℕ × ℕ)
    → checked_add p_l n_bytes ≡ a
    → checked_add p_r bytes_r ≡ b
    → apart p_l p_r n_bytes n_samples a b ≡ some v
    → (v ≡ (n_bytes, n_samples)) × ((p_l + n_bytes ≤ p_r) ⊎ (p_r + bytes_r ≤ p_l))
apart-added p_l p_r n_bytes n_samples bytes_r none b v e f h = cc
apart-added p_l p_r n_bytes n_samples bytes_r (some a) none v e f h = cc
apart-added p_l p_r n_bytes n_samples bytes_r (some a) (some b) v e f h =
    let (same, side) = apart-some p_l p_r n_bytes n_samples a b v h in
    let left : a ≡ p_l + n_bytes = (checked_add-some p_l n_bytes a e).0 in
    let right : b ≡ p_r + bytes_r = (checked_add-some p_r bytes_r b f).0 in
    (
      same,
      elim side [ inl c ↦ inl (omega (arith, c, left)) | inr c ↦ inr (omega (arith, c, right)) ],
    )

symmetric :
    (p_l p_r bytes_l samples_l bytes_r samples_r : ℕ) (v : ℕ × ℕ)
    → paired p_l p_r (some (bytes_l, samples_l)) (some (bytes_r, samples_r)) ≡ some v
    → (samples_l ≡ samples_r)
      × (apart p_l p_r bytes_l samples_l (checked_add p_l bytes_l) (checked_add p_r bytes_r)
          ≡ some v)
symmetric p_l p_r bytes_l samples_l bytes_r samples_r v h =
    elim (Bool-cases (samples_l == samples_r)) [
      | inl e ↦ (==→eq samples_l samples_r e, rw e at h)
      | inr e ↦ cc (rw e at h)
    ]

paired-some :
    (p_l p_r : ℕ) (left right : Option (ℕ × ℕ)) (v : ℕ × ℕ)
    → paired p_l p_r left right ≡ some v
    → IsPaired p_l p_r left right v
paired-some p_l p_r none right v h = cc
paired-some p_l p_r (some l) none v h = cc
paired-some p_l p_r (some (bytes_l, samples_l)) (some (bytes_r, samples_r)) v h =
    let (same, q) = symmetric p_l p_r bytes_l samples_l bytes_r samples_r v h in
    let (e, side) =
      apart-added p_l p_r bytes_l samples_l bytes_r (checked_add p_l bytes_l)
        (checked_add p_r bytes_r) v refl refl q in
    record {
      bytes_r = bytes_r;
      left_checked = ap some (sym e);
      right_checked = ap (λ k. some (bytes_r, k)) (sym same ∙ ap (λ x. x.1) (sym e));
      disjoint = subst (λ (x : ℕ × ℕ). (p_l + x.0 ≤ p_r) ⊎ (p_r + bytes_r ≤ p_l)) (sym e) side;
    }

module _ (max_bridge_buf : ℕ) where
  -- One channel of an accepted pair, whose region ends below the last address.
  channel_window :
      (c : Channel) (v : ℕ × ℕ)
      → c.ptr ≢ 0
      → check_ffi_contract max_bridge_buf c.ptr (bounded max_bridge_buf c).max c.offset c.size
        ≡ some v
      → (v.0 ≡ c.size) × IsWindow max_bridge_buf v.1 c
  channel_window c v present h =
      let (w, base, off, whole) =
        check_ffi_contract_lem max_bridge_buf c.ptr (min c.max (max_bridge_buf * 4)) c.offset c.size
          v h in
      let (e, added, le, b, same) =
        within-some max_bridge_buf (min c.max (max_bridge_buf * 4)) c.size
          (checked_add c.offset c.size) v w in
      let end : e ≡ c.offset + c.size = (checked_add-some c.offset c.size e added).0 in
      (
        ap (λ x. x.0) same,
        record {
          present = present;
          base_aligned = base;
          window_aligned = omega (arith, base, off);
          inside = omega (arith, le, end);
          samples = omega (arith, whole, ap (λ x. x.1) same);
          bound = omega (arith, b, ap (λ x. x.1) same);
        },
      )

-- A pair that two mutable slices of `n` samples may be formed over.
pub record IsSafePair (max_bridge_buf : ℕ) (l r : Channel) (n_bytes n : ℕ) : Type 0 where
  pub left : IsWindow max_bridge_buf n l
  pub right : IsWindow max_bridge_buf n r
  pub size : n_bytes ≡ 4 * n
  pub disjoint :
      (l.ptr + l.offset + n_bytes ≤ r.ptr + r.offset)
      ⊎ (r.ptr + r.offset + n_bytes ≤ l.ptr + l.offset)

validated :
    (max_bridge_buf : ℕ) (l r : Channel) (v : ℕ × ℕ)
    → validate_spa_channel_pair max_bridge_buf l r ≡ some v
    → (l.ptr ≢ 0)
      × (r.ptr ≢ 0)
      × IsPaired
          ((l.ptr + l.offset) % (u64_max + 1))
          ((r.ptr + r.offset) % (u64_max + 1))
          (check_ffi_contract max_bridge_buf l.ptr (bounded max_bridge_buf l).max l.offset l.size)
          (check_ffi_contract max_bridge_buf r.ptr (bounded max_bridge_buf r).max r.offset r.size)
          v
unfolding validate_spa_channel_pair check_spa_buffer_pair
validated max_bridge_buf l r v h = elim (Bool-cases (l.ptr == 0)) [
  | inl e ↦ cc (rw e at h)
  | inr e ↦ elim (Bool-cases (r.ptr == 0)) [
    | inl f ↦ cc (rw (e, f) at h)
    | inr f ↦ (
      λ z. ground arith,
      λ z. ground arith,
      paired-some ((l.ptr + l.offset) % (u64_max + 1)) ((r.ptr + r.offset) % (u64_max + 1))
          (check_ffi_contract max_bridge_buf l.ptr (bounded max_bridge_buf l).max l.offset l.size)
          (check_ffi_contract max_bridge_buf r.ptr (bounded max_bridge_buf r).max r.offset r.size) v
          (rw (e, f) at h),
    )
  ]
]

-- The addresses that a rejected channel has to clear: for a data pointer that is not null and
-- aligned, its region up to `maxsize` or to the size of the fixed buffers, if that is whole samples.
abbrev pub is_cleared : ℕ → Channel → ℕ → Bool
is_cleared max_bridge_buf c a =
    ltb 0 c.ptr
    && c.ptr % 4 == 0
    && min c.max (max_bridge_buf * 4) % 4 == 0
    && leb c.ptr a
    && ltb a (c.ptr + min c.max (max_bridge_buf * 4))

cleared-clearable :
    (max_bridge_buf p m a : ℕ)
    → (leb p a && ltb a (p + clearable max_bridge_buf p m)) ≡ (
        ltb 0 p
        && p % 4 == 0
        && min m (max_bridge_buf * 4) % 4 == 0
        && leb p a
        && ltb a (p + min m (max_bridge_buf * 4)))
cleared-clearable max_bridge_buf p m a = ground arith

cleared_by :
    (p n : ℕ) (m : Memory) (a : ℕ)
    → (if◌then◌else◌ {A = ℕ × Memory} (n == 0) (0, m) (n, zero_region p n m)).1 a
      ≡ (if leb p a && ltb a (p + n) then 0 else m a)
cleared_by p n m a = elim (Bool-cases (n == 0)) [ inl e ↦ rw e (ground arith) | inr e ↦ rw e refl ]

either_cleared :
    (x y : Bool) (v : ℕ) → (if y then 0 else if x then 0 else v) ≡ (if x || y then 0 else v)
either_cleared true true v = refl
either_cleared true false v = refl
either_cleared false true v = refl
either_cleared false false v = refl

module _ (max_bridge_buf : ℕ) (l r : Channel) (chunk_l chunk_r : ChunkPtr) (h : Host) where
  abbrev handled : Option (ℕ × ℕ) × Host
  handled = handle_spa_pair_fail_closed max_bridge_buf l chunk_l r chunk_r h

  accepted_verdict :
      (v : ℕ × ℕ)
      → handled.0 ≡ some v
      → (validate_spa_channel_pair max_bridge_buf l r ≡ some v) × (handled.1 ≡ h)
  unfolding handle_spa_pair_fail_closed
  accepted_verdict v e = elim (Bool-cases (is_readable chunk_l && is_readable chunk_r)) [
    | inr c ↦ cc (rw (c, handle_spa_pair_fail_closed) at e)
    | inl c ↦ elim (Option-cases (validate_spa_channel_pair max_bridge_buf l r)) [
      | inl d ↦ cc (rw (c, handle_spa_pair_fail_closed, d) at e)
      | inr (u, d) ↦ (
        d ∙ rw (c, handle_spa_pair_fail_closed, d) at e,
        rw (c, handle_spa_pair_fail_closed, d) refl,
      )
    ]
  ]

  -- For two regions that end below the last address: when a pair of channels is accepted, nothing was
  -- written or flagged, both data pointers are not null and aligned, both windows are aligned and lie
  -- inside their regions, they hold the same number of samples and no more than the fixed buffers
  -- take, and they do not overlap.
  pub accepted_safe :
      (n_bytes n : ℕ)
      → l.ptr + l.max ≤ u64_max
      → r.ptr + r.max ≤ u64_max
      → handled.0 ≡ some (n_bytes, n)
      → (handled.1 ≡ h) × IsSafePair max_bridge_buf l r n_bytes n
  accepted_safe n_bytes n end_l end_r e =
      let (valid, same) = accepted_verdict (n_bytes, n) e in
      let (some_l, some_r, p) = validated max_bridge_buf l r (n_bytes, n) valid in
      let (bytes_l, left) = channel_window max_bridge_buf l (n_bytes, n) some_l p.left_checked in
      let (bytes_r, right) =
        channel_window max_bridge_buf r (p.bytes_r, n) some_r p.right_checked in
      (
        same,
        record {
          left = left;
          right = right;
          size = omega (arith, bytes_l, left.samples);
          disjoint = elim p.disjoint [
            | inl d ↦ inl (omega (arith, d, left.inside, right.inside, end_l, end_r))
            | inr d ↦ inr (
                omega (
                  arith, d, left.inside, right.inside, end_l, end_r, bytes_l, bytes_r, left.samples,
                  right.samples,
                ))
          ];
        },
      )

  zeroed_at :
      (c : Channel) (m : Memory) (a : ℕ)
      → (try_zero_region max_bridge_buf c.ptr c.max m).1 a
        ≡ (if is_cleared max_bridge_buf c a then 0 else m a)
  unfolding try_zero_region
  zeroed_at c m a =
      cleared_by c.ptr (clearable max_bridge_buf c.ptr c.max) m a
      ∙ ap (λ b. if b then 0 else m a) (cleared-clearable max_bridge_buf c.ptr c.max a)

  rejected_flagged :
      handled.0 ≡ none → handled.1 ≡ report_ffi_contract_violation max_bridge_buf l r h
  unfolding handle_spa_pair_fail_closed
  rejected_flagged e = elim (Bool-cases (is_readable chunk_l && is_readable chunk_r)) [
    | inr c ↦ rw (c, handle_spa_pair_fail_closed) refl
    | inl c ↦ elim (Option-cases (validate_spa_channel_pair max_bridge_buf l r)) [
      | inl d ↦ rw (c, handle_spa_pair_fail_closed, d) refl
      | inr (u, d) ↦ cc (rw (c, handle_spa_pair_fail_closed, d) at e)
    ]
  ]

  -- When a pair is rejected, the contract violation is flagged, and memory is zero in each of the two
  -- regions whose data pointer is not null and aligned and whose length, `maxsize` or the size of the
  -- fixed buffers if that is less, is whole samples; every other byte of memory is as before.
  pub rejected_silent :
      handled.0 ≡ none
      → (handled.1.violation ≡ true)
        × ((a : ℕ)
            → handled.1.memory a ≡ (
                if is_cleared max_bridge_buf l a || is_cleared max_bridge_buf r a
                then 0
                else h.memory a))
  unfolding report_ffi_contract_violation silence_spa_channels
  rejected_silent e = (
    ap (λ (k : Host). k.violation) (rejected_flagged e),
    λ a.
        ap (λ (k : Host). k.memory a) (rejected_flagged e)
        ∙ zeroed_at r (try_zero_region max_bridge_buf l.ptr l.max h.memory).1 a
        ∙ ap (λ v. if is_cleared max_bridge_buf r a then 0 else v) (zeroed_at l h.memory a)
        ∙ either_cleared (is_cleared max_bridge_buf l a) (is_cleared max_bridge_buf r a)
            (h.memory a),
  )
