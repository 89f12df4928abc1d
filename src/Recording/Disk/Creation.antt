-- ===== src/Recording/Disk/Creation.antt =====
-- src/recording/disk.rs, `create_new_capture`: the exclusive creation of a capture file. What the
-- file system answers for each suffix is a parameter.
use nam_audio_pipe.Base.{
  ℕ, zero, suc, ◌+◌, ◌≤◌, ◌<◌, ◌≡◌, ◌⊎◌, inl, inr, refl, sym, ap, ◌∙◌, ltb, true, false, u32_max,
  arith, Bool-cases, ltb→lt, ltb→le, le-split,
}

-- An open with `create_new(true)`.
pub data Opened : Type 0 where
  opened : Opened
  already_exists : Opened
  refused : ℕ → Opened

pub data Created : Type 0 where
  created : ℕ → Created
  exhausted : Created
  error : ℕ → Created
  out_of_fuel : Created

-- The loop from a suffix on.
unfoldable pub create_from : ℕ → (ℕ → Opened) → ℕ → Created
create_from zero open_at suffix = out_of_fuel
create_from (suc fuel) open_at suffix = elim (open_at suffix) [
  | opened ↦ created suffix
  | already_exists ↦ elim (ltb suffix u32_max) [
    | true ↦ create_from fuel open_at (suffix + 1)
    | false ↦ exhausted
  ]
  | refused e ↦ error e
]

unfoldable pub create_new_capture : ℕ → (ℕ → Opened) → Created
create_new_capture fuel open_at = create_from fuel open_at 0

-- Every suffix from `i` on and before `k` is taken.
pub AreTaken : (ℕ → Opened) → ℕ → ℕ → Type 0
AreTaken open_at i k = (j : ℕ) → i ≤ j → j < k → open_at j ≡ already_exists

-- What the answer at suffix `k` decides.
pub data Settled (open_at : ℕ → Opened) (k : ℕ) : Created → Type 0 where
  by_open : open_at k ≡ opened → Settled open_at k (created k)
  by_error : (e : ℕ) → open_at k ≡ refused e → Settled open_at k (error e)
  by_exhaustion : open_at k ≡ already_exists → k ≡ u32_max → Settled open_at k exhausted

Opened-cases : (o : Opened) → (o ≡ opened) ⊎ ((o ≡ already_exists) ⊎ ((e : ℕ) × (o ≡ refused e)))
Opened-cases opened = inl refl
Opened-cases already_exists = inr (inl refl)
Opened-cases (refused e) = inr (inr (e, refl))

module _ (open_at : ℕ → Opened) where
  none_before : (i : ℕ) → AreTaken open_at i i
  unfolding AreTaken
  none_before i j a b = absurd (omega (arith, a, b))

  one_taken :
      (i k : ℕ) → open_at i ≡ already_exists → AreTaken open_at (i + 1) k → AreTaken open_at i k
  unfolding AreTaken
  one_taken i k e q j a b = elim (le-split i j a) [
    | inl lt ↦ q j (omega (arith, lt)) b
    | inr same ↦ ap open_at (sym same) ∙ e
  ]

  create_from_lem :
      (fuel i : ℕ)
      → i ≤ u32_max
      → u32_max < i + fuel
      → (k : ℕ) × (k ≤ u32_max)
        × AreTaken open_at i k
        × Settled open_at k (create_from fuel open_at i)
  unfolding create_from
  create_from_lem zero i a b = absurd (omega (arith, a, b))
  create_from_lem (suc fuel) i a b = elim (Opened-cases (open_at i)) [
    | inl e ↦ rw (e, create_from) (i, a, none_before i, by_open e)
    | inr (inr (r, e)) ↦ rw (e, create_from) (i, a, none_before i, by_error r e)
    | inr (inl e) ↦ elim (Bool-cases (ltb i u32_max)) [
      | inr last ↦
          rw (e, last, create_from)
            (i, a, none_before i, by_exhaustion e (omega (arith, a, ltb→le i u32_max last)))
      | inl more ↦
          let (k, le, q, v) =
            create_from_lem fuel (i + 1) (omega (arith, ltb→lt i u32_max more))
              (omega (arith, b)) in
          rw (e, more, create_from) (k, le, one_taken i k e q, v)
    ]
  ]

  -- With as many turns as there are suffixes: the loop ends, at the first suffix whose file does not
  -- exist already. It creates that file, or reports the error that the open of that suffix gave; it
  -- gives up only when all 2^32 suffixes are taken.
  pub create_new_capture_lem :
      (fuel : ℕ)
      → u32_max < fuel
      → (k : ℕ) × (k ≤ u32_max)
        × AreTaken open_at 0 k
        × Settled open_at k (create_new_capture fuel open_at)
  unfolding create_new_capture
  create_new_capture_lem fuel h = create_from_lem fuel 0 (omega arith) (omega (arith, h))
