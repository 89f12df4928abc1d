-- ===== src/Recording/Disk/Session/Reading.antt =====
-- src/recording/disk.rs: a block that the worker takes is a slot of the pool, as the RT thread filled
-- it.
use nam_audio_pipe.Base.{
  ℕ, ◌≡◌, refl, sym, ◌∙◌, inl, inr, Option, none, some, Bool-cases, Option-cases, get_elem?,
}
use nam_audio_pipe.Recording.Buffer.{AlignedBlock, AudioMetadata}
use nam_audio_pipe.Recording.Pool
use nam_audio_pipe.Recording.Pool.{Descriptor, is_barrier, try_pop}
use nam_audio_pipe.Recording.Transport.{Rings, Live}
use nam_audio_pipe.Recording.Disk.Intake.{
  Taken, empty, barrier, block, fault, take_next, resolved, fetched,
}

-- The block of a turn that took one.
abbrev pub block_of : Taken → Option AlignedBlock
block_of empty = none
block_of fault = none
block_of (barrier d m) = none
block_of (block d b) = some b

module _ {R : Rings} where
  abbrev pub IsSlot : Live R → AlignedBlock → Type 0
  IsSlot s b = (i : ℕ) × (get_elem? s.pool.slots i ≡ some b)

  not_resolved :
      (d : Descriptor) (s : Live R) (o : Option (Option AudioMetadata × (R.C).Ring))
      → block_of (resolved d s o).0 ≡ none
  not_resolved d s none = refl
  not_resolved d s (some (m, r)) = refl

  block_of-fetched :
      (d : Descriptor) (s : Live R) (o : Option AlignedBlock) → block_of (fetched d s o).0 ≡ o
  block_of-fetched d s none = refl
  block_of-fetched d s (some b) = refl

  taken_popped :
      (s : Live R) (b : AlignedBlock) (d : Descriptor)
      → (try_pop s.pool).0 ≡ some d
      → block_of (take_next s).0 ≡ some b
      → IsSlot s b
  unfolding take_next try_pop Pool.block
  taken_popped s b d e h = elim (Bool-cases (is_barrier d)) [
    | inl c ↦
        cc (not_resolved d (record s { pool = (try_pop s.pool).1 }) _, rw (e, take_next, c) at h)
    | inr c ↦ (
      d.slot,
      sym (
            block_of-fetched d (record s { pool = (try_pop s.pool).1 })
              (get_elem? s.pool.slots d.slot))
          ∙ rw (e, take_next, c) at h,
    )
  ]

  pub take_next-IsSlot :
      (s : Live R) (b : AlignedBlock) → block_of (take_next s).0 ≡ some b → IsSlot s b
  unfolding take_next
  take_next-IsSlot s b h = elim (Option-cases (try_pop s.pool).0) [
    | inl e ↦ cc (rw (e, take_next) at h)
    | inr (d, e) ↦ taken_popped s b d e h
  ]
