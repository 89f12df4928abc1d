-- ===== src/Recording/Pool/Protocol.antt =====
-- src/recording/pool.rs, the guarantees of its header over every interleaving of the two threads.
use mathlib.Core.Option.{some-injective}
use mathlib.Core.Path.{subst}
use nam_audio_pipe.Base.{
  ℕ, ◌+◌, ◌<◌, ◌≤◌, ◌≡◌, refl, sym, ◌∙◌, ap, ltb, if◌then◌else◌, true, Option, none, some, List, [],
  ◌∷◌, sum_by, length, arith, get_elem?, get_elem?-replicate, length-replicate, Option-cases, inl,
  inr,
}
use nam_audio_pipe.Recording.Spsc.{Spsc}
use nam_audio_pipe.Recording.Buffer.{AlignedBlock, control_capacity, max_block_size, new_uninit}
use nam_audio_pipe.Recording.Pool
use nam_audio_pipe.Recording.Pool.{
  Pool, Descriptor, control_barrier_slot, try_acquire, publish, release, is_barrier, slot_len,
  try_push_barrier,
}
use nam_audio_pipe.Recording.Pool.Session.{
  Session, Reach, here, next, held, held_block, in_flight, places, only, each, start,
}
use nam_audio_pipe.Recording.Pool.Ownership.{IsOwned, Reach-IsOwned, try_acquire-eq_some}
use nam_audio_pipe.Recording.Pool.Start.{new_lem, start-IsOwned}
use nam_audio_pipe.Recording.Pool.Bounds.{IsSized, IsFit, Step-IsSized}

-- How many control barriers wait in the work ring.
abbrev pub barriers : List Descriptor → ℕ
barriers [] = 0
barriers (d ∷ ds) = (if is_barrier d then 1 else 0) + barriers ds

length-work : (ds : List Descriptor) → length ds ≡ in_flight each ds + barriers ds
length-work [] = refl
length-work (d ∷ ds) = ground (arith, length-work ds)

length-sum_by : (xs : List ℕ) → sum_by each xs ≡ length xs
length-sum_by [] = refl
length-sum_by (x ∷ xs) = omega (arith, length-sum_by xs)

new_uninit-IsFit : (b : AlignedBlock) → b ≡ new_uninit max_block_size → IsFit b
unfolding new_uninit
new_uninit-IsFit b e = record {
  cells =
      ap (λ (c : AlignedBlock). length c.cells) e
      ∙ length-replicate {A = Option ℕ} max_block_size none;
  valid = omega (arith, ap (λ (c : AlignedBlock). c.valid_len) e);
  whole = omega (arith, ap (λ (c : AlignedBlock). c.valid_len) e);
}

module _ {F : Spsc ℕ} {W : Spsc Descriptor} (n : ℕ) (lo : 0 < n)
    (hi : n < control_barrier_slot) where
  pub start_lem : (p : Pool F W) → Pool.new n ≡ some p → IsOwned n (start p) × IsSized n p
  start_lem p e =
      let (q, made, free, cap, work, room, slots) = new_lem {F = F} {W = W} n lo hi in
      subst (λ (r : Pool F W). IsOwned n (start r) × IsSized n r)
        (some-injective q p (sym made ∙ e))
        (
          start-IsOwned n q free work,
          record {
            free_capacity = cap;
            work_capacity = room;
            slot_count = ap length slots ∙ length-replicate n (new_uninit max_block_size);
            fits = λ i b h.
                new_uninit-IsFit b
                  (get_elem?-replicate n i (new_uninit max_block_size) (rw slots at h));
          },
        )

pub slot_len-le :
    {F : Spsc ℕ} {W : Spsc Descriptor} (n : ℕ) (p : Pool F W) (i : ℕ)
    → IsSized n p
    → slot_len p i ≤ max_block_size
slot_len-le n p i v = elim (Option-cases (get_elem? p.slots i)) [
  | inl e ↦ rw (e, slot_len) (omega arith)
  | inr (b, e) ↦ rw (e, slot_len) (v.fits i b e).valid
]

-- The arithmetic behind the two infallible pushes, from the invariants alone.
module _ {F : Spsc ℕ} {W : Spsc Descriptor} (n : ℕ) (s : Session F W) (owned : IsOwned n s)
    (sized : IsSized n s.pool) where
  pub release_accepted : (d : Descriptor) → s.io ≡ some d → (release d s.pool).0 ≡ true
  unfolding release
  release_accepted d h = ground (
    arith,
    owned.all,
    sized.free_capacity,
    length-sum_by (F.contents s.pool.free),
    F.push_accepted s.pool.free d.slot,
  )

  pub publish_accepted :
      (i : ℕ)
      → s.rt ≡ some i
      → barriers (W.contents s.pool.work) ≤ control_capacity
      → (publish i s.pool).0 ≡ true
  unfolding publish
  publish_accepted i h few = ground (
    arith,
    owned.all,
    sized.work_capacity,
    length-work (W.contents s.pool.work),
    slot_len-le n s.pool i sized,
    W.push_accepted s.pool.work (record { slot = i; valid_len = slot_len s.pool i }),
  )

  pub barrier_accepted :
      (seq : ℕ)
      → barriers (W.contents s.pool.work) < control_capacity
      → (try_push_barrier seq s.pool).0 ≡ true
  unfolding try_push_barrier
  barrier_accepted seq few = ground (
    arith,
    owned.all,
    sized.work_capacity,
    length-work (W.contents s.pool.work),
    W.push_accepted s.pool.work (record { slot = control_barrier_slot; valid_len = seq }),
  )

pub Reach-IsSized :
    {F : Spsc ℕ} {W : Spsc Descriptor} (n : ℕ) {s t : Session F W}
    → IsSized n s.pool
    → Reach s t
    → IsSized n t.pool
Reach-IsSized n v here = v
Reach-IsSized n v (next r st) = Step-IsSized n st (Reach-IsSized n v r)

module _ {F : Spsc ℕ} {W : Spsc Descriptor} (n : ℕ) (p : Pool F W) (s : Session F W) (lo : 0 < n)
    (hi : n < control_barrier_slot) (made : Pool.new n ≡ some p) (runs : Reach (start p) s) where
  owned : IsOwned n s
  owned = Reach-IsOwned n hi (start_lem n lo hi p made).0 runs

  sized : IsSized n s.pool
  sized = Reach-IsSized n (start_lem n lo hi p made).1 runs

  -- From a pool that `new` built, after any interleaving of the two threads' calls: each slot index
  -- below the capacity stands in exactly one of the free ring, the RT thread's hands, the work ring,
  -- the I/O thread's hands and the dropped slots, and no other index stands in any.
  pub exactly_once : (i : ℕ) → places i s ≡ (if ltb i n then 1 else 0)
  exactly_once = owned.once

  -- After any interleaving, a slot that `try_acquire` hands out lies inside the pool, is in no
  -- descriptor of the work ring, is not being read by the I/O thread, and stands in the free ring
  -- no second time: no slot is reused while an older descriptor names it, or returned twice.
  pub try_acquire_exclusive :
      (i : ℕ)
      → (try_acquire s.pool).0 ≡ some i
      → (i < n)
        × (in_flight (only i) (W.contents s.pool.work) ≡ 0)
        × (held_block (only i) s.io ≡ 0)
        × (held (only i) s.rt ≡ 0)
        × (sum_by (only i) (F.contents (try_acquire s.pool).1.free) ≡ 0)
  try_acquire_exclusive i h = ground (arith, owned.once i, try_acquire-eq_some s.pool h)

  -- After any interleaving, `release` of the descriptor that the I/O thread holds succeeds.
  pub release_infallible : (d : Descriptor) → s.io ≡ some d → (release d s.pool).0 ≡ true
  release_infallible = release_accepted n s owned sized

  -- After any interleaving in which at most `CONTROL_CAPACITY` barriers wait in the work ring,
  -- `publish` of the slot that the RT thread holds succeeds.
  pub publish_infallible :
      (i : ℕ)
      → s.rt ≡ some i
      → barriers (W.contents s.pool.work) ≤ control_capacity
      → (publish i s.pool).0 ≡ true
  publish_infallible = publish_accepted n s owned sized
