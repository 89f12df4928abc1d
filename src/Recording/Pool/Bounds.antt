-- ===== src/Recording/Pool/Bounds.antt =====
-- src/recording/pool.rs: the two pushes that are "infallible by construction", and that a slot is
-- not handed out while it is in use.
use nam_audio_pipe.Base.{
  ℕ, ◌+◌, ◌*◌, ◌/◌, ◌≤◌, ◌≡◌, refl, ◌∙◌, ap, inl, inr, some, List, length, arith, get_elem?,
  Option-cases, get_elem?-set_cases, length-set,
}
use nam_audio_pipe.Recording.Spsc.{Spsc}
use nam_audio_pipe.Recording.Buffer.{AlignedBlock, control_capacity, max_block_size, fill_planar}
use nam_audio_pipe.Recording.Buffer.Planar.{fill_planar-valid_len, length-fill}
use nam_audio_pipe.Recording.Pool.{
  Pool, Descriptor, try_acquire, publish, release, slot_len, fill_slot, leak, try_push_barrier,
  try_pop,
}
use nam_audio_pipe.Recording.Pool.Session.{
  Session, Step, acquire, exhausted, fill, publish_slot, drop_slot, barrier, pop, nothing_queued,
  release_block, drop_block,
}
use nam_audio_pipe.Recording.Pool.Ownership.{fill_slot-rings}

-- A block of the pool's size, with a valid length inside it that is two channels long.
pub record IsFit (b : AlignedBlock) : Type 0 where
  pub cells : length b.cells ≡ max_block_size
  pub valid : b.valid_len ≤ max_block_size
  pub whole : 2 * (b.valid_len / 2) ≡ b.valid_len

pub record IsSized {F : Spsc ℕ} {W : Spsc Descriptor} (n : ℕ) (p : Pool F W) : Type 0 where
  pub free_capacity : F.capacity p.free ≡ n
  pub work_capacity : W.capacity p.work ≡ n + control_capacity
  pub slot_count : length p.slots ≡ n
  pub fits : (i : ℕ) (b : AlignedBlock) → get_elem? p.slots i ≡ some b → IsFit b

fill_planar-IsFit : (b : AlignedBlock) (l r : List ℕ) → IsFit b → IsFit (fill_planar b l r)
fill_planar-IsFit b l r v = record {
  cells = length-fill b l r ∙ v.cells;
  valid = omega (arith, fill_planar-valid_len b l r, v.cells);
  whole = omega (arith, fill_planar-valid_len b l r);
}

module _ {F : Spsc ℕ} {W : Spsc Descriptor} where
  pub fill_slot-fits :
      (n i : ℕ) (l r : List ℕ) (p : Pool F W)
      → IsSized n p
      → (j : ℕ) (b : AlignedBlock) → get_elem? (fill_slot i l r p).slots j ≡ some b
      → IsFit b
  unfolding fill_slot
  fill_slot-fits n i l r p v j b h = elim (Option-cases (get_elem? p.slots i)) [
    | inl e ↦ v.fits j b (rw (e, fill_slot) at h)
    | inr (a, e) ↦
        elim (get_elem?-set_cases p.slots i j (fill_planar a l r) (rw (e, fill_slot) at h)) [
          | inl same ↦ rw same (fill_planar-IsFit a l r (v.fits i a e))
          | inr kept ↦ v.fits j b kept
        ]
  ]

  length-fill_slot :
      (i : ℕ) (l r : List ℕ) (p : Pool F W) → length (fill_slot i l r p).slots ≡ length p.slots
  unfolding fill_slot
  length-fill_slot i l r p = elim (Option-cases (get_elem? p.slots i)) [
    | inl e ↦ rw (e, fill_slot) refl
    | inr (a, e) ↦ rw (e, fill_slot) (length-set p.slots i (fill_planar a l r))
  ]

  leak-IsSized : (n : ℕ) (p : Pool F W) → IsSized n p → IsSized n (leak p)
  unfolding leak
  leak-IsSized n p v = record {
    free_capacity = v.free_capacity;
    work_capacity = v.work_capacity;
    slot_count = v.slot_count;
    fits = v.fits;
  }

  pub publish_keeps :
      (i : ℕ) (p : Pool F W)
      → ((publish i p).1.free ≡ p.free)
        × (W.capacity (publish i p).1.work ≡ W.capacity p.work)
        × ((publish i p).1.slots ≡ p.slots)
  unfolding publish
  publish_keeps i p =
      let d : Descriptor = record { slot = i; valid_len = slot_len p i } in
      (ground arith, ground (arith, W.capacity_push p.work d), ground arith)

  pub release_keeps :
      (d : Descriptor) (p : Pool F W)
      → ((release d p).1.work ≡ p.work)
        × (F.capacity (release d p).1.free ≡ F.capacity p.free)
        × ((release d p).1.slots ≡ p.slots)
  unfolding release
  release_keeps d p = (ground arith, ground (arith, F.capacity_push p.free d.slot), ground arith)

  publish-IsSized : (n i : ℕ) (p : Pool F W) → IsSized n p → IsSized n (publish i p).1
  publish-IsSized n i p v = record {
    free_capacity = ap F.capacity (publish_keeps i p).0 ∙ v.free_capacity;
    work_capacity = (publish_keeps i p).1 ∙ v.work_capacity;
    slot_count = ap length (publish_keeps i p).2 ∙ v.slot_count;
    fits = λ j b h. v.fits j b (rw (publish_keeps i p).2 at h);
  }

  release-IsSized :
      (n : ℕ) (d : Descriptor) (p : Pool F W) → IsSized n p → IsSized n (release d p).1
  release-IsSized n d p v = record {
    free_capacity = (release_keeps d p).1 ∙ v.free_capacity;
    work_capacity = ap W.capacity (release_keeps d p).0 ∙ v.work_capacity;
    slot_count = ap length (release_keeps d p).2 ∙ v.slot_count;
    fits = λ j b h. v.fits j b (rw (release_keeps d p).2 at h);
  }

pub Step-IsSized :
    {F : Spsc ℕ} {W : Spsc Descriptor} (n : ℕ) {s t : Session F W}
    → Step s t
    → IsSized n s.pool
    → IsSized n t.pool
Step-IsSized {F} n (acquire s i r h) v =
    unfold try_acquire in
    record {
      free_capacity = F.capacity_pop s.pool.free ∙ v.free_capacity;
      work_capacity = v.work_capacity;
      slot_count = v.slot_count;
      fits = v.fits;
    }
Step-IsSized {F} n (exhausted s h) v =
    unfold try_acquire in
    record {
      free_capacity = F.capacity_pop s.pool.free ∙ v.free_capacity;
      work_capacity = v.work_capacity;
      slot_count = v.slot_count;
      fits = v.fits;
    }
Step-IsSized {F} {W} n (fill s i l r h) v = record {
  free_capacity = ap F.capacity (fill_slot-rings i l r s.pool).0 ∙ v.free_capacity;
  work_capacity = ap W.capacity (fill_slot-rings i l r s.pool).1 ∙ v.work_capacity;
  slot_count = length-fill_slot i l r s.pool ∙ v.slot_count;
  fits = fill_slot-fits n i l r s.pool v;
}
Step-IsSized n (publish_slot s i h) v = publish-IsSized n i s.pool v
Step-IsSized n (drop_slot s i h) v = leak-IsSized n s.pool v
Step-IsSized {W} n (barrier s seq) v =
    unfold try_push_barrier in
    record {
      free_capacity = v.free_capacity;
      work_capacity = W.capacity_push s.pool.work _ ∙ v.work_capacity;
      slot_count = v.slot_count;
      fits = v.fits;
    }
Step-IsSized {W} n (pop s d r h) v =
    unfold try_pop in
    record {
      free_capacity = v.free_capacity;
      work_capacity = W.capacity_pop s.pool.work ∙ v.work_capacity;
      slot_count = v.slot_count;
      fits = v.fits;
    }
Step-IsSized {W} n (nothing_queued s h) v =
    unfold try_pop in
    record {
      free_capacity = v.free_capacity;
      work_capacity = W.capacity_pop s.pool.work ∙ v.work_capacity;
      slot_count = v.slot_count;
      fits = v.fits;
    }
Step-IsSized n (release_block s d h) v = release-IsSized n d s.pool v
Step-IsSized n (drop_block s d h) v = leak-IsSized n s.pool v
