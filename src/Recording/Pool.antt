-- ===== src/Recording/Pool.antt =====
-- src/recording/pool.rs: preallocated slots handed round by index through two rings. A method that
-- mutates the pool returns the new pool. `AcquiredSlot` and `InFlightBlock` are the slot index and
-- the descriptor that they guard.
pub mod Session
pub mod Ownership
pub mod Start
pub mod Bounds
pub mod Protocol
use nam_audio_pipe.Base.{
  ℕ, zero, suc, ◌+◌, ◌==◌, ltb, leb, if◌then◌else◌, Bool, true, false, Option, none, some, List, [],
  ◌∷◌, ◌%◌, u64_max, set, get_elem?, replicate, length,
}
use nam_audio_pipe.Recording.Spsc.{Spsc}
use nam_audio_pipe.Recording.Buffer.{
  AlignedBlock, max_block_size, control_capacity, new_uninit, fill_planar,
}

abbrev pub pool_capacity : ℕ
pool_capacity = 256

abbrev pub control_barrier_slot : ℕ
control_barrier_slot = 65535

pub record Descriptor : Type 0 where
  pub slot : ℕ
  pub valid_len : ℕ

-- The two halves share one value: the producer's `free` is the consumer end of the ring whose
-- producer end the consumer holds, and likewise `work`.
pub record Pool (F : Spsc ℕ) (W : Spsc Descriptor) : Type 0 where
  pub slots : List AlignedBlock
  pub slot_leaks : ℕ
  pub work : W.Ring
  pub free : F.Ring

-- The loop that seeds the free ring with `k` indices from `idx` on; `none` is its panic.
seed : (F : Spsc ℕ) → ℕ → ℕ → F.Ring → Option F.Ring
seed F zero idx r = some r
seed F (suc k) idx r =
    let rest = seed F k (idx + 1) (F.push r idx).1 in if (F.push r idx).0 then rest else none

module _ {F : Spsc ℕ} {W : Spsc Descriptor} where
  -- `none`: one of the two assertions on `N` fails, or the seeding panics.
  unfoldable pub new : ℕ → Option (Pool F W)
  unfolding seed new_uninit
  new n =
      if ltb n control_barrier_slot
      then if ltb 0 n
        then elim (seed F n 0 (F.new n)) [
          | none ↦ none
          | some free ↦ some (record {
            slots = replicate n (new_uninit max_block_size);
            slot_leaks = 0;
            work = W.new (n + control_capacity);
            free = free;
          })
        ]
        else none
      else none

  -- `try_acquire`: the index popped from the free ring.
  unfoldable pub try_acquire : Pool F W → Option ℕ × Pool F W
  try_acquire p = ((F.pop p.free).0, record p { free = (F.pop p.free).1 })

  -- `AcquiredSlot::block_mut` and a fill: the slot's block is written in place.
  unfoldable pub fill_slot : ℕ → List ℕ → List ℕ → Pool F W → Pool F W
  fill_slot idx left right p = elim (get_elem? p.slots idx) [
    | none ↦ p
    | some b ↦ record p { slots = set p.slots idx (fill_planar b left right) }
  ]

  -- `Drop` of a slot or of a block that was not handed on.
  unfoldable pub leak : Pool F W → Pool F W
  leak p = record p { slot_leaks = (p.slot_leaks + 1) % (u64_max + 1) }

  -- The valid length that `publish` reads through the slot's block.
  abbrev pub slot_len : Pool F W → ℕ → ℕ
  slot_len p idx = elim (get_elem? p.slots idx) [ none ↦ 0 | some b ↦ b.valid_len ]

  -- `AcquiredSlot::publish`. `false` drops the slot, which counts it as leaked.
  unfoldable pub publish : ℕ → Pool F W → Bool × Pool F W
  unfolding leak
  publish idx p =
      if leb (slot_len p idx) 65535
      then (let sent = W.push p.work (record { slot = idx; valid_len = slot_len p idx }) in
          if sent.0
          then (true, record p { work = sent.1 })
          else (false, leak (record p { work = sent.1 })))
      else (false, leak p)

  unfoldable pub try_push_barrier : ℕ → Pool F W → Bool × Pool F W
  try_push_barrier seq p =
      let sent = W.push p.work (record { slot = control_barrier_slot; valid_len = seq }) in
      (sent.0, record p { work = sent.1 })

  unfoldable pub try_pop : Pool F W → Option Descriptor × Pool F W
  try_pop p = ((W.pop p.work).0, record p { work = (W.pop p.work).1 })

  unfoldable pub work_is_empty : Pool F W → Bool
  work_is_empty p = length (W.contents p.work) == 0

-- `InFlightBlock::is_barrier`.
abbrev pub is_barrier : Descriptor → Bool
is_barrier d = d.slot == control_barrier_slot

module _ {F : Spsc ℕ} {W : Spsc Descriptor} where
  -- `InFlightBlock::block`; `none` is the panic on a barrier or on an index out of range.
  unfoldable pub block : Pool F W → Descriptor → Option AlignedBlock
  block p d = if is_barrier d then none else get_elem? p.slots d.slot

  -- `InFlightBlock::release`.
  unfoldable pub release : Descriptor → Pool F W → Bool × Pool F W
  unfolding leak
  release d p =
      if is_barrier d
      then (true, p)
      else let sent = F.push p.free d.slot in
        if sent.0
        then (true, record p { free = sent.1 })
        else (false, leak (record p { free = sent.1 }))
