-- ===== src/Recording/Pool/Start.antt =====
-- src/recording/pool.rs: `RecordingPool::new` does not panic, and what the ownership protocol gives
-- from the pool that it builds.
use mathlib.Core.List.{append-nil, append_assoc}
use nam_audio_pipe.Base.{
  ℕ, zero, suc, ◌+◌, ◌<◌, ◌≤◌, ◌≡◌, refl, sym, ◌∙◌, ap, ltb, if◌then◌else◌, true, some, [], ◌∷◌,
  ◌++◌, sum_by, range, length, arith, length-append, lt→ltb, replicate,
}
use nam_audio_pipe.Recording.Spsc.{Spsc}
use nam_audio_pipe.Recording.Buffer.{control_capacity, max_block_size, new_uninit}
use nam_audio_pipe.Recording.Pool
use nam_audio_pipe.Recording.Pool.{
  Pool, Descriptor, seed, control_barrier_slot, try_acquire, publish, release, is_barrier, slot_len,
}
use nam_audio_pipe.Recording.Pool.Session.{only, each, start}
use nam_audio_pipe.Recording.Pool.Ownership.{IsOwned}

seed_lem :
    (F : Spsc ℕ) (k i : ℕ) (r : F.Ring)
    → length (F.contents r) + k ≤ F.capacity r
    → (q : F.Ring) × (seed F k i r ≡ some q)
      × (F.contents q ≡ F.contents r ++ range i k)
      × (F.capacity q ≡ F.capacity r)
unfolding seed
seed_lem F zero i r h = (r, refl, sym (append-nil _), refl)
seed_lem F (suc k) i r h =
    let room : ltb (length (F.contents r)) (F.capacity r) ≡ true = lt→ltb _ _ (omega arith) in
    let grown : F.contents (F.push r i).1 ≡ F.contents r ++ i ∷ [] =
      rw (F.contents_push r i, room) refl in
    let same : F.capacity (F.push r i).1 ≡ F.capacity r = F.capacity_push r i in
    let (q, e, c, b) =
      seed_lem F k (i + 1) (F.push r i).1
        (omega (arith, ap length grown, length-append (F.contents r) (i ∷ []))) in
    (
      q,
      rw (F.push_accepted r i, room) e,
      c
          ∙ ap (λ l. l ++ range (i + 1) k) grown
          ∙ append_assoc (F.contents r) (i ∷ []) (range (i + 1) k),
      b ∙ same,
    )

-- The free ring holds each index once at the start.
only-range :
    (i j k : ℕ)
    → sum_by (only i) (range j k) ≡ (if ltb i j then 0 else if ltb i (j + k) then 1 else 0)
only-range i j zero = ground arith
only-range i j (suc k) = ground (arith, only-range i (j + 1) k)

each-range : (j k : ℕ) → sum_by each (range j k) ≡ k
each-range j zero = refl
each-range j (suc k) = omega (arith, each-range (j + 1) k)

module _ {F : Spsc ℕ} {W : Spsc Descriptor} where
  -- Neither assertion of `new` fails for a capacity between 1 and 65534, and the seeding does not
  -- panic: the free ring then holds the indices from 0 on, and the work ring is empty.
  pub new_lem :
      (n : ℕ)
      → 0 < n
      → n < control_barrier_slot
      → (p : Pool F W) × (Pool.new n ≡ some p)
        × (F.contents p.free ≡ range 0 n)
        × (F.capacity p.free ≡ n)
        × (W.contents p.work ≡ [])
        × (W.capacity p.work ≡ n + control_capacity)
        × (p.slots ≡ replicate n (new_uninit max_block_size))
  unfolding Pool.new
  new_lem n h small =
      let (q, e, c, b) =
        seed_lem F n 0 (F.new n) (omega (arith, F.capacity_new n, ap length (F.contents_new n))) in
      (
        record {
          slots = replicate n (new_uninit max_block_size);
          slot_leaks = 0;
          work = W.new (n + control_capacity);
          free = q;
        },
        rw (lt→ltb _ _ small, lt→ltb _ _ h, e) refl,
        c ∙ ap (λ l. l ++ range 0 n) (F.contents_new n),
        b ∙ F.capacity_new n,
        W.contents_new _,
        W.capacity_new _,
        refl,
      )

  pub start-IsOwned :
      (n : ℕ) (p : Pool F W)
      → F.contents p.free ≡ range 0 n
      → W.contents p.work ≡ []
      → IsOwned n (start p)
  start-IsOwned n p f w = record {
    once = λ i. ground (arith, only-range i 0 n, ap (sum_by (only i)) f);
    all = ground (arith, each-range 0 n, ap (sum_by each) f);
  }
