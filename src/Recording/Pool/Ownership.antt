-- ===== src/Recording/Pool/Ownership.antt =====
-- src/recording/pool.rs, "Ownership protocol & soundness": each slot is in one place at a time,
-- whatever the order of the two threads' calls.
use nam_audio_pipe.Base.{
  ℕ, ◌<◌, ◌≡◌, ◌∙◌, ltb, if◌then◌else◌, none, some, List, [], ◌∷◌, arith, sum_by-append,
}
use nam_audio_pipe.Recording.Spsc.{Spsc}
use nam_audio_pipe.Recording.Pool.{
  Pool, Descriptor, is_barrier, slot_len, control_barrier_slot, try_acquire, fill_slot, leak,
  publish, try_push_barrier, try_pop, release,
}
use nam_audio_pipe.Recording.Pool.Session.{
  Session, Step, acquire, exhausted, fill, publish_slot, drop_slot, barrier, pop, nothing_queued,
  release_block, drop_block, Reach, here, next, in_flight-append, total, places, only, each, lose,
}

module _ {F : Spsc ℕ} {W : Spsc Descriptor} where
  -- What each call does to the two queues.
  pub try_acquire-eq_some :
      (p : Pool F W) {i : ℕ}
      → (try_acquire p).0 ≡ some i
      → (F.contents p.free ≡ i ∷ F.contents (try_acquire p).1.free)
        × (W.contents (try_acquire p).1.work ≡ W.contents p.work)
  unfolding try_acquire
  try_acquire-eq_some p h = ground (arith, F.pop_item p.free, F.contents_pop p.free)

  try_acquire-total :
      (s : Session F W) (i : ℕ) (w : ℕ → ℕ)
      → s.rt ≡ none
      → (try_acquire s.pool).0 ≡ some i
      → total w (record s { pool = (try_acquire s.pool).1; rt = some i }) ≡ total w s
  try_acquire-total s i w r h = ground (arith, try_acquire-eq_some s.pool h)

  publish-total :
      (s : Session F W) (i : ℕ) (w : ℕ → ℕ)
      → s.rt ≡ some i
      → i < control_barrier_slot
      → total w (record s {
        pool = (publish i s.pool).1;
        rt = none;
        lost = lose (publish i s.pool).0 i s.lost;
      })
        ≡ total w s
  unfolding publish
  publish-total s i w r small =
      let d : Descriptor = record { slot = i; valid_len = slot_len s.pool i } in
      ground (
        arith,
        W.push_accepted s.pool.work d,
        W.contents_push s.pool.work d,
        in_flight-append w (W.contents s.pool.work) (d ∷ []),
      )

  pub fill_slot-rings :
      (i : ℕ) (l r : List ℕ) (p : Pool F W)
      → ((fill_slot i l r p).free ≡ p.free)
        × ((fill_slot i l r p).work ≡ p.work)
        × ((fill_slot i l r p).slot_leaks ≡ p.slot_leaks)
  unfolding fill_slot
  fill_slot-rings i l r p = (ground arith, ground arith, ground arith)

  barrier-total :
      (s : Session F W) (seq : ℕ) (w : ℕ → ℕ)
      → total w (record s { pool = (try_push_barrier seq s.pool).1 }) ≡ total w s
  unfolding try_push_barrier
  barrier-total s seq w =
      let d : Descriptor = record { slot = control_barrier_slot; valid_len = seq } in
      ground
        (arith, W.contents_push s.pool.work d, in_flight-append w (W.contents s.pool.work) (d ∷ []))

  pub try_pop-eq_some :
      (p : Pool F W) {d : Descriptor}
      → (try_pop p).0 ≡ some d
      → (W.contents p.work ≡ d ∷ W.contents (try_pop p).1.work) × ((try_pop p).1.free ≡ p.free)
  unfolding try_pop
  try_pop-eq_some p h = ground (arith, W.pop_item p.work, W.contents_pop p.work)

  pop-total :
      (s : Session F W) (d : Descriptor) (w : ℕ → ℕ)
      → s.io ≡ none
      → (try_pop s.pool).0 ≡ some d
      → total w (record s { pool = (try_pop s.pool).1; io = some d }) ≡ total w s
  pop-total s d w r h = ground (arith, try_pop-eq_some s.pool h)

  release-total :
      (s : Session F W) (d : Descriptor) (w : ℕ → ℕ)
      → s.io ≡ some d
      → total w (record s {
        pool = (release d s.pool).1;
        io = none;
        lost = lose (release d s.pool).0 d.slot s.lost;
      })
        ≡ total w s
  unfolding release
  release-total s d w r = ground (
    arith,
    F.push_accepted s.pool.free d.slot,
    F.contents_push s.pool.free d.slot,
    sum_by-append w (F.contents s.pool.free) (d.slot ∷ []),
  )

  drop_block-total :
      (s : Session F W) (d : Descriptor) (w : ℕ → ℕ)
      → s.io ≡ some d
      → total w
          (record s { pool = leak s.pool; io = none; lost = lose (is_barrier d) d.slot s.lost })
        ≡ total w s
  unfolding leak
  drop_block-total s d w r = ground arith

  nothing_queued-total :
      (s : Session F W) (w : ℕ → ℕ)
      → (try_pop s.pool).0 ≡ none
      → total w (record s { pool = (try_pop s.pool).1 }) ≡ total w s
  unfolding try_pop
  nothing_queued-total s w h = ground (arith, W.pop_item s.pool.work, W.contents_pop s.pool.work)

  exhausted-total :
      (s : Session F W) (w : ℕ → ℕ)
      → (try_acquire s.pool).0 ≡ none
      → total w (record s { pool = (try_acquire s.pool).1 }) ≡ total w s
  unfolding try_acquire
  exhausted-total s w h = ground (arith, F.pop_item s.pool.free, F.contents_pop s.pool.free)

-- Each of the `n` slots stands in exactly one place, and no other index stands anywhere.
pub record IsOwned {F : Spsc ℕ} {W : Spsc Descriptor} (n : ℕ) (s : Session F W) : Type 0 where
  pub once : (i : ℕ) → places i s ≡ (if ltb i n then 1 else 0)
  pub all : total each s ≡ n

pub rt_lt :
    {F : Spsc ℕ} {W : Spsc Descriptor} (n : ℕ) (s : Session F W) (i : ℕ)
    → IsOwned n s
    → s.rt ≡ some i
    → i < n
rt_lt n s i v h = ground (arith, v.once i)

-- A call moves a slot from one place to another.
pub Step-total :
    {F : Spsc ℕ} {W : Spsc Descriptor} (n : ℕ) {s t : Session F W}
    → Step s t
    → n < control_barrier_slot
    → IsOwned n s
    → (w : ℕ → ℕ) → total w t ≡ total w s
Step-total n (acquire s i r h) small v w = try_acquire-total s i w r h
Step-total n (exhausted s h) small v w = exhausted-total s w h
Step-total n (fill s i l r h) small v w = ground (arith, fill_slot-rings i l r s.pool)
Step-total n (publish_slot s i h) small v w = publish-total s i w h (omega (arith, rt_lt n s i v h))
Step-total n (drop_slot s i h) small v w = unfold leak in ground arith
Step-total n (barrier s seq) small v w = barrier-total s seq w
Step-total n (pop s d r h) small v w = pop-total s d w r h
Step-total n (nothing_queued s h) small v w = nothing_queued-total s w h
Step-total n (release_block s d h) small v w = release-total s d w h
Step-total n (drop_block s d h) small v w = drop_block-total s d w h

pub Reach-IsOwned :
    {F : Spsc ℕ} {W : Spsc Descriptor} (n : ℕ) {s t : Session F W}
    → n < control_barrier_slot
    → IsOwned n s
    → Reach s t
    → IsOwned n t
Reach-IsOwned n small v here = v
Reach-IsOwned n small v (next r st) =
    let w = Reach-IsOwned n small v r in
    record {
      once = λ i. Step-total n st small w (only i) ∙ w.once i;
      all = Step-total n st small w each ∙ w.all;
    }
