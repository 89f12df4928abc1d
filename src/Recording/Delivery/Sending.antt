-- ===== src/Recording/Delivery/Sending.antt =====
-- What one call of the sender does to the pool: `try_push_audio` and the barrier of
-- `try_push_metadata`.
use mathlib.Core.Path.{subst}
use nam_audio_pipe.Base.{
  ℕ, ◌<◌, ◌≤◌, ◌≡◌, refl, sym, ◌∙◌, ap, Bool, true, false, inl, inr, none, some, List, [], ◌∷◌,
  ◌++◌, length, arith, set, get_elem?, get_elem?-lt, Option-cases,
}
use nam_audio_pipe.Recording.Spsc.{Spsc}
use nam_audio_pipe.Recording.Buffer.{AlignedBlock, control_capacity, max_block_size, fill_planar}
use nam_audio_pipe.Recording.Pool.{
  Pool, Descriptor, control_barrier_slot, try_acquire, fill_slot, publish, slot_len,
}
use nam_audio_pipe.Recording.Pool.Session.{
  Session, acquire, exhausted, fill, publish_slot, lose, Reach, here, next, in_flight, only, start,
}
use nam_audio_pipe.Recording.Pool.Ownership.{
  IsOwned, Reach-IsOwned, try_acquire-eq_some, rt_lt, fill_slot-rings,
}
use nam_audio_pipe.Recording.Pool.Bounds.{IsSized, Step-IsSized, publish_keeps}
use nam_audio_pipe.Recording.Pool.Protocol.{barriers, publish_accepted, Reach-IsSized}
use nam_audio_pipe.Recording.Transport.{push_audio}

-- A pool that no thread holds anything of, with no slot lost.
pub record IsRested {F : Spsc ℕ} {W : Spsc Descriptor} (n : ℕ) (p : Pool F W) : Type 0 where
  pub small : n < control_barrier_slot
  pub owned : IsOwned n (start p)
  pub sized : IsSized n p

module _ {F : Spsc ℕ} {W : Spsc Descriptor} where
  -- A call that finds a free slot and room in the work ring.
  pub record Sent (p q : Pool F W) (left right : List ℕ) : Type 0 where
    pub slot : ℕ
    pub len : ℕ
    pub old : AlignedBlock
    pub found : get_elem? p.slots slot ≡ some old
    pub fit : length old.cells ≡ max_block_size
    pub unused : in_flight (only slot) (W.contents p.work) ≡ 0
    pub in_range : slot < control_barrier_slot
    pub work : W.contents q.work ≡ W.contents p.work ++ record { slot = slot; valid_len = len } ∷ []
    pub slots : q.slots ≡ set p.slots slot (fill_planar old left right)

  publish_work :
      (i : ℕ) (p : Pool F W)
      → (publish i p).0 ≡ true
      → W.contents (publish i p).1.work
        ≡ W.contents p.work ++ record { slot = i; valid_len = slot_len p i } ∷ []
  unfolding publish
  publish_work i p h =
      let d : Descriptor = record { slot = i; valid_len = slot_len p i } in
      ground (arith, W.push_accepted p.work d, W.contents_push p.work d)

  fill_slot_slots :
      (i : ℕ) (left right : List ℕ) (p : Pool F W) (b : AlignedBlock)
      → get_elem? p.slots i ≡ some b
      → (fill_slot i left right p).slots ≡ set p.slots i (fill_planar b left right)
  unfolding fill_slot
  fill_slot_slots i left right p b e = rw (e, fill_slot) refl

  try_acquire_slots : (p : Pool F W) → (try_acquire p).1.slots ≡ p.slots
  unfolding try_acquire
  try_acquire_slots p = refl

  -- The two outcomes of an audio call.
  pub data Sends (n : ℕ) (p : Pool F W) (left right : List ℕ) : Bool × Pool F W → Type 0 where
    refused :
        (q : Pool F W)
        → IsRested n q
        → F.contents p.free ≡ []
        → W.contents q.work ≡ W.contents p.work
        → q.slots ≡ p.slots
        → Sends n p left right (false, q)
    sent : (q : Pool F W) → IsRested n q → Sent p q left right → Sends n p left right (true, q)

  module _ (n : ℕ) (p : Pool F W) (left right : List ℕ) (v : IsRested n p) where
    refuses : (try_acquire p).0 ≡ none → Sends n p left right (false, (try_acquire p).1)
    refuses e =
        let st = exhausted (start p) e in
        refused _
          (record {
            small = v.small;
            owned = Reach-IsOwned n v.small v.owned (next here st);
            sized = Step-IsSized n st v.sized;
          })
          (empty_free e) (no_work e) (try_acquire_slots p)
      where
        empty_free : (try_acquire p).0 ≡ none → F.contents p.free ≡ []
        empty_free h = unfold try_acquire in ground (arith, F.pop_item p.free)

        no_work : (try_acquire p).0 ≡ none → W.contents (try_acquire p).1.work ≡ W.contents p.work
        no_work h = unfold try_acquire in refl

    module _ (i : ℕ) (e : (try_acquire p).0 ≡ some i)
        (few : barriers (W.contents p.work) ≤ control_capacity) where
      abbrev holding : Session F W
      holding = record (start p) { pool = (try_acquire p).1; rt = some i }

      abbrev filled : Session F W
      filled = record holding { pool = fill_slot i left right (try_acquire p).1 }

      to_filled : Reach (start p) filled
      to_filled = next (next here (acquire (start p) i refl e)) (fill holding i left right refl)

      filled_work : W.contents filled.pool.work ≡ W.contents p.work
      filled_work =
          ap W.contents (fill_slot-rings i left right (try_acquire p).1).1
          ∙ (try_acquire-eq_some p e).1

      goes : (publish i filled.pool).0 ≡ true
      goes =
          publish_accepted n filled (Reach-IsOwned n v.small v.owned to_filled)
            (Reach-IsSized n v.sized to_filled) i refl (omega (arith, ap barriers filled_work))

      to_published : Reach (start p) (record filled {
        pool = (publish i filled.pool).1;
        rt = none;
        lost = lose (publish i filled.pool).0 i [];
      })
      to_published = next to_filled (publish_slot filled i refl)

      rested : IsRested n (publish i filled.pool).1
      rested = record {
        small = v.small;
        owned =
            subst
              (λ (b : Bool).
                IsOwned n (record filled {
                  pool = (publish i filled.pool).1;
                  rt = none;
                  lost = lose b i [];
                }))
              goes (Reach-IsOwned n v.small v.owned to_published);
        sized = Reach-IsSized n v.sized to_published;
      }

      in_range : i < n
      in_range =
          rt_lt n holding i
            (Reach-IsOwned n v.small v.owned (next here (acquire (start p) i refl e))) refl

      unused : in_flight (only i) (W.contents p.work) ≡ 0
      unused = ground (arith, v.owned.once i, try_acquire-eq_some p e)

      accepts : Sends n p left right (publish i filled.pool)
      unfolding try_acquire
      accepts =
          let (b, found) = get_elem?-lt p.slots i (omega (arith, in_range, v.sized.slot_count)) in
          subst (Sends n p left right) (pair goes) (
            sent (publish i filled.pool).1 rested (record {
              slot = i;
              len = slot_len filled.pool i;
              old = b;
              found = found;
              fit = (v.sized.fits i b found).cells;
              unused = unused;
              in_range = omega (arith, in_range, v.small);
              work =
                  publish_work i filled.pool goes
                  ∙ ap (λ l. l ++ record { slot = i; valid_len = slot_len filled.pool i } ∷ [])
                      filled_work;
              slots =
                  (publish_keeps i filled.pool).2
                  ∙ fill_slot_slots i left right (try_acquire p).1 b found;
            }))
        where
          pair :
              (publish i filled.pool).0 ≡ true
              → (true, (publish i filled.pool).1) ≡ publish i filled.pool
          pair h = λ j. (sym h j, (publish i filled.pool).1)

    pub push_audio-Sends :
        barriers (W.contents p.work) ≤ control_capacity
        → Sends n p left right (push_audio left right p)
    unfolding push_audio
    push_audio-Sends few = elim (Option-cases (try_acquire p).0) [
      | inl e ↦ rw (e, push_audio) (refuses e)
      | inr (i, e) ↦ rw (e, push_audio) (accepts i e few)
    ]
