-- ===== src/Recording/Delivery/Format.antt =====
-- What one `try_push_metadata` does while no barrier is pending: either the control ring is full
-- and nothing changes, or both the metadata and its barrier go out.
use mathlib.Core.Path.{subst, ap}
use nam_audio_pipe.Base.{
  Option, ℕ, ◌≤◌, ◌≡◌, refl, sym, ltb, Bool, true, false, inl, inr, none, [], ◌∷◌, ◌++◌, length,
  arith, Bool-cases, ltb→lt, ◌<◌,
}
use nam_audio_pipe.Recording.Spsc.{Spsc}
use nam_audio_pipe.Recording.Buffer.{AudioMetadata, metadata, control_capacity}
use nam_audio_pipe.Recording.Pool.{Pool, Descriptor, control_barrier_slot, try_push_barrier}
use nam_audio_pipe.Recording.Pool.Session.{barrier, here, next, start}
use nam_audio_pipe.Recording.Pool.Ownership.{Reach-IsOwned}
use nam_audio_pipe.Recording.Pool.Bounds.{Step-IsSized}
use nam_audio_pipe.Recording.Pool.Protocol.{barriers, barrier_accepted}
use nam_audio_pipe.Recording.Transport.{Rings, Live, push_metadata, push_after, send_metadata}
use nam_audio_pipe.Recording.Delivery.Sending.{IsRested}

module _ {F : Spsc ℕ} {W : Spsc Descriptor} (n : ℕ) (p : Pool F W) (seq : ℕ) where
  barrier-IsRested : IsRested n p → IsRested n (try_push_barrier seq p).1
  barrier-IsRested v =
      let st = barrier (start p) seq in
      record {
        small = v.small;
        owned = Reach-IsOwned n v.small v.owned (next here st);
        sized = Step-IsSized n st v.sized;
      }

  barrier_work :
      (try_push_barrier seq p).0 ≡ true
      → (W.contents (try_push_barrier seq p).1.work
          ≡ W.contents p.work ++ record { slot = control_barrier_slot; valid_len = seq } ∷ [])
        × ((try_push_barrier seq p).1.slots ≡ p.slots)
  unfolding try_push_barrier
  barrier_work h =
      let d : Descriptor = record { slot = control_barrier_slot; valid_len = seq } in
      (ground (arith, W.push_accepted p.work d, W.contents_push p.work d), refl)

module _ {R : Rings} where
  pub data Formats (n : ℕ) (s : Live R) (m : AudioMetadata) : Bool × Live R → Type 0 where
    full :
        (q : Live R)
        → q.pool ≡ s.pool
        → q.pending_barrier ≡ none
        → (R.C).contents q.control ≡ (R.C).contents s.control
        → (R.C).capacity q.control ≡ (R.C).capacity s.control
        → (R.C).capacity s.control ≤ length ((R.C).contents s.control)
        → Formats n s m (false, q)
    sent :
        (q : Live R)
        → IsRested n q.pool
        → q.pending_barrier ≡ none
        → (R.C).contents q.control ≡ (R.C).contents s.control ++ metadata s.next_seq m ∷ []
        → (R.C).capacity q.control ≡ (R.C).capacity s.control
        → (R.W).contents q.pool.work
          ≡ (R.W).contents s.pool.work
            ++ record { slot = control_barrier_slot; valid_len = s.next_seq } ∷ []
        → q.pool.slots ≡ s.pool.slots
        → length ((R.C).contents s.control) < (R.C).capacity s.control
        → Formats n s m (true, q)

  module _ (n : ℕ) (s : Live R) (m : AudioMetadata) (v : IsRested n s.pool)
      (clear : s.pending_barrier ≡ none) (cap : (R.C).capacity s.control ≡ control_capacity)
      (paired : barriers ((R.W).contents s.pool.work) ≡ length ((R.C).contents s.control)) where
    abbrev pushed : Bool × (R.C).Ring
    pushed = (R.C).push s.control (metadata s.next_seq m)

    out_of_room :
        ltb (length ((R.C).contents s.control)) ((R.C).capacity s.control) ≡ false
        → Formats n s m (send_metadata m s)
    out_of_room e =
        rw ((R.C).push_accepted s.control (metadata s.next_seq m), e)
          (full _ refl clear (ground (arith, (R.C).contents_push s.control (metadata s.next_seq m)))
            ((R.C).capacity_push s.control (metadata s.next_seq m)) (ground arith))

    in_room :
        ltb (length ((R.C).contents s.control)) ((R.C).capacity s.control) ≡ true
        → Formats n s m (send_metadata m s)
    in_room e =
        let goes : (try_push_barrier s.next_seq s.pool).0 ≡ true =
          barrier_accepted n (start s.pool) v.owned v.sized s.next_seq (ground (arith, paired)) in
        rw ((R.C).push_accepted s.control (metadata s.next_seq m), e, goes)
          (sent _ (barrier-IsRested n s.pool s.next_seq v) refl
            (ground (arith, (R.C).contents_push s.control (metadata s.next_seq m)))
            ((R.C).capacity_push s.control (metadata s.next_seq m))
            (barrier_work n s.pool s.next_seq goes).0 (barrier_work n s.pool s.next_seq goes).1
            (ltb→lt (length ((R.C).contents s.control)) ((R.C).capacity s.control) e))

    sends : push_metadata m s ≡ send_metadata m s
    unfolding push_metadata
    sends = ap (λ (b : Option (ℕ × AudioMetadata)). push_after b m s) clear

    pub push_metadata-Formats : Formats n s m (push_metadata m s)
    push_metadata-Formats =
        subst (Formats n s m) (sym sends)
          (elim (Bool-cases (ltb (length ((R.C).contents s.control)) ((R.C).capacity s.control))) [
            | inl e ↦ in_room e
            | inr e ↦ out_of_room e
          ])
