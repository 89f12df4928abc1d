-- ===== src/Recording/Delivery/Receiving.antt =====
-- What one turn of the worker takes out of the two rings.
use mathlib.Core.Path.{subst}
use nam_audio_pipe.Base.{
  ℕ, suc, ◌+◌, ◌-◌, ◌≤◌, ◌≡◌, refl, sym, ◌∙◌, ap, ◌%◌, Bool, true, false, inl, inr, Option, none,
  some, List, [], ◌∷◌, length, arith, Option-cases, get_elem?, u16_mod,
}
use nam_audio_pipe.Recording.Spsc.{Spsc}
use nam_audio_pipe.Recording.Buffer.{
  AlignedBlock, AudioMetadata, ControlPayload, metadata, as_slice,
}
use nam_audio_pipe.Recording.Pool
use nam_audio_pipe.Recording.Pool.{Pool, Descriptor, is_barrier, try_pop, release}
use nam_audio_pipe.Recording.Pool.Session.{
  Session, pop, nothing_queued, release_block, Reach, here, next, start, lose,
}
use nam_audio_pipe.Recording.Pool.Ownership.{Reach-IsOwned, try_pop-eq_some, IsOwned}
use nam_audio_pipe.Recording.Pool.Bounds.{Step-IsSized, release_keeps}
use nam_audio_pipe.Recording.Pool.Protocol.{release_accepted, Reach-IsSized}
use nam_audio_pipe.Recording.Transport.{Rings, Live}
use nam_audio_pipe.Recording.Disk.Intake.{
  match_metadata, Taken, empty, barrier, block, take_next, finish, resolved, fetched,
}
use nam_audio_pipe.Recording.Delivery.{Event, sound, new_format, heard, read_block}
use nam_audio_pipe.Recording.Delivery.Queued.{Queued, done, audio, format}
use nam_audio_pipe.Recording.Delivery.Sending.{IsRested}

-- The first of the queued events belongs to the first descriptor.
data Head (slots : List AlignedBlock) (end : List ControlPayload) (d : Descriptor)
    (ds : List Descriptor) : List ControlPayload → List Event → Type 0 where
  block_head :
      {c : List ControlPayload} {es : List Event} (b : AlignedBlock) (xs : List ℕ)
      → is_barrier d ≡ false
      → get_elem? slots d.slot ≡ some b
      → as_slice b ≡ some xs
      → Queued slots end ds c es
      → Head slots end d ds c (sound xs ∷ es)
  format_head :
      {c : List ControlPayload} {es : List Event} (m : AudioMetadata) (q : ℕ)
      → is_barrier d ≡ true
      → q ≡ d.valid_len
      → Queued slots end ds c es
      → Head slots end d ds (metadata q m ∷ c) (new_format m ∷ es)

Queued-Head :
    {slots : List AlignedBlock} {end : List ControlPayload} {d : Descriptor} {ds : List Descriptor}
    {c : List ControlPayload} {es : List Event}
    → Queued slots end (d ∷ ds) c es
    → Head slots end d ds c es
Queued-Head (audio {b = b} {xs = xs} h g r q) = block_head b xs h g r q
Queued-Head (format {q = s} {m = m} h e q) = format_head m s h e q

Queued-nil :
    {slots : List AlignedBlock} {end : List ControlPayload} {c : List ControlPayload}
    {es : List Event}
    → Queued slots end [] c es
    → (es ≡ []) × (c ≡ end)
Queued-nil done = (refl, refl)

-- Metadata whose sequence number is the barrier's stands at the head: the loop pops it and stops.
match_metadata_head :
    (C : Spsc ControlPayload) (fuel q : ℕ) (c : C.Ring) (m : AudioMetadata)
    (rest : List ControlPayload)
    → C.contents c ≡ metadata q m ∷ rest
    → (match_metadata C (suc fuel) q c ≡ some (some m, (C.pop c).1))
      × (C.contents (C.pop c).1 ≡ rest)
unfolding match_metadata
match_metadata_head C fuel q c m rest h =
    let same : (q + u16_mod - q) % u16_mod ≡ 0 = omega arith in
    (ground (arith, C.peek_item c, C.pop_item c, same), ground (arith, C.contents_pop c))

module _ {R : Rings} (s : Live R) where
  abbrev popped : Option Descriptor × Pool R.F R.W
  popped = try_pop s.pool

  take_next_empty : popped.0 ≡ none → take_next s ≡ (empty, record s { pool = popped.1 })
  unfolding take_next
  take_next_empty e = rw (e, take_next) refl

  try_pop_slots : popped.1.slots ≡ s.pool.slots
  unfolding try_pop
  try_pop_slots = refl

  popped_block :
      (d : Descriptor) (b : AlignedBlock)
      → is_barrier d ≡ false
      → get_elem? s.pool.slots d.slot ≡ some b
      → Pool.block popped.1 d ≡ some b
  unfolding Pool.block
  popped_block d b h g = rw h (ap (λ l. get_elem? l d.slot) try_pop_slots ∙ g)

  take_next-block :
      (d : Descriptor) (b : AlignedBlock)
      → popped.0 ≡ some d
      → is_barrier d ≡ false
      → get_elem? s.pool.slots d.slot ≡ some b
      → take_next s ≡ (block d b, record s { pool = popped.1 })
  unfolding take_next
  take_next-block d b e h g =
      rw (e, take_next, h) (ap (fetched d (record s { pool = popped.1 })) (popped_block d b h g))

  take_next_format :
      (d : Descriptor) (m : AudioMetadata) (rest : List ControlPayload)
      → popped.0 ≡ some d
      → is_barrier d ≡ true
      → (R.C).contents s.control ≡ metadata d.valid_len m ∷ rest
      → take_next s
        ≡ (barrier d (some m), record s { pool = popped.1; control = ((R.C).pop s.control).1 })
  unfolding take_next
  take_next_format d m rest e h c =
      rw (e, take_next, h)
        (ap (resolved d (record s { pool = popped.1 }))
          (match_metadata_head R.C (length ((R.C).contents s.control)) d.valid_len s.control m rest
            c).0)

  module _ (n : ℕ) (v : IsRested n s.pool) (d : Descriptor) (e : popped.0 ≡ some d) where
    abbrev reading : Session R.F R.W
    reading = record (start s.pool) { pool = popped.1; io = some d }

    to_reading : Reach (start s.pool) reading
    to_reading = next here (pop (start s.pool) d refl e)

    to_released : Reach (start s.pool) (record reading {
      pool = (release d popped.1).1;
      io = none;
      lost = lose (release d popped.1).0 d.slot [];
    })
    to_released = next to_reading (release_block reading d refl)

    release-IsRested : IsRested n (release d popped.1).1
    release-IsRested = record {
      small = v.small;
      owned =
          subst
            (λ (b : Bool). IsOwned n (record reading {
              pool = (release d popped.1).1;
              io = none;
              lost = lose b d.slot [];
            }))
            (release_accepted n reading (Reach-IsOwned n v.small v.owned to_reading)
              (Reach-IsSized n v.sized to_reading) d refl)
            (Reach-IsOwned n v.small v.owned to_released);
      sized = Reach-IsSized n v.sized to_released;
    }

    work_popped : (R.W).contents s.pool.work ≡ d ∷ (R.W).contents (release d popped.1).1.work
    work_popped =
        (try_pop-eq_some s.pool e).0
        ∙ ap (λ (w : (R.W).Ring). d ∷ (R.W).contents w) (sym (release_keeps d popped.1).0)

    slots_popped : (release d popped.1).1.slots ≡ s.pool.slots
    slots_popped = (release_keeps d popped.1).2 ∙ try_pop_slots

-- The state behind a turn that left `es` queued.
pub record After {R : Rings} (n : ℕ) (end : List ControlPayload) (s : Live R) (es : List Event)
    (q : Live R) : Type 0 where
  pub rested : IsRested n q.pool
  pub pending : q.pending_barrier ≡ s.pending_barrier
  pub capacity : (R.C).capacity q.control ≡ (R.C).capacity s.control
  pub fewer : length ((R.C).contents q.control) ≤ length ((R.C).contents s.control)
  pub queued : Queued q.pool.slots end ((R.W).contents q.pool.work) ((R.C).contents q.control) es

-- A turn takes nothing when nothing is queued, and otherwise the first queued event.
pub data Receives {R : Rings} (n : ℕ) (end : List ControlPayload) (s : Live R)
    : List Event → Taken × Live R → Type 0 where
  nothing : (q : Live R) → After n end s [] q → Receives n end s [] (empty, q)
  first :
      (e : Event) (es : List Event) (t : Taken) (q : Live R)
      → heard t ≡ e ∷ []
      → After n end s es (finish t q)
      → Receives n end s (e ∷ es) (t, q)

module _ {R : Rings} (n : ℕ) (end : List ControlPayload) (s : Live R) (v : IsRested n s.pool) where
  receive-Head :
      (d : Descriptor) (c : List ControlPayload) (es : List Event)
      → (try_pop s.pool).0 ≡ some d
      → (R.C).contents s.control ≡ c
      → Head s.pool.slots end d ((R.W).contents (release d (try_pop s.pool).1).1.work) c es
      → Receives n end s es (take_next s)
  unfolding finish release
  receive-Head d c es e ec (block_head {es = rest} b xs h g r q) =
      subst (Receives n end s es) (sym (take_next-block s d b e h g)) (
        first (sound xs) rest (block d b) (record s { pool = (try_pop s.pool).1 })
          (ap (λ o. read_block o ∷ []) r)
          (record {
            rested = release-IsRested s n v d e;
            pending = refl;
            capacity = refl;
            fewer = omega arith;
            queued =
                subst
                  (λ l.
                    Queued l end ((R.W).contents (release d (try_pop s.pool).1).1.work)
                      ((R.C).contents s.control) rest)
                  (sym (slots_popped s n v d e))
                  (subst
                    (λ l.
                      Queued s.pool.slots end ((R.W).contents (release d (try_pop s.pool).1).1.work)
                        l rest)
                    (sym ec) q);
          }))
  receive-Head d c es e ec (format_head {c = tl} {es = rest} m q h eq qd) =
      let head : (R.C).contents s.control ≡ metadata d.valid_len m ∷ tl =
        ec ∙ ap (λ k. metadata k m ∷ tl) eq in
      subst (Receives n end s es) (sym (take_next_format s d m tl e h head)) (
        first (new_format m) rest (barrier d (some m))
          (record s { pool = (try_pop s.pool).1; control = ((R.C).pop s.control).1 }) refl
          (record {
            rested = release-IsRested s n v d e;
            pending = refl;
            capacity = (R.C).capacity_pop s.control;
            fewer = omega (
              arith,
              ap length head,
              ap length (match_metadata_head R.C 0 d.valid_len s.control m tl head).1,
            );
            queued =
                subst
                  (λ l.
                    Queued l end ((R.W).contents (release d (try_pop s.pool).1).1.work)
                      ((R.C).contents ((R.C).pop s.control).1) rest)
                  (sym (slots_popped s n v d e))
                  (subst
                    (λ l.
                      Queued s.pool.slots end ((R.W).contents (release d (try_pop s.pool).1).1.work)
                        l rest)
                    (sym (match_metadata_head R.C 0 d.valid_len s.control m tl head).1) qd);
          }))

  idle-IsRested : (try_pop s.pool).0 ≡ none → IsRested n (try_pop s.pool).1
  idle-IsRested e =
      let st = nothing_queued (start s.pool) e in
      record {
        small = v.small;
        owned = Reach-IsOwned n v.small v.owned (next here st);
        sized = Step-IsSized n st v.sized;
      }

  work_empty :
      (try_pop s.pool).0 ≡ none
      → ((R.W).contents s.pool.work ≡ []) × ((R.W).contents (try_pop s.pool).1.work ≡ [])
  unfolding try_pop
  work_empty e = (
    ground (arith, (R.W).pop_item s.pool.work),
    ground (arith, (R.W).pop_item s.pool.work, (R.W).contents_pop s.pool.work),
  )

  receive_nothing :
      (es : List Event)
      → (try_pop s.pool).0 ≡ none
      → Queued s.pool.slots end ((R.W).contents s.pool.work) ((R.C).contents s.control) es
      → Receives n end s es (take_next s)
  receive_nothing es e q =
      let none_left : (es ≡ []) × ((R.C).contents s.control ≡ end) =
        Queued-nil (
          subst (λ l. Queued s.pool.slots end l ((R.C).contents s.control) es) (work_empty e).0
            q) in
      subst (λ l. Receives n end s l (take_next s)) (sym none_left.0)
        (subst (Receives n end s []) (sym (take_next_empty s e)) (
          nothing (record s { pool = (try_pop s.pool).1 })
            (record {
              rested = idle-IsRested e;
              pending = refl;
              capacity = refl;
              fewer = omega arith;
              queued =
                  subst (λ l. Queued (try_pop s.pool).1.slots end l ((R.C).contents s.control) [])
                    (sym (work_empty e).1)
                    (subst (λ c. Queued (try_pop s.pool).1.slots end [] c []) (sym none_left.1)
                      done);
            })))

  pub receive-Receives :
      (es : List Event)
      → Queued s.pool.slots end ((R.W).contents s.pool.work) ((R.C).contents s.control) es
      → Receives n end s es (take_next s)
  receive-Receives es q = elim (Option-cases (try_pop s.pool).0) [
    | inl e ↦ receive_nothing es e q
    | inr (d, e) ↦ receive-Head d ((R.C).contents s.control) es e refl (
        Queued-Head (
          subst (λ l. Queued s.pool.slots end l ((R.C).contents s.control) es)
            (work_popped s n v d e) q))
  ]
