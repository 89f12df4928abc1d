-- ===== src/Recording/Pool/Session.antt =====
-- The pool with what its two threads hold at an instant, and every order in which the two threads
-- may call it.
use nam_audio_pipe.Base.{
  ℕ, ◌+◌, ◌≡◌, ◌==◌, if◌then◌else◌, Bool, true, false, Option, none, some, List, [], ◌∷◌, ◌++◌,
  sum_by, arith,
}
use nam_audio_pipe.Recording.Spsc.{Spsc}
use nam_audio_pipe.Recording.Pool.{
  Pool, Descriptor, is_barrier, try_acquire, fill_slot, leak, publish, try_push_barrier, try_pop,
  release,
}

pub record Session (F : Spsc ℕ) (W : Spsc Descriptor) : Type 0 where
  pub pool : Pool F W
  -- The slot of a live `AcquiredSlot`, and the descriptor of a live `InFlightBlock`.
  pub rt : Option ℕ
  pub io : Option Descriptor
  -- Slots that were dropped instead of handed on; the program keeps only their number.
  pub lost : List ℕ

abbrev pub lose : Bool → ℕ → List ℕ → List ℕ
lose true i lost = lost
lose false i lost = i ∷ lost

-- One call of either thread. Its guards are what the borrow checker enforces: a thread holds at
-- most one slot.
pub data Step {F : Spsc ℕ} {W : Spsc Descriptor} : Session F W → Session F W → Type 0 where
  acquire :
      (s : Session F W) (i : ℕ)
      → s.rt ≡ none
      → (try_acquire s.pool).0 ≡ some i
      → Step s (record s { pool = (try_acquire s.pool).1; rt = some i })
  exhausted :
      (s : Session F W)
      → (try_acquire s.pool).0 ≡ none
      → Step s (record s { pool = (try_acquire s.pool).1 })
  fill :
      (s : Session F W) (i : ℕ) (left right : List ℕ)
      → s.rt ≡ some i
      → Step s (record s { pool = fill_slot i left right s.pool })
  publish_slot :
      (s : Session F W) (i : ℕ)
      → s.rt ≡ some i
      → Step s (record s {
        pool = (publish i s.pool).1;
        rt = none;
        lost = lose (publish i s.pool).0 i s.lost;
      })
  drop_slot :
      (s : Session F W) (i : ℕ)
      → s.rt ≡ some i
      → Step s (record s { pool = leak s.pool; rt = none; lost = i ∷ s.lost })
  barrier :
      (s : Session F W) (seq : ℕ) → Step s (record s { pool = (try_push_barrier seq s.pool).1 })
  pop :
      (s : Session F W) (d : Descriptor)
      → s.io ≡ none
      → (try_pop s.pool).0 ≡ some d
      → Step s (record s { pool = (try_pop s.pool).1; io = some d })
  nothing_queued :
      (s : Session F W)
      → (try_pop s.pool).0 ≡ none
      → Step s (record s { pool = (try_pop s.pool).1 })
  release_block :
      (s : Session F W) (d : Descriptor)
      → s.io ≡ some d
      → Step s (record s {
        pool = (release d s.pool).1;
        io = none;
        lost = lose (release d s.pool).0 d.slot s.lost;
      })
  drop_block :
      (s : Session F W) (d : Descriptor)
      → s.io ≡ some d
      → Step s
          (record s { pool = leak s.pool; io = none; lost = lose (is_barrier d) d.slot s.lost })

pub data Reach {F : Spsc ℕ} {W : Spsc Descriptor} (s : Session F W) : Session F W → Type 0 where
  here : Reach s s
  next : {t u : Session F W} → Reach s t → Step t u → Reach s u

-- What the slots in a place weigh, for a weight of each slot.
abbrev pub held : (ℕ → ℕ) → Option ℕ → ℕ
held w none = 0
held w (some j) = w j

abbrev pub carries : (ℕ → ℕ) → Descriptor → ℕ
carries w d = if is_barrier d then 0 else w d.slot

abbrev pub held_block : (ℕ → ℕ) → Option Descriptor → ℕ
held_block w none = 0
held_block w (some d) = carries w d

abbrev pub in_flight : (ℕ → ℕ) → List Descriptor → ℕ
in_flight w [] = 0
in_flight w (d ∷ ds) = carries w d + in_flight w ds

pub in_flight-append :
    (w : ℕ → ℕ) (xs ys : List Descriptor) → in_flight w (xs ++ ys) ≡ in_flight w xs + in_flight w ys
in_flight-append w [] ys = omega arith
in_flight-append w (x ∷ xs) ys = omega (arith, in_flight-append w xs ys)

-- FREE, RT-owned, IN-FLIGHT, I/O-owned, or lost.
abbrev pub total : {F : Spsc ℕ} {W : Spsc Descriptor} → (ℕ → ℕ) → Session F W → ℕ
total {F} {W} w s =
    sum_by w (F.contents s.pool.free)
    + held w s.rt
    + in_flight w (W.contents s.pool.work)
    + held_block w s.io
    + sum_by w s.lost

-- How often slot `i` stands in a place, and how many slots there are.
abbrev pub only : ℕ → ℕ → ℕ
only i j = if j == i then 1 else 0

abbrev pub places : {F : Spsc ℕ} {W : Spsc Descriptor} → ℕ → Session F W → ℕ
places i s = total (only i) s

abbrev pub each : ℕ → ℕ
each j = 1

-- The session in which no thread holds anything.
abbrev pub start : {F : Spsc ℕ} {W : Spsc Descriptor} → Pool F W → Session F W
start p = record { pool = p; rt = none; io = none; lost = [] }
