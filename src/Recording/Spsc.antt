-- ===== src/Recording/Spsc.antt =====
-- The `rtrb` ring that the recording transport is built on: a bounded queue with one producer and
-- one consumer. The crate is not part of the repository, so the ring is a parameter of the model:
-- its operations with the behaviour that the crate documents.
use nam_audio_pipe.Base.{
  ℕ, ◌≡◌, Bool, List, [], ◌∷◌, ◌++◌, Option, ltb, if◌then◌else◌, length, head?, tail, true, false,
  refl, arith,
}

pub record Spsc (A : Type 0) : Type 1 where
  pub Ring : Type 0
  pub new : ℕ → Ring
  -- `Producer::push` and `Consumer::pop` update the ring in place: the ring after the call comes
  -- beside `is_ok()` and beside the popped item.
  pub push : Ring → A → Bool × Ring
  pub pop : Ring → Option A × Ring
  -- `Consumer::peek`.
  pub peek : Ring → Option A
  -- What is queued, oldest first.
  pub contents : Ring → List A
  pub capacity : Ring → ℕ
  pub contents_new : (n : ℕ) → contents (new n) ≡ []
  pub capacity_new : (n : ℕ) → capacity (new n) ≡ n
  pub push_accepted : (r : Ring) (a : A) → (push r a).0 ≡ ltb (length (contents r)) (capacity r)
  pub contents_push :
      (r : Ring) (a : A)
      → contents (push r a).1
        ≡ (if ltb (length (contents r)) (capacity r) then contents r ++ a ∷ [] else contents r)
  pub capacity_push : (r : Ring) (a : A) → capacity (push r a).1 ≡ capacity r
  pub pop_item : (r : Ring) → (pop r).0 ≡ head? (contents r)
  pub peek_item : (r : Ring) → peek r ≡ head? (contents r)
  pub contents_pop : (r : Ring) → contents (pop r).1 ≡ tail (contents r)
  pub capacity_pop : (r : Ring) → capacity (pop r).1 ≡ capacity r

-- A bounded list has the documented behaviour.
pub record Bounded (A : Type 0) : Type 0 where
  pub items : List A
  pub limit : ℕ

abbrev push_bounded : {A : Type 0} → Bounded A → A → Bool × Bounded A
push_bounded q a =
    if ltb (length q.items) q.limit
    then (true, record q { items = q.items ++ a ∷ [] })
    else (false, q)

pub push_bounded_lem :
    {A : Type 0} (q : Bounded A) (a : A)
    → ((push_bounded q a).0 ≡ ltb (length q.items) q.limit)
      × ((push_bounded q a).1.items
          ≡ (if ltb (length q.items) q.limit then q.items ++ a ∷ [] else q.items))
      × ((push_bounded q a).1.limit ≡ q.limit)
push_bounded_lem q a = (ground arith, ground arith, ground arith)

abbrev pub bounded : (A : Type 0) → Spsc A
bounded A = record {
  Ring = Bounded A;
  new = λ n. record { items = []; limit = n };
  push = push_bounded;
  pop = λ q. (head? q.items, record q { items = tail q.items });
  peek = λ q. head? q.items;
  contents = λ q. q.items;
  capacity = λ q. q.limit;
  contents_new = λ n. refl;
  capacity_new = λ n. refl;
  push_accepted = λ q a. (push_bounded_lem q a).0;
  contents_push = λ q a. (push_bounded_lem q a).1;
  capacity_push = λ q a. (push_bounded_lem q a).2;
  pop_item = λ q. refl;
  peek_item = λ q. refl;
  contents_pop = λ q. refl;
  capacity_pop = λ q. refl;
}
