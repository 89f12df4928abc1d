-- ===== src/Host/Reconnect/Backoff.antt =====
-- src/standalone/pw_host/reconnect.rs, `backoff_for_attempt`, `total_backoff_budget` and
-- `with_backoff_timeout`: the schedule of the backoffs.
use mathlib.Core.Path.{subst}
use native.Mathlib.Nat.{mul-le-mul, mul-le-mul_left, pow-le-pow_right}
use nam_audio_pipe.Base.{
  ℕ, zero, suc, ◌-◌, ◌*◌, ◌^◌, ◌≤◌, ◌<◌, ◌≡◌, ◌⊎◌, inl, inr, min, ltb, ◌&&◌, if◌then◌else◌, Bool,
  true, false, u64_max, arith, refl, sym, ap, ◌∙◌, Bool-cases, ltb→lt, ltb→le, lt→ltb,
}
use nam_audio_pipe.Host.Reconnect.{
  ReconnectPolicy, production, as_millis, from_millis, backoff_for_attempt, total_backoff_budget,
  trim, with_backoff_timeout,
}

reaches : (i m j : ℕ) → m ≤ 2 ^ 63 → 63 ≤ j → m ≤ suc i * 2 ^ j
reaches i m j h le =
    let grown : 1 * 2 ^ 63 ≤ suc i * 2 ^ j =
      mul-le-mul {n₁ = 1} {n₂ = suc i} (omega arith) (pow-le-pow_right (omega arith) le) in
    omega (arith, h)

min_eq : (a m : ℕ) → m ≤ a → min a m ≡ m
min_eq a m h = omega arith

-- A first backoff that saturates the shift is above every ceiling, unless it is zero.
capped_power : (i m k : ℕ) → m ≤ 2 ^ 63 → min (i * 2 ^ min k 63) m ≡ min (i * 2 ^ k) m
capped_power zero m k h = omega arith
capped_power (suc i) m k h = elim (Bool-cases (ltb k 63)) [
  | inl e ↦ ap (λ s. min (suc i * 2 ^ s) m) (ground arith)
  | inr e ↦
      min_eq (suc i * 2 ^ min k 63) m (reaches i m (min k 63) h (ground arith))
      ∙ sym (min_eq (suc i * 2 ^ k) m (reaches i m k h (ground arith)))
]

back : (k : ℕ) → suc k - 1 ≡ k
back k = omega arith

under_word : (x m : ℕ) → m ≤ u64_max → min (min x u64_max) m ≡ min x m
under_word x m h = omega arith

-- Up to a ceiling of 2^63 ms the clamped shift and the saturating product do not show: the backoff
-- before attempt `k + 1` is the first one doubled `k` times, in unbounded numbers, under the ceiling.
pub backoff_doubles :
    (p : ReconnectPolicy) (k : ℕ)
    → as_millis p.max_backoff ≤ 2 ^ 63
    → backoff_for_attempt p (suc k)
      ≡ from_millis (min (as_millis p.initial_backoff * 2 ^ k) (as_millis p.max_backoff))
unfolding backoff_for_attempt
backoff_doubles p k h =
    let same : min (as_millis p.initial_backoff * 2 ^ min k 63) (as_millis p.max_backoff)
        ≡ min (as_millis p.initial_backoff * 2 ^ k) (as_millis p.max_backoff) =
      capped_power (as_millis p.initial_backoff) (as_millis p.max_backoff) k h in
    ap
      (λ j.
        from_millis (
          min (min (as_millis p.initial_backoff * 2 ^ min j 63) u64_max) (as_millis p.max_backoff)))
      (back k)
    ∙ ap from_millis (
        under_word (as_millis p.initial_backoff * 2 ^ min k 63) (as_millis p.max_backoff)
          (ground arith)
        ∙ same)

capped_mono :
    (x y m : ℕ) → x ≤ y → from_millis (min (min x u64_max) m) ≤ from_millis (min (min y u64_max) m)
capped_mono x y m h = omega arith

capped_le : (x m : ℕ) → from_millis (min (min x u64_max) (as_millis m)) ≤ m
capped_le x m = omega arith

-- The backoffs never shrink from one attempt to a later one, and none exceeds the ceiling.
pub backoff_monotone :
    (p : ReconnectPolicy) (a b : ℕ)
    → a ≤ b
    → (backoff_for_attempt p a ≤ backoff_for_attempt p b)
      × (backoff_for_attempt p b ≤ p.max_backoff)
unfolding backoff_for_attempt
backoff_monotone p a b h =
    let grown : as_millis p.initial_backoff * 2 ^ min (a - 1) 63
        ≤ as_millis p.initial_backoff * 2 ^ min (b - 1) 63 =
      mul-le-mul_left (as_millis p.initial_backoff)
        (pow-le-pow_right (omega arith) (omega arith)) in
    (capped_mono _ _ (as_millis p.max_backoff) grown, capped_le _ p.max_backoff)

abbrev pub allowing : ℕ → ReconnectPolicy
allowing k = record production { max_attempts = k }

pub record IsLargest (timeout k : ℕ) (p : ReconnectPolicy) : Type 0 where
  pub shape : p ≡ allowing p.max_attempts
  pub at_least : 1 ≤ p.max_attempts
  pub at_most : p.max_attempts ≤ k
  pub in_budget : (p.max_attempts ≡ 1) ⊎ (total_backoff_budget p ≤ timeout)
  pub largest : (m : ℕ) → p.max_attempts < m → m ≤ k → timeout < total_backoff_budget (allowing m)

chosen : {A : Type 0} {a b : Bool} (x y : A) → a ≡ true → b ≡ true → (if a && b then x else y) ≡ x
chosen {a = true} {b = true} x y h k = refl
chosen {a = true} {b = false} x y h k = cc
chosen {a = false} x y h k = cc

passed : {A : Type 0} (a : Bool) {b : Bool} (x y : A) → b ≡ false → (if a && b then x else y) ≡ y
passed false x y h = refl
passed true {b = false} x y h = refl
passed true {b = true} x y h = cc

trim_over :
    (timeout k : ℕ)
    → ltb timeout (total_backoff_budget (allowing (suc (suc k)))) ≡ true
    → trim timeout (allowing (suc (suc k))) (suc (suc k)) ≡ trim timeout (allowing (suc k)) (suc k)
unfolding trim
trim_over timeout k e =
    chosen _ _ (lt→ltb 1 (suc (suc k)) (omega arith)) e
    ∙ ap (λ j. trim timeout (allowing j) (suc k)) (back (suc k))

trim_fits :
    (timeout k : ℕ)
    → ltb timeout (total_backoff_budget (allowing (suc (suc k)))) ≡ false
    → trim timeout (allowing (suc (suc k))) (suc (suc k)) ≡ allowing (suc (suc k))
unfolding trim
trim_fits timeout k e = passed (ltb 1 (suc (suc k))) _ _ e

le-cases : (m k : ℕ) → m ≤ suc k → (m ≤ k) ⊎ (m ≡ suc k)
le-cases m k h = ground arith

longer :
    (timeout k : ℕ) {p : ReconnectPolicy}
    → IsLargest timeout (suc k) p
    → timeout < total_backoff_budget (allowing (suc (suc k)))
    → (m : ℕ) → p.max_attempts < m
    → (m ≤ suc k) ⊎ (m ≡ suc (suc k))
    → timeout < total_backoff_budget (allowing m)
longer timeout k v over m a (inl b) = v.largest m a b
longer timeout k v over m a (inr e) =
    subst (λ x. timeout < total_backoff_budget (allowing x)) (sym e) over

trim_lem : (timeout k : ℕ) → IsLargest timeout (suc k) (trim timeout (allowing (suc k)) (suc k))
unfolding trim
trim_lem timeout zero = record {
  shape = refl;
  at_least = omega arith;
  at_most = omega arith;
  in_budget = inl refl;
  largest = λ m a b. absurd (omega arith);
}
trim_lem timeout (suc k) =
    elim (Bool-cases (ltb timeout (total_backoff_budget (allowing (suc (suc k)))))) [
      | inl over ↦
          let rest = trim_lem timeout k in
          subst (IsLargest timeout (suc (suc k))) (sym (trim_over timeout k over)) (record {
            shape = rest.shape;
            at_least = rest.at_least;
            at_most = omega (arith, rest.at_most);
            in_budget = rest.in_budget;
            largest =
                λ m a b. longer timeout k rest (ltb→lt timeout _ over) m a (le-cases m (suc k) b);
          })
      | inr fits ↦
          subst (IsLargest timeout (suc (suc k))) (sym (trim_fits timeout k fits)) (record {
            shape = refl;
            at_least = omega arith;
            at_most = omega arith;
            in_budget = inr (ltb→le timeout _ fits);
            largest = λ m a b. absurd (omega arith);
          })
    ]

-- The timeout of `--reconnect-timeout` gives the production schedule with its attempts cut down:
-- at least one attempt stays, a schedule of several attempts keeps inside the timeout, and every
-- longer schedule would exceed it.
pub with_backoff_timeout_lem :
    (timeout : ℕ) → IsLargest timeout production.max_attempts (with_backoff_timeout timeout)
unfolding with_backoff_timeout
with_backoff_timeout_lem timeout = trim_lem timeout 5
