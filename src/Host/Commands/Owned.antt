-- ===== src/Host/Commands/Owned.antt =====
-- src/standalone/pw_host/rt_callback/commands.rs: who owns the models, and how one step moves them.
-- Each model has a weight, and the weights of those at a place add up; with the weight 1 for one
-- model and 0 for the others it is how often that model stands there.
use mathlib.Core.Option.{some-injective}
use nam_audio_pipe.Base.{
  ℕ, ◌+◌, ◌≡◌, refl, sym, ap, ◌∙◌, Bool, true, false, inl, inr, Option, none, some, List, [], ◌∷◌,
  arith, Bool-cases, is_some, sum_by, sum_by-append, head?, tail, ◌||◌,
}
use nam_audio_pipe.Recording.Spsc.{Spsc}
use nam_audio_pipe.Host.Commands.{
  LoadModel, ParamPayload, input_gain, output_gain, gate_config, slim_override, set_oversample,
  load_model, Engine, Controls, Pending, retire, adjusted, adjusted_by, replaced,
  discard_load_model, install_load_model, apply_or_defer, resume, resume_deferred, is_load, noted,
}

module _ (weight : ℕ → ℕ) where
  abbrev pub held : Option ℕ → ℕ
  held none = 0
  held (some model) = weight model

  abbrev pub carried : ParamPayload → ℕ
  carried (load_model m) = held m.model_l + held m.model_r
  carried _ = 0

  abbrev pub carried_by : Option ParamPayload → ℕ
  carried_by none = 0
  carried_by (some p) = carried p

  abbrev pub queued : List ParamPayload → ℕ
  queued [] = 0
  queued (p ∷ ps) = carried p + queued ps

  -- The models that play, the deferred ones and those that the garbage sink was handed.
  abbrev pub owned : {S : Engine} → Controls S → ℕ
  owned s =
      held s.active_model_l
      + held s.active_model_r
      + carried_by s.deferred
      + sum_by weight s.retired

module _ (weight : ℕ → ℕ) {S : Engine} where
  owned-retire :
      (o : Option ℕ) (s : Controls S) → owned weight (retire o s) ≡ owned weight s + held weight o
  owned-retire none s = omega arith
  owned-retire (some m) s = omega (arith, sum_by-append weight s.retired (m ∷ []))

  pub owned-discard :
      (p : ParamPayload) (s : Controls S)
      → owned weight (discard_load_model p s) ≡ owned weight s + carried weight p
  unfolding discard_load_model
  owned-discard (load_model m) s =
      omega (arith, owned-retire m.model_l s, owned-retire m.model_r (retire m.model_l s))
  owned-discard (input_gain g) s = omega arith
  owned-discard (output_gain g) s = omega arith
  owned-discard (gate_config g) s = omega arith
  owned-discard (slim_override g) s = omega arith
  owned-discard (set_oversample g) s = omega arith

  owned-replaced :
      (m : LoadModel) (s : Controls S)
      → owned weight (replaced m s) ≡ owned weight s + carried weight (load_model m)
  owned-replaced m s =
      let t : Controls S = record s { active_model_l = m.model_l; active_model_r = m.model_r } in
      omega (
        arith,
        owned-retire s.active_model_l t,
        owned-retire s.active_model_r (retire s.active_model_l t),
      )

  owned-adjusted :
      (b : Bool) (m : LoadModel) (s : Controls S)
      → owned weight (adjusted_by b m s) ≡ owned weight s
  owned-adjusted true m s = refl
  owned-adjusted false m s = refl

  owned-install :
      (p : ParamPayload) (s : Controls S)
      → owned weight (install_load_model p s) ≡ owned weight s + carried weight p
  unfolding install_load_model
  owned-install (load_model m) s = omega (
    arith,
    owned-replaced m (adjusted m s),
    owned-adjusted (is_some m.model_l || is_some m.model_r) m s,
  )
  owned-install (input_gain g) s = omega arith
  owned-install (output_gain g) s = omega arith
  owned-install (gate_config g) s = omega arith
  owned-install (slim_override g) s = omega arith
  owned-install (set_oversample g) s = omega arith

  -- A load is installed, or deferred where nothing is.
  owned-apply :
      (p : ParamPayload) (s : Controls S)
      → s.deferred ≡ none
      → owned weight (apply_or_defer p s).1 ≡ owned weight s + carried weight p
  owned-apply p s e = elim (Bool-cases ((S.can_apply) s.budget)) [
    | inl a ↦ rw a (owned-install p s)
    | inr a ↦ rw a (omega (arith, ap (carried_by weight) e))
  ]

  -- A load is installed when the budget allows it, whatever is deferred.
  pub owned-able :
      (p : ParamPayload) (s : Controls S)
      → (S.can_apply) s.budget ≡ true
      → owned weight (apply_or_defer p s).1 ≡ owned weight s + carried weight p
  owned-able p s a = rw a (owned-install p s)

  owned-resume :
      (o head : Option ParamPayload) (s : Controls S)
      → s.deferred ≡ none
      → owned weight (resume o head s).1 ≡ owned weight s + carried_by weight o
  owned-resume none head s e = omega arith
  owned-resume (some p) head s e = elim (Bool-cases (is_load head)) [
    | inl a ↦ rw a (owned-discard p s)
    | inr a ↦ rw a (owned-apply p s e)
  ]

  pub owned-resume_deferred :
      (head : Option ParamPayload) (s : Controls S)
      → owned weight (resume_deferred head s).1 ≡ owned weight s
  owned-resume_deferred head s =
      omega (arith, owned-resume s.deferred head (record s { deferred = none }) refl)

popped_from :
    (weight : ℕ → ℕ) (C : Spsc ParamPayload) (c : C.Ring) (l : List ParamPayload) (x : ParamPayload)
    → C.contents c ≡ l
    → head? l ≡ some x
    → ((C.pop c).0 ≡ some x)
      × (queued weight (C.contents c) ≡ carried weight x + queued weight (C.contents (C.pop c).1))
popped_from weight C c [] x h e = cc
popped_from weight C c (y ∷ ys) x h e = (
  C.pop_item c ∙ ap head? h ∙ e,
  ap (queued weight) h
      ∙ ap (λ z. carried weight z + queued weight ys) (some-injective _ _ e)
      ∙ ap (λ l. carried weight x + queued weight l) (sym (C.contents_pop c ∙ ap tail h)),
)

-- What a successful peek found is what the pop takes.
pub queued-pop :
    (weight : ℕ → ℕ) (C : Spsc ParamPayload) (c : C.Ring) (x : ParamPayload)
    → C.peek c ≡ some x
    → ((C.pop c).0 ≡ some x)
      × (queued weight (C.contents c) ≡ carried weight x + queued weight (C.contents (C.pop c).1))
queued-pop weight C c x e = popped_from weight C c (C.contents c) x refl (sym (C.peek_item c) ∙ e)

retire-budget : {S : Engine} (o : Option ℕ) (s : Controls S) → (retire o s).budget ≡ s.budget
retire-budget none s = refl
retire-budget (some m) s = refl

pub discard-budget :
    {S : Engine} (p : ParamPayload) (s : Controls S) → (discard_load_model p s).budget ≡ s.budget
unfolding discard_load_model
discard-budget (load_model m) s =
    retire-budget m.model_r (retire m.model_l s) ∙ retire-budget m.model_l s
discard-budget (input_gain g) s = refl
discard-budget (output_gain g) s = refl
discard-budget (gate_config g) s = refl
discard-budget (slim_override g) s = refl
discard-budget (set_oversample g) s = refl

-- A parameter moves no model.
pub noted-same :
    (weight : ℕ → ℕ) {S : Engine} (x : ParamPayload) (p : Pending) (s : Controls S)
    → is_load (some x) ≡ false
    → ((noted (some x) p s).0.candidate ≡ p.candidate)
      × ((noted (some x) p s).1.budget ≡ s.budget)
      × (owned weight (noted (some x) p s).1 ≡ owned weight s)
      × (carried weight x ≡ 0)
noted-same weight (load_model m) p s n = cc
noted-same weight (input_gain g) p s n = (refl, refl, refl, refl)
noted-same weight (output_gain g) p s n = (refl, refl, refl, refl)
noted-same weight (gate_config g) p s n = (refl, refl, refl, refl)
noted-same weight (slim_override g) p s n = (refl, refl, refl, refl)
noted-same weight (set_oversample g) p s n = (refl, refl, refl, refl)
