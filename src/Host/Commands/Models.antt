-- ===== src/Host/Commands/Models.antt =====
-- src/standalone/pw_host/rt_callback/commands.rs, `receive_commands`: where the models go.
use nam_audio_pipe.Base.{
  ℕ, zero, suc, ◌+◌, ◌≡◌, refl, sym, ap, ◌∙◌, Bool, true, false, inl, inr, Option, none, some,
  arith, Bool-cases, is_some, length, ◌==◌,
}
use nam_audio_pipe.Recording.Spsc.{Spsc}
use nam_audio_pipe.Host.Commands.{
  LoadModel, ParamPayload, input_gain, output_gain, gate_config, slim_override, set_oversample,
  load_model, Engine, Controls, Pending, no_pending, max_param_budget, discard_load_model,
  resume_deferred, is_load, noted, finish_load,
}
use nam_audio_pipe.Host.Commands.Receive.{
  take_load, take_head, go_on, pop_commands, flag_backlog, receive_commands,
}
use nam_audio_pipe.Host.Commands.Owned.{
  carried_by, queued, owned, owned-discard, owned-able, owned-resume_deferred, queued-pop,
  discard-budget, noted-same,
}

module _ (weight : ℕ → ℕ) {S : Engine} (C : Spsc ParamPayload) where
  -- What the loop holds in all, and that a candidate was taken within the budget.
  record IsLoop (k : ℕ) (c : C.Ring) (p : Pending) (s : Controls S) : Type 0 where
    pub total : queued weight (C.contents c) + carried_by weight p.candidate + owned weight s ≡ k
    pub able : is_some p.candidate ≡ true → (S.can_apply) s.budget ≡ true

  -- Where the loop stands behind one look.
  abbrev Looked : ℕ → Bool × (C.Ring × (Pending × Controls S)) → Type 0
  Looked k (b, (c, (p, s))) = IsLoop k c p s

  look_load :
      (k : ℕ) (o : Option ParamPayload) (m : LoadModel) (c : C.Ring) (p : Pending) (s : Controls S)
      → p.candidate ≡ o
      → C.peek c ≡ some (load_model m)
      → IsLoop k c p s
      → Looked k (take_load C o c p s)
  unfolding discard_load_model
  look_load k (some older) m c p s e h v =
      let (got, less) = queued-pop weight C c (load_model m) h in
      rw got (record {
        total =
            omega (arith, v.total, less, owned-discard weight older s, ap (carried_by weight) e);
        able = λ t. ap S.can_apply (discard-budget older s) ∙ v.able (ap is_some e);
      })
  look_load k none m c p s e h v =
      let (got, less) = queued-pop weight C c (load_model m) h in
      elim (Bool-cases ((S.can_apply) s.budget)) [
        | inl a ↦
            rw (a, got)
              (record {
                total = omega (arith, v.total, less, ap (carried_by weight) e);
                able = λ t. a;
              })
        | inr a ↦ rw a (record { total = v.total; able = v.able })
      ]

  look_other :
      (k : ℕ) (x : ParamPayload) (c : C.Ring) (p : Pending) (s : Controls S)
      → C.peek c ≡ some x
      → is_load (some x) ≡ false
      → IsLoop k c p s
      → IsLoop k (C.pop c).1 (noted (C.pop c).0 p s).0 (noted (C.pop c).0 p s).1
  look_other k x c p s h n v =
      let (got, less) = queued-pop weight C c x h in
      let (same, budget, own, nothing) = noted-same weight x p s n in
      rw got (record {
        total = omega (arith, v.total, less, own, nothing, ap (carried_by weight) same);
        able = λ t. ap S.can_apply budget ∙ v.able (sym (ap is_some same) ∙ t);
      })

  look_head :
      (k : ℕ) (h : Option ParamPayload) (c : C.Ring) (p : Pending) (s : Controls S)
      → C.peek c ≡ h
      → IsLoop k c p s
      → Looked k (take_head C h c p s)
  look_head k none c p s e v = v
  look_head k (some (load_model m)) c p s e v = look_load k p.candidate m c p s refl e v
  look_head k (some (input_gain g)) c p s e v = look_other k (input_gain g) c p s e refl v
  look_head k (some (output_gain g)) c p s e v = look_other k (output_gain g) c p s e refl v
  look_head k (some (gate_config g)) c p s e v = look_other k (gate_config g) c p s e refl v
  look_head k (some (slim_override g)) c p s e v = look_other k (slim_override g) c p s e refl v
  look_head k (some (set_oversample g)) c p s e v = look_other k (set_oversample g) c p s e refl v

  -- Where the loop stands at its end.
  abbrev Popped : ℕ → C.Ring × (Pending × Controls S) → Type 0
  Popped k (c, (p, s)) = IsLoop k c p s

  go_on-IsLoop :
      (k : ℕ) (rest : C.Ring → Pending → Controls S → C.Ring × (Pending × Controls S))
      (o : Bool × (C.Ring × (Pending × Controls S)))
      → ((c : C.Ring) (p : Pending) (s : Controls S) → IsLoop k c p s → Popped k (rest c p s))
      → Looked k o
      → Popped k (go_on C rest o)
  go_on-IsLoop k rest (false, (c, (p, s))) more v = v
  go_on-IsLoop k rest (true, (c, (p, s))) more v = more c p s v

  pop_commands-IsLoop :
      (k left : ℕ) (c : C.Ring) (p : Pending) (s : Controls S)
      → IsLoop k c p s
      → Popped k (pop_commands C left c p s)
  unfolding pop_commands
  pop_commands-IsLoop k zero c p s v = v
  pop_commands-IsLoop k (suc left) c p s v =
      go_on-IsLoop k (pop_commands C left) (take_head C (C.peek c) c p s)
        (λ d q t. pop_commands-IsLoop k left d q t) (look_head k (C.peek c) c p s refl v)

  flag_backlog-same :
      (c : C.Ring) (s : Controls S)
      → (owned weight (flag_backlog C c s) ≡ owned weight s)
        × ((flag_backlog C c s).budget ≡ s.budget)
  flag_backlog-same c s = elim (Bool-cases (length (C.contents c) == 0)) [
    | inl e ↦ rw e (refl, refl)
    | inr e ↦ rw e (refl, refl)
  ]

  finish-owned :
      (o : Option ParamPayload) (s : Controls S)
      → (is_some o ≡ true → (S.can_apply) s.budget ≡ true)
      → owned weight (finish_load o s).1 ≡ owned weight s + carried_by weight o
  finish-owned none s able = omega arith
  finish-owned (some p) s able = owned-able weight p s (able refl)

  -- For every weight of the models, a callback's turn at the command ring keeps their sum over the
  -- ring, the two that play, the deferred load and the garbage sink. So each model is afterwards in as
  -- many of these places as before: none is dropped on the RT thread, handed to the sink twice, or
  -- handed to it while it plays or waits.
  pub receive_commands-conserves :
      (c : C.Ring) (s : Controls S)
      → queued weight (C.contents (receive_commands C c s).1.0)
          + owned weight (receive_commands C c s).1.1
        ≡ queued weight (C.contents c) + owned weight s
  unfolding receive_commands
  receive_commands-conserves c s =
      let resumed : Controls S = (resume_deferred (C.peek c) s).1 in
      let k : ℕ = queued weight (C.contents c) + owned weight s in
      let v = pop_commands-IsLoop k max_param_budget c no_pending resumed (record {
        total = omega (arith, owned-resume_deferred weight (C.peek c) s);
        able = λ t. cc;
      }) in
      let popped = pop_commands C max_param_budget c no_pending resumed in
      let (same, budget) = flag_backlog-same popped.0 popped.1.1 in
      omega (
        arith,
        v.total,
        same,
        finish-owned popped.1.0.candidate (flag_backlog C popped.0 popped.1.1)
            (λ t. ap S.can_apply budget ∙ v.able t),
      )
