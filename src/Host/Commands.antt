-- ===== src/Host/Commands.antt =====
-- src/standalone/pw_host/rt_callback/commands.rs: how the RT thread takes the commands of the control
-- thread. A model is the number that names it, an `f32` its bit pattern, a gate configuration and a
-- slim override a number, an oversampling factor the number that the callback stores for it. The
-- command ring is rtrb's; the swap budget and the squared thresholds that a gate configuration gives
-- are the engine crate's, an interface here. The garbage sink is the list of what it was handed, and
-- the hooks that an installed model gets from the engine have no part in the state.
pub mod Receive
pub mod Owned
pub mod Models
use nam_audio_pipe.Base.{
  ℕ, zero, suc, ◌+◌, ◌%◌, ◌==◌, ◌||◌, not, if◌then◌else◌, Bool, true, false, Option, none, some,
  List, [], ◌∷◌, ◌++◌, length, is_some, u64_max,
}
use nam_audio_pipe.Recording.Spsc.{Spsc}

pub record LoadModel : Type 0 where
  pub model_l : Option ℕ
  pub model_r : Option ℕ
  pub input_mult_adj : ℕ
  pub output_mult_adj : ℕ
  pub sample_rate : ℕ

pub data ParamPayload : Type 0 where
  input_gain : ℕ → ParamPayload
  output_gain : ℕ → ParamPayload
  gate_config : ℕ → ParamPayload
  slim_override : ℕ → ParamPayload
  set_oversample : ℕ → ParamPayload
  load_model : LoadModel → ParamPayload

pub record Engine : Type 1 where
  pub Budget : Type 0
  pub can_apply : Budget → Bool
  pub consume : Budget → Budget
  pub open_sq : ℕ → ℕ
  pub close_sq : ℕ → ℕ

-- The pops of one callback.
abbrev pub max_param_budget : ℕ
max_param_budget = 16

-- The bit pattern of 1.0.
abbrev pub one_f32 : ℕ
one_f32 = 1065353216

-- What the callback keeps, with the counters and requests in the shared status. `retired` is what
-- the garbage sink was handed.
pub record Controls (S : Engine) : Type 0 where
  pub deferred : Option ParamPayload
  pub budget : S.Budget
  pub model_input_mult_adj : ℕ
  pub model_output_mult_adj : ℕ
  pub current_nam_rate : ℕ
  pub active_model_l : Option ℕ
  pub active_model_r : Option ℕ
  pub user_input_gain_mult : ℕ
  pub user_output_gain_mult : ℕ
  pub gate_params : ℕ
  pub threshold_open_sq : ℕ
  pub threshold_close_sq : ℕ
  pub slim : ℕ
  pub retired : List ℕ
  pub structural_deferred : Bool
  pub deferred_total : ℕ
  pub structural_superseded : Bool
  pub superseded_total : ℕ
  pub requested_os_factor : ℕ
  pub requested_os_generation : ℕ
  pub needs_os_rebuild : Bool
  pub queue_backlog : Bool

-- The latest of each parameter, and the model load to apply.
pub record Pending : Type 0 where
  pub input_gain : Option ℕ
  pub output_gain : Option ℕ
  pub gate : Option ℕ
  pub slim : Option ℕ
  pub candidate : Option ParamPayload
  pub pops : ℕ

abbrev pub no_pending : Pending
no_pending = record {
  input_gain = none;
  output_gain = none;
  gate = none;
  slim = none;
  candidate = none;
  pops = 0;
}

abbrev pub is_load : Option ParamPayload → Bool
is_load (some (load_model m)) = true
is_load _ = false

abbrev pub first_load : Option ParamPayload → Pending → Pending
first_load none p = p
first_load (some payload) p = record p { candidate = some payload; pops = p.pops + 1 }

abbrev pub latest : Option ℕ → ℕ → ℕ
latest none old = old
latest (some new) old = new

abbrev pub threshold : (ℕ → ℕ) → Option ℕ → ℕ → ℕ
threshold square none old = old
threshold square (some gate) old = square gate

module _ {S : Engine} where
  abbrev pub flag_structural_deferred : Controls S → Controls S
  flag_structural_deferred s = record s {
    structural_deferred = true;
    deferred_total = (s.deferred_total + 1) % (u64_max + 1);
  }

  abbrev pub flag_structural_superseded : Controls S → Controls S
  flag_structural_superseded s = record s {
    structural_superseded = true;
    superseded_total = (s.superseded_total + 1) % (u64_max + 1);
  }

  abbrev pub retire : Option ℕ → Controls S → Controls S
  retire none s = s
  retire (some model) s = record s { retired = s.retired ++ model ∷ [] }

  unfoldable pub discard_load_model : ParamPayload → Controls S → Controls S
  discard_load_model (load_model m) s =
      flag_structural_superseded (retire m.model_r (retire m.model_l s))
  discard_load_model p s = s

  -- The gains and the rate of the new pair, or the defaults when it is empty.
  abbrev pub adjusted_by : Bool → LoadModel → Controls S → Controls S
  adjusted_by true m s = record s {
    model_input_mult_adj = m.input_mult_adj;
    model_output_mult_adj = m.output_mult_adj;
    current_nam_rate = m.sample_rate;
  }
  adjusted_by false m s = record s {
    model_input_mult_adj = one_f32;
    model_output_mult_adj = one_f32;
    current_nam_rate = 48000;
  }

  abbrev pub adjusted : LoadModel → Controls S → Controls S
  adjusted m s = adjusted_by (is_some m.model_l || is_some m.model_r) m s

  abbrev pub replaced : LoadModel → Controls S → Controls S
  replaced m s = retire s.active_model_r (
      retire s.active_model_l (record s { active_model_l = m.model_l; active_model_r = m.model_r }))

  unfoldable pub install_load_model : ParamPayload → Controls S → Controls S
  install_load_model (load_model m) s = replaced m (adjusted m s)
  install_load_model p s = s

  abbrev pub consumed : Controls S → Controls S
  consumed s = record s { budget = (S.consume) s.budget }

  -- Installs within the budget or keeps the load for the next callback; `true` is a change.
  abbrev pub apply_or_defer : ParamPayload → Controls S → Bool × Controls S
  apply_or_defer p s =
      if (S.can_apply) s.budget
      then (true, consumed (install_load_model p s))
      else (false, flag_structural_deferred (record s { deferred = some p }))

  -- A load that an earlier callback deferred, given the head of the ring.
  abbrev pub resume : Option ParamPayload → Option ParamPayload → Controls S → Bool × Controls S
  resume none head s = (false, s)
  resume (some p) head s =
      if is_load head then (false, discard_load_model p s) else apply_or_defer p s

  abbrev pub resume_deferred : Option ParamPayload → Controls S → Bool × Controls S
  resume_deferred head s = resume s.deferred head (record s { deferred = none })

  -- A popped parameter.
  abbrev pub noted : Option ParamPayload → Pending → Controls S → Pending × Controls S
  noted none p s = (p, s)
  noted (some (input_gain g)) p s = (record p { input_gain = some g; pops = p.pops + 1 }, s)
  noted (some (output_gain g)) p s = (record p { output_gain = some g; pops = p.pops + 1 }, s)
  noted (some (gate_config g)) p s = (record p { gate = some g; pops = p.pops + 1 }, s)
  noted (some (slim_override o)) p s = (record p { slim = some o; pops = p.pops + 1 }, s)
  noted (some (set_oversample factor)) p s = (
    record p { pops = p.pops + 1 },
    record s {
      requested_os_factor = factor;
      requested_os_generation = (s.requested_os_generation + 1) % (u64_max + 1);
      needs_os_rebuild = true;
    },
  )
  noted (some (load_model m)) p s =
      (record p { pops = p.pops + 1 }, discard_load_model (load_model m) s)

  -- A popped load behind the older candidate.
  abbrev pub superseded :
      Option ParamPayload → ParamPayload → Pending → Controls S → Pending × Controls S
  superseded none older p s = (p, s)
  superseded (some payload) older p s =
      (record p { candidate = some payload; pops = p.pops + 1 }, discard_load_model older s)

  abbrev pub finish_load : Option ParamPayload → Controls S → Bool × Controls S
  finish_load none s = (false, s)
  finish_load (some p) s = apply_or_defer p s

  abbrev pub apply_pending : Pending → Controls S → Controls S
  apply_pending p s = record s {
    user_input_gain_mult = latest p.input_gain s.user_input_gain_mult;
    user_output_gain_mult = latest p.output_gain s.user_output_gain_mult;
    gate_params = latest p.gate s.gate_params;
    threshold_open_sq = threshold (S.open_sq) p.gate s.threshold_open_sq;
    threshold_close_sq = threshold (S.close_sq) p.gate s.threshold_close_sq;
    slim = latest p.slim s.slim;
  }
