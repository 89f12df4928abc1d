-- ===== src/Tests/CommandRuns.antt =====
-- src/standalone/pw_host/rt_callback/commands.rs: two loads and a gain in the ring, with a budget of
-- one swap.
use nam_audio_pipe.Base.{
  ℕ, ◌+◌, ◌-◌, ◌≡◌, refl, ◌==◌, ltb, if◌then◌else◌, false, none, some, [], ◌∷◌,
}
use nam_audio_pipe.Recording.Spsc.{bounded, Bounded}
use nam_audio_pipe.Host.Commands.{
  LoadModel, ParamPayload, input_gain, load_model, Engine, Controls, one_f32, discard_load_model,
  install_load_model,
}
use nam_audio_pipe.Host.Commands.Receive.{receive_commands, pop_commands}
use nam_audio_pipe.Host.Commands.Owned.{queued, owned}
use nam_audio_pipe.Host.Commands.Models.{receive_commands-conserves}

-- The budget is the number of swaps that are left.
abbrev swaps : Engine
swaps = record {
  Budget = ℕ;
  can_apply = λ n. ltb 0 n;
  consume = λ n. n - 1;
  open_sq = λ gate. gate;
  close_sq = λ gate. gate;
}

abbrev mono : ℕ → LoadModel
mono model = record {
  model_l = some model;
  model_r = none;
  input_mult_adj = one_f32;
  output_mult_adj = one_f32;
  sample_rate = 48000;
}

abbrev queue : Bounded ParamPayload
queue = record { items = load_model (mono 7) ∷ input_gain 3 ∷ load_model (mono 8) ∷ []; limit = 4 }

-- Model 5 plays and model 6 waits.
abbrev controls : Controls swaps
controls = record {
  deferred = some (load_model (mono 6));
  budget = 1;
  model_input_mult_adj = one_f32;
  model_output_mult_adj = one_f32;
  current_nam_rate = 48000;
  active_model_l = some 5;
  active_model_r = none;
  user_input_gain_mult = one_f32;
  user_output_gain_mult = one_f32;
  gate_params = 0;
  threshold_open_sq = 0;
  threshold_close_sq = 0;
  slim = 0;
  retired = [];
  structural_deferred = false;
  deferred_total = 0;
  structural_superseded = false;
  superseded_total = 0;
  requested_os_factor = 1;
  requested_os_generation = 0;
  needs_os_rebuild = false;
  queue_backlog = false;
}

-- How often model 7 stands somewhere.
abbrev seven : ℕ → ℕ
seven model = if model == 7 then 1 else 0

receive_commands-conserves_example :
    queued seven ((receive_commands (bounded ParamPayload) queue controls).1.0).items
      + owned seven (receive_commands (bounded ParamPayload) queue controls).1.1
    ≡ 1
receive_commands-conserves_example =
    receive_commands-conserves seven (bounded ParamPayload) queue controls

-- Model 8 plays, and the three others are handed to the sink.
latest_plays : (receive_commands (bounded ParamPayload) queue controls).1.1.active_model_l ≡ some 8
unfolding receive_commands pop_commands discard_load_model install_load_model
latest_plays = refl

others_retired :
    (receive_commands (bounded ParamPayload) queue controls).1.1.retired ≡ 6 ∷ 7 ∷ 5 ∷ []
unfolding receive_commands pop_commands discard_load_model install_load_model
others_retired = refl
