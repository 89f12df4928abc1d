-- ===== src/Host/Commands/Receive.antt =====
-- src/standalone/pw_host/rt_callback/commands.rs, `receive_commands`: the loop over the command ring.
use nam_audio_pipe.Base.{
  ℕ, zero, suc, ◌==◌, ◌||◌, if◌then◌else◌, Bool, true, false, Option, none, some, length, is_some,
}
use nam_audio_pipe.Recording.Spsc.{Spsc}
use nam_audio_pipe.Host.Commands.{
  ParamPayload, load_model, Engine, Controls, Pending, no_pending, max_param_budget,
  flag_structural_deferred, resume_deferred, noted, superseded, first_load, finish_load,
  apply_pending,
}

module _ {S : Engine} (C : Spsc ParamPayload) where
  -- One look at the head of the ring: whether the loop goes on, and what it leaves. A pop behind a
  -- successful peek always gives an item.
  abbrev pub take_load :
      Option ParamPayload → C.Ring → Pending → Controls S → Bool × (C.Ring × (Pending × Controls S))
  take_load (some older) c p s = (true, ((C.pop c).1, superseded (C.pop c).0 older p s))
  take_load none c p s =
      if (S.can_apply) s.budget
      then (true, ((C.pop c).1, (first_load (C.pop c).0 p, s)))
      else (false, (c, (p, flag_structural_deferred s)))

  abbrev pub take_head :
      Option ParamPayload → C.Ring → Pending → Controls S → Bool × (C.Ring × (Pending × Controls S))
  take_head none c p s = (false, (c, (p, s)))
  take_head (some (load_model m)) c p s = take_load p.candidate c p s
  take_head (some _) c p s = (true, ((C.pop c).1, noted (C.pop c).0 p s))

  abbrev pub go_on :
      (C.Ring → Pending → Controls S → C.Ring × (Pending × Controls S))
      → Bool × (C.Ring × (Pending × Controls S))
      → C.Ring × (Pending × Controls S)
  go_on rest (false, (c, (p, s))) = (c, (p, s))
  go_on rest (true, (c, (p, s))) = rest c p s

  -- The loop, with the pops that are left.
  unfoldable pub pop_commands : ℕ → C.Ring → Pending → Controls S → C.Ring × (Pending × Controls S)
  pop_commands zero c p s = (c, (p, s))
  pop_commands (suc left) c p s = go_on (pop_commands left) (take_head (C.peek c) c p s)

  abbrev pub flag_backlog : C.Ring → Controls S → Controls S
  flag_backlog c s = if length (C.contents c) == 0 then s else record s { queue_backlog = true }

  -- The change flag, the pops, the ring and the controls.
  unfoldable pub receive_commands : C.Ring → Controls S → (Bool × ℕ) × (C.Ring × Controls S)
  receive_commands c s =
      let resumed = resume_deferred (C.peek c) s in
      let popped = pop_commands max_param_budget c no_pending resumed.1 in
      let p = popped.1.0 in
      let loaded = finish_load p.candidate (flag_backlog popped.0 popped.1.1) in
      (
        (resumed.0 || loaded.0 || is_some p.input_gain || is_some p.output_gain, p.pops),
        (popped.0, apply_pending p loaded.1),
      )
