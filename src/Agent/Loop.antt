-- ===== src/Agent/Loop.antt =====
-- internal/agent/loop.go: the loop, its bounds and the forced finish.
pub mod Forced
pub mod Total
use incident_diag.Base.{
  ℕ, zero, suc, ◌+◌, ◌-◌, Bool, true, false, List, [], ◌∷◌, ◌++◌, Option, none, some, ltb,
  if◌then◌else◌, is_empty, bytes_eq, Bytes, not,
}
use incident_diag.Text.{codes}
use incident_diag.Text.Space.{trim_space}
use incident_diag.Store.Rows.{RunOutcome, StopReason}
use incident_diag.Agent.Types.{
  FinalResult, Message, Offer, Outcome, returns, fails, Response, Role, Run,
}
use incident_diag.Agent.Env.{Env}
use incident_diag.Agent.Context.{Spent, said, build, estimate_tokens}
use incident_diag.Agent.Evidence.{decode_final}
use incident_diag.Agent.Tools.{tool_finish}
use incident_diag.Agent.State.{
  RunState, initial, bound, add_usage, decide, Decision, decided, unusable,
}
use incident_diag.Agent.Endings.{
  Verdict, going, ended, cancelled, no_model, unreadable_finish, blank_finish, stop_name,
}
use incident_diag.Agent.Steps.{
  Result, fail_unless_cancelled, conclude, forced_finish_failed, or_cancelled, step,
}

module _ (env : Env) (run : Run) where
  open env use {World, json, texts, ctx_err, clock, chat}

  spent : RunState → Spent
  spent s = record { step = s.step_number + 1; tool_calls = s.tool_calls }

  unfoldable pub prompt : RunState → List Message
  unfolding spent build
  prompt s = build texts run.incident run.budget s.turns (spent s)

  -- The forced call's finish, when its arguments were decoded.
  pub forced_final :
      RunState → ℕ → StopReason → Bytes → Outcome FinalResult → World → Result env run
  unfolding conclude forced_finish_failed
  forced_final s started stop_reason args (fails e) w =
      forced_finish_failed env run s started stop_reason (unreadable_finish e) w
  forced_final s started stop_reason args (returns final) w =
      if is_empty (trim_space final.root_cause)
      then forced_finish_failed env run s started stop_reason (blank_finish) w
      else conclude env run s started args stop_reason final w

  pub forced_decision : RunState → ℕ → StopReason → Decision → World → Result env run
  unfolding forced_final decode_final
  forced_decision s started stop_reason (unusable reason) w =
      forced_finish_failed env run s started stop_reason reason w
  forced_decision s started stop_reason (decided call args) w =
      if not (bytes_eq call.name tool_finish)
      then forced_finish_failed env run s started stop_reason
          (codes "the model called " ++ (call.name ++ codes " when only finish was offered")) w
      else forced_final s started stop_reason args (decode_final json args) w

  pub forced_failure : RunState → ℕ → StopReason → Bytes → Option Bytes → World → Result env run
  unfolding forced_finish_failed
  forced_failure s started stop_reason e (some err) w = (cancelled err, s, w)
  forced_failure s started stop_reason e none w =
      forced_finish_failed env run s started stop_reason (no_model e) w

  pub forced_answer : RunState → ℕ → StopReason → Outcome Response → World → Result env run
  unfolding forced_failure forced_decision decide add_usage
  forced_answer s started stop_reason (fails e) w =
      let (err, w') = ctx_err w in forced_failure s started stop_reason e err w'
  forced_answer s started stop_reason (returns resp) w =
      forced_decision (add_usage resp s) started stop_reason
        (decide json s.step_number resp.tool_calls) w

  pub forced_call : RunState → StopReason → World → Result env run
  unfolding forced_answer prompt
  forced_call s stop_reason w =
      let messages =
        prompt s ++ said Role.user (texts.forced_finish_message (stop_name stop_reason)) ∷ [] in
      let (started, w₁) = clock w in
      let (resp, w₂) = chat messages Offer.only_finish w₁ in
      forced_answer (record s { step_number = s.step_number + 1 }) started stop_reason resp w₂

  -- forceFinish: one extra call, which offers finish alone.
  unfoldable pub force_finish : RunState → StopReason → World → Result env run
  unfolding forced_call
  force_finish s stop_reason w =
      let (err, w') = ctx_err w in
      elim err [ none ↦ forced_call s stop_reason w' | some e ↦ (cancelled e, s, w') ]

  pub unbounded : RunState → World → Result env run
  unfolding prompt force_finish step estimate_tokens
  unbounded s w =
      if ltb run.budget.max_prompt_tokens (estimate_tokens (prompt s))
      then force_finish s StopReason.token_budget w
      else step env run s (prompt s) w

  pub or_forced : RunState → Option StopReason → World → Result env run
  unfolding unbounded force_finish
  or_forced s (some reason) w = force_finish s reason w
  or_forced s none w = unbounded s w

  -- One round of the loop of Run.
  unfoldable pub round : RunState → World → Result env run
  unfolding or_forced bound
  round s w =
      let (err, w₁) = ctx_err w in
      elim err [
        | none ↦ let (reason, w₂) = bound env run.budget s w₁ in or_forced s reason w₂
        | some e ↦ (cancelled e, s, w₁)
      ]

  -- `if done { return }`, and the next round otherwise.
  unfoldable pub go_on :
      (RunState → World → Option (Result env run))
      → Verdict
      → RunState
      → World
      → Option (Result env run)
  go_on next going s w = next s w
  go_on next (ended o) s w = some (ended o, s, w)
  go_on next (cancelled e) s w = some (cancelled e, s, w)

  -- `for { … }`, at most `fuel` rounds; `none` means that the fuel ran out.
  unfoldable pub rounds : ℕ → RunState → World → Option (Result env run)
  unfolding go_on
  rounds zero s w = none
  rounds (suc fuel) s w = let (verdict, s', w') = round s w in go_on (rounds fuel) verdict s' w'

  -- Agent.Run.
  unfoldable pub run_agent : World → Option (Result env run)
  unfolding rounds initial
  run_agent w =
      let (started, w') = clock w in rounds (suc run.budget.max_steps) (initial started) w'
