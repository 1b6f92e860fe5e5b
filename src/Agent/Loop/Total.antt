-- ===== src/Agent/Loop/Total.antt =====
-- The loop ends within its fuel, and what it ends with.
use incident_diag.Base.{
  ℕ, zero, suc, ◌+◌, ◌≤◌, ◌<◌, ◌≡◌, ◌≢◌, refl, Option, none, some, ltb, arith, Bool-cases, inl, inr,
  Option-cases, leb, ◌-◌,
}
use incident_diag.Store.Rows.{RunOutcome, StopReason}
use incident_diag.Agent.Types.{Budget, Run}
use incident_diag.Agent.Env.{Env}
use incident_diag.Agent.Context.{estimate_tokens}
use incident_diag.Agent.State.{RunState, initial, bound}
use incident_diag.Agent.Endings.{Verdict, going, ended, cancelled}
use incident_diag.Agent.Steps.{Result}
use incident_diag.Agent.Steps.Kept.{IsSound, EndsWell, Good, Last, Holds}
use incident_diag.Agent.Steps.Good.{step-Good}
use incident_diag.Agent.Loop.{
  prompt, force_finish, unbounded, or_forced, round, go_on, rounds, run_agent,
}
use incident_diag.Agent.Loop.Forced.{force_finish-Last}

-- A bound is never the reason ERROR, and where none is hit there is room for a step and for a call.
abbrev BoundSays : Budget → RunState → Option StopReason → Type 0
BoundSays b s none = (s.step_number < b.max_steps) × (s.tool_calls < b.max_tool_calls)
BoundSays b s (some reason) = reason ≢ StopReason.error

bound-BoundSays :
    (env : Env) (b : Budget) (s : RunState) (w : env.World) → BoundSays b s (bound env b s w).0
unfolding bound
bound-BoundSays env b s w = elim (Bool-cases (leb b.max_steps s.step_number)) [
  | inl e ↦ rw (e, bound) (λ x. cc)
  | inr e ↦ elim (Bool-cases (leb b.max_tool_calls s.tool_calls)) [
    | inl f ↦ rw (e, f, bound) (λ x. cc)
    | inr f ↦ elim (Bool-cases (leb b.max_run_duration ((env.clock w).0 - s.start))) [
      | inl g ↦ rw (e, f, g, bound) (λ x. cc)
      | inr g ↦ rw (e, f, g, bound) (ground arith, ground arith)
    ]
  ]
]

module _ (env : Env) (run : Run) where
  open env use {World}
  open run use {budget}

  -- Between two rounds: a sound state within the budget; at the end, an outcome within the budget
  -- and one step.
  abbrev InBudget : Verdict → RunState → Type 0
  InBudget going s =
      IsSound s × (s.step_number ≤ budget.max_steps) × (s.tool_calls ≤ budget.max_tool_calls)
  InBudget (ended o) s = EndsWell (suc budget.max_steps) budget.max_tool_calls o
  InBudget (cancelled e) s = Unit

  EndsWell-mono : (n m c : ℕ) (o : RunOutcome) → n ≤ m → EndsWell n c o → EndsWell m c o
  EndsWell-mono n m c o h e = record {
    steps = omega (arith, e.steps);
    calls = e.calls;
    coherent = e.coherent;
  }

  -- A round ends the run, or leaves a state within the budget that has one more step.
  abbrev Advances : RunState → Verdict → RunState → Type 0
  Advances s going s' = InBudget going s' × (s'.step_number ≡ suc s.step_number)
  Advances s (ended o) s' = InBudget (ended o) s'
  Advances s (cancelled e) s' = Unit

  Last-Advances :
      (s : RunState) (v : Verdict) (s' : RunState)
      → s.step_number ≤ budget.max_steps
      → Last (suc s.step_number) budget.max_tool_calls v s'
      → Advances s v s'
  Last-Advances s going s' le h = absurd h
  Last-Advances s (ended o) s' le h =
      EndsWell-mono (suc s.step_number) (suc budget.max_steps) budget.max_tool_calls o (omega arith)
        h
  Last-Advances s (cancelled e) s' le h = tt

  Good-Advances :
      (s : RunState) (v : Verdict) (s' : RunState)
      → s.step_number < budget.max_steps
      → Good (suc s.step_number) budget.max_tool_calls v s'
      → Advances s v s'
  Good-Advances s going s' lt h = ((h.0, omega (arith, h.1), h.2), h.1)
  Good-Advances s (ended o) s' lt h =
      EndsWell-mono (suc s.step_number) (suc budget.max_steps) budget.max_tool_calls o (omega arith)
        h
  Good-Advances s (cancelled e) s' lt h = tt

  forced_round :
      (s : RunState) (stop : StopReason) (w : World)
      → stop ≢ StopReason.error
      → InBudget going s
      → Holds env run (Advances s) (force_finish env run s stop w)
  forced_round s stop w ne v =
      Last-Advances s _ _ v.1 (
        force_finish-Last env run (suc s.step_number) budget.max_tool_calls stop ne s w v.0 refl
          v.2)

  or_forced-Advances :
      (s : RunState) (reason : Option StopReason) (w : World)
      → InBudget going s
      → BoundSays budget s reason
      → Holds env run (Advances s) (or_forced env run s reason w)
  unfolding or_forced unbounded
  or_forced-Advances s (some reason) w v h = forced_round s reason w h v
  or_forced-Advances s none w v h =
      elim (Bool-cases (ltb budget.max_prompt_tokens (estimate_tokens (prompt env run s)))) [
        | inl e ↦ rw (e, or_forced) (forced_round s StopReason.token_budget w (λ x. cc) v)
        | inr e ↦
            rw (e, or_forced)
              (Good-Advances s _ _ h.0 (
                step-Good env run (suc s.step_number) budget.max_tool_calls s (prompt env run s) w
                  v.0 refl (omega (arith, h.1))))
      ]

  round-Advances :
      (s : RunState) (w : World) → InBudget going s → Holds env run (Advances s) (round env run s w)
  unfolding round
  round-Advances s w v = elim (Option-cases (env.ctx_err w).0) [
    | inl e ↦
        rw (e, round) (or_forced-Advances s _ _ v (bound-BoundSays env budget s (env.ctx_err w).1))
    | inr (x, e) ↦ rw (e, round) tt
  ]

  -- What the loop returns when it returns.
  abbrev pub Finished : Option (Result env run) → Type 0
  Finished none = ⊥
  Finished (some (going, s, w)) = ⊥
  Finished (some (ended o, s, w)) = EndsWell (suc budget.max_steps) budget.max_tool_calls o
  Finished (some (cancelled e, s, w)) = Unit

  go_on-Finished :
      (next : RunState → World → Option (Result env run)) (s : RunState) (v : Verdict)
      (s' : RunState) (w : World)
      → (Advances s going s' → Finished (next s' w))
      → Advances s v s'
      → Finished (go_on env run next v s' w)
  unfolding go_on
  go_on-Finished next s going s' w more h = more h
  go_on-Finished next s (ended o) s' w more h = h
  go_on-Finished next s (cancelled e) s' w more h = tt

  rounds-Finished :
      (fuel : ℕ) (s : RunState) (w : World)
      → budget.max_steps < s.step_number + fuel
      → InBudget going s
      → Finished (rounds env run fuel s w)
  unfolding rounds
  rounds-Finished zero s w enough v = absurd (omega arith)
  rounds-Finished (suc fuel) s w enough v =
      let (verdict, s', w') = round env run s w in
      go_on-Finished (rounds env run fuel) s verdict s' w'
        (λ h. rounds-Finished fuel s' w' (omega (arith, h.1)) h.0) (round-Advances s w v)

  -- A run ends: whatever the model, the tools, the clock and the callback do, the loop returns
  -- within max_steps + 1 rounds, with an outcome or with the error of a cancelled context. An
  -- outcome counts at most max_steps + 1 recorded steps and at most max_tool_calls tool calls; if
  -- its status is SUCCEEDED it has a diagnosis, no error and a stop reason other than ERROR, and
  -- otherwise it is FAILED with the reason ERROR, an error text and no diagnosis.
  pub run_agent-Finished : (w : World) → Finished (run_agent env run w)
  unfolding run_agent
  run_agent-Finished w = rounds-Finished (suc budget.max_steps) _ _ (omega arith) (
      unfold initial in
      (
        record { recorded = refl; numbered = refl; shown = refl; patient = omega arith },
        omega arith,
        omega arith,
      ))
