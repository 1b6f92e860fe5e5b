-- ===== src/Agent/Steps/Kept.antt =====
-- What one step keeps: the counters, the numbering of the recorded steps and the shape of an outcome.
use incident_diag.Base.{
  ℕ, suc, ◌+◌, ◌≤◌, ◌≡◌, ◌≢◌, ◌⊎◌, inl, inr, refl, List, [], ◌∷◌, Option, none, some, Bytes, length,
}
use incident_diag.Store.Rows.{RunOutcome, RunStatus, StopReason}
use incident_diag.Agent.Types.{Outcome, returns, fails, Record, Run, Step, StepRef}
use incident_diag.Agent.Env.{Env}
use incident_diag.Agent.State.{RunState, failed, succeeded}
use incident_diag.Agent.Endings.{Verdict, going, ended, cancelled}
use incident_diag.Agent.Steps.{
  Result, and_then, or_cancelled, fail_unless_cancelled, reported, report, step,
}

-- The steps recorded are `n`, …, 2, 1, the latest first.
abbrev pub Numbered : List (ℕ × Record) → ℕ → Type 0
Numbered [] n = n ≡ 0
Numbered ((k, r) ∷ rs) n = (k ≡ n) × (n ≡ suc (length rs)) × Numbered rs (length rs)

-- Between two steps: every step was recorded, in order, and shown in the context once, and the last
-- response but one was usable.
pub record IsSound (s : RunState) : Type 0 where
  pub recorded : s.step_count ≡ s.step_number
  pub numbered : Numbered s.records s.step_number
  pub shown : length s.turns ≡ s.step_number
  pub patient : s.no_tool_streak ≤ 1

-- Inside step `n`: all earlier steps are recorded, and this one is not yet.
pub record IsOpen (n c : ℕ) (s : RunState) : Type 0 where
  pub number : s.step_number ≡ n
  pub recorded : suc s.step_count ≡ n
  pub numbered : Numbered s.records s.step_count
  pub shown : suc (length s.turns) ≡ n
  pub patient : s.no_tool_streak ≤ 1
  pub calls : s.tool_calls ≤ c

-- A run that succeeded has a diagnosis and a reason other than ERROR; one that failed has the reason
-- ERROR, a text and no diagnosis.
abbrev pub IsCoherent : RunOutcome → Type 0
IsCoherent o =
    ((o.status ≡ RunStatus.succeeded)
      × (o.stop_reason ≢ StopReason.error)
      × (o.error ≡ none)
      × ((args : Bytes) × (o.final_result ≡ some args)))
    ⊎ ((o.status ≡ RunStatus.failed)
        × (o.stop_reason ≡ StopReason.error)
        × (o.final_result ≡ none)
        × ((text : Bytes) × (o.error ≡ some text)))

pub record EndsWell (n c : ℕ) (o : RunOutcome) : Type 0 where
  pub steps : o.step_count ≤ n
  pub calls : o.tool_call_count ≤ c
  pub coherent : IsCoherent o

-- What step `n` leaves, with at most `c` tool calls in all.
abbrev pub Good : ℕ → ℕ → Verdict → RunState → Type 0
Good n c going s = IsSound s × (s.step_number ≡ n) × (s.tool_calls ≤ c)
Good n c (ended o) s = EndsWell n c o
Good n c (cancelled e) s = Unit

-- The same for a step that must be the last.
abbrev pub Last : ℕ → ℕ → Verdict → RunState → Type 0
Last n c going s = ⊥
Last n c (ended o) s = EndsWell n c o
Last n c (cancelled e) s = Unit

pub failed-EndsWell :
    (n c : ℕ) (s : RunState) (reason : Bytes)
    → s.step_count ≤ n
    → s.tool_calls ≤ c
    → EndsWell n c (failed s reason)
unfolding failed
failed-EndsWell n c s reason h k = record {
  steps = h;
  calls = k;
  coherent = inr (refl, refl, refl, (reason, refl));
}

pub succeeded-EndsWell :
    (n c : ℕ) (s : RunState) (stop : StopReason) (args : Bytes)
    → stop ≢ StopReason.error
    → s.step_count ≤ n
    → s.tool_calls ≤ c
    → EndsWell n c (succeeded s stop args)
unfolding succeeded
succeeded-EndsWell n c s stop args e h k = record {
  steps = h;
  calls = k;
  coherent = inl (refl, e, refl, (args, refl));
}

abbrev pub recorded_state : ℕ → Record → StepRef → RunState → RunState
recorded_state n rec ref s = record s {
  step_count = s.step_count + 1;
  records = (n, record rec { ref = ref }) ∷ s.records;
}

module _ (env : Env) (run : Run) where
  open env use {World}

  abbrev pub Holds : (Verdict → RunState → Type 0) → Result env run → Type 0
  Holds P (v, s, w) = P v s

  or_cancelled_cases :
      (P : Verdict → RunState → Type 0) (s : RunState) (err : Option Bytes) (o : RunOutcome)
      → ((e : Bytes) → P (cancelled e) s)
      → P (ended o) s
      → P (or_cancelled env run err o) s
  unfolding or_cancelled
  or_cancelled_cases P s (some e) o stopped failing = stopped e
  or_cancelled_cases P s none o stopped failing = failing

  -- An error of a call: the run ends FAILED, or it is cancelled.
  pub fail_cases :
      (P : Verdict → RunState → Type 0) (s : RunState) (w : World) (reason : Bytes)
      → ((e : Bytes) → P (cancelled e) s)
      → P (ended (failed s reason)) s
      → Holds P (fail_unless_cancelled env run s w reason)
  unfolding fail_unless_cancelled
  fail_cases P s w reason stopped failing =
      or_cancelled_cases P s (env.ctx_err w).0 (failed s reason) stopped failing

  stop_then :
      (P : Verdict → RunState → Type 0) (s : RunState) (w : World) (err : Option Bytes)
      (o : RunOutcome) (k : RunState → World → Result env run)
      → P (or_cancelled env run err o) s
      → Holds P (and_then env run (or_cancelled env run err o, s, w) k)
  unfolding and_then or_cancelled
  stop_then P s w (some e) o k h = h
  stop_then P s w none o k h = h

  reported_cases :
      (P : Verdict → RunState → Type 0) (step : Step) (rec : Record) (s : RunState)
      (ref : Outcome StepRef) (w : World) (k : RunState → World → Result env run)
      → ((e : Bytes) → P (cancelled e) s)
      → ((reason : Bytes) → P (ended (failed s reason)) s)
      → ((ref : StepRef) (w' : World) → Holds P (k (recorded_state step.step_number rec ref s) w'))
      → Holds P (and_then env run (reported env run step rec s ref w) k)
  unfolding reported and_then
  reported_cases P step rec s (returns ref) w k stopped failing next = next ref w
  reported_cases P step rec s (fails e) w k stopped failing next =
      stop_then P s (env.ctx_err w).1 (env.ctx_err w).0 (failed s _) k
        (or_cancelled_cases P s (env.ctx_err w).0 (failed s _) stopped (failing _))

  -- A step that is reported: what follows is reached with the step recorded.
  pub report_cases :
      (P : Verdict → RunState → Type 0) (step : Step) (rec : Record) (s : RunState) (w : World)
      (k : RunState → World → Result env run)
      → ((e : Bytes) → P (cancelled e) s)
      → ((reason : Bytes) → P (ended (failed s reason)) s)
      → ((ref : StepRef) (w' : World) → Holds P (k (recorded_state step.step_number rec ref s) w'))
      → Holds P (and_then env run (report env run step rec s w) k)
  unfolding report
  report_cases P step rec s w k stopped failing next =
      reported_cases P step rec s (env.report step w).0 (env.report step w).1 k stopped failing next
