-- ===== src/Tests/Steps.antt =====
-- internal/store and internal/agentrun on the steps of one run.
use incident_diag.Base.{ℕ, refl, List, [], ◌∷◌, none, some, arith, Bytes}
use incident_diag.Store.Rows.{ActionType, StepStatus, SourceType}
use incident_diag.Store.Runs.History.{claims}
use incident_diag.Store.Audit.{NewStep, NewEvidence}
use incident_diag.Store.Audit.Refers.{IsSound}
use incident_diag.Store.Audit.History.{Change, on_runs, on_steps, on_evidence, changes}
use incident_diag.Store.Audit.Sound.{changes-IsSound}
use incident_diag.Agent.Types.{Action, no_action, Step, Evidence}
use incident_diag.Worker.Report.{Writes}
use incident_diag.Tests.Runs.{one_db}

abbrev searched : NewStep
searched = record {
  run_id = 1;
  step_number = 1;
  action_type = ActionType.retrieve;
  action = 123 ∷ 125 ∷ [];
  observation = 104 ∷ [];
  status = StepStatus.ok;
  error = [];
  duration = 2500;
}

-- It names a document that is not there.
abbrev dangling : NewEvidence
dangling = record {
  run_id = 1;
  step_id = 50;
  tool_call_id = none;
  source_type = SourceType.retrieval;
  source_ref = 114 ∷ [];
  document_id = some 7;
  summary = [];
  note = [];
}

one_db-IsSound : IsSound one_db
one_db-IsSound = record {
  runs = (refl, tt);
  steps = tt;
  calls = tt;
  evidence = tt;
  numbers = λ run number. omega arith;
}

-- A second step of the same number is refused, evidence of a missing document is refused, and the
-- second claim deletes the step and its evidence.
abbrev story : List Change
story =
    on_runs (claims none 1 50 120)
    ∷ on_steps 50 130 none searched
    ∷ on_steps 51 131 none searched
    ∷ on_evidence 60 140 none dangling
    ∷ on_evidence 60 141 none (record dangling { document_id = none })
    ∷ on_runs (claims none 1 50 200)
    ∷ []

changes-IsSound_example : IsSound (changes story one_db)
changes-IsSound_example = changes-IsSound story one_db one_db-IsSound

-- A text of one byte is the id of that number.
abbrev number : Bytes → ℕ
number [] = 0
number (b ∷ _) = b

abbrev text : ℕ → Bytes
text id = id ∷ []

abbrev encoded : Action → Bytes
encoded a = 123 ∷ 125 ∷ []

abbrev cites_missing : Evidence
cites_missing = record {
  step_id = 50 ∷ [];
  tool_call_id = [];
  source_type = SourceType.retrieval;
  source_ref = 114 ∷ [];
  document_id = 7 ∷ [];
  summary = [];
  note = [];
}

abbrev finish : Step
finish = record {
  run_id = 1 ∷ [];
  step_number = 2;
  action_type = ActionType.finish;
  action = no_action;
  observation = [];
  status = StepStatus.ok;
  error = [];
  duration = 40;
  tool_call = none;
  evidence = cites_missing ∷ [];
}

abbrev writes : Writes
writes = record {
  step_id = 50;
  step_at = 300;
  step_fault = none;
  call_id = 0;
  call_at = 0;
  call_fault = none;
  live_fault = none;
  evidence_id = λ i. 60;
  evidence_at = λ i. 301;
  evidence_fault = λ i. none;
}
