-- ===== src/Tests/Runs.antt =====
-- internal/store/runs.go on two runs of two incidents.
use incident_diag.Base.{ℕ, ◌≡◌, ◌≢◌, refl, true, false, List, [], ◌∷◌, none, some, arith}
use incident_diag.Store.Errors.{ok, err, conflict}
use incident_diag.Store.Table.{find, update_where}
use incident_diag.Store.Rows.{
  Db, Run, NewRun, Incident, RunOutcome, RunStatus, StopReason, Step, StepStatus, ActionType,
}
use incident_diag.Store.Runs.{has_id, claimed_run, finished_run, create_run, claim_run, finish_run}
use incident_diag.Store.Runs.Ended.{IsTaken}
use incident_diag.Store.Runs.Claim.{claim_run_takes, steps_of}
use incident_diag.Store.Runs.Active.{IsValid, replay-IsValid}
use incident_diag.Store.Runs.Terminal.{replay-terminal, finish_run_fenced}
use incident_diag.Store.Runs.History.{Call, creates, claims, finishes, apply, replay}

abbrev pub filed : ℕ → Incident
filed id = record {
  id = id;
  title = 116 ∷ [];
  description = [];
  service = none;
  created_at = 0;
  updated_at = 0;
}

abbrev empty_db : Db
empty_db = record {
  incidents = filed 10 ∷ filed 20 ∷ [];
  runs = [];
  steps = [];
  tool_calls = [];
  evidence = [];
  documents = [];
}

abbrev request : NewRun
request = record {
  incident_id = 10;
  model = [];
  max_steps = 8;
  max_tool_calls = 6;
  max_duration_seconds = 300;
  max_prompt_tokens = 60000;
}

abbrev pub diagnosis : RunOutcome
diagnosis = record {
  status = RunStatus.succeeded;
  stop_reason = StopReason.completed;
  final_result = some (1 ∷ []);
  error = none;
  step_count = 3;
  tool_call_count = 1;
  prompt_tokens = 0;
  completion_tokens = 0;
}

-- Run 1, PENDING since time 100.
abbrev pub one_run : Run
one_run = record {
  id = 1;
  incident_id = 10;
  status = RunStatus.pending;
  stop_reason = none;
  max_steps = 8;
  max_tool_calls = 6;
  max_duration_seconds = 300;
  max_prompt_tokens = 60000;
  model = [];
  step_count = 0;
  tool_call_count = 0;
  prompt_tokens = 0;
  completion_tokens = 0;
  final_result = none;
  error = none;
  attempts = 0;
  started_at = none;
  finished_at = none;
  created_at = 100;
  updated_at = 100;
}

abbrev pub one_db : Db
one_db = record empty_db { runs = one_run ∷ [] }

created : create_run 1 100 none request empty_db ≡ (ok one_run, one_db)
unfolding create_run
created = refl

empty-IsValid : IsValid empty_db.runs
empty-IsValid = record { id_unique = λ id. omega arith; active_unique = λ i. omega arith }

abbrev story : List Call
story =
    creates 1 100 none request
    ∷ creates 2 110 none request
    ∷ claims none 1 50 120
    ∷ claims none 1 50 130
    ∷ claims none 1 50 171
    ∷ finishes none 1 1 diagnosis 180
    ∷ finishes none 1 2 diagnosis 190
    ∷ creates 2 200 none request
    ∷ []

replay-IsValid_example : IsValid (replay story empty_db).runs
replay-IsValid_example = replay-IsValid story empty_db empty-IsValid

-- The second claim of run 1 is within the lease, the third is not; the outcome of the first claim is
-- discarded and that of the second is kept; then the incident is free for run 2.
story_ends :
    (replay story empty_db).runs
    ≡ finished_run 190 diagnosis (claimed_run 171 (claimed_run 120 one_run))
      ∷ record one_run { id = 2; created_at = 200; updated_at = 200 }
      ∷ []
unfolding replay create_run claim_run finish_run claimed_run finished_run apply update_where
story_ends = refl

one-IsValid : IsValid one_db.runs
unfolding replay apply create_run
one-IsValid = replay-IsValid (creates 1 100 none request ∷ []) empty_db empty-IsValid

abbrev pub running : Run
running = record one_run {
  status = RunStatus.running;
  attempts = 1;
  started_at = some 120;
  updated_at = 120;
  step_count = 2;
}

abbrev one_step : Step
one_step = record {
  id = 7;
  run_id = 1;
  step_number = 1;
  action_type = ActionType.retrieve;
  action = [];
  observation = none;
  observation_bytes = 0;
  truncated = false;
  status = StepStatus.ok;
  error = none;
  duration_ms = 3;
  created_at = 125;
}

-- Run 1 of incident 10 is RUNNING since time 120 and has one step; incident 20 has none.
abbrev pub running_db : Db
running_db = record one_db { runs = running ∷ []; steps = one_step ∷ [] }

running-IsValid : IsValid running_db.runs
running-IsValid = record { id_unique = λ id. ground arith; active_unique = λ i. ground arith }

abbrev ended_db : Db
ended_db = record running_db { runs = finished_run 180 diagnosis running ∷ [] }

finish_run_fenced_example :
    let after = replay (claims none 1 50 300 ∷ []) (claim_run none 1 50 171 running_db).1 in
    finish_run none 1 1 diagnosis 310 after ≡ (ok false, after)
unfolding find
finish_run_fenced_example =
    finish_run_fenced 1 50 171 running_db running (claims none 1 50 300 ∷ []) 1 diagnosis 310
      running-IsValid refl refl (omega arith)

claim_run_takes_example :
    let (result, after) = claim_run none 1 50 171 running_db in
    (result ≡ ok true)
    × ((r : Run) × (find (has_id 1) after.runs ≡ some r) × IsTaken 171 running r)
    × (steps_of 1 after ≡ [])
    × ((j : ℕ)
        → j ≢ 1
        → (find (has_id j) after.runs ≡ find (has_id j) running_db.runs)
          × (steps_of j after ≡ steps_of j running_db))
unfolding find
claim_run_takes_example = claim_run_takes 1 50 171 running_db running refl refl

replay-terminal_example :
    find (has_id 1) (replay story ended_db).runs ≡ some (finished_run 180 diagnosis running)
unfolding find finished_run
replay-terminal_example =
    replay-terminal story 1 ended_db (finished_run 180 diagnosis running) refl refl

-- A run in flight refuses another of its incident; a run of another incident is created.
refused : (create_run 2 200 none request running_db).0 ≡ err conflict
unfolding create_run
refused = refl
