-- ===== src/Tests/Messages.antt =====
-- internal/agentrun on the message of one run.
use incident_diag.Base.{◌≡◌, refl, [], ◌∷◌, Option, none, some, arith}
use incident_diag.Store.Errors.{net_error}
use incident_diag.Store.Table.{find, update_where}
use incident_diag.Store.Rows.{Db, Run, RunOutcome}
use incident_diag.Store.Runs.{has_id, claimed_run, claim_run, delete_steps}
use incident_diag.Store.Runs.Ended.{IsTaken, IsFinished}
use incident_diag.Worker.{trimmed, run_started, run_finished, Conditions, handle}
use incident_diag.Worker.Outcomes.{
  IsTold, handle-IsTold, calm, handle_completes, handle_superseded, handle_redelivered,
}
use incident_diag.Tests.Runs.{diagnosis, one_run, one_db, running, running_db}

-- The investigation has an outcome, and no other worker does anything.
abbrev alone : Run → Db → Option RunOutcome × Db
alone r db = (some diagnosis, db)

-- It takes so long that another worker claims the run.
abbrev overtaken : Run → Db → Option RunOutcome × Db
overtaken r db = (some diagnosis, (claim_run none 1 50 300 db).1)

abbrev unwritten : Conditions
unwritten = record (calm 50 120 180) { finish_fault = some net_error }

handle-IsTold_example : IsTold alone unwritten 1 (handle alone unwritten (some 1) one_db)
handle-IsTold_example = handle-IsTold alone unwritten 1 one_db

handle_completes_example :
    let handled = handle alone (calm 50 120 180) (some 1) one_db in
    (handled.error ≡ none)
    × ((claimed final : Run) × (IsTaken 120 one_run claimed
          × IsFinished 180 diagnosis (claimed_run 120 one_run) final
          × (find (has_id 1) handled.db.runs ≡ some final)
          × (handled.events ≡ trimmed ∷ (run_started claimed ∷ (run_finished final ∷ [])))))
unfolding find claim_run claimed_run delete_steps update_where
handle_completes_example =
    handle_completes alone 1 50 120 180 one_db one_run refl refl refl diagnosis
      (claimed_run 120 one_run) refl refl refl

handle_superseded_example : handle overtaken (calm 50 120 180) (some 1) one_db ≡ record {
  error = none;
  db = (overtaken (claimed_run 120 one_run) (claim_run none 1 50 120 one_db).1).1;
  events = trimmed ∷ (run_started (claimed_run 120 one_run) ∷ []);
}
unfolding find claim_run claimed_run delete_steps update_where
handle_superseded_example =
    handle_superseded overtaken 1 50 120 180 one_db one_run refl refl refl diagnosis
      (claimed_run 300 (claimed_run 120 one_run)) refl (omega arith) refl refl

handle_redelivered_example :
    handle alone (calm 50 140 180) (some 1) running_db
    ≡ record { error = none; db = running_db; events = [] }
unfolding find
handle_redelivered_example =
    handle_redelivered alone 1 50 140 180 running_db running (omega arith) refl refl
