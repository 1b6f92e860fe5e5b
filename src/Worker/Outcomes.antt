-- ===== src/Worker/Outcomes.antt =====
-- What one message of a run does, for any investigation and whatever other workers do meanwhile.
use incident_diag.Base.{
  ℕ, ◌+◌, ◌≤◌, ◌≡◌, refl, ap, Bool, true, false, [], ◌∷◌, Option, none, some, any, count, arith,
  inl, inr, ◌⊎◌,
}
use incident_diag.Store.Errors.{Result, ok, err, Kind, DriverError}
use incident_diag.Store.Table.{find}
use incident_diag.Store.Rows.{Db, Run, RunOutcome, is_incident}
use incident_diag.Store.Runs.{
  has_id, is_claimable, is_held, delete_steps, claimed_run, finished_run, claim_run, get_run,
  finish_run,
}
use incident_diag.Store.Runs.Claim.{claim_run_marks, claim_run_taken, claim_run_refuses}
use incident_diag.Store.Runs.Ended.{
  IsTaken, IsFinished, claimed_run-IsTaken, finished_run-IsFinished,
}
use incident_diag.Store.Runs.Terminal.{finish_run_refuses, finish_run_takes, finish_run_writes}
use incident_diag.Worker.{
  trimmed, run_started, run_finished, Conditions, Handled, incident_error, handle, investigate,
  finish, publish_finished, after_write, after_agent, with_incident, with_run, after_claim,
  explain_refused_claim, explained,
}

module _ (agent_run : Run → Db → Option RunOutcome × Db) (c : Conditions) (id : ℕ) where
  -- The events of one message: none, or the start, or the start and the end; each with the row that the
  -- database has for the run, at the time of the investigation's start and at the end.
  abbrev pub IsTold : Handled → Type 0
  IsTold h =
      (h.events ≡ [])
      ⊎ ((r : Run) × ((h.events ≡ trimmed ∷ (run_started r ∷ []))
            ⊎ ((r' : Run) × (h.events ≡ trimmed ∷ (run_started r ∷ (run_finished r' ∷ [])))
                × (find (has_id id) h.db.runs ≡ some r')
                × (h.error ≡ none))))

  get_run_finds :
      (db : Db) (r : Run) → get_run id none db ≡ ok r → find (has_id id) db.runs ≡ some r
  unfolding get_run
  get_run_finds db r e = ground arith

  get_run_none :
      (fault : Option DriverError) (db : Db) (r : Run)
      → get_run id fault db ≡ ok r
      → find (has_id id) db.runs ≡ some r
  unfolding get_run
  get_run_none (some x) db r e = cc
  get_run_none none db r e = get_run_finds db r e

  publish_finished-IsTold :
      (r : Run) (read : Result Run) (db : Db)
      → ((r' : Run) → read ≡ ok r' → find (has_id id) db.runs ≡ some r')
      → IsTold (publish_finished agent_run c read db (trimmed ∷ (run_started r ∷ [])))
  unfolding publish_finished
  publish_finished-IsTold r (ok r') db h = inr (r, inr (r', refl, h r' refl, refl))
  publish_finished-IsTold r (err k) db h = inr (r, inl refl)

  after_write-IsTold :
      (r : Run) (written : Result Bool) (db : Db)
      → IsTold (after_write agent_run c id written db (trimmed ∷ (run_started r ∷ [])))
  unfolding after_write
  after_write-IsTold r (ok true) db =
      publish_finished-IsTold r (get_run id c.reread_fault db) db (get_run_none c.reread_fault db)
  after_write-IsTold r (ok false) db = inr (r, inl refl)
  after_write-IsTold r (err k) db = inr (r, inl refl)

  after_agent-IsTold :
      (r : Run) (attempt : ℕ) (out : Option RunOutcome) (db : Db)
      → IsTold (after_agent agent_run c id attempt out db (trimmed ∷ (run_started r ∷ [])))
  unfolding after_agent finish
  after_agent-IsTold r attempt none db = inr (r, inl refl)
  after_agent-IsTold r attempt (some out) db = after_write-IsTold r _ _

  with_incident-IsTold :
      (r : Run) (missing : Option Kind) (db : Db)
      → IsTold (with_incident agent_run c id r missing db)
  unfolding with_incident
  with_incident-IsTold r (some k) db = inl refl
  with_incident-IsTold r none db = after_agent-IsTold r r.attempts _ _

  with_run-IsTold : (read : Result Run) (db : Db) → IsTold (with_run agent_run c id read db)
  unfolding with_run
  with_run-IsTold (err k) db = inl refl
  with_run-IsTold (ok r) db = with_incident-IsTold r _ db

  after_claim-IsTold :
      (claimed : Result Bool) (db : Db) → IsTold (after_claim agent_run c id claimed db)
  unfolding after_claim investigate explain_refused_claim
  after_claim-IsTold (err k) db = inl refl
  after_claim-IsTold (ok false) db = inl refl
  after_claim-IsTold (ok true) db = with_run-IsTold _ db

  -- Whatever faults there are, and whatever the investigation and other workers do: one message causes no
  -- event, or the stream is emptied and the start is told, or the end is told after that. The end is told
  -- only with the row that the database then has, and only if Handle returns no error.
  pub handle-IsTold : (db : Db) → IsTold (handle agent_run c (some id) db)
  unfolding handle
  handle-IsTold db = after_claim-IsTold _ _

read_back :
    (id : ℕ) (after : Db) (r : Run)
    → find (has_id id) after.runs ≡ some r
    → get_run id none after ≡ ok r
unfolding get_run
read_back id after r e = rw e refl

-- No statement fails.
abbrev pub calm : ℕ → ℕ → ℕ → Conditions
calm lease claimed_at finished_at = record {
  lease = lease;
  claimed_at = claimed_at;
  finished_at = finished_at;
  claim_fault = none;
  refused_fault = none;
  run_fault = none;
  incident_fault = none;
  finish_fault = none;
  reread_fault = none;
}

module _ (agent_run : Run → Db → Option RunOutcome × Db) (id lease now later : ℕ) (db : Db)
    (r : Run) (e : find (has_id id) db.runs ≡ some r) (h : is_claimable lease now r ≡ true)
    (known : any (is_incident r.incident_id) db.incidents ≡ true) where
  -- The database behind the claim, and what the investigation makes of it.
  abbrev pub claimed_db : Db
  claimed_db = (claim_run none id lease now db).1

  abbrev pub investigated : Option RunOutcome × Db
  investigated = agent_run (claimed_run now r) claimed_db

  claimed_row : get_run id none claimed_db ≡ ok (claimed_run now r)
  unfolding get_run
  claimed_row = rw ((claim_run_marks id lease now db r e h).1) refl

  claimed_incidents : claimed_db.incidents ≡ db.incidents
  unfolding delete_steps
  claimed_incidents = ap (λ done. done.1.incidents) (claim_run_taken id lease now db r e h)

  claimed_incident : incident_error r.incident_id none claimed_db ≡ none
  unfolding incident_error
  claimed_incident = rw (claimed_incidents, known) refl

  -- A claimed run is investigated from its row.
  handle_claimed :
      handle agent_run (calm lease now later) (some id) db
      ≡ after_agent agent_run
          (calm lease now later)
          id
          (r.attempts + 1)
          investigated.0
          investigated.1
          (trimmed ∷ (run_started (claimed_run now r) ∷ []))
  unfolding handle after_claim investigate claimed_run with_run with_incident
  handle_claimed =
      rw ((claim_run_marks id lease now db r e h).0) (rw claimed_row (rw claimed_incident refl))

  -- A message for a run that can be claimed, of an incident that exists, where no statement fails: if the
  -- investigation has an outcome and the run is still RUNNING under this claim, then the row has the
  -- status, the reason, the texts and the counters of the outcome and the stamp of the end, where an
  -- empty text is NULL, and its other columns are as they were; Handle returns no error, and the stream
  -- was emptied and told of the claimed row and then of the final one.
  pub handle_completes :
      (out : RunOutcome) (r' : Run)
      → investigated.0 ≡ some out
      → find (has_id id) investigated.1.runs ≡ some r'
      → is_held (r.attempts + 1) r' ≡ true
      → let handled = handle agent_run (calm lease now later) (some id) db in
        (handled.error ≡ none)
        × ((claimed final : Run) × (IsTaken now r claimed
              × IsFinished later out r' final
              × (find (has_id id) handled.db.runs ≡ some final)
              × (handled.events ≡ trimmed ∷ (run_started claimed ∷ (run_finished final ∷ [])))))
  unfolding after_agent finish after_write publish_finished
  handle_completes out r' o found held =
      let after = (finish_run none id (r.attempts + 1) out later investigated.1).1 in
      let row = finish_run_writes id (r.attempts + 1) out later investigated.1 r' found held in
      rw
        (
          handle_claimed,
          o,
          finish_run_takes id (r.attempts + 1) out later investigated.1 r' found held,
        )
        (rw (read_back id after (finished_run later out r') row) (
          refl,
          (
            claimed_run now r,
            finished_run later out r',
            (claimed_run-IsTaken now r, finished_run-IsFinished later out r', row, refl),
          ),
        ))

  -- A message for a run that can be claimed, of an incident that exists, where no statement fails: if the
  -- investigation has an outcome, but behind it the one row of the run is not RUNNING under this claim,
  -- then the database is what the investigation left, Handle returns no error and the end is not told.
  pub handle_superseded :
      (out : RunOutcome) (r' : Run)
      → investigated.0 ≡ some out
      → count (has_id id) investigated.1.runs ≤ 1
      → find (has_id id) investigated.1.runs ≡ some r'
      → is_held (r.attempts + 1) r' ≡ false
      → handle agent_run (calm lease now later) (some id) db ≡ record {
        error = none;
        db = investigated.1;
        events = trimmed ∷ (run_started (claimed_run now r) ∷ []);
      }
  unfolding after_agent finish after_write
  handle_superseded out r' o unique found lost =
      rw
        (
          handle_claimed,
          o,
          finish_run_refuses id (r.attempts + 1) out later investigated.1 r' unique found lost,
        )
        refl

-- A message for a run that cannot be claimed, as another claim holds it or it has ended, in a table with
-- one row of its id and where no statement fails, changes nothing and tells nothing, and Handle returns
-- no error.
pub handle_redelivered :
    (agent_run : Run → Db → Option RunOutcome × Db) (id lease now later : ℕ) (db : Db) (r : Run)
    → count (has_id id) db.runs ≤ 1
    → find (has_id id) db.runs ≡ some r
    → is_claimable lease now r ≡ false
    → handle agent_run (calm lease now later) (some id) db
      ≡ record { error = none; db = db; events = [] }
unfolding handle after_claim explain_refused_claim explained
handle_redelivered agent_run id lease now later db r unique e h =
    rw (claim_run_refuses id lease now db r unique e h) (rw (read_back id db r e) refl)
