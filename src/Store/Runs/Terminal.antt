-- ===== src/Store/Runs/Terminal.antt =====
-- FinishRun against later and earlier calls: a terminal row stays as it is, and a claim that has been
-- superseded writes nothing.
use incident_diag.Base.{
  inl, inr, ℕ, ◌≤◌, ◌≡◌, refl, Bool, true, false, ◌&&◌, List, [], ◌∷◌, Option, none, some, count,
  arith, ◌∙◌, Bool-cases, inl, inr, ap, any,
}
use incident_diag.Store.Errors.{ok, DriverError}
use incident_diag.Store.Table.{
  update_where, update_where_none, find, find-update_where, find-append, find-any, find-missed,
  find_passes,
}
use incident_diag.Store.Rows.{Db, Run, NewRun, RunOutcome}
use incident_diag.Store.Runs.{
  Fault, is_active, is_held, is_claimable, has_id, claimed_run, finished_run, new_run, create_run,
  claim_run, finish_run,
}
use incident_diag.Store.Runs.Claim.{picks, claim_run_faulty, claim_run-runs, claim_run_marks}
use incident_diag.Store.Runs.Active.{
  IsValid, replay-IsValid, create_none_cases, claim-IsValid, finish-IsValid,
}
use incident_diag.Store.Runs.History.{Call, creates, claims, finishes, apply, replay}

abbrev holds : ℕ → ℕ → Run → Bool
holds id attempt r = has_id id r && is_held attempt r

-- What a call makes of the row of an id: the same row, a claimed one or a finished one.
data Next (r : Run) : Run → Type 0 where
  same : Next r r
  claimed : (lease now : ℕ) → is_claimable lease now r ≡ true → Next r (claimed_run now r)
  finished :
      (now attempt : ℕ) (out : RunOutcome)
      → is_held attempt r ≡ true
      → Next r (finished_run now out r)

-- The row of an id in a list of rows, as a successor of `r`.
abbrev Follows : ℕ → Run → List Run → Type 0
Follows id r runs = (r' : Run) × (find (has_id id) runs ≡ some r') × Next r r'

update-Follows :
    (p : Run → Bool) (f : Run → Run) (id : ℕ) (runs : List Run) (r : Run)
    → ((y : Run) → (f y).id ≡ y.id)
    → (p r ≡ true → Next r (f r))
    → find (has_id id) runs ≡ some r
    → Follows id r (update_where p f runs)
update-Follows p f id runs r ids turn h =
    let found = find-update_where (has_id id) p f runs r (λ y. rw (ids y)) h in
    elim (Bool-cases (p r)) [
      | inl e ↦ (f r, found ∙ rw e, turn e)
      | inr e ↦ (r, found ∙ rw e, same)
    ]

create-Follows :
    (id j now : ℕ) (fault : Option DriverError) (n : NewRun) (db : Db) (r : Run)
    → find (has_id id) db.runs ≡ some r
    → Follows id r (create_run j now fault n db).1.runs
unfolding create_run
create-Follows id j now (some e) n db r h = (r, h, same)
create-Follows id j now none n db r h =
    create_none_cases (Follows id r) j now n db (r, h, same)
      (λ _ _. (r, find-append (has_id id) db.runs (new_run j now n ∷ []) r h, same))

claim_none-Follows :
    (id j lease now : ℕ) (db : Db) (r : Run)
    → find (has_id id) db.runs ≡ some r
    → Follows id r (claim_run none j lease now db).1.runs
unfolding claimed_run
claim_none-Follows id j lease now db r h = rw (claim_run-runs j lease now db) (
    update-Follows (picks j lease now db) (claimed_run now) id db.runs r (λ y. refl)
      (λ e. claimed lease now (ground arith)) h)

claim-Follows :
    (id : ℕ) (fault : Fault) (j lease now : ℕ) (db : Db) (r : Run)
    → find (has_id id) db.runs ≡ some r
    → Follows id r (claim_run fault j lease now db).1.runs
claim-Follows id (some (stage, e)) j lease now db r h =
    elim (claim_run_faulty stage e j lease now db) [
      | inl kept ↦ rw kept (r, h, same)
      | inr done ↦ rw done (claim_none-Follows id j lease now db r h)
    ]
claim-Follows id none j lease now db r h = claim_none-Follows id j lease now db r h

finish-Follows :
    (id : ℕ) (fault : Option DriverError) (j attempt : ℕ) (out : RunOutcome) (now : ℕ) (db : Db)
    (r : Run)
    → find (has_id id) db.runs ≡ some r
    → Follows id r (finish_run fault j attempt out now db).1.runs
unfolding finish_run finished_run
finish-Follows id (some e) j attempt out now db r h = (r, h, same)
finish-Follows id none j attempt out now db r h =
    update-Follows (holds j attempt) (finished_run now out) id db.runs r (λ y. refl)
      (λ e. finished now attempt out (ground arith)) h

-- Every call leaves the row of an id, claims it as its status allows, or finishes it.
apply-Follows :
    (id : ℕ) (c : Call) (db : Db) (r : Run)
    → find (has_id id) db.runs ≡ some r
    → Follows id r (apply c db).runs
unfolding apply
apply-Follows id (creates j now fault n) db r h = create-Follows id j now fault n db r h
apply-Follows id (claims fault j lease now) db r h = claim-Follows id fault j lease now db r h
apply-Follows id (finishes fault j attempt out now) db r h =
    finish-Follows id fault j attempt out now db r h

Next-terminal : {r r' : Run} → Next r r' → is_active r.status ≡ false → r' ≡ r
Next-terminal same e = refl
Next-terminal (claimed lease now h) e = ground arith
Next-terminal (finished now attempt out h) e = ground arith

Next-attempts : {r r' : Run} → Next r r' → r.attempts ≤ r'.attempts
unfolding claimed_run finished_run
Next-attempts same = omega arith
Next-attempts (claimed lease now h) = omega arith
Next-attempts (finished now attempt out h) = omega arith

-- A run that has SUCCEEDED or FAILED keeps its row, whatever is called later and in any order.
pub replay-terminal :
    (cs : List Call) (id : ℕ) (db : Db) (r : Run)
    → find (has_id id) db.runs ≡ some r
    → is_active r.status ≡ false
    → find (has_id id) (replay cs db).runs ≡ some r
unfolding replay
replay-terminal [] id db r h e = h
replay-terminal (c ∷ cs) id db r h e =
    let (r', found, step) = apply-Follows id c db r h in
    replay-terminal cs id (apply c db) r (found ∙ ap some (Next-terminal step e)) e

-- The number of claims of a run never falls.
replay-attempts :
    (cs : List Call) (id : ℕ) (db : Db) (r : Run)
    → find (has_id id) db.runs ≡ some r
    → (r' : Run) × (find (has_id id) (replay cs db).runs ≡ some r') × (r.attempts ≤ r'.attempts)
unfolding replay
replay-attempts [] id db r h = (r, h, omega arith)
replay-attempts (c ∷ cs) id db r h =
    let (r', found, step) = apply-Follows id c db r h in
    let (r'', found', le) = replay-attempts cs id (apply c db) r' found in
    (r'', found', omega (arith, Next-attempts step))

-- A terminal write under a claim that does not hold the run is refused and changes nothing.
pub finish_run_refuses :
    (id attempt : ℕ) (out : RunOutcome) (now : ℕ) (db : Db) (r : Run)
    → count (has_id id) db.runs ≤ 1
    → find (has_id id) db.runs ≡ some r
    → is_held attempt r ≡ false
    → finish_run none id attempt out now db ≡ (ok false, db)
unfolding finish_run
finish_run_refuses id attempt out now db r c h e =
    let missed : any (holds id attempt) db.runs ≡ false =
      find-missed (holds id attempt) (has_id id) db.runs r (λ y k. ground arith) c h
        (ground arith) in
    rw (missed, update_where_none (holds id attempt) (finished_run now out) db.runs missed)

-- In a table with unique ids and at most one run in flight for an incident: once a run was claimed
-- again, and after any further calls, a terminal write by an earlier claim is refused and changes
-- nothing.
pub finish_run_fenced :
    (id lease now : ℕ) (db : Db) (r : Run) (cs : List Call) (attempt : ℕ) (out : RunOutcome)
    (later : ℕ)
    → IsValid db.runs
    → find (has_id id) db.runs ≡ some r
    → is_claimable lease now r ≡ true
    → attempt ≤ r.attempts
    → let after = replay cs (claim_run none id lease now db).1 in
      finish_run none id attempt out later after ≡ (ok false, after)
unfolding claimed_run
finish_run_fenced id lease now db r cs attempt out later v h e le =
    let after = (claim_run none id lease now db).1 in
    let (r', found, more) =
      replay-attempts cs id after (claimed_run now r) (claim_run_marks id lease now db r h e).1 in
    let valid = replay-IsValid cs after (claim-IsValid none id lease now db v) in
    finish_run_refuses id attempt out later (replay cs after) r' (valid.id_unique id) found
      (ground arith)

module _ (id attempt : ℕ) (out : RunOutcome) (now : ℕ) (db : Db) (r : Run)
    (h : find (has_id id) db.runs ≡ some r) (e : is_held attempt r ≡ true) where
  held : holds id attempt r ≡ true
  held = ground (arith, find_passes (has_id id) db.runs r h)

  pub finish_run_takes : (finish_run none id attempt out now db).0 ≡ ok true
  unfolding finish_run
  finish_run_takes = rw (find-any (holds id attempt) (has_id id) db.runs r h held)

  pub finish_run_writes :
      find (has_id id) (finish_run none id attempt out now db).1.runs
      ≡ some (finished_run now out r)
  unfolding finish_run finished_run
  finish_run_writes =
      find-update_where (has_id id) (holds id attempt) (finished_run now out) db.runs r (λ y. refl)
        h
      ∙ rw held

-- In a table with one row of each id and at most one run in flight for an incident, a terminal write of
-- a terminal outcome by the claim that holds the run ends it with that outcome, and the same write a
-- second time is refused and changes nothing, where no statement fails.
pub finish_run_once :
    (id attempt : ℕ) (out : RunOutcome) (now later : ℕ) (db : Db) (r : Run)
    → IsValid db.runs
    → find (has_id id) db.runs ≡ some r
    → is_held attempt r ≡ true
    → is_active out.status ≡ false
    → let (result, after) = finish_run none id attempt out now db in
      (result ≡ ok true)
      × (find (has_id id) after.runs ≡ some (finished_run now out r))
      × (finish_run none id attempt out later after ≡ (ok false, after))
unfolding finished_run
finish_run_once id attempt out now later db r v h e t =
    let after = (finish_run none id attempt out now db).1 in
    let written = finish_run_writes id attempt out now db r h e in
    let valid = finish-IsValid none id attempt out now db v in
    (
      finish_run_takes id attempt out now db r h e,
      written,
      finish_run_refuses id attempt out later after (finished_run now out r) (valid.id_unique id)
          written (ground arith),
    )
