-- ===== src/Store/Runs/Active.antt =====
-- One row of an id, and one active run of an incident.
use incident_diag.Base.{
  inl, inr, if◌then◌else◌, ℕ, ◌+◌, ◌≤◌, ◌≡◌, refl, Bool, true, false, ◌&&◌, List, [], ◌∷◌, ◌++◌,
  Option, none, some, any, count, arith, ◌↔◌,
}
use incident_diag.Store.Errors.{ok, err, conflict, DriverError}
use incident_diag.Store.Table.{find, update_where, count-update_where, count-insert}
use incident_diag.Store.Rows.{Db, Run, NewRun, RunOutcome, is_incident}
use incident_diag.Store.Runs.{
  Fault, is_active, active_for, has_id, is_claimable, is_held, claimed_run, finished_run, new_run,
  create_run, claim_run, finish_run,
}
use incident_diag.Store.Runs.Claim.{
  picks, claim_run_faulty, claim_run-runs, claim_run_marks, claim_run_refuses,
}
use incident_diag.Store.Runs.History.{Call, creates, claims, finishes, apply, replay}

pub record IsValid (runs : List Run) : Type 0 where
  pub id_unique : (id : ℕ) → count (has_id id) runs ≤ 1
  pub active_unique : (incident : ℕ) → count (active_for incident) runs ≤ 1

-- An UPDATE that keeps ids and incidents, and touches active rows only, keeps both.
module _ (p : Run → Bool) (f : Run → Run) (ids : (r : Run) → (f r).id ≡ r.id)
    (incidents : (r : Run) → (f r).incident_id ≡ r.incident_id)
    (active : (r : Run) → p r ≡ true → is_active r.status ≡ true) where
  update-id_unique :
      (runs : List Run) (id : ℕ)
      → count (has_id id) runs ≤ 1
      → count (has_id id) (update_where p f runs) ≤ 1
  update-id_unique runs id v =
      omega (arith, count-update_where (has_id id) p f runs (λ r _ e. ground (arith, ids r)))

  update-active_unique :
      (runs : List Run) (i : ℕ)
      → count (active_for i) runs ≤ 1
      → count (active_for i) (update_where p f runs) ≤ 1
  update-active_unique runs i v = omega (
    arith,
    count-update_where (active_for i) p f runs (λ r h e. ground (arith, incidents r, active r h)),
  )

  update-IsValid : (runs : List Run) → IsValid runs → IsValid (update_where p f runs)
  update-IsValid runs v = record {
    id_unique = λ id. update-id_unique runs id (v.id_unique id);
    active_unique = λ i. update-active_unique runs i (v.active_unique i);
  }

-- A new row is added only where its id is unused and its incident has no run in flight.
insert-IsValid :
    (r : Run) (runs : List Run)
    → any (has_id r.id) runs ≡ false
    → any (active_for r.incident_id) runs ≡ false
    → IsValid runs
    → IsValid (runs ++ r ∷ [])
insert-IsValid r runs fresh idle v = record {
  id_unique = λ id. count-insert (has_id id) runs r (λ e. ground arith) (v.id_unique id);
  active_unique = λ i. count-insert (active_for i) runs r (λ e. ground arith) (v.active_unique i);
}

pub create_none_cases {ℓ} :
    (P : List Run → Type ℓ) (id now : ℕ) (n : NewRun) (db : Db)
    → P db.runs
    → (any (has_id id) db.runs ≡ false
        → any (active_for n.incident_id) db.runs ≡ false
        → P (db.runs ++ new_run id now n ∷ []))
    → P (create_run id now none n db).1.runs
unfolding create_run
create_none_cases P id now n db kept added = ground arith

create-IsValid :
    (id now : ℕ) (fault : Option DriverError) (n : NewRun) (db : Db)
    → IsValid db.runs
    → IsValid (create_run id now fault n db).1.runs
unfolding create_run
create-IsValid id now (some e) n db v = v
create-IsValid id now none n db v =
    create_none_cases IsValid id now n db v (λ fresh idle. insert-IsValid _ db.runs fresh idle v)

claim_none-IsValid :
    (id lease now : ℕ) (db : Db) → IsValid db.runs → IsValid (claim_run none id lease now db).1.runs
unfolding claimed_run
claim_none-IsValid id lease now db v = rw (claim_run-runs id lease now db) (
    update-IsValid (picks id lease now db) (claimed_run now) (λ r. refl) (λ r. refl)
      (λ r h. ground arith) db.runs v)

pub claim-IsValid :
    (fault : Fault) (id lease now : ℕ) (db : Db)
    → IsValid db.runs
    → IsValid (claim_run fault id lease now db).1.runs
claim-IsValid (some (stage, e)) id lease now db v =
    elim (claim_run_faulty stage e id lease now db) [
      | inl same ↦ rw same v
      | inr done ↦ rw done (claim_none-IsValid id lease now db v)
    ]
claim-IsValid none id lease now db v = claim_none-IsValid id lease now db v

pub finish-IsValid :
    (fault : Option DriverError) (id attempt : ℕ) (out : RunOutcome) (now : ℕ) (db : Db)
    → IsValid db.runs
    → IsValid (finish_run fault id attempt out now db).1.runs
unfolding finish_run
finish-IsValid (some e) id attempt out now db v = v
finish-IsValid none id attempt out now db v =
    update-IsValid (λ r. has_id id r && is_held attempt r) (finished_run now out) (λ r. refl)
      (λ r. refl) (λ r h. ground arith) db.runs v

apply-IsValid : (c : Call) (db : Db) → IsValid db.runs → IsValid (apply c db).runs
unfolding apply
apply-IsValid (creates id now fault n) db v = create-IsValid id now fault n db v
apply-IsValid (claims fault id lease now) db v = claim-IsValid fault id lease now db v
apply-IsValid (finishes fault id attempt out now) db v =
    finish-IsValid fault id attempt out now db v

-- Whatever creations, claims and terminal writes are made, in any order and with any faults, from a
-- table with one row of each id and at most one PENDING or RUNNING run of each incident, the table
-- stays so.
pub replay-IsValid : (cs : List Call) (db : Db) → IsValid db.runs → IsValid (replay cs db).runs
unfolding replay
replay-IsValid [] db v = v
replay-IsValid (c ∷ cs) db v = replay-IsValid cs (apply c db) (apply-IsValid c db v)

-- A creation under an unused id, for a known incident, is refused with a conflict exactly when that
-- incident has a run in flight; the table is then what it was, and it has the new row behind the
-- others if the incident has none.
pub create_run_conflicts :
    (id now : ℕ) (n : NewRun) (db : Db)
    → any (has_id id) db.runs ≡ false
    → any (is_incident n.incident_id) db.incidents ≡ true
    → let (result, after) = create_run id now none n db in
      ((result ≡ err conflict) ↔ (any (active_for n.incident_id) db.runs ≡ true))
      × (after.runs ≡ (
          if any (active_for n.incident_id) db.runs
          then db.runs
          else db.runs ++ new_run id now n ∷ []))
unfolding create_run
create_run_conflicts id now n db fresh known = ground arith

-- A redelivered message, in a table with one row of each id and at most one run in flight for an
-- incident: after a claim that took the run, a second claim of it within the lease is refused and
-- changes nothing, where no statement fails.
pub claim_run_redelivered :
    (id lease now again : ℕ) (db : Db) (r : Run)
    → IsValid db.runs
    → find (has_id id) db.runs ≡ some r
    → is_claimable lease now r ≡ true
    → again ≤ now + lease
    → let after = (claim_run none id lease now db).1 in
      claim_run none id lease again after ≡ (ok false, after)
claim_run_redelivered id lease now again db r v e h soon =
    let after = (claim_run none id lease now db).1 in
    let valid = claim-IsValid none id lease now db v in
    claim_run_refuses id lease again after (claimed_run now r) (valid.id_unique id)
      (claim_run_marks id lease now db r e h).1 (unfold claimed_run in ground arith)
