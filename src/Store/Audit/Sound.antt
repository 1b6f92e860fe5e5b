-- ===== src/Store/Audit/Sound.antt =====
-- Every operation of the store keeps the foreign keys and the numbers of the steps.
use incident_diag.Base.{
  inl, inr, ℕ, ◌≡◌, refl, true, ◌&&◌, List, [], ◌∷◌, ◌++◌, Option, none, some, any, arith,
}
use incident_diag.Store.Errors.{DriverError}
use incident_diag.Store.Rows.{Db, NewRun, RunOutcome, is_incident}
use incident_diag.Store.Runs.{Stage, Fault, delete_steps}
use incident_diag.Store.Runs
use incident_diag.Store.Runs.Claim.{claim_run_faulty, picks}
use incident_diag.Store.Documents
use incident_diag.Store.Documents.Ready.{create_cases}
use incident_diag.Store.Documents.History as DocumentHistory
use incident_diag.Store.Runs.History as RunHistory
use incident_diag.Store.Incidents.{NewIncident, new_incident, create_incident}
use incident_diag.Store.Audit.History.{
  Change, on_incidents, on_runs, on_documents, on_steps, on_calls, on_evidence, change, changes,
}
use incident_diag.Store.Audit.Refers.{IsSound, Keeps-append}
use incident_diag.Store.Audit.Cases.{
  create_step_cases, create_tool_call_cases, create_evidence_cases,
}
use incident_diag.Store.Audit.Kept.{
  run_added, incident_added, documents_kept, documents_updated, step_added, call_added,
  evidence_added, update-IsSound, delete-IsSound,
}

create_run_cases {ℓ} :
    (P : Db → Type ℓ) (id now : ℕ) (n : NewRun) (db : Db)
    → P db
    → (any (is_incident n.incident_id) db.incidents ≡ true
        → P (record db { runs = db.runs ++ Runs.new_run id now n ∷ [] }))
    → P (Runs.create_run id now none n db).1
unfolding Runs.create_run
create_run_cases P id now n db kept added = ground arith

create_run-IsSound :
    (id now : ℕ) (fault : Option DriverError) (n : NewRun) (db : Db)
    → IsSound db
    → IsSound (Runs.create_run id now fault n db).1
unfolding Runs.create_run
create_run-IsSound id now (some e) n db v = v
create_run-IsSound id now none n db v =
    create_run_cases IsSound id now n db v (λ h. run_added db v _ h)

claim_run_none-IsSound :
    (id lease now : ℕ) (db : Db) → IsSound db → IsSound (Runs.claim_run none id lease now db).1
unfolding Runs.claim_run Runs.claimed_run
claim_run_none-IsSound id lease now db v =
    let deleted = delete-IsSound id _ (
      update-IsSound (picks id lease now db) (Runs.claimed_run now) (λ r. refl) (λ r. refl) db v) in
    ground (arith, deleted)

claim_run-IsSound :
    (fault : Fault) (id lease now : ℕ) (db : Db)
    → IsSound db
    → IsSound (Runs.claim_run fault id lease now db).1
claim_run-IsSound (some (stage, e)) id lease now db v =
    elim (claim_run_faulty stage e id lease now db) [
      | inl kept ↦ rw kept v
      | inr done ↦ rw done (claim_run_none-IsSound id lease now db v)
    ]
claim_run-IsSound none id lease now db v = claim_run_none-IsSound id lease now db v

finish_run-IsSound :
    (fault : Option DriverError) (id attempt : ℕ) (out : RunOutcome) (now : ℕ) (db : Db)
    → IsSound db
    → IsSound (Runs.finish_run fault id attempt out now db).1
unfolding Runs.finish_run
finish_run-IsSound (some e) id attempt out now db v = v
finish_run-IsSound none id attempt out now db v =
    update-IsSound (λ r. Runs.has_id id r && Runs.is_held attempt r) (Runs.finished_run now out)
      (λ r. refl) (λ r. refl) db v

create_incident-IsSound :
    (id now : ℕ) (fault : Option DriverError) (n : NewIncident) (db : Db)
    → IsSound db
    → IsSound (create_incident id now fault n db).1
unfolding create_incident
create_incident-IsSound id now (some e) n db v = v
create_incident-IsSound id now none n db v =
    let added = incident_added db v (new_incident id now n) in ground (arith, added)

runs-IsSound : (c : RunHistory.Call) (db : Db) → IsSound db → IsSound (RunHistory.apply c db)
unfolding RunHistory.apply
runs-IsSound (RunHistory.creates id now fault n) db v = create_run-IsSound id now fault n db v
runs-IsSound (RunHistory.claims fault id lease now) db v = claim_run-IsSound fault id lease now db v
runs-IsSound (RunHistory.finishes fault id attempt out now) db v =
    finish_run-IsSound fault id attempt out now db v

documents-IsSound :
    (c : DocumentHistory.Call) (db : Db) → IsSound db → IsSound (DocumentHistory.apply c db)
unfolding DocumentHistory.apply Documents.claim_document Documents.mark_document_ready
    Documents.mark_document_failed Documents.claimed_document Documents.ready_document
    Documents.failed_document
documents-IsSound (DocumentHistory.creates now fault n) db v =
    create_cases IsSound now fault n db v (λ id.
      documents_kept db v _
        (Keeps-append Documents.has_id db.documents (Documents.new_document id now n ∷ [])))
documents-IsSound (DocumentHistory.claims (some e) id lease now) db v = v
documents-IsSound (DocumentHistory.claims none id lease now) db v =
    documents_updated db v _ _ (λ d. refl)
documents-IsSound (DocumentHistory.readies (some e) id chunks now) db v = v
documents-IsSound (DocumentHistory.readies none id chunks now) db v =
    documents_updated db v _ _ (λ d. refl)
documents-IsSound (DocumentHistory.fails (some e) id reason now) db v = v
documents-IsSound (DocumentHistory.fails none id reason now) db v =
    documents_updated db v _ _ (λ d. refl)

change-IsSound : (c : Change) (db : Db) → IsSound db → IsSound (change c db)
unfolding change
change-IsSound (on_incidents id now fault n) db v = create_incident-IsSound id now fault n db v
change-IsSound (on_runs c) db v = runs-IsSound c db v
change-IsSound (on_documents c) db v = documents-IsSound c db v
change-IsSound (on_steps id now fault n) db v =
    create_step_cases (λ x. IsSound x.1) id now fault n db (λ k. v) (step_added db v _)
change-IsSound (on_calls id now fault n) db v =
    create_tool_call_cases (λ x. IsSound x.1) id now fault n db (λ k. v) (call_added db v _)
change-IsSound (on_evidence id now fault n) db v =
    create_evidence_cases (λ x. IsSound x.1) id now fault n db (λ k. v) (evidence_added db v _)

-- Whatever is created, claimed, finished and recorded, in any order and with any faults, no row ever
-- names a row that is not there, though a claim deletes steps, and no run has two steps of one number,
-- if the database starts so.
pub changes-IsSound : (cs : List Change) (db : Db) → IsSound db → IsSound (changes cs db)
unfolding changes
changes-IsSound [] db v = v
changes-IsSound (c ∷ cs) db v = changes-IsSound cs (change c db) (change-IsSound c db v)
