-- ===== src/Tests/Sweeps.antt =====
-- internal/reconcile on one document and one run.
use incident_diag.Base.{
  some, ℕ, ◌+◌, ◌*◌, ◌≤◌, ◌≡◌, refl, Bool, true, false, ◌&&◌, List, [], ◌∷◌, Option, none, count,
  length, ltb, arith,
}
use incident_diag.Store.Errors.{ok}
use incident_diag.Store.Table.{find}
use incident_diag.Store.Rows.{DocumentStatus}
use incident_diag.Store.Runs.{claim_run, claimed_run, is_running}
use incident_diag.Store.Candidates.{
  Category, Candidate, document_candidate, document_where, run_candidate,
  list_documents_to_reconcile,
}
use incident_diag.Reconcile.{
  Policy, minute, backoff, min_backoff, store_policy, run_policy, due_document, due_run, sweep,
  total,
}
use incident_diag.Reconcile.Due.{is_under, due_run_claimed, due_document_listed}
use incident_diag.Reconcile.Sweep.{sweep_lem, produce_each, accepted, due_ids}
use incident_diag.Tests.Documents.{failed_once, one_document}
use incident_diag.Tests.Runs.{running, running_db}

abbrev policy : Policy
policy = record {
  interval = minute;
  pending_after = minute;
  lease = 10 * minute;
  max_attempts = 5;
  batch = 100;
}

-- Two minutes after the failure: the first retry waits one.
abbrev later : ℕ
later = 2 * minute

due_document_listed_example :
    (1
      ≤ count
          (is_under 5 Category.retryable)
          (list_documents_to_reconcile (store_policy policy) 100 later one_document))
    × ((t : ℕ)
        → later ≤ t
        → due_document policy (document_candidate Category.retryable failed_once) t
          ≡ (some Category.retryable, true))
unfolding find due_document document_candidate document_where store_policy min_backoff backoff
due_document_listed_example =
    due_document_listed policy Category.retryable Category.retryable 100 later 5 one_document
      failed_once refl refl (omega arith) (omega arith)

due_run_claimed_example :
    ((claim_run none 1 minute later running_db).0 ≡ ok true)
    × ((is_running running.status && ltb 3 (claimed_run later running).attempts) ≡ false)
unfolding find due_run run_candidate run_policy
due_run_claimed_example =
    due_run_claimed policy minute 3 Category.abandoned 1 later later running_db running refl refl
      (omega arith)

-- A producer that refuses its third message and those after it. The world is the list of ids that it
-- was given.
produce : ℕ → List ℕ → Bool × List ℕ
produce id sent = (ltb (length sent) 2, id ∷ sent)

abbrev rows : List (Candidate DocumentStatus)
rows =
    document_candidate Category.retryable failed_once
    ∷ document_candidate Category.retryable (record failed_once { id = 6; attempts = 5 })
    ∷ document_candidate Category.retryable (record failed_once { id = 7 })
    ∷ document_candidate Category.retryable (record failed_once { id = 8 })
    ∷ []

abbrev due_later : Candidate DocumentStatus → Option Category × Bool
due_later c = due_document policy c later

sweep_lem_example :
    let (s, w) = sweep produce due_later rows [] in
    (w ≡ produce_each produce (due_ids produce due_later rows) [])
    × (total s ≡ accepted produce (due_ids produce due_later rows) [])
    × (total s + s.failed ≡ count (λ c. (due_later c).1) rows)
    × (s.candidates ≡ length rows)
sweep_lem_example = sweep_lem produce due_later rows []

-- Document 6 has no attempt left; the message of document 8 is refused.
swept : (sweep produce due_later rows []).1 ≡ 8 ∷ 7 ∷ 5 ∷ []
unfolding sweep due_document document_candidate backoff produce
swept = refl
