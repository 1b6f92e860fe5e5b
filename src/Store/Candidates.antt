-- ===== src/Store/Candidates.antt =====
-- internal/store/reconcile.go: the queries for the rows that a sweep looks at.
pub mod Order
use incident_diag.Base.{
  ℕ, zero, suc, ◌+◌, Bool, true, false, ◌&&◌, List, [], ◌∷◌, ◌++◌, map, Option, none, some, ltb,
  leb, if◌then◌else◌, filter, take,
}
use incident_diag.Store.Rows.{Db, Run, RunStatus, Document, DocumentStatus}
use incident_diag.Store.Runs.{is_before, is_pending, is_running}
use incident_diag.Store.Documents.{is_processing}
use Order.{order_by}

pub data Category : Type 0 where
  never_enqueued abandoned retryable : Category

-- store.ReconcilePolicy. Durations are counts of microseconds.
pub record ReconcilePolicy : Type 0 where
  pub pending_after : ℕ
  pub lease : ℕ
  pub max_attempts : ℕ
  pub min_backoff : ℕ

-- store.ReconcileCandidate, over the statuses of either table.
pub record Candidate (S : Type 0) : Type 0 where
  pub id : ℕ
  pub category : Category
  pub status : S
  pub attempts : ℕ
  pub updated_at : ℕ
  pub processing_started_at : Option ℕ

abbrev pub is_new : DocumentStatus → Bool
is_new DocumentStatus.pending = true
is_new DocumentStatus.processing = false
is_new DocumentStatus.ready = false
is_new DocumentStatus.failed = false

abbrev pub is_failed : DocumentStatus → Bool
is_failed DocumentStatus.failed = true
is_failed DocumentStatus.pending = false
is_failed DocumentStatus.processing = false
is_failed DocumentStatus.ready = false

-- The WHERE clause of each category, at the time that the query binds.
unfoldable pub document_where : Category → ReconcilePolicy → ℕ → Document → Bool
document_where Category.never_enqueued p t d =
    is_new d.status && ltb (d.updated_at + p.pending_after) t
document_where Category.abandoned p t d =
    is_processing d.status && is_before d.processing_started_at p.lease t
document_where Category.retryable p t d =
    is_failed d.status && (ltb d.attempts p.max_attempts && ltb (d.updated_at + p.min_backoff) t)

-- Runs have no retryable category.
unfoldable pub run_where : Category → ReconcilePolicy → ℕ → Run → Bool
run_where Category.never_enqueued p t r =
    is_pending r.status && ltb (r.updated_at + p.pending_after) t
run_where Category.abandoned p t r =
    is_running r.status && (is_before r.started_at p.lease t && ltb r.attempts p.max_attempts)
run_where Category.retryable p t r = false

unfoldable pub document_candidate : Category → Document → Candidate DocumentStatus
document_candidate category d = record {
  id = d.id;
  category = category;
  status = d.status;
  attempts = d.attempts;
  updated_at = d.updated_at;
  processing_started_at = d.processing_started_at;
}

unfoldable pub run_candidate : Category → Run → Candidate RunStatus
run_candidate category r = record {
  id = r.id;
  category = category;
  status = r.status;
  attempts = r.attempts;
  updated_at = r.updated_at;
  processing_started_at = r.started_at;
}

-- reconcileQuery: `ORDER BY id LIMIT ?`.
unfoldable pub reconcile_query :
    Category → ReconcilePolicy → ℕ → ℕ → Db → List (Candidate DocumentStatus)
reconcile_query category p limit t db =
    map (document_candidate category)
      (take limit (order_by (λ d. d.id) (filter (document_where category p t) db.documents)))

unfoldable pub run_reconcile_query :
    Category → ReconcilePolicy → ℕ → ℕ → Db → List (Candidate RunStatus)
run_reconcile_query category p limit t db =
    map (run_candidate category)
      (take limit (order_by (λ r. r.id) (filter (run_where category p t) db.runs)))

unfoldable pub list_documents_to_reconcile :
    ReconcilePolicy → ℕ → ℕ → Db → List (Candidate DocumentStatus)
unfolding reconcile_query
list_documents_to_reconcile p limit t db =
    if ltb limit 1
    then []
    else reconcile_query Category.never_enqueued p limit t db
      ++ (reconcile_query Category.abandoned p limit t db
          ++ reconcile_query Category.retryable p limit t db)

unfoldable pub list_runs_to_reconcile : ReconcilePolicy → ℕ → ℕ → Db → List (Candidate RunStatus)
unfolding run_reconcile_query
list_runs_to_reconcile p limit t db =
    if ltb limit 1
    then []
    else run_reconcile_query Category.never_enqueued p limit t db
      ++ run_reconcile_query Category.abandoned p limit t db
