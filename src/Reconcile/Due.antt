-- ===== src/Reconcile/Due.antt =====
-- The policy against the claim and against the query: a row that is due can be claimed, and a row
-- that is due is listed.
use incident_diag.Base.{
  ℕ, zero, suc, ◌+◌, ◌*◌, ◌≤◌, ◌≡◌, refl, Bool, true, false, ◌&&◌, ltb, List, [], ◌∷◌, ◌++◌, map,
  none, some, ◌==◌, arith, count, count-append, filter, length, length-filter, take, ap,
}
use incident_diag.Store.Errors.{ok}
use incident_diag.Store.Table.{find}
use incident_diag.Store.Rows.{Db, Run, Document, DocumentStatus}
use incident_diag.Store.Runs
use incident_diag.Store.Runs.{claim_run, claimed_run, is_running}
use incident_diag.Store.Runs.Claim.{claim_run_marks}
use incident_diag.Store.Documents
use incident_diag.Store.Documents.{claim_document}
use incident_diag.Store.Documents.Claim.{claim_document_takes}
use incident_diag.Store.Candidates.{
  Category, Candidate, document_where, document_candidate, run_candidate, reconcile_query,
  list_documents_to_reconcile,
}
use incident_diag.Store.Candidates.Order.{order_by, count-order_by, length-order_by}
use incident_diag.Reconcile.{
  Policy, minute, backoff, min_backoff, store_policy, run_policy, due_document, due_run,
}

-- The wait after `n` attempts is at least the wait that the query filters by and at most five minutes,
-- and it is no shorter than the wait after fewer attempts.
pub backoff_bounds :
    (m n : ℕ)
    → m ≤ n
    → (min_backoff ≤ backoff n) × (backoff n ≤ 5 * minute) × (backoff m ≤ backoff n)
unfolding backoff min_backoff
backoff_bounds m n h = ground arith

due_document-is_claimable :
    (p : Policy) (k : Category) (d : Document) (at t : ℕ)
    → (due_document p (document_candidate k d) at).1 ≡ true
    → at ≤ t
    → Documents.is_claimable p.lease t d ≡ true
unfolding due_document document_candidate
due_document-is_claimable p k d at t h le = ground arith

due_run-is_claimable :
    (p : Policy) (k : Category) (r : Run) (at t : ℕ)
    → (due_run p (run_candidate k r) at).1 ≡ true
    → at ≤ t
    → Runs.is_claimable p.lease t r ≡ true
unfolding due_run run_candidate
due_run-is_claimable p k r at t h le = ground arith

-- A document that the sweep finds due at one time is claimed, under the same lease, by a claim at that
-- time or later that finds the row as the sweep saw it.
pub due_document_claimed :
    (p : Policy) (k : Category) (id at t : ℕ) (db : Db) (d : Document)
    → find (Documents.has_id id) db.documents ≡ some d
    → (due_document p (document_candidate k d) at).1 ≡ true
    → at ≤ t
    → (claim_document none id p.lease t db).0 ≡ ok true
due_document_claimed p k id at t db d e h le =
    (claim_document_takes id p.lease t db d e (due_document-is_claimable p k d at t h le)).0

-- A run that the sweep finds due at one time is claimed, under the run-side lease, by a claim at that
-- time or later that finds the row as the sweep saw it; and if it was RUNNING, it has then been claimed
-- no more often than the limit, this claim included.
pub due_run_claimed :
    (p : Policy) (lease limit : ℕ) (k : Category) (id at t : ℕ) (db : Db) (r : Run)
    → find (Runs.has_id id) db.runs ≡ some r
    → (due_run (run_policy p lease limit) (run_candidate k r) at).1 ≡ true
    → at ≤ t
    → ((claim_run none id lease t db).0 ≡ ok true)
      × ((is_running r.status && ltb limit (claimed_run t r).attempts) ≡ false)
unfolding run_policy
due_run_claimed p lease limit k id at t db r e h le = (
  (claim_run_marks id lease t db r e
      (due_run-is_claimable (run_policy p lease limit) k r at t h le)).0,
  (unfold due_run run_candidate claimed_run in ground arith),
)

min_backoff-le : (n : ℕ) → min_backoff ≤ backoff n
min_backoff-le n = (backoff_bounds n n (omega arith)).0

due_document_where :
    (p : Policy) (k c : Category) (d : Document) (at : ℕ)
    → due_document p (document_candidate k d) at ≡ (some c, true)
    → document_where c (store_policy p) at d ≡ true
unfolding due_document document_candidate document_where store_policy
due_document_where p k c d at h = ground (arith, min_backoff-le d.attempts)

take_all {ℓ} : {A : Type ℓ} (n : ℕ) (xs : List A) → length xs ≤ n → take n xs ≡ xs
take_all zero [] h = refl
take_all zero (x ∷ xs) h = absurd (omega arith)
take_all (suc n) [] h = refl
take_all (suc n) (x ∷ xs) h = ap (◌∷◌ x) (take_all n xs (omega arith))

count-filter_pos {ℓ} :
    {A : Type ℓ} (q p : A → Bool) (xs : List A) (x : A)
    → find q xs ≡ some x
    → p x ≡ true
    → 1 ≤ count q (filter p xs)
unfolding find
count-filter_pos q p [] x e h = cc
count-filter_pos q p (y ∷ xs) x e h = ground (arith, count-filter_pos q p xs x)

-- A candidate of a row, under a category.
abbrev pub is_category : Category → Category → Bool
is_category Category.never_enqueued Category.never_enqueued = true
is_category Category.abandoned Category.abandoned = true
is_category Category.retryable Category.retryable = true
is_category _ _ = false

abbrev pub is_under : ℕ → Category → Candidate DocumentStatus → Bool
is_under id c x = x.id == id && is_category c x.category

is_category-same : (c : Category) → is_category c c ≡ true
is_category-same Category.never_enqueued = refl
is_category-same Category.abandoned = refl
is_category-same Category.retryable = refl

count-candidates :
    (id : ℕ) (c : Category) (ds : List Document)
    → count (is_under id c) (map (document_candidate c) ds) ≡ count (Documents.has_id id) ds
unfolding document_candidate
count-candidates id c [] = refl
count-candidates id c (d ∷ ds) = ground (arith, count-candidates id c ds, is_category-same c)

-- A query whose rows fit its limit returns every row that matches.
query_lists :
    (c : Category) (p : Policy) (limit at id : ℕ) (db : Db) (d : Document)
    → find (Documents.has_id id) db.documents ≡ some d
    → document_where c (store_policy p) at d ≡ true
    → count (document_where c (store_policy p) at) db.documents ≤ limit
    → 1 ≤ count (is_under id c) (reconcile_query c (store_policy p) limit at db)
unfolding reconcile_query
query_lists c p limit at id db d e h fits =
    let test = document_where c (store_policy p) at in
    let rows = order_by (λ (x : Document). x.id) (filter test db.documents) in
    let whole : length rows ≤ limit = omega (
      arith,
      length-order_by (λ (x : Document). x.id) (filter test db.documents),
      length-filter test db.documents,
    ) in
    rw (take_all limit rows whole) (
      omega (
        arith,
        count-candidates id c rows,
        count-order_by (λ (x : Document). x.id) (Documents.has_id id) (filter test db.documents),
        count-filter_pos (Documents.has_id id) test db.documents d e h,
      ))

module _ (p : Policy) (limit at id : ℕ) (db : Db) (k : Category) where
  abbrev listed : Category → ℕ
  listed c = count (is_under id k) (reconcile_query c (store_policy p) limit at db)

  count-list_documents :
      1 ≤ limit
      → count (is_under id k) (list_documents_to_reconcile (store_policy p) limit at db)
        ≡ listed Category.never_enqueued + listed Category.abandoned + listed Category.retryable
  unfolding list_documents_to_reconcile
  count-list_documents pos = ground (
    arith,
    count-append (is_under id k) (query Category.never_enqueued)
        (query Category.abandoned ++ query Category.retryable),
    count-append (is_under id k) (query Category.abandoned) (query Category.retryable),
  )
    where
      query : Category → List (Candidate DocumentStatus)
      query c = reconcile_query c (store_policy p) limit at db

  listed-le-count :
      (c : Category)
      → 1 ≤ limit
      → listed c ≤ count (is_under id k) (list_documents_to_reconcile (store_policy p) limit at db)
  listed-le-count Category.never_enqueued pos = omega (arith, count-list_documents pos)
  listed-le-count Category.abandoned pos = omega (arith, count-list_documents pos)
  listed-le-count Category.retryable pos = omega (arith, count-list_documents pos)

-- A row that is due stays due, under its category.
due_document_later :
    (p : Policy) (k c : Category) (d : Document) (at t : ℕ)
    → due_document p (document_candidate k d) at ≡ (some c, true)
    → at ≤ t
    → due_document p (document_candidate c d) t ≡ (some c, true)
unfolding due_document document_candidate
due_document_later p k c d at t h le = ground arith

-- The query narrows the scan and loses nothing: a document that is due at the time of the query is among
-- the rows that it returns, under the category that the policy gives it, if the rows of that category
-- fit the batch; and the policy, which looks at that row then or later, finds it due under the same
-- category.
pub due_document_listed :
    (p : Policy) (k c : Category) (limit at id : ℕ) (db : Db) (d : Document)
    → find (Documents.has_id id) db.documents ≡ some d
    → due_document p (document_candidate k d) at ≡ (some c, true)
    → count (document_where c (store_policy p) at) db.documents ≤ limit
    → 1 ≤ limit
    → (1 ≤ count (is_under id c) (list_documents_to_reconcile (store_policy p) limit at db))
      × ((t : ℕ) → at ≤ t → due_document p (document_candidate c d) t ≡ (some c, true))
due_document_listed p k c limit at id db d e h fits pos = (
  omega (
    arith,
    query_lists c p limit at id db d e (due_document_where p k c d at h) fits,
    listed-le-count p limit at id db c c pos,
  ),
  (λ t le. due_document_later p k c d at t h le),
)
