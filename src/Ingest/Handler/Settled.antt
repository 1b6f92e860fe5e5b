-- ===== src/Ingest/Handler/Settled.antt =====
-- How a claimed document ends.
use incident_diag.Base.{
  ℕ, ◌≤◌, ◌<◌, ◌≡◌, ◌⊎◌, inl, inr, refl, ◌∙◌, Bool, true, ◌&&◌, [], ◌∷◌, ◌++◌, none, some, arith,
  Bytes, length, take, leb, leb→le, Bool-cases,
}
use incident_diag.Store.Errors.{ok}
use incident_diag.Store.Table.{find, find-update_where, find-any, find_passes}
use incident_diag.Store.Rows.{Db, Document, DocumentStatus}
use incident_diag.Store.Documents.{
  has_id, is_claimable, is_processing, ready_document, failed_document, claim_document,
  mark_document_ready, mark_document_failed,
}
use incident_diag.Store.Documents.Claim.{claim_document_takes}
use incident_diag.Agent.Types.{Outcome, returns, fails}
use incident_diag.Ingest.Handler.{
  IngestEnv, document, Conditions, ingest, truncate, max_failure_reason, mark_failed, after_ingest,
  process, after_claim, error_of, handle,
}

-- No statement fails.
abbrev pub calm : ℕ → ℕ → ℕ → Conditions
calm lease claimed_at written_at = record {
  lease = lease;
  claimed_at = claimed_at;
  written_at = written_at;
  claim_fault = none;
  refused_fault = none;
  row_fault = none;
  write_fault = none;
}

-- The row that an outcome of the work turns a PROCESSING row into.
abbrev pub settled : IngestEnv → ℕ → Outcome ℕ → Document → Document
settled env now (returns n) d = ready_document now n d
settled env now (fails e) d = failed_document now (truncate env e max_failure_reason) d

-- A reason of failure as the row holds it: whole, or its first thousand bytes, without what is not
-- UTF-8, and an ellipsis.
abbrev pub IsReason : IngestEnv → Bytes → Bytes → Type 0
IsReason env e text =
    ((length e ≤ 1000) × (text ≡ e))
    ⊎ ((1000 < length e)
        × (text ≡ env.to_valid_utf8 (take 1000 e) ++ (0xe2 ∷ (0x80 ∷ (0xa6 ∷ [])))))

-- The columns of a document that its processing leaves.
abbrev pub IsSameDocument : Document → Document → Type 0
IsSameDocument d d' =
    (d'.id ≡ d.id)
    × (d'.filename ≡ d.filename)
    × (d'.storage_path ≡ d.storage_path)
    × (d'.format ≡ d.format)
    × (d'.size_bytes ≡ d.size_bytes)
    × (d'.content_sha256 ≡ d.content_sha256)
    × (d'.service ≡ d.service)
    × (d'.document_type ≡ d.document_type)
    × (d'.attempts ≡ d.attempts)
    × (d'.processing_started_at ≡ d.processing_started_at)
    × (d'.created_at ≡ d.created_at)

-- The second row is the first one, settled by an outcome of the work.
abbrev pub IsSettled : IngestEnv → ℕ → Outcome ℕ → Document → Document → Type 0
IsSettled env now (returns n) d d' =
    IsSameDocument d d'
    × (d'.status ≡ DocumentStatus.ready)
    × (d'.chunk_count ≡ n)
    × (d'.failure_reason ≡ none)
    × (d'.updated_at ≡ now)
IsSettled env now (fails e) d d' =
    IsSameDocument d d'
    × (d'.status ≡ DocumentStatus.failed)
    × (d'.chunk_count ≡ d.chunk_count)
    × ((text : Bytes) × ((d'.failure_reason ≡ some text) × IsReason env e text))
    × (d'.updated_at ≡ now)

truncate-IsReason : (env : IngestEnv) (e : Bytes) → IsReason env e (truncate env e 1000)
unfolding truncate
truncate-IsReason env e = elim (Bool-cases (leb (length e) 1000)) [
  | inl h ↦ rw h (inl (leb→le _ _ h, refl))
  | inr h ↦ rw h (inr (ground arith, refl))
]

settled-IsSettled :
    (env : IngestEnv) (now : ℕ) (out : Outcome ℕ) (d : Document)
    → IsSettled env now out d (settled env now out d)
unfolding ready_document failed_document
settled-IsSettled env now (returns n) d =
    ((refl, refl, refl, refl, refl, refl, refl, refl, refl, refl, refl), refl, refl, refl, refl)
settled-IsSettled env now (fails e) d = (
  (refl, refl, refl, refl, refl, refl, refl, refl, refl, refl, refl),
  refl,
  refl,
  (truncate env e 1000, (refl, truncate-IsReason env e)),
  refl,
)

-- One terminal write on a PROCESSING row.
module _ (id now : ℕ) (db : Db) (d : Document) (e : find (has_id id) db.documents ≡ some d)
    (h : is_processing d.status ≡ true) where
  abbrev is_open : Document → Bool
  is_open y = has_id id y && is_processing y.status

  opened : is_open d ≡ true
  opened = ground (arith, find_passes (has_id id) db.documents d e)

  mark_document_ready_writes :
      (n : ℕ)
      → let (result, after) = mark_document_ready none id n now db in
        (result ≡ ok true) × (find (has_id id) after.documents ≡ some (ready_document now n d))
  unfolding mark_document_ready ready_document
  mark_document_ready_writes n = (
    rw (find-any is_open (has_id id) db.documents d e opened) refl,
    find-update_where (has_id id) is_open (ready_document now n) db.documents d (λ y. refl) e
        ∙ rw opened refl,
  )

  mark_document_failed_writes :
      (reason : Bytes)
      → let (result, after) = mark_document_failed none id reason now db in
        (result ≡ ok true)
        × (find (has_id id) after.documents ≡ some (failed_document now reason d))
  unfolding mark_document_failed failed_document
  mark_document_failed_writes reason = (
    rw (find-any is_open (has_id id) db.documents d e opened) refl,
    find-update_where (has_id id) is_open (failed_document now reason) db.documents d (λ y. refl) e
        ∙ rw opened refl,
  )

module _ (env : IngestEnv) (meanwhile : Db → Db) (id lease now later : ℕ) (db : Db) (d : Document)
    (w : env.World) where
  after_ingest_settles :
      (out : Outcome ℕ) (db' : Db) (d' : Document) (w' : env.World)
      → find (has_id id) db'.documents ≡ some d'
      → is_processing d'.status ≡ true
      → let handled = after_ingest env meanwhile (calm lease now later) id out db' w' in
        (handled.error ≡ none)
        × (find (has_id id) handled.db.documents ≡ some (settled env later out d'))
        × (handled.world ≡ w')
  unfolding after_ingest mark_failed error_of
  after_ingest_settles (returns n) db' d' w' e h =
      let (written, row) = mark_document_ready_writes id later db' d' e h n in
      (rw written refl, row, refl)
  after_ingest_settles (fails x) db' d' w' e h =
      let (written, row) =
        mark_document_failed_writes id later db' d' e h (truncate env x max_failure_reason) in
      (rw written refl, row, refl)

  -- A message for a document that can be claimed, where no statement fails and the row is still
  -- PROCESSING behind the work, settles it: Handle returns no error, and the row is READY with the number
  -- of chunks that the work reports and no reason of failure, or FAILED with the reason of the work, cut
  -- to the limit; its other columns but the stamp are as they were.
  pub handle_settles :
      (d' : Document)
      → find (has_id id) db.documents ≡ some d
      → is_claimable lease now d ≡ true
      → find (has_id id) (meanwhile (claim_document none id lease now db).1).documents ≡ some d'
      → is_processing d'.status ≡ true
      → let handled = handle env meanwhile (calm lease now later) (document id) db w in
        let (out, w') = ingest env id none (claim_document none id lease now db).1 w in
        (handled.error ≡ none)
        × ((row : Document) × ((find (has_id id) handled.db.documents ≡ some row)
              × IsSettled env later out d' row))
        × (handled.world ≡ w')
  unfolding handle after_claim process
  handle_settles d' e h found held =
      let claimed = (claim_document none id lease now db).1 in
      let out = (ingest env id none claimed w).0 in
      let (done, row, world) =
        after_ingest_settles out (meanwhile claimed) d' (ingest env id none claimed w).1 found
          held in
      rw ((claim_document_takes id lease now db d e h).0)
        (done, (settled env later out d', (row, settled-IsSettled env later out d')), world)
