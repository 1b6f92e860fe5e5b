-- ===== src/Tests/Ingestion.antt =====
-- internal/ingest/handler.go on the message of one document.
use incident_diag.Base.{false, ◌≡◌, refl, List, [], ◌∷◌, ◌++◌, none, some, length}
use incident_diag.Text.{codes}
use incident_diag.Store.Table.{find, update_where}
use incident_diag.Store.Rows.{Db, Document}
use incident_diag.Store.Documents.{has_id, claimed_document, claim_document}
use incident_diag.Agent.Types.{returns}
use incident_diag.Ingest.Handler.{IngestEnv, Indexed, document, ingest, handle}
use incident_diag.Ingest.Handler.Settled.{calm, IsSettled, handle_settles}
use incident_diag.Ingest.Handler.Atomic.{IsIndex, IsAtomic, ingest-IsAtomic}
use incident_diag.Tests.Documents.{failed_once, one_document}

-- The world is the search index, which holds one document.
abbrev env : IngestEnv
env = record {
  World = List Indexed;
  read_file = λ d w. (returns (codes "restart the pool"), w);
  max_bytes = 100;
  sections = λ format raw. returns (
      record { level = 0; title = []; path = []; units = record { text = raw; tight = false } ∷ [] }
      ∷ []);
  estimate = length;
  target_tokens = 400;
  max_per_document = 10;
  embed = λ texts w. (returns (length texts), w);
  delete_by_document = λ id w. (none, []);
  index_chunks = λ cs w. (none, w ++ cs);
  kind_text = λ k. [];
  chunk_error_text = λ e. [];
  to_valid_utf8 = λ s. s;
}

env-IsIndex : IsIndex env 5 (λ w. w)
env-IsIndex = record {
  read_keeps = λ d w. refl;
  embed_keeps = λ texts w. refl;
  delete_clears = λ w h. refl;
  index_adds = λ d chunks w same empty h. rw empty refl;
}

ingest-IsAtomic_example :
    let (out, w) = ingest env 5 none one_document [] in
    IsAtomic env 5 (λ w. w) env-IsIndex none one_document [] out w
ingest-IsAtomic_example = ingest-IsAtomic env 5 (λ w. w) env-IsIndex none one_document []

abbrev unchanged : Db → Db
unchanged db = db

handle_settles_example :
    let handled = handle env unchanged (calm 50 120 130) (document 5) one_document [] in
    let (out, w) = ingest env 5 none (claim_document none 5 50 120 one_document).1 [] in
    (handled.error ≡ none)
    × ((row : Document) × ((find (has_id 5) handled.db.documents ≡ some row)
          × IsSettled env 130 out (claimed_document 120 failed_once) row))
    × (handled.world ≡ w)
unfolding find claim_document claimed_document update_where
handle_settles_example =
    handle_settles env unchanged 5 50 120 130 one_document failed_once []
      (claimed_document 120 failed_once) refl refl refl refl
