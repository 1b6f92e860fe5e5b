-- ===== src/Ingest/Handler.antt =====
-- internal/ingest/handler.go: what the worker does with one message of documents.ingest.v1.
pub mod Settled
pub mod Atomic
use incident_diag.Base.{
  ℕ, Bool, true, false, List, [], ◌∷◌, ◌++◌, map, Option, none, some, ltb, leb, ◌==◌, if◌then◌else◌,
  length, take, Bytes, not, inl, inr, ◌⊎◌,
}
use incident_diag.Text.{codes, decimal}
use incident_diag.Store.Errors.{Result, ok, err, Kind, not_found, DriverError}
use incident_diag.Store.Rows.{Db, Document, DocumentType, Format}
use incident_diag.Store.Documents.{
  claim_document, get_document, mark_document_ready, mark_document_failed,
}
use incident_diag.Agent.Types.{Outcome, returns, fails}
use incident_diag.Ingest.Sections.{Section}
use incident_diag.Ingest.Chunk.{Chunk, ChunkError, chunk_sections}

-- search.Chunk, without the vector and the stamp, and without ChunkID, which is made of the first two.
pub record Indexed : Type 0 where
  pub document_id : ℕ
  pub chunk_index : ℕ
  pub service : Option Bytes
  pub document_type : DocumentType
  pub source : Bytes
  pub heading_path : Bytes
  pub content : Bytes

-- The files, the parsers, the embedder and the search index: arbitrary functions over a world. An error
-- is its text.
pub record IngestEnv : Type 1 where
  pub World : Type 0
  -- At most one byte more than the limit of an upload.
  pub read_file : Document → World → Outcome Bytes × World
  pub max_bytes : ℕ
  -- normalize and the parser of a format, or its error.
  pub sections : Format → Bytes → Outcome (List Section)
  pub estimate : Bytes → ℕ
  pub target_tokens : ℕ
  pub max_per_document : ℕ
  -- The number of vectors that are returned for the texts.
  pub embed : List Bytes → World → Outcome ℕ × World
  pub delete_by_document : ℕ → World → Option Bytes × World
  pub index_chunks : List Indexed → World → Option Bytes × World
  pub kind_text : Kind → Bytes
  pub chunk_error_text : ChunkError → Bytes
  -- strings.ToValidUTF8 with nothing for an invalid byte.
  pub to_valid_utf8 : Bytes → Bytes

abbrev pub max_failure_reason : ℕ
max_failure_reason = 1000

unfoldable pub indexed_chunk : Document → Chunk → Indexed
indexed_chunk d c = record {
  document_id = d.id;
  chunk_index = c.index;
  service = d.service;
  document_type = d.document_type;
  source = d.filename;
  heading_path = c.heading_path;
  content = c.content;
}

module _ (env : IngestEnv) where
  open env use {World}

  -- cleanup: its own failure is logged and no more.
  after_index : Document → ℕ → Option Bytes → World → Outcome ℕ × World
  after_index d n none w = (returns n, w)
  after_index d n (some e) w = (fails e, (env.delete_by_document d.id w).1)

  after_delete : Document → List Chunk → Option Bytes → World → Outcome ℕ × World
  unfolding after_index
  after_delete d chunks (some e) w = (fails e, w)
  after_delete d chunks none w =
      let (failure, w') = env.index_chunks (map (indexed_chunk d) chunks) w in
      after_index d (length chunks) failure w'

  replace_chunks : Document → List Chunk → World → Outcome ℕ × World
  unfolding after_delete
  replace_chunks d chunks w =
      let (failure, w') = env.delete_by_document d.id w in after_delete d chunks failure w'

  with_vectors : Document → List Chunk → Outcome ℕ → World → Outcome ℕ × World
  unfolding replace_chunks
  with_vectors d chunks (fails e) w = (fails e, w)
  with_vectors d chunks (returns vectors) w =
      if vectors == length chunks then replace_chunks d chunks w else (
        fails (
            codes "the embedder returned "
            ++ (decimal vectors
                ++ (codes " vectors for " ++ (decimal (length chunks) ++ codes " chunks")))),
        w,
      )

  with_chunks : Document → List Chunk ⊎ ChunkError → World → Outcome ℕ × World
  unfolding with_vectors
  with_chunks d (inr e) w = (fails (env.chunk_error_text e), w)
  with_chunks d (inl chunks) w =
      let (vectors, w') = env.embed (map (λ c. c.content) chunks) w in
      with_vectors d chunks vectors w'

  with_sections : Document → Outcome (List Section) → World → Outcome ℕ × World
  unfolding with_chunks chunk_sections
  with_sections d (fails e) w = (fails e, w)
  with_sections d (returns sections) w =
      with_chunks d (chunk_sections env.estimate env.target_tokens env.max_per_document sections) w

  -- The limit that the file was accepted under is checked again.
  with_file : Document → Outcome Bytes → World → Outcome ℕ × World
  unfolding with_sections
  with_file d (fails e) w = (fails e, w)
  with_file d (returns raw) w =
      if ltb env.max_bytes (length raw)
      then (
        fails (
            codes "the stored file is larger than the "
            ++ (decimal env.max_bytes ++ codes " byte upload limit")),
        w,
      )
      else with_sections d (env.sections d.format raw) w

  with_row : Result Document → World → Outcome ℕ × World
  unfolding with_file
  with_row (err k) w = (fails (codes "read the document row: " ++ env.kind_text k), w)
  with_row (ok d) w = let (raw, w') = env.read_file d w in with_file d raw w'

  -- Handler.ingest: how many chunks were indexed, or why none were.
  unfoldable pub ingest : ℕ → Option DriverError → Db → World → Outcome ℕ × World
  unfolding with_row
  ingest id fault db w = with_row (get_document id fault db) w

  -- truncate; the ellipsis is U+2026.
  unfoldable pub truncate : Bytes → ℕ → Bytes
  truncate s max =
      if leb (length s) max
      then s
      else env.to_valid_utf8 (take max s) ++ (0xe2 ∷ (0x80 ∷ (0xa6 ∷ [])))

-- What a record holds for the handler: a document, a document under a schema version that this build does
-- not know, or nothing that can be read.
pub data Message : Type 0 where
  document : ℕ → Message
  unknown_version : ℕ → Bytes → Message
  unreadable : Message

-- The lease, the clock's readings, and the driver error of each statement, if it has one.
pub record Conditions : Type 0 where
  pub lease : ℕ
  pub claimed_at : ℕ
  pub written_at : ℕ
  pub claim_fault : Option DriverError
  pub refused_fault : Option DriverError
  pub row_fault : Option DriverError
  pub write_fault : Option DriverError

-- The error that Handle returns, and what it leaves.
pub record Handled (W : Type 0) : Type 0 where
  pub error : Option Kind
  pub db : Db
  pub world : W

error_of : Result Bool → Option Kind
error_of (ok updated) = none
error_of (err k) = some k

explained : Result Document → Option Kind
explained (ok d) = none
explained (err Kind.not_found) = none
explained (err Kind.internal) = some Kind.internal
explained (err Kind.invalid) = some Kind.invalid
explained (err Kind.conflict) = some Kind.conflict
explained (err Kind.unavailable) = some Kind.unavailable

-- `meanwhile` is what other workers write while the document is prepared.
module _ (env : IngestEnv) (meanwhile : Db → Db) (c : Conditions) where
  open env use {World}

  -- markFailed.
  unfoldable pub mark_failed : ℕ → Bytes → Db → World → Handled World
  unfolding error_of truncate
  mark_failed id reason db w =
      let (failed, db') =
        mark_document_failed c.write_fault id (truncate env reason max_failure_reason) c.written_at
          db in
      record { error = error_of failed; db = db'; world = w }

  after_ingest : ℕ → Outcome ℕ → Db → World → Handled World
  unfolding mark_failed error_of
  after_ingest id (fails e) db w = mark_failed id e db w
  after_ingest id (returns n) db w =
      let (updated, db') = mark_document_ready c.write_fault id n c.written_at db in
      record { error = error_of updated; db = db'; world = w }

  -- Handler.process.
  unfoldable pub process : ℕ → Db → World → Handled World
  unfolding after_ingest
  process id db w =
      let (outcome, w') = ingest env id c.row_fault db w in
      after_ingest id outcome (meanwhile db) w'

  unfoldable pub explain_refused_claim : ℕ → Db → World → Handled World
  unfolding explained
  explain_refused_claim id db w = record {
    error = explained (get_document id c.refused_fault db);
    db = db;
    world = w;
  }

  -- What follows the claim, for work that is done when it is taken.
  after_claim : (Db → Handled World) → ℕ → Result Bool → Db → World → Handled World
  unfolding explain_refused_claim
  after_claim work id (err k) db w = record { error = some k; db = db; world = w }
  after_claim work id (ok false) db w = explain_refused_claim id db w
  after_claim work id (ok true) db w = work db

  -- Handler.Handle; a document under an unknown version is claimed only to be failed.
  unfoldable pub handle : Message → Db → World → Handled World
  unfolding after_claim process mark_failed
  handle unreadable db w = record { error = none; db = db; world = w }
  handle (unknown_version id e) db w =
      let (claimed, db') = claim_document c.claim_fault id c.lease c.claimed_at db in
      after_claim (λ db. mark_failed id (codes "unrecognized message: " ++ e) db w) id claimed db' w
  handle (document id) db w =
      let (claimed, db') = claim_document c.claim_fault id c.lease c.claimed_at db in
      after_claim (λ db. process id db w) id claimed db' w
