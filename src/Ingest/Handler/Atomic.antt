-- ===== src/Ingest/Handler/Atomic.antt =====
-- What the work on a document leaves in the search index.
use incident_diag.Base.{
  ℕ, ◌≡◌, ◌⊎◌, ◌≢◌, false, Option-cases, refl, sym, ap, ◌∙◌, List, [], map, Option, none, some,
  arith, Bytes, length, ltb, ◌==◌, Bool-cases, inl, inr,
}
use mathlib.Core.Path.{subst}
use incident_diag.Store.Errors.{Result, ok, err, DriverError}
use incident_diag.Store.Rows.{Db, Document}
use incident_diag.Store.Documents.{has_id, get_document}
use incident_diag.Store.Table.{find_passes}
use incident_diag.Agent.Types.{Outcome, returns, fails}
use incident_diag.Ingest.Sections.{Section}
use incident_diag.Ingest.Chunk.{Chunk, ChunkError, chunk_sections}
use incident_diag.Ingest.Handler.{
  IngestEnv, Indexed, indexed_chunk, ingest, after_index, after_delete, replace_chunks,
  with_vectors, with_chunks, with_sections, with_file, with_row,
}

-- What the search index promises of the chunks that it holds of a document: reading a file and embedding
-- leave them; a delete that succeeds removes them; a bulk request that succeeds adds what it was given,
-- where there were none.
pub record IsIndex (env : IngestEnv) (id : ℕ) (held : env.World → List Indexed) : Type 0 where
  pub read_keeps : (d : Document) (w : env.World) → held (env.read_file d w).1 ≡ held w
  pub embed_keeps : (texts : List Bytes) (w : env.World) → held (env.embed texts w).1 ≡ held w
  pub delete_clears :
      (w : env.World)
      → (env.delete_by_document id w).0 ≡ none
      → held (env.delete_by_document id w).1 ≡ []
  pub index_adds :
      (d : Document) (chunks : List Chunk) (w : env.World)
      → d.id ≡ id
      → held w ≡ []
      → (env.index_chunks (map (indexed_chunk d) chunks) w).0 ≡ none
      → held (env.index_chunks (map (indexed_chunk d) chunks) w).1 ≡ map (indexed_chunk d) chunks

module _ (env : IngestEnv) (id : ℕ) (held : env.World → List Indexed)
    (index : IsIndex env id held) where
  open index use {read_keeps, embed_keeps, delete_clears, index_adds}

  -- A chunk of a document as the index holds it.
  abbrev row : Document → Chunk → Indexed
  row d c = record {
    document_id = d.id;
    chunk_index = c.index;
    service = d.service;
    document_type = d.document_type;
    source = d.filename;
    heading_path = c.heading_path;
    content = c.content;
  }

  get_document-id :
      (fault : Option DriverError) (db : Db) (d : Document)
      → get_document id fault db ≡ ok d
      → d.id ≡ id
  unfolding get_document
  get_document-id (some x) db d e = cc
  get_document-id none db d e = ground (arith, find_passes (has_id id) db.documents d)

  module _ (fault : Option DriverError) (db : Db) (w : env.World) where
    -- The chunks of the document: its row was read, its file was read and is within the limit, and the
    -- sections of the file make these chunks.
    pub record Makes (d : Document) (chunks : List Chunk) : Type 0 where
      pub found : get_document id fault db ≡ ok d
      pub raw : Bytes
      pub raw_read : (env.read_file d w).0 ≡ returns raw
      pub fits : ltb env.max_bytes (length raw) ≡ false
      pub parts : List Section
      pub parsed : env.sections d.format raw ≡ returns parts
      pub chunked :
          chunk_sections env.estimate env.target_tokens env.max_per_document parts ≡ inl chunks

    -- The world behind the embedding of the chunks, behind the delete, and behind the bulk request.
    abbrev texts_of : List Chunk → List Bytes
    texts_of chunks = map (λ c. c.content) chunks

    abbrev pub embedded : Document → List Chunk → env.World
    embedded d chunks = (env.embed (texts_of chunks) (env.read_file d w).1).1

    abbrev pub emptied : Document → List Chunk → env.World
    emptied d chunks = (env.delete_by_document d.id (embedded d chunks)).1

    abbrev pub filled : Document → List Chunk → env.World
    filled d chunks = (env.index_chunks (map (row d) chunks) (emptied d chunks)).1

    -- The delete before the bulk request fails, or the one behind a bulk request that fails.
    abbrev pub DeleteFails : env.World → Type 0
    DeleteFails after =
        (d : Document) × (chunks : List Chunk) × (e : Bytes) × (Makes d chunks
          × ((env.delete_by_document d.id (embedded d chunks) ≡ (some e, after))
              ⊎ (((env.index_chunks (map (row d) chunks) (emptied d chunks)).0 ≢ none)
                  × (env.delete_by_document d.id (filled d chunks) ≡ (some e, after)))))

    abbrev pub IsAtomic : Outcome ℕ → env.World → Type 0
    IsAtomic (returns n) after =
        (d : Document) × (chunks : List Chunk) × (Makes d chunks
          × ((env.embed (texts_of chunks) (env.read_file d w).1).0 ≡ returns n)
          × (n ≡ length chunks)
          × (held after ≡ map (row d) chunks))
    IsAtomic (fails e) after = (held after ≡ held w) ⊎ ((held after ≡ []) ⊎ DeleteFails after)

    failing :
        (k : ℕ) (v : env.World) (e : Bytes)
        → (env.delete_by_document k v).0 ≡ some e
        → env.delete_by_document k v ≡ (some e, (env.delete_by_document k v).1)
    failing k v e h = ap (λ failure. (failure, (env.delete_by_document k v).1)) h

    module _ (d : Document) (chunks : List Chunk) (makes : Makes d chunks) (same : d.id ≡ id) where
      clears :
          (v : env.World)
          → (env.delete_by_document d.id v).0 ≡ none
          → held (env.delete_by_document d.id v).1 ≡ []
      clears v =
          subst
            (λ k. (env.delete_by_document k v).0 ≡ none → held (env.delete_by_document k v).1 ≡ [])
            (sym same) (delete_clears v)

      -- Behind a bulk request that failed: the cleanup clears, or fails itself.
      cleaned :
          (e : Bytes)
          → (env.index_chunks (map (row d) chunks) (emptied d chunks)).0 ≡ some e
          → IsAtomic (fails e) (env.delete_by_document d.id (filled d chunks)).1
      cleaned e h = elim (Option-cases (env.delete_by_document d.id (filled d chunks)).0) [
        | inl k ↦ inr (inl (clears (filled d chunks) k))
        | inr (x, k) ↦
            inr (inr (d, chunks, x, (makes, inr ((λ n. cc), failing d.id (filled d chunks) x k))))
      ]

      after_index-IsAtomic :
          (failure : Option Bytes)
          → (env.index_chunks (map (row d) chunks) (emptied d chunks)).0 ≡ failure
          → (env.embed (texts_of chunks) (env.read_file d w).1).0 ≡ returns (length chunks)
          → (env.delete_by_document d.id (embedded d chunks)).0 ≡ none
          → let (out, w') = after_index env d (length chunks) failure (filled d chunks) in
            IsAtomic out w'
      unfolding after_index indexed_chunk
      after_index-IsAtomic none h vectors empty = (
        d,
        chunks,
        (
          makes,
          vectors,
          refl,
          index_adds d chunks (emptied d chunks) same (clears (embedded d chunks) empty) h,
        ),
      )
      after_index-IsAtomic (some e) h vectors empty = cleaned e h

      after_delete-IsAtomic :
          (failure : Option Bytes)
          → (env.delete_by_document d.id (embedded d chunks)).0 ≡ failure
          → (env.embed (texts_of chunks) (env.read_file d w).1).0 ≡ returns (length chunks)
          → let (out, w') = after_delete env d chunks failure (emptied d chunks) in IsAtomic out w'
      unfolding after_delete indexed_chunk
      after_delete-IsAtomic (some e) h vectors =
          inr (inr (d, chunks, e, (makes, inl (failing d.id (embedded d chunks) e h))))
      after_delete-IsAtomic none h vectors = after_index-IsAtomic _ refl vectors h

      kept : held (embedded d chunks) ≡ held w
      kept = embed_keeps (texts_of chunks) (env.read_file d w).1 ∙ read_keeps d w

      with_vectors-IsAtomic :
          (vectors : Outcome ℕ)
          → (env.embed (texts_of chunks) (env.read_file d w).1).0 ≡ vectors
          → let (out, w') = with_vectors env d chunks vectors (embedded d chunks) in IsAtomic out w'
      unfolding with_vectors replace_chunks
      with_vectors-IsAtomic (fails e) h = inl kept
      with_vectors-IsAtomic (returns n) h = elim (Bool-cases (n == length chunks)) [
        | inl e ↦ rw e (after_delete-IsAtomic _ refl (h ∙ ap returns (ground arith)))
        | inr e ↦ rw e (inl kept)
      ]

    module _ (d : Document) (found : get_document id fault db ≡ ok d) (same : d.id ≡ id) where
      with_chunks-IsAtomic :
          (raw : Bytes) (parts : List Section) (chunks : List Chunk ⊎ ChunkError)
          → (env.read_file d w).0 ≡ returns raw
          → ltb env.max_bytes (length raw) ≡ false
          → env.sections d.format raw ≡ returns parts
          → chunk_sections env.estimate env.target_tokens env.max_per_document parts ≡ chunks
          → let (out, w') = with_chunks env d chunks (env.read_file d w).1 in IsAtomic out w'
      unfolding with_chunks
      with_chunks-IsAtomic raw parts (inr e) read fits parsed chunked = inl (read_keeps d w)
      with_chunks-IsAtomic raw parts (inl chunks) read fits parsed chunked =
          with_vectors-IsAtomic d chunks
            (record {
              found = found;
              raw = raw;
              raw_read = read;
              fits = fits;
              parts = parts;
              parsed = parsed;
              chunked = chunked;
            })
            same _ refl

      with_sections-IsAtomic :
          (raw : Bytes) (sections : Outcome (List Section))
          → (env.read_file d w).0 ≡ returns raw
          → ltb env.max_bytes (length raw) ≡ false
          → env.sections d.format raw ≡ sections
          → let (out, w') = with_sections env d sections (env.read_file d w).1 in IsAtomic out w'
      unfolding with_sections
      with_sections-IsAtomic raw (fails e) read fits parsed = inl (read_keeps d w)
      with_sections-IsAtomic raw (returns parts) read fits parsed =
          with_chunks-IsAtomic raw parts _ read fits parsed refl

      with_file-IsAtomic :
          (raw : Outcome Bytes)
          → (env.read_file d w).0 ≡ raw
          → let (out, w') = with_file env d raw (env.read_file d w).1 in IsAtomic out w'
      unfolding with_file
      with_file-IsAtomic (fails e) read = inl (read_keeps d w)
      with_file-IsAtomic (returns raw) read = elim (Bool-cases (ltb env.max_bytes (length raw))) [
        | inl e ↦ rw e (inl (read_keeps d w))
        | inr e ↦ rw e (with_sections-IsAtomic raw _ read e refl)
      ]

    with_row-IsAtomic :
        (row : Result Document)
        → get_document id fault db ≡ row
        → ((d : Document) → row ≡ ok d → d.id ≡ id)
        → let (out, w') = with_row env row w in IsAtomic out w'
    unfolding with_row
    with_row-IsAtomic (err k) found same = inl refl
    with_row-IsAtomic (ok d) found same = with_file-IsAtomic d found (same d refl) _ refl

    -- A document is indexed whole or not at all, with an index that keeps its promises. If the work on it
    -- reports a number of chunks, then it is the number of all the chunks of the file of its row, each of
    -- them had its vector, and the index holds these chunks and no others of the document, each whole
    -- and in order. If it fails, the index holds what it held before, or nothing of it, or else the last
    -- call was a delete that failed: the one before the bulk request, or the cleanup behind a bulk
    -- request that failed.
    pub ingest-IsAtomic : let (out, w') = ingest env id fault db w in IsAtomic out w'
    unfolding ingest
    ingest-IsAtomic = with_row-IsAtomic (get_document id fault db) refl (get_document-id fault db)
