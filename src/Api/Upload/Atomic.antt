-- ===== src/Api/Upload/Atomic.antt =====
-- internal/api/documents.go: an upload leaves a file and a row for it, or neither.
use incident_diag.Base.{
  ℕ, ◌≤◌, ◌≡◌, ◌≢◌, refl, ap, ◌∙◌, Bool, true, false, List, [], ◌∷◌, ◌++◌, Option, none, some, any,
  length, if◌then◌else◌, Bytes, Bool-cases, if-cases, Option-cases, List-cases, inl, inr,
}
use incident_diag.Store.Errors
use incident_diag.Store.Errors.{DriverError}
use incident_diag.Store.Rows.{Db, Document, DocumentType}
use incident_diag.Store.Documents.{NewDocument, has_id, create_document}
use incident_diag.Files.{Stored, Saved, Faults, check_name, is_of}
use incident_diag.Api.Validation.{Code, Validation, add, is_field, err}
use incident_diag.Api.Upload.{
  Body, Uploaded, ReadUpload, uploaded, refused, completed, State, Response, created, rejected,
  crashed, insert, inserted, row_of, insert_upload, finish_upload, upload_document,
}
use incident_diag.Api.Upload.Held.{stored, Held, remove-Held, IsRead, read_upload-IsRead}

err_none : (v : Validation) → err v ≡ none → v.fields ≡ []
unfolding err
err_none v h = elim (List-cases v.fields) [
  | inl e ↦ e
  | inr (x, ([], e)) ↦ cc
  | inr (x, (y ∷ ys, e)) ↦ cc
]

-- Where there is a problem there is an error.
err-add : (name : Bytes) (c : Code) (m : Bytes) (v : Validation) → err (add name c m v) ≢ none
unfolding add
err-add name c m v h =
    let e = err_none (add name c m v) h in
    elim (List-cases v.fields) [
      | inl n ↦ cc
      | inr (x, (xs, n)) ↦ elim (Bool-cases (any (is_field name) v.fields)) [
        | inl t ↦ let same : v.fields ≡ [] = rw t at e in cc
        | inr t ↦
            let same : v.fields ++ record { name = name; code = c } ∷ [] ≡ [] = rw t at e in
            let more : x ∷ (xs ++ record { name = name; code = c } ∷ []) ≡ [] = rw n at same in cc
      ]
    ]

-- What CreateDocument leaves.
abbrev Creates : ℕ → NewDocument → Db → Errors.Result Document × Db → Type 0
Creates id n db (Errors.ok d, db') =
    (db' ≡ record db { documents = db.documents ++ d ∷ [] })
    × ((d.id ≡ id) × ((d.filename ≡ n.filename) × (d.size_bytes ≡ n.size_bytes)))
Creates id n db (Errors.err k, db') = db' ≡ db

create_document-Creates :
    (now id : ℕ) (fault : Option DriverError) (n : NewDocument) (db : Db)
    → n.id ≡ some id
    → Creates id n db (create_document now fault n db)
unfolding create_document
create_document-Creates now id (some e) n db h = simp h refl
create_document-Creates now id none n db h = simp h (
    if-cases (Creates id n db) (any (has_id id) db.documents) _ _ (λ _. refl)
      (λ _. (refl, (refl, (refl, refl)))))

module _ (rune_count : Bytes → ℕ) (message : Code → Bytes → Bytes) (max_bytes : ℕ) (f : Faults)
    (id : ℕ) where
  err-completed :
      (up : Uploaded) (v : Validation)
      → err (completed rune_count message max_bytes f id up v) ≡ none
      → ((s : Saved) × (up.saved ≡ some s)) × ((t : DocumentType) × (up.document_type ≡ some t))
  unfolding completed
  err-completed up v h = elim (Option-cases up.document_type) [
    | inl e ↦ absurd (err-add _ _ _ _ (rw e at h))
    | inr (t, e) ↦ elim (Option-cases up.saved) [
      | inl g ↦ absurd (err-add _ _ _ _ (rw g at (rw e at h)))
      | inr (s, g) ↦ ((s, g), (t, e))
    ]
  ]

  module _ (digest : Bytes → Bytes) (path_of : ℕ → Bytes → Bytes) (now : ℕ)
      (fault : Option DriverError) (is_produced : Bool) (st : State)
      (fresh : any (is_of id) st.files ≡ false) (removes : f.remove ≡ false) where
    -- What becomes of an upload.
    abbrev pub IsUploaded : Response × State → Type 0
    IsUploaded (created d, st') =
        (s : Saved) × ((st'.files ≡ st.files ++ stored id s ∷ [])
          × ((check_name s.name ≡ true)
              × ((s.size ≤ max_bytes)
                  × ((st'.db ≡ record st.db { documents = st.db.documents ++ d ∷ [] })
                      × ((d.id ≡ id)
                          × ((d.filename ≡ s.name)
                              × ((d.size_bytes ≡ length s.content)
                                  × (st'.sent ≡ (
                                      if is_produced then st.sent ++ d.id ∷ [] else st.sent)))))))))
    IsUploaded (rejected e, st') = st' ≡ st
    IsUploaded (crashed, st') = ⊥

    inserted-IsUploaded :
        (s : Saved) (n : NewDocument) (files : List Stored) (x : Errors.Result Document × Db)
        → Held max_bytes f id st.files fresh removes (some s) files
        → n.filename ≡ s.name
        → n.size_bytes ≡ s.size
        → Creates id n st.db x
        → IsUploaded (
            inserted rune_count message max_bytes f id digest path_of now fault is_produced x
              (record st { files = files }))
    inserted-IsUploaded s n files (Errors.ok d, db) (a, (b, (c, m))) j k (e, (g, (o, q))) =
        (s, (a, (b, (m, (e, (g, (o ∙ j, (q ∙ k ∙ c, refl))))))))
    inserted-IsUploaded s n files (Errors.err k, db) h j l e = λ i. record st {
      files = remove-Held max_bytes f id st.files fresh removes (some s) files h i;
      db = e i;
    }

    finish_upload-IsUploaded :
        (r : ReadUpload) (files : List Stored)
        → IsRead max_bytes f id st.files fresh removes (r, files)
        → IsUploaded (
            finish_upload rune_count message max_bytes f id digest path_of now fault is_produced r
              (record st { files = files }))
    unfolding finish_upload insert_upload insert
    finish_upload-IsUploaded (refused e) files h =
        ap (λ (fs : List Stored). record st { files = fs }) h
    finish_upload-IsUploaded (uploaded up v) files h =
        elim (Option-cases (err (completed rune_count message max_bytes f id up v))) [
          | inr (p, e) ↦
              rw (e, finish_upload)
                (ap (λ (fs : List Stored). record st { files = fs })
                  (remove-Held max_bytes f id st.files fresh removes up.saved files h))
          | inl e ↦
              let ((s, g), (t, k)) = err-completed up v e in
              rw (e, finish_upload)
                (simp (g, k, insert_upload)
                  (inserted-IsUploaded s
                    (row_of rune_count message max_bytes f id digest path_of now fault is_produced
                      up s t)
                    files
                    (create_document now fault
                      (row_of rune_count message max_bytes f id digest path_of now fault is_produced
                        up s t)
                      st.db)
                    (rw g at h) refl refl (create_document-Creates now id fault _ st.db refl)))
        ]

    -- Where no file has the new id and removing works, an upload that is created has stored one file within
    -- the limit, under a name that is no path, and one row with its name and size, and asks a worker for it
    -- if the producer does; one that is rejected has changed nothing, whatever parts the request has and
    -- whatever else fails; and none crashes.
    pub upload_document-IsUploaded :
        (b : Body)
        → IsUploaded (
            upload_document rune_count message max_bytes f id digest path_of now fault is_produced b
              st)
    unfolding upload_document
    upload_document-IsUploaded b =
        finish_upload-IsUploaded _ _
          (read_upload-IsRead max_bytes f id st.files fresh removes rune_count message b)
