-- ===== src/Api/Upload/Held.antt =====
-- internal/api/documents.go: readUpload: it leaves one file of an upload, or none.
use incident_diag.Base.{
  ℕ, suc, ◌≤◌, ◌≡◌, refl, true, false, not, ◌||◌, List, [], ◌∷◌, ◌++◌, append_nil, filter,
  filter-append, Option, none, some, any, length, ltb, ==_refl, Bytes, arith, Bool-cases, if-cases,
  Option-cases, inl, inr,
}
use incident_diag.Store.Rows.{Format}
use incident_diag.Files.{
  Stored, Saved, ReadError, Stream, Faults, no_file, is_file, SaveResult, saved, unsaved,
  check_name, is_of, remove, limited, limited_fault, write_file, save,
}
use incident_diag.Api.Validation.{Code, Validation, no_problems}
use incident_diag.Api.Fields.{accept_filename, max_form_value_len, form_value, document_type_of}
use incident_diag.Api.Upload.{
  Part, file, document_type, service, unknown, Body, Uploaded, nothing_uploaded, ReadUpload,
  uploaded, refused, Going, saved_file, read_file, read_value, use_document_type, use_service,
  read_parts, read_upload,
}

abbrev pub stored : ℕ → Saved → Stored
stored id s = record { document_id = id; name = s.name; content = s.content }

filter-absent :
    (id : ℕ) (files : List Stored)
    → any (is_of id) files ≡ false
    → filter (λ s. not (is_of id s)) files ≡ files
filter-absent id [] h = refl
filter-absent id (s ∷ files) h = ground (arith, filter-absent id files)

module _ (max_bytes : ℕ) (f : Faults) (id : ℕ) (base : List Stored)
    (fresh : any (is_of id) base ≡ false) (removes : f.remove ≡ false) where
  -- The files of an upload that has saved a file or not.
  abbrev pub Held : Option Saved → List Stored → Type 0
  Held none files = files ≡ base
  Held (some s) files =
      (files ≡ base ++ stored id s ∷ [])
      × ((check_name s.name ≡ true) × ((s.size ≡ length s.content) × (s.size ≤ max_bytes)))

  remove-base : remove f id base ≡ base
  unfolding remove
  remove-base = rw (removes, remove) (filter-absent id base fresh)

  remove-stored : (s : Stored) → s.document_id ≡ id → remove f id (base ++ s ∷ []) ≡ base
  unfolding remove
  remove-stored s e =
      rw
        (
          removes,
          filter-append (λ (t : Stored). not (is_of id t)) base (s ∷ []),
          filter-absent id base fresh,
          e,
          ==_refl id,
        )
        (append_nil base)

  pub remove-Held :
      (o : Option Saved) (files : List Stored) → Held o files → remove f id files ≡ base
  remove-Held none files h = rw h remove-base
  remove-Held (some s) files h = rw h.0 (remove-stored (stored id s) refl)

  -- What Save leaves.
  abbrev Saves : SaveResult × List Stored → Type 0
  Saves (saved s, files) = Held (some s) files
  Saves (unsaved e, files) = files ≡ base

  write_file-Saves :
      (name : Bytes) (r : Stream)
      → check_name name ≡ true
      → Saves (write_file max_bytes f id name r base)
  unfolding write_file remove
  write_file-Saves name r h =
      let t : Stored = record {
        document_id = id;
        name = name;
        content = limited (suc max_bytes) r;
      } in
      let gone = remove-stored t refl in
      elim (Option-cases (limited_fault (suc max_bytes) r)) [
        | inr (e, g) ↦ rw (g, write_file) gone
        | inl g ↦
            rw (g, write_file)
              (elim (Bool-cases f.close) [
                | inl c ↦ rw c gone
                | inr c ↦
                    rw c (elim (Bool-cases (ltb max_bytes (length (limited (suc max_bytes) r)))) [
                      | inl l ↦ rw l gone
                      | inr l ↦ rw l (refl, (h, (refl, ground arith)))
                    ])
              ])
      ]

  save-Saves : (name : Bytes) (r : Stream) → Saves (save max_bytes f id name r base)
  unfolding save
  save-Saves name r = elim (Bool-cases (check_name name)) [
    | inr e ↦ rw (e, save) refl
    | inl e ↦
        rw (e, save)
          (if-cases Saves f.mkdir _ _ (λ _. refl)
            (λ _.
              if-cases Saves (f.create || any (is_file id name) base) (unsaved no_file, base)
                (write_file max_bytes f id name r base) (λ _. refl)
                (λ _. write_file-Saves name r e)))
  ]

  -- What reading leaves: the files as they were, or with the one that is saved.
  abbrev pub IsRead : ReadUpload × List Stored → Type 0
  IsRead (uploaded up v, files) = Held up.saved files
  IsRead (refused e, files) = files ≡ base

  module _ (rune_count : Bytes → ℕ) (message : Code → Bytes → Bytes) where
    abbrev Keeps : Going rune_count message max_bytes f id → Type 0
    Keeps g =
        (up : Uploaded) (v : Validation) (files : List Stored)
        → Held up.saved files
        → IsRead (g up v files)

    read_value-Keeps :
        (use_value : Option Bytes → Going rune_count message max_bytes f id) (r : Stream)
        → ((o : Option Bytes) → Keeps (use_value o))
        → Keeps (read_value rune_count message max_bytes f id use_value r)
    unfolding read_value
    read_value-Keeps use_value r k up v files h =
        elim (Option-cases (limited_fault (suc max_form_value_len) r)) [
          | inl e ↦ rw (e, read_value) (k (form_value r) up v files h)
          | inr (x, e) ↦ rw (e, read_value) (remove-Held up.saved files h)
        ]

    use_document_type-Keeps :
        (again : Going rune_count message max_bytes f id) (o : Option Bytes)
        → Keeps again
        → Keeps (use_document_type rune_count message max_bytes f id again o)
    unfolding use_document_type
    use_document_type-Keeps again none k up v files h = k up _ files h
    use_document_type-Keeps again (some s) k up v files h =
        elim (Option-cases (document_type_of s)) [
          | inl e ↦ rw (e, use_document_type) (k up _ files h)
          | inr (t, e) ↦
              rw (e, use_document_type) (k (record up { document_type = some t }) v files h)
        ]

    use_service-Keeps :
        (again : Going rune_count message max_bytes f id) (o : Option Bytes)
        → Keeps again
        → Keeps (use_service rune_count message max_bytes f id again o)
    unfolding use_service
    use_service-Keeps again none k up v files h = k up _ files h
    use_service-Keeps again (some s) k up v files h = k _ _ files h

    -- The answer to what Save leaves.
    saving :
        (again : Going rune_count message max_bytes f id) (format : Format) (up : Uploaded)
        (v : Validation) (x : SaveResult × List Stored)
        → Keeps again
        → Saves x
        → IsRead (saved_file rune_count message max_bytes f id again format up v x)
    saving again format up v (saved s, files) k h =
        k (record up { format = format; saved = some s }) v files h
    saving again format up v (unsaved e, files) k h = h

    read_file-Keeps :
        (again : Going rune_count message max_bytes f id) (raw : Bytes) (r : Stream)
        → Keeps again
        → Keeps (read_file rune_count message max_bytes f id again raw r)
    unfolding read_file
    read_file-Keeps again raw r k up v files h = elim (Option-cases up.saved) [
      | inr (s, e) ↦ rw (e, read_file) (k up _ files h)
      | inl e ↦
          rw (e, read_file)
            (elim (Option-cases (accept_filename rune_count message raw v).1) [
              | inl a ↦ rw a (k up _ files h)
              | inr ((name, format), a) ↦ rw a (
                  saving again format up _ (save max_bytes f id name r files) k
                    (let same : files ≡ base = rw e at h in rw same (save-Saves name r)))
            ])
    ]

    read_parts-Keeps :
        (e : Option ReadError) (ps : List Part)
        → Keeps (read_parts rune_count message max_bytes f id e ps)
    unfolding read_parts
    read_parts-Keeps none [] up v files h = h
    read_parts-Keeps (some e) [] up v files h = remove-Held up.saved files h
    read_parts-Keeps e (file name r ∷ ps) up v files h =
        read_file-Keeps _ name r (read_parts-Keeps e ps) up v files h
    read_parts-Keeps e (document_type r ∷ ps) up v files h =
        read_value-Keeps _ r (λ o. use_document_type-Keeps _ o (read_parts-Keeps e ps)) up v files h
    read_parts-Keeps e (service r ∷ ps) up v files h =
        read_value-Keeps _ r (λ o. use_service-Keeps _ o (read_parts-Keeps e ps)) up v files h
    read_parts-Keeps e (unknown ∷ ps) up v files h = read_parts-Keeps e ps up v files h

    pub read_upload-IsRead :
        (b : Body) → IsRead (read_upload rune_count message max_bytes f id b base)
    unfolding read_upload
    read_upload-IsRead b = read_parts-Keeps b.fault b.parts nothing_uploaded no_problems base refl
