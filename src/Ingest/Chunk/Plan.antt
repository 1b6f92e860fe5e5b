-- ===== src/Ingest/Chunk/Plan.antt =====
-- What buildChunks makes of the sections of a document.
use incident_diag.Base.{
  ℕ, zero, suc, ◌+◌, ◌≤◌, ◌≡◌, refl, sym, ap, ◌∙◌, true, false, not, ◌&&◌, ◌||◌, List, [], ◌∷◌,
  ◌++◌, All, length, length-append, is_empty, Bytes, filter, arith, Bool-cases, inl, inr,
}
use mathlib.Core.List.{append_assoc}
use incident_diag.Text.{codes}
use incident_diag.Ingest.Sections.{PackingUnit, Section, join_units}
use incident_diag.Ingest.Chunk.{
  Chunk, new_chunk, fits, path, parent, render, render_rest, merged_body, are_siblings, extend_run,
  merge_run, section_chunks, first_chunks, chunks_from, build_chunks,
}
use incident_diag.Ingest.Chunk.Groups.{concat, chunks_of, IsPacked, FullGroups, pack_units_lem}

-- What becomes of consecutive sections: two or more merged into one chunk, one kept whole, or one packed
-- in groups of its units.
pub data Part : Type 0 where
  merged : Section → Section → List Section → Part
  whole : Section → Part
  packed : Section → List (List PackingUnit) → Part

abbrev pub sections_of : List Part → List Section
sections_of [] = []
sections_of (merged s t ss ∷ parts) = s ∷ (t ∷ (ss ++ sections_of parts))
sections_of (whole s ∷ parts) = s ∷ sections_of parts
sections_of (packed s gs ∷ parts) = s ∷ sections_of parts

module _ (estimate : Bytes → ℕ) (target : ℕ) where
  -- A merged run consists of siblings and fits the target under the path of their parent, a whole
  -- section fits it under its own path, and a packed one does not.
  abbrev pub IsAllowed : Part → Type 0
  IsAllowed (merged s t ss) =
      (is_empty s.path ≡ false)
      × All (λ x. are_siblings s x ≡ true) (t ∷ ss)
      × (fits estimate target (path (parent s.path)) (merged_body (s ∷ (t ∷ ss))) ≡ true)
  IsAllowed (whole s) = fits estimate target (path s.path) (join_units s.units) ≡ true
  IsAllowed (packed s gs) =
      (fits estimate target (path s.path) (join_units s.units) ≡ false)
      × (concat gs ≡ s.units)
      × All (IsPacked estimate target 0 (path s.path)) gs
      × FullGroups estimate target 0 (path s.path) gs

  abbrev pub part_chunks : ℕ → Part → List Chunk
  part_chunks n (merged s t ss) =
      new_chunk estimate n (path (parent s.path)) (merged_body (s ∷ (t ∷ ss))) ∷ []
  part_chunks n (whole s) = new_chunk estimate n (path s.path) (join_units s.units) ∷ []
  part_chunks n (packed s gs) = chunks_of estimate target 0 (path s.path) n gs

  abbrev pub parts_chunks : ℕ → List Part → List Chunk
  parts_chunks n [] = []
  parts_chunks n (part ∷ parts) =
      part_chunks n part ++ parts_chunks (n + length (part_chunks n part)) parts

  -- The run is cut off the front of what follows; its sections are siblings.
  extend_run-splits :
      (first : Section) (p body : Bytes) (rest : List Section)
      → let (run, left) = extend_run estimate target first p body rest in
        (run ++ left ≡ rest) × All (λ x. are_siblings first x ≡ true) run
  unfolding extend_run
  extend_run-splits first p body [] = (refl, tt)
  extend_run-splits first p body (next ∷ rest) =
      let trial = body ++ (codes "\n\n" ++ render next) in
      elim (Bool-cases (are_siblings first next && fits estimate target p trial)) [
        | inl e ↦
            let (split, siblings) = extend_run-splits first p trial rest in
            rw e (ap (◌∷◌ next) split, (ground arith, siblings))
        | inr e ↦ rw e (refl, tt)
      ]

  append_nil : (s : Bytes) → s ++ [] ≡ s
  append_nil [] = refl
  append_nil (b ∷ s) = ap (◌∷◌ b) (append_nil s)

  trial_append :
      (body text more : Bytes)
      → (body ++ (codes "\n\n" ++ text)) ++ more ≡ body ++ (codes "\n\n" ++ (text ++ more))
  trial_append body text more =
      append_assoc body (codes "\n\n" ++ text) more
      ∙ ap (λ t. body ++ t) (append_assoc (codes "\n\n") text more)

  -- The body of the run fits, as the body of its first section does.
  extend_run-fits :
      (first : Section) (p body : Bytes) (rest : List Section)
      → fits estimate target p body ≡ true
      → fits estimate target p
          (body ++ render_rest (extend_run estimate target first p body rest).0)
        ≡ true
  unfolding extend_run render_rest
  extend_run-fits first p body [] h = rw (append_nil body) h
  extend_run-fits first p body (next ∷ rest) h =
      let trial = body ++ (codes "\n\n" ++ render next) in
      elim (Bool-cases (are_siblings first next && fits estimate target p trial)) [
        | inl e ↦ rw e (
            rw
              (sym (
                trial_append body (render next)
                  (render_rest (extend_run estimate target first p trial rest).0)))
              (extend_run-fits first p trial rest (ground arith)))
        | inr e ↦ rw e (rw (append_nil body) h)
      ]

  -- What a run that joins its first section satisfies.
  abbrev Joins : Section → List Section → Type 0
  Joins s [] = Unit
  Joins s (t ∷ ss) = IsAllowed (merged s t ss)

  joins :
      (s : Section) (run : List Section)
      → is_empty s.path ≡ false
      → All (λ x. are_siblings s x ≡ true) run
      → fits estimate target (path (parent s.path)) (render s ++ render_rest run) ≡ true
      → Joins s run
  unfolding merged_body
  joins s [] some_path siblings fit = tt
  joins s (t ∷ ss) some_path siblings fit = (some_path, siblings, fit)

  merge_run-Joins :
      (s : Section) (rest : List Section)
      → let (run, left) = merge_run estimate target s rest in (run ++ left ≡ rest) × Joins s run
  unfolding merge_run
  merge_run-Joins s rest =
      elim (Bool-cases
        (is_empty s.path || not (fits estimate target (path (parent s.path)) (render s)))) [
          | inl e ↦ rw e (refl, tt)
          | inr e ↦
              let (split, siblings) = extend_run-splits s (path (parent s.path)) (render s) rest in
              rw e (
                split,
                joins s _ (ground arith) siblings
                    (extend_run-fits s (path (parent s.path)) (render s) rest (ground arith)),
              )
        ]

  -- The first section with the run that joins it.
  abbrev Becomes : ℕ → Section → List Section → Type 0
  Becomes n s run =
      (part : Part) × (first_chunks estimate target n s run ≡ part_chunks n part)
      × IsAllowed part
      × ((parts : List Part) → sections_of (part ∷ parts) ≡ s ∷ (run ++ sections_of parts))

  first_chunks-Becomes : (n : ℕ) (s : Section) (run : List Section) → Joins s run → Becomes n s run
  unfolding first_chunks section_chunks
  first_chunks-Becomes n s (t ∷ ss) ok = (merged s t ss, refl, ok, (λ parts. refl))
  first_chunks-Becomes n s [] ok =
      elim (Bool-cases (fits estimate target (path s.path) (join_units s.units))) [
        | inl e ↦ (whole s, rw e refl, e, (λ parts. refl))
        | inr e ↦
            let (gs, made, all, ok, full) =
              pack_units_lem estimate target n (path s.path) s.units in
            (packed s gs, rw e made, (e, all, ok, full), (λ parts. refl))
      ]

  abbrev Planned : ℕ → List Section → List Chunk → Type 0
  Planned n sections chunks =
      (parts : List Part) × (chunks ≡ parts_chunks n parts)
      × (sections_of parts ≡ sections)
      × All IsAllowed parts

  chunks_from-Planned :
      (fuel n : ℕ) (sections : List Section)
      → length sections ≤ fuel
      → Planned n sections (chunks_from estimate target fuel n sections)
  unfolding chunks_from
  chunks_from-Planned zero n [] h = ([], refl, refl, tt)
  chunks_from-Planned zero n (s ∷ sections) h = absurd (omega arith)
  chunks_from-Planned (suc fuel) n [] h = ([], refl, refl, tt)
  chunks_from-Planned (suc fuel) n (s ∷ sections) h =
      let (run, left) = merge_run estimate target s sections in
      let (split, ok) = merge_run-Joins s sections in
      let (part, made, allowed, covers) = first_chunks-Becomes n s run ok in
      let (parts, rest_made, rest_all, rest_allowed) =
        chunks_from-Planned fuel (n + length (part_chunks n part)) left
          (omega (arith, ap length split, length-append run left)) in
      (
        part ∷ parts,
        rw made (ap (λ cs. part_chunks n part ++ cs) rest_made),
        covers parts ∙ ap (λ ss. s ∷ (run ++ ss)) rest_all ∙ ap (◌∷◌ s) split,
        (allowed, rest_allowed),
      )

  -- The chunks of a document are those of a plan, numbered from 0: its sections with units, in order
  -- and each exactly once, are in a run of two or more siblings that fits the target together, or kept
  -- whole as they fit it alone, or packed in groups of their units as they do not.
  pub build_chunks_lem :
      (sections : List Section)
      → (parts : List Part) × (build_chunks estimate target sections ≡ parts_chunks 0 parts)
        × (sections_of parts ≡ filter (λ s. not (is_empty s.units)) sections)
        × All IsAllowed parts
  unfolding build_chunks
  build_chunks_lem sections = chunks_from-Planned _ 0 _ (omega arith)
