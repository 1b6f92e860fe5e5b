-- ===== src/Ingest/Chunk.antt =====
-- internal/ingest/chunk.go: sections merged, kept whole or packed into chunks of about a target size.
-- EstimateTokens of tokens.go adds floating-point numbers; it is the parameter `estimate`, of which
-- nothing is assumed.
pub mod Groups
pub mod Plan
use incident_diag.Base.{
  ℕ, zero, suc, ◌+◌, Bool, true, false, not, ◌&&◌, ◌||◌, List, [], ◌∷◌, ◌++◌, map, filter, Option,
  none, some, ltb, leb, ◌==◌, if◌then◌else◌, is_empty, bytes_eq, length, Bytes, ◌⊎◌, inl, inr,
}
use mathlib.Core.List.{reverse}
use incident_diag.Text.{codes, join}
use incident_diag.Ingest.Sections.{PackingUnit, Section, join_units}

pub record Chunk : Type 0 where
  pub index : ℕ
  pub heading_path : Bytes
  pub content : Bytes
  pub tokens : ℕ

unfoldable pub embedded : Bytes → Bytes → Bytes
embedded p body = if is_empty p then body else p ++ (codes "\n\n" ++ body)

-- `path`, with HeadingSeparator.
unfoldable pub path : List Bytes → Bytes
path titles = join titles (codes " > ")

drop_newlines : Bytes → Bytes
drop_newlines [] = []
drop_newlines (b ∷ s) = elim (b == 10) [ true ↦ drop_newlines s | false ↦ b ∷ s ]

-- strings.Trim(body, "\n").
unfoldable pub trim_newlines : Bytes → Bytes
unfolding drop_newlines
trim_newlines s = reverse (drop_newlines (reverse (drop_newlines s)))

hashes : ℕ → Bytes
hashes zero = []
hashes (suc level) = 35 ∷ hashes level

-- render.
unfoldable pub render : Section → Bytes
unfolding hashes
render s =
    if is_empty s.title
    then join_units s.units
    else hashes s.level ++ (codes " " ++ (s.title ++ (codes "\n\n" ++ join_units s.units)))

render_rest : List Section → Bytes
render_rest [] = []
render_rest (s ∷ ss) = codes "\n\n" ++ (render s ++ render_rest ss)

-- mergedBody.
unfoldable pub merged_body : List Section → Bytes
unfolding render_rest
merged_body [] = []
merged_body (s ∷ ss) = render s ++ render_rest ss

-- All titles of a path but the last.
unfoldable pub parent : List Bytes → List Bytes
parent [] = []
parent (t ∷ []) = []
parent (t ∷ (u ∷ ts)) = t ∷ parent (u ∷ ts)

unfoldable pub paths_eq : List Bytes → List Bytes → Bool
paths_eq [] [] = true
paths_eq (s ∷ ss) (t ∷ ts) = bytes_eq s t && paths_eq ss ts
paths_eq _ _ = false

-- The condition of mergeRun's loop on the path of the next section.
unfoldable pub are_siblings : Section → Section → Bool
unfolding paths_eq parent
are_siblings first next =
    (length next.path == length first.path) && paths_eq (parent next.path) (parent first.path)

-- The variables `cur` and `out` of packUnits.
pub record PackState : Type 0 where
  pub cur : List PackingUnit
  pub out : List Chunk

pub data ChunkError : Type 0 where
  no_chunks : ChunkError
  too_many_chunks : ℕ → ℕ → ChunkError

module _ (estimate : Bytes → ℕ) where
  unfoldable pub new_chunk : ℕ → Bytes → Bytes → Chunk
  unfolding embedded trim_newlines
  new_chunk index p body =
      let content = embedded p (trim_newlines body) in
      record { index = index; heading_path = p; content = content; tokens = estimate content }

  module _ (target : ℕ) where
    -- `EstimateTokens(embedded(p, body)) <= target`.
    abbrev pub fits : Bytes → Bytes → Bool
    fits p body = leb (estimate (embedded p body)) target

    module _ (start : ℕ) (p : Bytes) where
      unfoldable pub flush : PackState → PackState
      unfolding new_chunk
      flush s = if is_empty s.cur then s else record {
        cur = [];
        out = s.out ++ new_chunk (start + length s.out) p (join_units s.cur) ∷ [];
      }

      unfoldable pub begin_with : PackingUnit → PackState → PackState
      unfolding flush
      begin_with u s = let s' = record s { cur = u ∷ [] } in if fits p u.text then s' else flush s'

      -- The body of the loop over the units.
      unfoldable pub pack_unit : PackingUnit → PackState → PackState
      unfolding begin_with flush
      pack_unit u s =
          if is_empty s.cur
          then begin_with u s
          else if fits p (join_units (s.cur ++ u ∷ []))
          then record s { cur = s.cur ++ u ∷ [] }
          else begin_with u (flush s)

      unfoldable pub pack_from : List PackingUnit → PackState → List Chunk
      unfolding pack_unit flush
      pack_from [] s = (flush s).out
      pack_from (u ∷ us) s = pack_from us (pack_unit u s)

      unfoldable pub pack_units : List PackingUnit → List Chunk
      unfolding pack_from
      pack_units us = pack_from us (record { cur = []; out = [] })

    -- The loop of mergeRun behind the first section: the siblings that join the run, and the rest.
    unfoldable pub extend_run : Section → Bytes → Bytes → List Section → List Section × List Section
    unfolding are_siblings render
    extend_run first p body [] = ([], [])
    extend_run first p body (next ∷ rest) =
        let trial = body ++ (codes "\n\n" ++ render next) in
        let (run, left) = extend_run first p trial rest in
        if are_siblings first next && fits p trial then (next ∷ run, left) else ([], next ∷ rest)

    -- mergeRun: what joins the first section, and what is left.
    unfoldable pub merge_run : Section → List Section → List Section × List Section
    unfolding extend_run render
    merge_run first rest =
        if is_empty first.path || not (fits (path (parent first.path)) (render first))
        then ([], rest)
        else extend_run first (path (parent first.path)) (render first) rest

    -- The chunks of one section that is not merged.
    unfoldable pub section_chunks : ℕ → Section → List Chunk
    unfolding new_chunk pack_units
    section_chunks index s =
        if fits (path s.path) (join_units s.units)
        then new_chunk index (path s.path) (join_units s.units) ∷ []
        else pack_units index (path s.path) s.units

    unfoldable pub first_chunks : ℕ → Section → List Section → List Chunk
    unfolding new_chunk merged_body section_chunks
    first_chunks index s [] = section_chunks index s
    first_chunks index s (next ∷ run) =
        new_chunk index (path (parent s.path)) (merged_body (s ∷ (next ∷ run))) ∷ []

    -- The loop of buildChunks: each round takes at least one section.
    unfoldable pub chunks_from : ℕ → ℕ → List Section → List Chunk
    unfolding first_chunks merge_run
    chunks_from zero index sections = []
    chunks_from (suc fuel) index [] = []
    chunks_from (suc fuel) index (s ∷ sections) =
        let (run, left) = merge_run s sections in
        let out = first_chunks index s run in out ++ chunks_from fuel (index + length out) left

    unfoldable pub build_chunks : List Section → List Chunk
    unfolding chunks_from
    build_chunks sections =
        let kept = filter (λ (s : Section). not (is_empty s.units)) sections in
        chunks_from (length kept) 0 kept

    -- ChunkDocument behind the parsers: the chunks or the error.
    unfoldable pub chunk_sections : ℕ → List Section → List Chunk ⊎ ChunkError
    unfolding build_chunks
    chunk_sections max_per_document sections =
        let chunks = build_chunks sections in
        if is_empty chunks
        then inr no_chunks
        else if ltb max_per_document (length chunks)
        then inr (too_many_chunks (length chunks) max_per_document)
        else inl chunks
