-- ===== src/Tests/Chunks.antt =====
-- internal/ingest on a short runbook, with a token for each byte.
use incident_diag.Base.{◌≡◌, false, not, List, [], ◌∷◌, All, length, is_empty, filter, Bytes}
use incident_diag.Text.{codes}
use incident_diag.Ingest.Sections.{PackingUnit, Block, heading, content, preamble, parse_markdown}
use incident_diag.Ingest.Sections.Headings.{
  parse_markdown_lem, sections_under, units_of, content_of,
}
use incident_diag.Ingest.Chunk.{pack_units, build_chunks}
use incident_diag.Ingest.Chunk.Groups.{pack_units_lem, chunks_of, concat, IsPacked, FullGroups}
use incident_diag.Ingest.Chunk.Plan.{build_chunks_lem, Part, parts_chunks, sections_of, IsAllowed}

abbrev paragraph : Bytes → PackingUnit
paragraph text = record { text = text; tight = false }

-- A heading of the third level under one of the first, and then another of the second.
abbrev runbook : List Block
runbook =
    content (paragraph (codes "intro") ∷ [])
    ∷ heading (record { level = 1; title = codes "Pool" })
    ∷ content (paragraph (codes "a") ∷ [])
    ∷ heading (record { level = 3; title = codes "Check" })
    ∷ content (paragraph (codes "b") ∷ [])
    ∷ heading (record { level = 2; title = codes "Fix" })
    ∷ content (paragraph (codes "restart the pool") ∷ paragraph (codes "c") ∷ [])
    ∷ []

parse_markdown_lem_example :
    (parse_markdown runbook ≡ sections_under [] preamble runbook)
    × (units_of (parse_markdown runbook) ≡ content_of runbook)
parse_markdown_lem_example = parse_markdown_lem runbook

pack_units_lem_example :
    (gs : List (List PackingUnit)) × (pack_units length 12 3 (codes "p") (content_of runbook)
      ≡ chunks_of length 12 3 (codes "p") 3 gs)
    × (concat gs ≡ content_of runbook)
    × All (IsPacked length 12 3 (codes "p")) gs
    × FullGroups length 12 3 (codes "p") gs
pack_units_lem_example = pack_units_lem length 12 3 (codes "p") (content_of runbook)

build_chunks_lem_example :
    (parts : List Part) × (build_chunks length 30 (parse_markdown runbook)
      ≡ parts_chunks length 30 0 parts)
    × (sections_of parts ≡ filter (λ s. not (is_empty s.units)) (parse_markdown runbook))
    × All (IsAllowed length 30) parts
build_chunks_lem_example = build_chunks_lem length 30 (parse_markdown runbook)
