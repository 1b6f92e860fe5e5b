-- ===== src/Ingest/Sections.antt =====
-- internal/ingest/parse.go: sections and their packing units. The Markdown parser is a library: what
-- it makes of a document is a list of blocks, a heading or the units of another node.
pub mod Headings
use incident_diag.Base.{
  ℕ, Bool, true, false, not, ◌&&◌, List, [], ◌∷◌, ◌++◌, map, filter, leb, if◌then◌else◌, is_empty,
  Bytes,
}
use incident_diag.Text.{codes}
use mathlib.Core.List.{reverse}

-- `tight` marks a list item.
pub record PackingUnit : Type 0 where
  pub text : Bytes
  pub tight : Bool

pub record Section : Type 0 where
  pub level : ℕ
  pub title : Bytes
  pub path : List Bytes
  pub units : List PackingUnit

-- The units behind the first, with the separators before them.
unfoldable pub join_after : Bool → List PackingUnit → Bytes
join_after tight [] = []
join_after tight (u ∷ us) =
    (if tight && u.tight then codes "\n" else codes "\n\n") ++ (u.text ++ join_after u.tight us)

-- joinUnits.
unfoldable pub join_units : List PackingUnit → Bytes
unfolding join_after
join_units [] = []
join_units (u ∷ us) = u.text ++ join_after u.tight us

pub record HeadingRef : Type 0 where
  pub level : ℕ
  pub title : Bytes

pub data Block : Type 0 where
  heading : HeadingRef → Block
  content : List PackingUnit → Block

-- Pops every heading at or below a level; the top of the stack is the head of the list.
unfoldable pub pop : ℕ → List HeadingRef → List HeadingRef
pop level [] = []
pop level (h ∷ stack) = elim (leb level h.level) [ true ↦ pop level stack | false ↦ h ∷ stack ]

-- The titles of the open headings from the outermost on; an empty title names nothing.
unfoldable pub path_of : List HeadingRef → List Bytes
path_of stack = filter (λ t. not (is_empty t)) (map (λ h. h.title) (reverse stack))

unfoldable pub opened : HeadingRef → List HeadingRef → Section
unfolding path_of
opened h stack = record { level = h.level; title = h.title; path = path_of stack; units = [] }

unfoldable pub add_units : List PackingUnit → Section → Section
add_units us s = record s { units = s.units ++ us }

-- The loop of parseMarkdown over the nodes of the document.
unfoldable pub walk : List HeadingRef → Section → List Block → List Section
unfolding pop opened add_units
walk stack cur [] = cur ∷ []
walk stack cur (heading h ∷ blocks) =
    let stack' = h ∷ pop h.level stack in cur ∷ walk stack' (opened h stack') blocks
walk stack cur (content us ∷ blocks) = walk stack (add_units us cur) blocks

abbrev pub preamble : Section
preamble = record { level = 0; title = []; path = []; units = [] }

-- parseMarkdown, behind the parser.
unfoldable pub parse_markdown : List Block → List Section
unfolding walk
parse_markdown blocks = walk [] preamble blocks
