-- ===== src/Ingest/Sections/Headings.antt =====
-- What the stack of open headings stands for, and what a document's sections hold.
use incident_diag.Base.{
  ℕ, ◌≡◌, refl, ap, ◌∙◌, Bool, true, List, [], ◌∷◌, ◌++◌, Option, none, some, ltb, if◌then◌else◌,
  arith,
}
use mathlib.Core.List.{append_assoc}
use incident_diag.Ingest.Sections.{
  PackingUnit, Section, HeadingRef, Block, heading, content, pop, opened, add_units, walk, preamble,
  parse_markdown,
}

abbrev is_below : ℕ → Option ℕ → Bool
is_below level none = true
is_below level (some lowest) = ltb level lowest

abbrev lower : ℕ → Option ℕ → Option ℕ
lower level none = some level
lower level (some lowest) = some (if ltb level lowest then level else lowest)

-- Of the headings so far, the latest first, those that enclose what follows: a heading encloses it if
-- its level is below that of every heading after it. `lowest` is the lowest level seen after.
abbrev enclosing : Option ℕ → List HeadingRef → List HeadingRef
enclosing lowest [] = []
enclosing lowest (h ∷ earlier) =
    if is_below h.level lowest
    then h ∷ enclosing (lower h.level lowest) earlier
    else enclosing lowest earlier

-- The sections of a document, each under the headings that enclose it among all the headings so far.
abbrev pub sections_under : List HeadingRef → Section → List Block → List Section
sections_under seen cur [] = cur ∷ []
sections_under seen cur (heading h ∷ blocks) =
    cur ∷ sections_under (h ∷ seen) (opened h (enclosing none (h ∷ seen))) blocks
sections_under seen cur (content us ∷ blocks) = sections_under seen (add_units us cur) blocks

pop-enclosing :
    (n : ℕ) (lowest : Option ℕ) (seen : List HeadingRef)
    → pop n (enclosing lowest seen) ≡ enclosing (lower n lowest) seen
unfolding pop
pop-enclosing n lowest [] = refl
pop-enclosing n none (h ∷ seen) = ground (arith, pop-enclosing n (some h.level) seen)
pop-enclosing n (some b) (h ∷ seen) =
    ground (arith, pop-enclosing n (some b) seen, pop-enclosing n (some h.level) seen)

walk-sections_under :
    (seen : List HeadingRef) (cur : Section) (blocks : List Block)
    → walk (enclosing none seen) cur blocks ≡ sections_under seen cur blocks
unfolding walk
walk-sections_under seen cur [] = refl
walk-sections_under seen cur (heading h ∷ blocks) =
    rw (pop-enclosing h.level none seen) (ap (◌∷◌ cur) (walk-sections_under (h ∷ seen) _ blocks))
walk-sections_under seen cur (content us ∷ blocks) =
    walk-sections_under seen (add_units us cur) blocks

abbrev pub units_of : List Section → List PackingUnit
units_of [] = []
units_of (s ∷ ss) = s.units ++ units_of ss

abbrev pub content_of : List Block → List PackingUnit
content_of [] = []
content_of (heading h ∷ blocks) = content_of blocks
content_of (content us ∷ blocks) = us ++ content_of blocks

walk-units :
    (blocks : List Block) (stack : List HeadingRef) (cur : Section)
    → units_of (walk stack cur blocks) ≡ cur.units ++ content_of blocks
unfolding walk opened add_units
walk-units [] stack cur = refl
walk-units (heading h ∷ blocks) stack cur =
    ap (λ us. cur.units ++ us)
      (walk-units blocks (h ∷ pop h.level stack) (opened h (h ∷ pop h.level stack)))
walk-units (content us ∷ blocks) stack cur =
    walk-units blocks stack (add_units us cur) ∙ append_assoc cur.units us (content_of blocks)

-- The sections of a Markdown document are those that lie under the headings that enclose them, where a
-- heading encloses what follows it until a heading of its level or of a lower one; and every unit of
-- the document is in one of them, in the order of the document.
pub parse_markdown_lem :
    (blocks : List Block)
    → (parse_markdown blocks ≡ sections_under [] preamble blocks)
      × (units_of (parse_markdown blocks) ≡ content_of blocks)
unfolding parse_markdown
parse_markdown_lem blocks = (walk-sections_under [] preamble blocks, walk-units blocks [] preamble)
