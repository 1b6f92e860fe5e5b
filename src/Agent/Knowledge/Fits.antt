-- ===== src/Agent/Knowledge/Fits.antt =====
-- The rendered hits fit the observation cap.
use incident_diag.Base.{
  ℕ, zero, suc, ◌≤◌, ◌<◌, ◌≡◌, ◌⊎◌, inl, inr, refl, sym, ap, ◌∙◌, false, true, List, [], ◌∷◌, ◌++◌,
  map, take, leb, ltb, if◌then◌else◌, is_empty, is_empty-length, length, Bytes, append_assoc,
  append_nil, arith, Bool-cases, leb→le, dec_le,
}
use mathlib.Core.Path.{subst}
use incident_diag.Text.{codes, decimal}
use incident_diag.Summary.{cap, limit_bytes}
use incident_diag.Summary.Bounds.{length-cap_at, cap_at_cuts, IsLastBoundary}
use incident_diag.Agent.Types.{Hit}
use incident_diag.Agent.Knowledge.{
  hit_header, hit_blocks, render_some_hits, first_fitting, render_hits,
}

module _ (score : ℕ → Bytes) (hits : List Hit) where
  -- A hit as it is shown: its document, source, path and score on a line, then its whole content.
  abbrev block : Hit → Bytes
  block h =
      codes "["
      ++ (h.document_id
          ++ (codes "] "
              ++ (h.source
                  ++ ((if is_empty h.heading_path
                        then []
                        else (0x20 ∷ (0xc2 ∷ (0xb7 ∷ (0x20 ∷ [])))) ++ h.heading_path)
                      ++ (codes " (" ++ (score h.score ++ codes ")"))))))
      ++ (codes "\n" ++ h.content)

  -- Texts with a blank line between each and the next.
  abbrev paragraphs : List Bytes → Bytes
  paragraphs [] = []
  paragraphs (x ∷ []) = x
  paragraphs (x ∷ (y ∷ xs)) = x ++ (codes "\n\n" ++ paragraphs (y ∷ xs))

  -- The first `n` hits, and behind them how many were left out, if any were.
  abbrev pub shows : ℕ → Bytes
  shows n =
      paragraphs (map block (take n hits))
      ++ (if ltb n (length hits)
          then codes "\n\n("
            ++ (decimal n
                ++ (codes " of "
                    ++ (decimal (length hits) ++ codes " hits shown; the rest did not fit)")))
          else [])

  block-append :
      (h : Hit) (rest : Bytes)
      → hit_header score h ++ (codes "\n" ++ (h.content ++ rest)) ≡ block h ++ rest
  unfolding hit_header
  block-append h rest =
      ap (λ (s : Bytes). hit_header score h ++ s) (sym (append_assoc (codes "\n") h.content rest))
      ∙ sym (append_assoc (hit_header score h) (codes "\n" ++ h.content) rest)

  hit_blocks-paragraphs :
      (h : Hit) (hs : List Hit) → hit_blocks score true (h ∷ hs) ≡ paragraphs (map block (h ∷ hs))
  unfolding hit_blocks
  hit_blocks-paragraphs h [] = block-append h [] ∙ append_nil (block h)
  hit_blocks-paragraphs h (k ∷ hs) =
      block-append h (hit_blocks score false (k ∷ hs))
      ∙ ap (λ (s : Bytes). block h ++ (codes "\n\n" ++ s)) (hit_blocks-paragraphs k hs)

  all_blocks : (hs : List Hit) → hit_blocks score true hs ≡ paragraphs (map block hs)
  unfolding hit_blocks
  all_blocks [] = refl
  all_blocks (h ∷ hs) = hit_blocks-paragraphs h hs

  render_some_hits-shows : (n : ℕ) → render_some_hits score hits n ≡ shows n
  unfolding render_some_hits
  render_some_hits-shows n = rw (all_blocks (take n hits)) refl

  -- No number of hits between `n` and `m` fits, `n` left out.
  abbrev pub NoneFits : (ℕ → Bytes) → ℕ → ℕ → Type 0
  NoneFits render n m = (k : ℕ) → n < k → k ≤ m → limit_bytes < length (render k)

  -- The text shows the first `n` hits, the largest number up to `m` that fits, or else it is a start of
  -- the first hit alone, cut at the last boundary of a rune within the cap, where no number of hits
  -- fits.
  abbrev IsCut : Bytes → Bytes → Type 0
  IsCut whole text =
      limit_bytes < length whole
      → (text ≡ take (length text) whole) × IsLastBoundary whole limit_bytes (length text)

  abbrev pub ShowsMost : (ℕ → Bytes) → ℕ → Bytes → Type 0
  ShowsMost render m text =
      ((n : ℕ) × (text ≡ render n)
        × (1 ≤ n)
        × (n ≤ m)
        × (length text ≤ limit_bytes)
        × NoneFits render n m)
      ⊎ (IsCut (render 1) text × NoneFits render 0 m)

  first_fitting-length : (m : ℕ) → length (first_fitting score hits m) ≤ limit_bytes
  unfolding first_fitting cap
  first_fitting-length zero = length-cap_at _ limit_bytes
  first_fitting-length (suc m) = ground (arith, first_fitting-length m)

  at_top : {m : ℕ} (j : ℕ) → j ≤ suc m → ¬ (j ≤ m) → j ≡ suc m
  at_top j h k = omega arith

  -- One more number that does not fit.
  NoneFits-suc :
      (n m : ℕ)
      → NoneFits (render_some_hits score hits) n m
      → leb (length (render_some_hits score hits (suc m))) limit_bytes ≡ false
      → NoneFits (render_some_hits score hits) n (suc m)
  NoneFits-suc n m none e k lt le = elim (dec_le k m) [
    | yes low ↦ none k lt low
    | no high ↦ rw (at_top k le high) (ground arith)
  ]

  ShowsMost-suc :
      (m : ℕ) (text : Bytes)
      → leb (length (render_some_hits score hits (suc m))) limit_bytes ≡ false
      → ShowsMost (render_some_hits score hits) m text
      → ShowsMost (render_some_hits score hits) (suc m) text
  ShowsMost-suc m text e (inl (n, shown, pos, le, fits, none)) =
      inl (n, shown, pos, omega arith, fits, NoneFits-suc n m none e)
  ShowsMost-suc m text e (inr (shown, none)) = inr (shown, NoneFits-suc 0 m none e)

  first_fitting-IsCut :
      IsCut (render_some_hits score hits 1) (cap (render_some_hits score hits 1)).text
  unfolding cap
  first_fitting-IsCut h =
      let (prefix, boundary, size, flag) =
        cap_at_cuts (render_some_hits score hits 1) limit_bytes h in
      (prefix, boundary)

  first_fitting-ShowsMost :
      (m : ℕ) → ShowsMost (render_some_hits score hits) m (first_fitting score hits m)
  unfolding first_fitting
  first_fitting-ShowsMost zero = inr (first_fitting-IsCut, (λ k lt le. absurd (omega arith)))
  first_fitting-ShowsMost (suc m) =
      elim (Bool-cases (leb (length (render_some_hits score hits (suc m))) limit_bytes)) [
        | inl e ↦ rw e (
            inl (
              suc m,
              refl,
              omega arith,
              omega arith,
              leb→le _ _ e,
              (λ k lt le. absurd (omega arith)),
            ))
        | inr e ↦ rw e (ShowsMost-suc m (first_fitting score hits m) e (first_fitting-ShowsMost m))
      ]

  -- The observation of a search that has hits is within the cap. It is the largest number of hits that
  -- fits, in rank order, each of them whole under a line with its document, source, path and score, with
  -- a note of how many are shown where some are left out. Only where no number of hits fits, the first
  -- one alone included, it is the first hit with that note, cut at the last boundary of a rune within
  -- the cap.
  pub render_hits_fits :
      1 ≤ length hits
      → (length (render_hits score hits) ≤ limit_bytes)
        × ShowsMost shows (length hits) (render_hits score hits)
  unfolding render_hits
  render_hits_fits pos = elim (Bool-cases (is_empty hits)) [
    | inl e ↦ absurd (omega (arith, is_empty-length hits e))
    | inr e ↦ rw e (
      first_fitting-length (length hits),
      subst (λ render. ShowsMost render (length hits) (first_fitting score hits (length hits)))
          (λ i n. render_some_hits-shows n i) (first_fitting-ShowsMost (length hits)),
    )
  ]
