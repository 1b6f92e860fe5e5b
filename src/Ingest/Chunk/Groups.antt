-- ===== src/Ingest/Chunk/Groups.antt =====
-- What packUnits makes of the units of a section: consecutive groups, each as long as it may be.
use incident_diag.Base.{
  ℕ, suc, ◌+◌, ◌≤◌, ◌≡◌, ◌⊎◌, refl, ap, ◌∙◌, true, false, List, [], ◌∷◌, ◌++◌, All, length,
  length-append, take, Bytes, arith, Bool-cases, inl, inr,
}
use mathlib.Core.List.{append_assoc}
use incident_diag.Ingest.Sections.{PackingUnit, join_units}
use incident_diag.Ingest.Chunk.{
  Chunk, new_chunk, fits, flush, begin_with, pack_unit, pack_from, pack_units,
}

abbrev pub concat : List (List PackingUnit) → List PackingUnit
concat [] = []
concat (g ∷ gs) = g ++ concat gs

module _ (estimate : Bytes → ℕ) (target start : ℕ) (p : Bytes) where
  -- One chunk for each group, numbered from `n`.
  abbrev pub chunks_of : ℕ → List (List PackingUnit) → List Chunk
  chunks_of n [] = []
  chunks_of n (g ∷ gs) = new_chunk estimate n p (join_units g) ∷ chunks_of (suc n) gs

  -- A group is not empty, and it fits the target or is a single unit.
  abbrev pub IsPacked : List PackingUnit → Type 0
  IsPacked g = (1 ≤ length g) × ((fits estimate target p (join_units g) ≡ true) ⊎ (length g ≡ 1))

  -- A group ends where its next unit would not fit, or behind a unit that is too large by itself.
  abbrev pub IsFull : List PackingUnit → List PackingUnit → Type 0
  IsFull g h =
      (fits estimate target p (join_units (g ++ take 1 h)) ≡ false)
      ⊎ ((u : PackingUnit) × (g ≡ u ∷ []) × (fits estimate target p u.text ≡ false))

  abbrev pub AreFull : List PackingUnit → List (List PackingUnit) → Type 0
  AreFull g [] = Unit
  AreFull g (h ∷ gs) = IsFull g h × AreFull h gs

  -- The rest of the loop packs the units of `g`, which are open, and `us` into groups.
  abbrev Packs : List PackingUnit → List PackingUnit → List Chunk → List Chunk → Type 0
  Packs g us out result =
      (h : List PackingUnit) × (rest : List (List PackingUnit)) × (result
        ≡ out ++ chunks_of (start + length out) (h ∷ rest))
      × (concat (h ∷ rest) ≡ g ++ us)
      × (take 1 h ≡ take 1 g)
      × All IsPacked (h ∷ rest)
      × AreFull h rest

  append_nil : (g : List PackingUnit) → g ++ [] ≡ g
  append_nil [] = refl
  append_nil (u ∷ g) = ap (◌∷◌ u) (append_nil g)

  take_first : (g us : List PackingUnit) → 1 ≤ length g → take 1 (g ++ us) ≡ take 1 g
  take_first [] us h = absurd (omega arith)
  take_first (u ∷ g) us h = refl

  -- A closed group before the others.
  closed :
      (g : List PackingUnit) (u : PackingUnit) (us : List PackingUnit) (out result : List Chunk)
      → IsPacked g
      → ((h : List PackingUnit) → take 1 h ≡ u ∷ [] → IsFull g h)
      → Packs
          (u ∷ [])
          us
          (out ++ new_chunk estimate (start + length out) p (join_units g) ∷ [])
          result
      → Packs g (u ∷ us) out result
  closed g u us out result ok full (h, rest, made, whole, first, packed, chain) = (
    g,
    h ∷ rest,
    made ∙ shifted,
    ap (λ us. g ++ us) whole,
    refl,
    (ok, packed),
    (full h first, chain),
  )
    where
      c : Chunk
      c = new_chunk estimate (start + length out) p (join_units g)

      next : start + length (out ++ c ∷ []) ≡ suc (start + length out)
      next = omega (arith, length-append out (c ∷ []))

      shifted :
          (out ++ c ∷ []) ++ chunks_of (start + length (out ++ c ∷ [])) (h ∷ rest)
          ≡ out ++ chunks_of (start + length out) (g ∷ (h ∷ rest))
      shifted =
          rw next (append_assoc out (c ∷ []) (chunks_of (suc (start + length out)) (h ∷ rest)))

  abbrev GoesOn : List PackingUnit → Type 0
  GoesOn us =
      (g : List PackingUnit) (out : List Chunk)
      → IsPacked g
      → Packs g us out (pack_from estimate target start p us (record { cur = g; out = out }))

  abbrev Begins : List PackingUnit → Type 0
  Begins us =
      (u : PackingUnit) (cur : List PackingUnit) (out : List Chunk)
      → Packs (u ∷ []) us out (
          pack_from estimate target start p us
            (begin_with estimate target start p u (record { cur = cur; out = out })))

  single : (u : PackingUnit) → IsPacked (u ∷ [])
  single u = (omega arith, inr refl)

  GoesOn-nil : GoesOn []
  unfolding pack_from flush
  GoesOn-nil [] out ok = absurd (omega (arith, ok.0))
  GoesOn-nil (u ∷ g) out ok = (u ∷ g, [], refl, refl, refl, (ok, tt), tt)

  -- What begins a group after it is closed at once, if it is too large.
  Begins-of_nil : GoesOn [] → Begins []
  unfolding begin_with flush pack_from
  Begins-of_nil on u cur out = elim (Bool-cases (fits estimate target p u.text)) [
    | inl e ↦ rw e (on (u ∷ []) out (single u))
    | inr e ↦ rw e (u ∷ [], [], refl, refl, refl, (single u, tt), tt)
  ]

  Begins-of_cons :
      (v : PackingUnit) (us : List PackingUnit) → GoesOn (v ∷ us) → Begins us → Begins (v ∷ us)
  unfolding begin_with flush pack_from pack_unit
  Begins-of_cons v us on begins u cur out = elim (Bool-cases (fits estimate target p u.text)) [
    | inl e ↦ rw e (on (u ∷ []) out (single u))
    | inr e ↦ rw e (
        closed (u ∷ []) v us out _ (single u) (λ h first. inr (u, refl, e))
          (begins v []
            (out ++ new_chunk estimate (start + length out) p (join_units (u ∷ [])) ∷ [])))
  ]

  GoesOn-cons : (u : PackingUnit) (us : List PackingUnit) → GoesOn us → Begins us → GoesOn (u ∷ us)
  unfolding pack_from pack_unit flush
  GoesOn-cons u us on begins [] out ok = absurd (omega (arith, ok.0))
  GoesOn-cons u us on begins (x ∷ g) out ok =
      elim (Bool-cases (fits estimate target p (join_units ((x ∷ g) ++ u ∷ [])))) [
        | inl e ↦ rw e (
            let (h, rest, made, whole, first, packed, full) =
              on ((x ∷ g) ++ u ∷ []) out (omega (arith, length-append g (u ∷ [])), inl e) in
            (h, rest, made, whole ∙ append_assoc (x ∷ g) (u ∷ []) us, first, packed, full))
        | inr e ↦ rw e (
            closed (x ∷ g) u us out _ ok (λ h first. inl (rw first e))
              (begins u []
                (out ++ new_chunk estimate (start + length out) p (join_units (x ∷ g)) ∷ [])))
      ]

  packs_all : (us : List PackingUnit) → GoesOn us × Begins us
  packs_all [] = (GoesOn-nil, Begins-of_nil GoesOn-nil)
  packs_all (u ∷ us) =
      let (on, begins) = packs_all us in
      let on' = GoesOn-cons u us on begins in (on', Begins-of_cons u us on' begins)

  abbrev pub FullGroups : List (List PackingUnit) → Type 0
  FullGroups [] = Unit
  FullGroups (g ∷ gs) = AreFull g gs

  -- The units of a section are packed into consecutive groups, a chunk each, numbered on from the first
  -- index: no unit is lost, moved or split. A group fits the target with its path or is a single unit,
  -- and it ends only where its next unit would not fit or behind a unit too large by itself.
  pub pack_units_lem :
      (us : List PackingUnit)
      → (gs : List (List PackingUnit)) × (pack_units estimate target start p us
          ≡ chunks_of start gs)
        × (concat gs ≡ us)
        × All IsPacked gs
        × FullGroups gs
  unfolding pack_units pack_from flush pack_unit
  pack_units_lem [] = ([], refl, refl, tt, tt)
  pack_units_lem (u ∷ us) =
      let (h, rest, made, whole, first, packed, full) = (packs_all us).1 u [] [] in
      (h ∷ rest, made ∙ rw (zero_right start) refl, whole, packed, full)
    where
      zero_right : (n : ℕ) → n + 0 ≡ n
      zero_right n = omega arith
