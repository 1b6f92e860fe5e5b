-- ===== src/Reconcile/Sweep.antt =====
-- What a sweep sends and what it reports, for any table, producer and world.
use incident_diag.Base.{
  ℕ, ◌+◌, ◌≡◌, refl, Bool, true, false, List, [], ◌∷◌, map, Option, filter, length, count,
  if◌then◌else◌, arith, length-filter, length-map, Bool-cases, inl, inr, ◌∙◌,
}
use incident_diag.Store.Candidates.{Category, Candidate}
use incident_diag.Reconcile.{Stats, total, no_stats, visit, visit_all, sweep}

module _ {W : Type 0} (produce : ℕ → W → Bool × W) where
  -- The messages of a list of ids, one after the other, whatever becomes of each.
  unfoldable pub produce_each : List ℕ → W → W
  produce_each [] w = w
  produce_each (id ∷ ids) w = produce_each ids (produce id w).1

  -- How many of them the producer accepts.
  unfoldable pub accepted : List ℕ → W → ℕ
  accepted [] w = 0
  accepted (id ∷ ids) w = (if (produce id w).0 then 1 else 0) + accepted ids (produce id w).1

module _ {W : Type 0} (produce : ℕ → W → Bool × W) {S : Type 0}
    (due : Candidate S → Option Category × Bool) where
  -- The ids of the rows that are due, in the order of the query.
  abbrev pub due_ids : List (Candidate S) → List ℕ
  due_ids cs = map (λ c. c.id) (filter (λ c. (due c).1) cs)

  visit_skips :
      (c : Candidate S) (s : Stats) (w : W) → (due c).1 ≡ false → visit produce due c s w ≡ (s, w)
  unfolding visit
  visit_skips c s w h = ground arith

  visit_sends :
      (c : Candidate S) (s : Stats) (w : W)
      → (due c).1 ≡ true
      → let (s', w') = visit produce due c s w in
        (w' ≡ (produce c.id w).1)
        × (s'.candidates ≡ s.candidates)
        × (total s' ≡ total s + (if (produce c.id w).0 then 1 else 0))
        × (total s' + s'.failed ≡ total s + s.failed + 1)
  unfolding visit total
  visit_sends c s w h = ground arith

  visit_all_world :
      (cs : List (Candidate S)) (s : Stats) (w : W)
      → (visit_all produce due cs s w).1 ≡ produce_each produce (due_ids cs) w
  unfolding visit_all produce_each
  visit_all_world [] s w = refl
  visit_all_world (c ∷ cs) s w = elim (Bool-cases (due c).1) [
    | inl e ↦ ground (
      arith,
      visit_sends c s w e,
      visit_all_world cs (visit produce due c s w).0 (visit produce due c s w).1,
    )
    | inr e ↦ ground (arith, visit_skips c s w e, visit_all_world cs s w)
  ]

  visit_all_counts :
      (cs : List (Candidate S)) (s : Stats) (w : W)
      → let s' = (visit_all produce due cs s w).0 in
        (s'.candidates ≡ s.candidates)
        × (total s' ≡ total s + accepted produce (due_ids cs) w)
        × (total s' + s'.failed ≡ total s + s.failed + length (due_ids cs))
  unfolding visit_all accepted
  visit_all_counts [] s w = omega arith
  visit_all_counts (c ∷ cs) s w = elim (Bool-cases (due c).1) [
    | inl e ↦ ground (
      arith,
      visit_sends c s w e,
      visit_all_counts cs (visit produce due c s w).0 (visit produce due c s w).1,
    )
    | inr e ↦ ground (arith, visit_skips c s w e, visit_all_counts cs s w)
  ]

  -- A sweep tries to produce one message for each row that is due and for no other, in the order of
  -- the query, going on past a failure; it counts a message as enqueued exactly when the producer
  -- accepted it and as failed otherwise, and it reports how many rows it looked at.
  pub sweep_lem :
      (cs : List (Candidate S)) (w : W)
      → let (s, w') = sweep produce due cs w in
        (w' ≡ produce_each produce (due_ids cs) w)
        × (total s ≡ accepted produce (due_ids cs) w)
        × (total s + s.failed ≡ count (λ c. (due c).1) cs)
        × (s.candidates ≡ length cs)
  unfolding sweep total
  sweep_lem cs w =
      let (listed, sent, tried) = visit_all_counts cs (no_stats (length cs)) w in
      (
        visit_all_world cs (no_stats (length cs)) w,
        sent ∙ omega arith,
        tried
            ∙ omega (
              arith,
              length-map (λ (c : Candidate S). c.id) (filter (λ c. (due c).1) cs),
              length-filter (λ (c : Candidate S). (due c).1) cs,
            ),
        listed,
      )
