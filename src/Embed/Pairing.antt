-- ===== src/Embed/Pairing.antt =====
-- internal/embed/embed.go, pair: a vector for each text, and the one of its index.
use incident_diag.Base.{
  ℕ, zero, suc, ◌+◌, ◌≤◌, ◌≡◌, refl, ap, ◌∙◌, ◌⊎◌, inl, inr, Bool, true, false, List, [], ◌∷◌,
  Option, none, some, get_elem?, length, count, arith, Option-cases, Bool-cases, ◌==◌,
}
use incident_diag.Retry.{ok, err}
use incident_diag.Embed.{
  dimensions, EmbedError, bad_response, dimension_error, Item, nil_vectors, set, taken, refused,
  place, pair,
}

-- The errors of `pair`.
abbrev pub IsPairError : EmbedError → Type 0
IsPairError e = (e ≡ bad_response) ⊎ (e ≡ dimension_error)

module _ {V : Type 0} where
  abbrev is_filled : Option (List V) → Bool
  is_filled none = false
  is_filled (some v) = true

  -- An item of the response with an index and a vector.
  abbrev pub Has : List (Item V) → ℕ → List V → Type 0
  Has [] i v = ⊥
  Has (x ∷ xs) i v = ((x.index ≡ some i) × (x.embedding ≡ v)) ⊎ Has xs i v

  length-set :
      (i : ℕ) (v : List V) (out : List (Option (List V))) → length (set i v out) ≡ length out
  unfolding set
  length-set i v [] = refl
  length-set zero v (x ∷ out) = refl
  length-set (suc i) v (x ∷ out) = ap suc (length-set i v out)

  count-set :
      (i : ℕ) (v : List V) (out : List (Option (List V)))
      → taken (get_elem? out i) ≡ false
      → count is_filled (set i v out) ≡ suc (count is_filled out)
  unfolding set taken
  count-set i v [] h = cc
  count-set zero v (none ∷ out) h = omega arith
  count-set zero v (some x ∷ out) h = cc
  count-set (suc i) v (x ∷ out) h = omega (arith, count-set i v out h)

  get_elem?-set :
      (i j : ℕ) (v : List V) (out : List (Option (List V))) (u : List V)
      → get_elem? (set i v out) j ≡ some (some u)
      → ((i ≡ j) × (v ≡ u)) ⊎ (get_elem? out j ≡ some (some u))
  unfolding set
  get_elem?-set i j v [] u h = inr h
  get_elem?-set zero zero v (x ∷ out) u h = inl (refl, cc)
  get_elem?-set zero (suc j) v (x ∷ out) u h = inr h
  get_elem?-set (suc i) zero v (x ∷ out) u h = inr h
  get_elem?-set (suc i) (suc j) v (x ∷ out) u h = elim (get_elem?-set i j v out u h) [
    | inl e ↦ inl (ap suc e.0, e.1)
    | inr e ↦ inr e
  ]

  refused_cases :
      (want i : ℕ) (v : List V) (out : List (Option (List V)))
      → refused want i v out ≡ none
      → (taken (get_elem? out i) ≡ false) × (length v ≡ dimensions)
  unfolding refused
  refused_cases want i v out h = ground arith

  -- A response that is placed has its next item placed.
  place_cases :
      (want : ℕ) (x : Item V) (xs : List (Item V)) (out res : List (Option (List V)))
      → place want (x ∷ xs) out ≡ ok res
      → (i : ℕ) × ((x.index ≡ some i)
          × ((refused want i x.embedding out ≡ none)
              × (place want xs (set i x.embedding out) ≡ ok res)))
  unfolding place
  place_cases want x xs out res h = elim (Option-cases x.index) [
    | inl e ↦ cc
    | inr (i, e) ↦ elim (Option-cases (refused want i x.embedding out)) [
      | inl f ↦ (i, (e, (f, cc)))
      | inr (_, f) ↦ cc
    ]
  ]

  place_lem :
      (want : ℕ) (items : List (Item V)) (out res : List (Option (List V)))
      → place want items out ≡ ok res
      → (length res ≡ length out)
        × ((count is_filled res ≡ length items + count is_filled out)
            × ((i : ℕ) (v : List V)
                → get_elem? res i ≡ some (some v)
                → (get_elem? out i ≡ some (some v)) ⊎ (Has items i v × (length v ≡ dimensions))))
  unfolding place
  place_lem want [] out res h =
      let e : res ≡ out = cc in
      (ap length e, (omega (arith, ap (count is_filled) e), λ i v f. inl cc))
  place_lem want (x ∷ xs) out res h =
      let (j, (e, (f, g))) = place_cases want x xs out res h in
      let (fresh, long) = refused_cases want j x.embedding out f in
      let (same, (more, from)) = place_lem want xs (set j x.embedding out) res g in
      (
        same ∙ length-set j x.embedding out,
        (
          omega (arith, more, count-set j x.embedding out fresh),
          λ i v k. elim (from i v k) [
            | inr (has, n) ↦ inr (inr has, n)
            | inl k ↦ elim (get_elem?-set j i x.embedding out v k) [
              | inl (p, q) ↦ inr (inl (cc, q), cc)
              | inr k ↦ inl k
            ]
          ],
        ),
      )

  count_le : (out : List (Option (List V))) → count is_filled out ≤ length out
  count_le [] = omega arith
  count_le (none ∷ out) = omega (arith, count_le out)
  count_le (some v ∷ out) = omega (arith, count_le out)

  full-get_elem? :
      (out : List (Option (List V))) (i : ℕ)
      → count is_filled out ≡ length out
      → suc i ≤ length out
      → (v : List V) × (get_elem? out i ≡ some (some v))
  full-get_elem? [] i h k = let b : ⊥ = omega arith in elim b [ ]
  full-get_elem? (none ∷ out) i h k = let b : ⊥ = omega (arith, count_le out) in elim b [ ]
  full-get_elem? (some v ∷ out) zero h k = (v, refl)
  full-get_elem? (some v ∷ out) (suc i) h k = full-get_elem? out i (omega arith) (omega arith)

module _ (V : Type 0) where
  length-nil_vectors : (n : ℕ) → length (nil_vectors {V = V} n) ≡ n
  unfolding nil_vectors
  length-nil_vectors zero = refl
  length-nil_vectors (suc n) = ap suc (length-nil_vectors n)

  count-nil_vectors : (n : ℕ) → count is_filled (nil_vectors {V = V} n) ≡ 0
  unfolding nil_vectors
  count-nil_vectors zero = refl
  count-nil_vectors (suc n) = omega (arith, count-nil_vectors n)

  get_elem?-nil_vectors : (n i : ℕ) (v : List V) → ¬ (get_elem? (nil_vectors n) i ≡ some (some v))
  unfolding nil_vectors
  get_elem?-nil_vectors zero i v h = cc
  get_elem?-nil_vectors (suc n) zero v h = cc
  get_elem?-nil_vectors (suc n) (suc i) v h = get_elem?-nil_vectors n i v h

  pair_cases :
      (items : List (Item V)) (want : ℕ) (out : List (Option (List V)))
      → pair items want ≡ ok out
      → (length items ≡ want) × (place want items (nil_vectors want) ≡ ok out)
  unfolding pair
  pair_cases items want out h = ground arith

  -- Where a response is paired, there is one vector for each text, none is missing, and the vector of
  -- each text has 1024 numbers and is the one that an item of the response has for this index.
  pub pair-IsPaired :
      (items : List (Item V)) (want : ℕ) (out : List (Option (List V)))
      → pair items want ≡ ok out
      → (length out ≡ want)
        × (((i : ℕ) → suc i ≤ want → (v : List V) × (get_elem? out i ≡ some (some v)))
            × ((i : ℕ) (v : List V)
                → get_elem? out i ≡ some (some v)
                → Has items i v × (length v ≡ dimensions)))
  pair-IsPaired items want out h =
      let (n, g) = pair_cases items want out h in
      let (same, (more, from)) = place_lem want items (nil_vectors want) out g in
      let l = length-nil_vectors want in
      (
        same ∙ l,
        (
          λ i k. full-get_elem? out i (omega (arith, count-nil_vectors want)) (omega arith),
          λ i v k. elim (from i v k) [
            | inl e ↦ elim (get_elem?-nil_vectors want i v e) [ ]
            | inr e ↦ e
          ],
        ),
      )

module _ {V : Type 0} where
  refused_errors :
      (want i : ℕ) (v : List V) (out : List (Option (List V))) (e : EmbedError)
      → refused want i v out ≡ some e
      → IsPairError e
  unfolding refused
  refused_errors want i v out e h = ground arith

  place_errors :
      (want : ℕ) (items : List (Item V)) (out : List (Option (List V))) (e : EmbedError)
      → place want items out ≡ err e
      → IsPairError e
  unfolding place
  place_errors want [] out e h = cc
  place_errors want (x ∷ xs) out e h = elim (Option-cases x.index) [
    | inl k ↦ inl cc
    | inr (i, k) ↦ elim (Option-cases (refused want i x.embedding out)) [
      | inl f ↦ place_errors want xs (set i x.embedding out) e cc
      | inr (g, f) ↦ refused_errors want i x.embedding out e cc
    ]
  ]

  pub pair_errors :
      (items : List (Item V)) (want : ℕ) (e : EmbedError) → pair items want ≡ err e → IsPairError e
  unfolding pair
  pair_errors items want e h = elim (Bool-cases (length items == want)) [
    | inl t ↦ place_errors want items (nil_vectors want) e (rw t at h)
    | inr t ↦ inl cc
  ]
