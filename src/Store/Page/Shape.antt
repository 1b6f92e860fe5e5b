-- ===== src/Store/Page/Shape.antt =====
-- internal/store/store.go, paginate: the two shapes of a page.
use incident_diag.Base.{
  ℕ, zero, suc, ◌+◌, ◌-◌, ◌<◌, ◌≤◌, ◌≡◌, refl, List, [], ◌∷◌, none, some, arith, take, drop,
  get_elem?, length, length-take, ap, gt→leb, le→leb,
}
use incident_diag.Store.Page.{PageParams, normal_limit, last_id, paginate}

pub normal_limit_bounds : (limit : ℕ) → (1 ≤ normal_limit limit) × (normal_limit limit ≤ 100)
unfolding normal_limit
normal_limit_bounds limit = ground arith

module _ {ℓ} {A : Type ℓ} where
  pub get_elem?-some : (xs : List A) (i : ℕ) → i < length xs → (y : A) × (get_elem? xs i ≡ some y)
  get_elem?-some [] i h = absurd (omega arith)
  get_elem?-some (x ∷ xs) zero h = (x, refl)
  get_elem?-some (x ∷ xs) (suc i) h = get_elem?-some xs i (omega arith)

  get_elem?-take : (xs : List A) (i n : ℕ) → i < n → get_elem? (take n xs) i ≡ get_elem? xs i
  get_elem?-take xs i zero h = absurd (omega arith)
  get_elem?-take [] i (suc n) h = refl
  get_elem?-take (x ∷ xs) zero (suc n) h = refl
  get_elem?-take (x ∷ xs) (suc i) (suc n) h = get_elem?-take xs i n (omega arith)

  take-take : (xs : List A) (n m : ℕ) → n ≤ m → take n (take m xs) ≡ take n xs
  take-take xs zero m h = refl
  take-take xs (suc n) zero h = absurd (omega arith)
  take-take [] (suc n) (suc m) h = refl
  take-take (x ∷ xs) (suc n) (suc m) h = ap (◌∷◌ x) (take-take xs n m (omega arith))

  take_all : (n : ℕ) (xs : List A) → length xs ≤ n → take n xs ≡ xs
  take_all zero [] h = refl
  take_all zero (x ∷ xs) h = absurd (omega arith)
  take_all (suc n) [] h = refl
  take_all (suc n) (x ∷ xs) h = ap (◌∷◌ x) (take_all n xs (omega arith))

  pub length-drop : (n : ℕ) (xs : List A) → length (drop n xs) ≡ length xs - n
  length-drop zero xs = omega arith
  length-drop (suc n) [] = omega arith
  length-drop (suc n) (x ∷ xs) = omega (arith, length-drop n xs)

  pub is_nil : (xs : List A) → length xs ≤ 0 → xs ≡ []
  is_nil [] h = refl
  is_nil (x ∷ xs) h = absurd (omega arith)

module _ {ℓ} {A : Type ℓ} (id_of : A → ℕ) where
  -- The two shapes of a page: the rest of the rows, or a full page and the id of its last item.
  pub paginate_rest :
      (rows : List A) (p : PageParams)
      → length rows ≤ p.limit
      → paginate id_of (take (p.limit + 1) rows) p ≡ record { items = rows; next_cursor = none }
  unfolding paginate
  paginate_rest rows p h =
      rw (take_all (p.limit + 1) rows (omega arith), le→leb (length rows) p.limit h) refl

  pub paginate_full :
      (rows : List A) (p : PageParams) (y : A)
      → 1 ≤ p.limit
      → p.limit < length rows
      → get_elem? rows (p.limit - 1) ≡ some y
      → paginate id_of (take (p.limit + 1) rows) p
        ≡ record { items = take p.limit rows; next_cursor = some (id_of y) }
  unfolding paginate last_id
  paginate_full rows p y pos more e =
      let n = p.limit in
      let size : length (take (n + 1) rows) ≡ n + 1 =
        omega (arith, length-take (n + 1) rows, more) in
      let full : length (take n rows) ≡ n = omega (arith, length-take n rows) in
      let last : get_elem? (take n rows) (n - 1) ≡ some y =
        rw (get_elem?-take rows (n - 1) n (omega arith)) e in
      rw
        (
          size,
          gt→leb (n + 1) n (λ h. omega arith),
          take-take rows n (n + 1) (omega arith),
          full,
          last,
        )
        refl
