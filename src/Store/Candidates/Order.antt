-- ===== src/Store/Candidates/Order.antt =====
-- `ORDER BY id`: the rows by ascending id.
use incident_diag.Base.{
  ℕ, suc, ◌≡◌, refl, Bool, List, [], ◌∷◌, leb, if◌then◌else◌, arith, count, length,
}

module _ {ℓ} {A : Type ℓ} (key : A → ℕ) where
  unfoldable pub insert : A → List A → List A
  insert x [] = x ∷ []
  insert x (y ∷ ys) = if leb (key x) (key y) then x ∷ (y ∷ ys) else y ∷ insert x ys

  unfoldable pub order_by : List A → List A
  unfolding insert
  order_by [] = []
  order_by (x ∷ xs) = insert x (order_by xs)

  count-insert : (q : A → Bool) (x : A) (xs : List A) → count q (insert x xs) ≡ count q (x ∷ xs)
  unfolding insert
  count-insert q x [] = refl
  count-insert q x (y ∷ ys) = ground (arith, count-insert q x ys)

  pub count-order_by : (q : A → Bool) (xs : List A) → count q (order_by xs) ≡ count q xs
  unfolding order_by
  count-order_by q [] = refl
  count-order_by q (x ∷ xs) = omega (arith, count-insert q x (order_by xs), count-order_by q xs)

  length-insert : (x : A) (xs : List A) → length (insert x xs) ≡ suc (length xs)
  unfolding insert
  length-insert x [] = refl
  length-insert x (y ∷ ys) = ground (arith, length-insert x ys)

  pub length-order_by : (xs : List A) → length (order_by xs) ≡ length xs
  unfolding order_by
  length-order_by [] = refl
  length-order_by (x ∷ xs) = omega (arith, length-insert x (order_by xs), length-order_by xs)
