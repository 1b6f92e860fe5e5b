-- ===== src/Store/Page/Order.antt =====
-- `ORDER BY id DESC`: the rows by descending id.
use incident_diag.Base.{
  ℕ, zero, suc, ◌<◌, ◌≤◌, ◌≡◌, refl, Bool, List, [], ◌∷◌, ◌==◌, leb, ltb, if◌then◌else◌, arith,
  count, filter, drop, get_elem?, some, length, All, All-map, All-filter, All-get_elem?,
  count-filter_le, ap, gt→leb, dec_le, le→leb,
}

module _ {ℓ} {A : Type ℓ} (key : A → ℕ) where
  unfoldable pub insert : A → List A → List A
  insert x [] = x ∷ []
  insert x (y ∷ ys) = if leb (key y) (key x) then x ∷ (y ∷ ys) else y ∷ insert x ys

  unfoldable pub order_desc : List A → List A
  unfolding insert
  order_desc [] = []
  order_desc (x ∷ xs) = insert x (order_desc xs)

  -- Every id once, as the primary key has it.
  abbrev pub IsKeyed : List A → Type 0
  IsKeyed xs = (i : ℕ) → count (λ x. key x == i) xs ≤ 1

  abbrev pub Descends : List A → Type 0
  Descends [] = Unit
  Descends (x ∷ xs) = All (λ y. key y < key x) xs × Descends xs

  count-insert : (q : A → Bool) (x : A) (xs : List A) → count q (insert x xs) ≡ count q (x ∷ xs)
  unfolding insert
  count-insert q x [] = refl
  count-insert q x (y ∷ ys) = ground (arith, count-insert q x ys)

  pub count-order_desc : (q : A → Bool) (xs : List A) → count q (order_desc xs) ≡ count q xs
  unfolding order_desc
  count-order_desc q [] = refl
  count-order_desc q (x ∷ xs) =
      omega (arith, count-insert q x (order_desc xs), count-order_desc q xs)

  length-insert : (x : A) (xs : List A) → length (insert x xs) ≡ suc (length xs)
  unfolding insert
  length-insert x [] = refl
  length-insert x (y ∷ ys) = ground (arith, length-insert x ys)

  pub length-order_desc : (xs : List A) → length (order_desc xs) ≡ length xs
  unfolding order_desc
  length-order_desc [] = refl
  length-order_desc (x ∷ xs) = omega (arith, length-insert x (order_desc xs), length-order_desc xs)

  All-insert {κ} : (P : A → Type κ) (x : A) (xs : List A) → P x → All P xs → All P (insert x xs)
  unfolding insert
  All-insert P x [] h k = (h, tt)
  All-insert P x (y ∷ ys) h k = ground (arith, All-insert P x ys h k.1)

  All-lt :
      (x y : A) (xs : List A)
      → key y ≤ key x
      → All (λ z. key z < key y) xs
      → All (λ z. key z < key x) xs
  All-lt x y xs le h = All-map (λ z. key z < key y) (λ z. key z < key x) xs (λ z k. omega arith) h

  -- Where no row has the id of `x`, the rows at or below it are below it.
  All-absent :
      (x : A) (ys : List A)
      → count (λ y. key y == key x) ys ≡ 0
      → All (λ y. key y ≤ key x) ys
      → All (λ y. key y < key x) ys
  All-absent x [] c h = tt
  All-absent x (y ∷ ys) c h = (ground (arith, h.0), All-absent x ys (ground arith) h.1)

  insert-Descends :
      (x : A) (xs : List A)
      → count (λ y. key y == key x) xs ≡ 0
      → Descends xs
      → Descends (insert x xs)
  unfolding insert
  insert-Descends x [] c h = (tt, tt)
  insert-Descends x (y ∷ ys) c h = elim (dec_le (key y) (key x)) [
    | yes le ↦ rw (le→leb (key y) (key x) le) ((ground arith, All-lt x y ys le h.0), h)
    | no gt ↦ rw (gt→leb (key y) (key x) gt) (
      All-insert (λ z. key z < key y) x ys (omega arith) h.0,
      insert-Descends x ys (ground arith) h.1,
    )
  ]

  insert_greatest : (x : A) (ys : List A) → All (λ y. key y < key x) ys → insert x ys ≡ x ∷ ys
  unfolding insert
  insert_greatest x [] h = refl
  insert_greatest x (y ∷ ys) h = ground (arith, h.0)

  filter-insert :
      (p : A → Bool) (x : A) (xs : List A)
      → count (λ y. key y == key x) xs ≡ 0
      → Descends xs
      → filter p (insert x xs) ≡ (if p x then insert x (filter p xs) else filter p xs)
  unfolding insert
  filter-insert p x [] c h = ground arith
  filter-insert p x (y ∷ ys) c h = elim (dec_le (key y) (key x)) [
    | yes le ↦ rw (le→leb (key y) (key x) le) (
        ground (
          arith,
          insert_greatest x (filter p (y ∷ ys))
              (All-filter (λ z. key z < key x) p (y ∷ ys) (ground arith, All-lt x y ys le h.0)),
        ))
    | no gt ↦
        rw (gt→leb (key y) (key x) gt) (ground (arith, filter-insert p x ys (ground arith) h.1))
  ]

  IsKeyed-rest : (x : A) (xs : List A) → IsKeyed (x ∷ xs) → IsKeyed xs
  IsKeyed-rest x xs h i = ground (arith, h i)

  IsKeyed-absent : (x : A) (xs : List A) → IsKeyed (x ∷ xs) → count (λ y. key y == key x) xs ≡ 0
  IsKeyed-absent x xs h = ground (arith, h (key x))

  absent-order_desc :
      (x : A) (xs : List A) → IsKeyed (x ∷ xs) → count (λ y. key y == key x) (order_desc xs) ≡ 0
  absent-order_desc x xs h =
      omega (arith, count-order_desc (λ y. key y == key x) xs, IsKeyed-absent x xs h)

  pub order_desc-Descends : (xs : List A) → IsKeyed xs → Descends (order_desc xs)
  unfolding order_desc
  order_desc-Descends [] h = tt
  order_desc-Descends (x ∷ xs) h =
      insert-Descends x (order_desc xs) (absent-order_desc x xs h)
        (order_desc-Descends xs (IsKeyed-rest x xs h))

  -- The conditions of a WHERE clause may be applied to the ordered rows.
  pub filter-order_desc :
      (p : A → Bool) (xs : List A)
      → IsKeyed xs
      → filter p (order_desc xs) ≡ order_desc (filter p xs)
  unfolding order_desc
  filter-order_desc p [] h = refl
  filter-order_desc p (x ∷ xs) h =
      let ih = filter-order_desc p xs (IsKeyed-rest x xs h) in
      ground (
        arith,
        ih,
        filter-insert p x (order_desc xs) (absent-order_desc x xs h)
            (order_desc-Descends xs (IsKeyed-rest x xs h)),
      )

  pub filter-Descends : (p : A → Bool) (xs : List A) → Descends xs → Descends (filter p xs)
  filter-Descends p [] h = tt
  filter-Descends p (x ∷ xs) h =
      ground (arith, All-filter (λ y. key y < key x) p xs h.0, filter-Descends p xs h.1)

  filter_below :
      (c : ℕ) (xs : List A) → All (λ x. key x < c) xs → filter (λ x. ltb (key x) c) xs ≡ xs
  filter_below c [] h = refl
  filter_below c (x ∷ xs) h = ground (arith, filter_below c xs h.1, h.0)

  filter_first :
      (x : A) (xs : List A) (c : ℕ)
      → key x ≡ c
      → All (λ z. key z < key x) xs
      → filter (λ z. ltb (key z) c) (x ∷ xs) ≡ xs
  filter_first x xs c e h =
      let below : All (λ z. key z < c) xs = rw (← e) h in ground (arith, filter_below c xs below)

  -- Below the id of a row stand the rows after it.
  pub filter-drop :
      (xs : List A) (i : ℕ) (y : A)
      → Descends xs
      → get_elem? xs i ≡ some y
      → filter (λ x. ltb (key x) (key y)) xs ≡ drop (suc i) xs
  filter-drop [] i y h e = cc
  filter-drop (x ∷ xs) zero y h e =
      let same : x ≡ y = cc in filter_first x xs (key y) (ap key same) h.0
  filter-drop (x ∷ xs) (suc i) y h e =
      ground (arith, All-get_elem? (λ z. key z < key x) xs i y h.0 e, filter-drop xs i y h.1 e)

  pub All-order_desc {κ} : (P : A → Type κ) (xs : List A) → All P xs → All P (order_desc xs)
  unfolding order_desc
  All-order_desc P [] h = tt
  All-order_desc P (x ∷ xs) h = All-insert P x (order_desc xs) h.0 (All-order_desc P xs h.1)

  pub filter-IsKeyed : (p : A → Bool) (xs : List A) → IsKeyed xs → IsKeyed (filter p xs)
  filter-IsKeyed p xs h i = omega (arith, count-filter_le (λ x. key x == i) p xs, h i)
