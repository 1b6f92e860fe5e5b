-- ===== src/Store/Table.antt =====
-- A table is the list of its rows. An UPDATE rewrites the rows that its WHERE clause picks, and the
-- driver reports whether any row was changed.
use incident_diag.Base.{
  ◌≤◌, ◌≡◌, refl, Bool, true, false, List, [], ◌∷◌, ◌++◌, Option, none, some, if◌then◌else◌, arith,
  count, any, count-append, count-unpassed,
}

module _ {ℓ} {A : Type ℓ} where
  unfoldable pub update_where : (A → Bool) → (A → A) → List A → List A
  update_where p f [] = []
  update_where p f (x ∷ xs) = (if p x then f x else x) ∷ update_where p f xs

  -- The row that `WHERE id = ?` selects: ids are a primary key.
  unfoldable pub find : (A → Bool) → List A → Option A
  find p [] = none
  find p (x ∷ xs) = if p x then some x else find p xs

  pub any_of_none :
      (p q : A → Bool) (xs : List A)
      → ((y : A) → p y ≡ true → q y ≡ true)
      → count q xs ≡ 0
      → any p xs ≡ false
  any_of_none p q [] k c = refl
  any_of_none p q (x ∷ xs) k c = ground (arith, any_of_none p q xs k, k x)

  pub update_where_none :
      (p : A → Bool) (f : A → A) (xs : List A) → any p xs ≡ false → update_where p f xs ≡ xs
  unfolding update_where
  update_where_none p f [] h = refl
  update_where_none p f (x ∷ xs) h = ground (arith, update_where_none p f xs)

  -- A test that the update does not turn on is passed by no more rows than before.
  pub count-update_where :
      (q p : A → Bool) (f : A → A) (xs : List A)
      → ((x : A) → p x ≡ true → q (f x) ≡ true → q x ≡ true)
      → count q (update_where p f xs) ≤ count q xs
  unfolding update_where
  count-update_where q p f [] h = omega arith
  count-update_where q p f (x ∷ xs) h = ground (arith, count-update_where q p f xs h, h x)

  pub find-update_where_other :
      (q p : A → Bool) (f : A → A) (xs : List A)
      → ((x : A) → p x ≡ true → q x ≡ false)
      → ((x : A) → p x ≡ true → q (f x) ≡ false)
      → find q (update_where p f xs) ≡ find q xs
  unfolding update_where find
  find-update_where_other q p f [] h k = refl
  find-update_where_other q p f (x ∷ xs) h k =
      ground (arith, find-update_where_other q p f xs h k, h x, k x)

  -- The first row of a key is the one that is rewritten, if the update passes its test.
  pub find-update_where :
      (q p : A → Bool) (f : A → A) (xs : List A) (r : A)
      → ((y : A) → q (f y) ≡ q y)
      → find q xs ≡ some r
      → find q (update_where p f xs) ≡ some (if p r then f r else r)
  unfolding update_where find
  find-update_where q p f [] r k e = cc
  find-update_where q p f (x ∷ xs) r k e = ground (arith, find-update_where q p f xs r k, k x)

  pub find_passes : (q : A → Bool) (xs : List A) (r : A) → find q xs ≡ some r → q r ≡ true
  unfolding find
  find_passes q [] r e = cc
  find_passes q (x ∷ xs) r e = ground (arith, find_passes q xs r)

  pub find-any :
      (p q : A → Bool) (xs : List A) (r : A) → find q xs ≡ some r → p r ≡ true → any p xs ≡ true
  unfolding find
  find-any p q [] r e h = cc
  find-any p q (x ∷ xs) r e h = ground (arith, find-any p q xs r)

  -- With at most one row of a key, no other row of that key passes the test.
  pub find-missed :
      (p q : A → Bool) (xs : List A) (r : A)
      → ((y : A) → p y ≡ true → q y ≡ true)
      → count q xs ≤ 1
      → find q xs ≡ some r
      → p r ≡ false
      → any p xs ≡ false
  unfolding find
  find-missed p q [] r k c e h = cc
  find-missed p q (x ∷ xs) r k c e h =
      ground (arith, find-missed p q xs r k, k x, any_of_none p q xs k)

  pub find-append :
      (q : A → Bool) (xs ys : List A) (r : A) → find q xs ≡ some r → find q (xs ++ ys) ≡ some r
  unfolding find
  find-append q [] ys r e = cc
  find-append q (x ∷ xs) ys r e = ground (arith, find-append q xs ys r)

  -- A row is added where no other passes the test.
  pub count-insert :
      (q : A → Bool) (xs : List A) (r : A)
      → (q r ≡ true → any q xs ≡ false)
      → count q xs ≤ 1
      → count q (xs ++ r ∷ []) ≤ 1
  count-insert q xs r free c = ground (arith, count-append q xs (r ∷ []), count-unpassed q xs, free)
