-- ===== src/Lab/Checkout/Book.antt =====
-- internal/lab/checkout.go, orderBook: the book holds the latest orders.
use incident_diag.Base.{
  ℕ, zero, suc, ◌+◌, ◌-◌, ◌≤◌, ◌≡◌, refl, sym, ap, ◌∙◌, Bool, List, [], ◌∷◌, ◌++◌, map, arith, ltb,
  drop, length, count, length-append, length-map, append_assoc, append_nil, count-append, if-cases,
  dec_le,
}
use mathlib.Core.Path.{subst}
use incident_diag.Lab.Checkout.{
  Order, OrderBook, has_id, new_order_book, set_order, delete_order, evict, put,
}

-- Orders that are put one after the other.
unfoldable pub puts : OrderBook → List Order → OrderBook
puts b [] = b
puts b (o ∷ os) = puts (put o b) os

-- The orders that a book of a size holds of all that were put.
abbrev pub latest : ℕ → List Order → List Order
latest max os = drop (length os - max) os

abbrev ids : List Order → List ℕ
ids os = map (λ (o : Order). o.id) os

abbrev book : ℕ → List Order → OrderBook
book max os = record { by_id = os; order = ids os; max = max }

-- Every order has its own id.
abbrev pub HasKeys : List Order → Type 0
HasKeys os = (id : ℕ) → count (has_id id) os ≤ 1

module _ {ℓ} {A : Type ℓ} where
  drop_nil : (n : ℕ) → drop {A = A} n [] ≡ []
  drop_nil zero = refl
  drop_nil (suc n) = refl

  drop-drop : (n m : ℕ) (xs : List A) → drop n (drop m xs) ≡ drop (m + n) xs
  drop-drop n zero xs = ap (λ k. drop k xs) (omega arith)
  drop-drop n (suc m) [] = drop_nil n ∙ sym (drop_nil (suc m + n))
  drop-drop n (suc m) (x ∷ xs) =
      let sum : suc (m + n) ≡ suc m + n = omega arith in
      drop-drop n m xs ∙ ap (λ k. drop k (x ∷ xs)) sum

  drop-append : (n : ℕ) (xs ys : List A) → n ≤ length xs → drop n (xs ++ ys) ≡ drop n xs ++ ys
  drop-append zero xs ys h = refl
  drop-append (suc n) [] ys h = absurd (omega arith)
  drop-append (suc n) (x ∷ xs) ys h = drop-append n xs ys (omega arith)

  count-drop_le : (q : A → Bool) (n : ℕ) (xs : List A) → count q (drop n xs) ≤ count q xs
  count-drop_le q zero xs = omega arith
  count-drop_le q (suc n) [] = omega arith
  count-drop_le q (suc n) (x ∷ xs) = omega (arith, count-drop_le q n xs)

  length-drop : (n : ℕ) (xs : List A) → length (drop n xs) ≡ length xs - n
  length-drop zero xs = omega arith
  length-drop (suc n) [] = omega arith
  length-drop (suc n) (x ∷ xs) = omega (arith, length-drop n xs)

delete_absent : (id : ℕ) (os : List Order) → count (has_id id) os ≡ 0 → delete_order id os ≡ os
unfolding delete_order
delete_absent id [] h = refl
delete_absent id (o ∷ os) h = ground (arith, delete_absent id os)

evict_fits :
    (is : List ℕ) (max : ℕ) (os : List Order)
    → length is ≤ max
    → evict is max os ≡ record { by_id = os; order = is; max = max }
unfolding evict
evict_fits [] max os h = refl
evict_fits (i ∷ is) max os h = ground arith

delete_head :
    (o : Order) (os : List Order) → count (has_id o.id) os ≡ 0 → delete_order o.id (o ∷ os) ≡ os
unfolding delete_order
delete_head o os free = ground (arith, delete_absent o.id os)

ids-append : (os more : List Order) → ids (os ++ more) ≡ ids os ++ ids more
ids-append [] more = refl
ids-append (o ∷ os) more = ap (◌∷◌ o.id) (ids-append os more)

-- With one order too many, the oldest goes.
evict_first :
    (max : ℕ) (o : Order) (os : List Order)
    → length os ≡ max
    → count (has_id o.id) os ≡ 0
    → evict (ids (o ∷ os)) max (o ∷ os) ≡ book max os
unfolding evict
evict_first max o os h free =
    let size = length-map (λ (x : Order). x.id) os in
    if-cases (λ b. b ≡ book max os) (ltb max (length (ids (o ∷ os)))) _ _
      (λ k.
        ap (evict (ids os) max) (delete_head o os free)
        ∙ evict_fits (ids os) max os (omega (arith, size)))
      (λ k. absurd (ground (arith, size)))

evict-latest :
    (max : ℕ) (os : List Order)
    → length os ≤ suc max
    → HasKeys os
    → evict (ids os) max os ≡ book max (latest max os)
evict-latest max os few keys = elim (dec_le (length os) max) [
  | yes h ↦
      let none_gone : length os - max ≡ 0 = omega arith in
      evict_fits (ids os) max os (omega (arith, length-map (λ (x : Order). x.id) os))
      ∙ ap (λ k. book max (drop k os)) (sym none_gone)
  | no h ↦ over os few keys h
]
  where
    over :
        (os : List Order)
        → length os ≤ suc max
        → HasKeys os
        → (length os ≤ max → ⊥)
        → evict (ids os) max os ≡ book max (latest max os)
    over [] few keys h = absurd (h (omega arith))
    over (o ∷ os) few keys h =
        let one_gone : length (o ∷ os) - max ≡ 1 = omega arith in
        evict_first max o os (omega arith) (ground (arith, keys o.id))
        ∙ ap (λ k. book max (drop k (o ∷ os))) (sym one_gone)

put_lem :
    (max : ℕ) (os : List Order) (o : Order)
    → length os ≤ max
    → HasKeys (os ++ o ∷ [])
    → put o (book max os) ≡ book max (latest max (os ++ o ∷ []))
unfolding put
put_lem max os o fits keys =
    let free : count (has_id o.id) os ≡ 0 =
      ground (arith, keys o.id, count-append (has_id o.id) os (o ∷ [])) in
    let set : set_order o os ≡ os ++ o ∷ [] =
      unfold set_order delete_order in ap (λ xs. xs ++ o ∷ []) (delete_absent o.id os free) in
    rw (set, ← ids-append os (o ∷ []))
      (evict-latest max (os ++ o ∷ []) (omega (arith, length-append os (o ∷ []))) keys)

-- The orders of a book and one more are the latest again.
latest_next :
    (max : ℕ) (done : List Order) (o : Order)
    → latest max (latest max done ++ o ∷ []) ≡ latest max (done ++ o ∷ [])
latest_next max done o =
    let gone = length done - max in
    let whole = drop-append gone done (o ∷ []) (omega arith) in
    let size = length-append (latest max done) (o ∷ []) in
    rw (← whole) (
      drop-drop _ gone (done ++ o ∷ [])
      ∙ ap (λ k. drop k (done ++ o ∷ []))
          (omega (arith, length-append done (o ∷ []), length-drop gone (done ++ o ∷ []))))

part-HasKeys :
    (max : ℕ) (done more : List Order) (o : Order)
    → HasKeys (done ++ o ∷ more)
    → HasKeys (latest max done ++ o ∷ [])
part-HasKeys max done more o keys id = omega (
  arith,
  keys id,
  count-append (has_id id) done (o ∷ more),
  count-append (has_id id) (latest max done) (o ∷ []),
  count-drop_le (has_id id) (length done - max) done,
  count-append (has_id id) (o ∷ []) more,
)

puts_from :
    (max : ℕ) (done more : List Order)
    → HasKeys (done ++ more)
    → puts (book max (latest max done)) more ≡ book max (latest max (done ++ more))
unfolding puts
puts_from max done [] keys = ap (λ xs. book max (latest max xs)) (sym (append_nil done))
puts_from max done (o ∷ more) keys =
    let here =
      put_lem max (latest max done) o (omega (arith, length-drop (length done - max) done))
        (part-HasKeys max done more o keys) in
    let split = append_assoc done (o ∷ []) more in
    ap (λ b. puts b more) (here ∙ ap (book max) (latest_next max done o))
    ∙ puts_from max (done ++ o ∷ []) more (subst HasKeys (sym split) keys)
    ∙ ap (λ xs. book max (latest max xs)) split

-- A book to which orders of different ids are put holds the latest of them, in the order in which they
-- were put and under their ids, and as many as it has room for.
pub puts-latest :
    (max : ℕ) (os : List Order)
    → HasKeys os
    → puts (new_order_book max) os ≡ record {
      by_id = latest max os;
      order = map (λ (o : Order). o.id) (latest max os);
      max = max;
    }
unfolding new_order_book
puts-latest max os keys =
    ap (λ b. puts b os) (rw (drop_nil {A = Order} (0 - max)) refl) ∙ puts_from max [] os keys
