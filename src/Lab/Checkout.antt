-- ===== src/Lab/Checkout.antt =====
-- internal/lab/checkout.go: the total of a basket and the store of orders. An int64, and an int, is the
-- word of its two's complement: the negative numbers are those from 2 ^ 63.
pub mod Totals
pub mod Book
use incident_diag.Base.{
  ℕ, zero, suc, ◌+◌, ◌*◌, ◌%◌, Bool, not, ◌||◌, ◌==◌, leb, ltb, List, [], ◌∷◌, ◌++◌, Option, filter,
  length, if◌then◌else◌, is_empty, Bytes,
}
use incident_diag.Store.Table.{find}

abbrev pub words : ℕ
words = 18446744073709551616

abbrev pub negatives : ℕ
negatives = 9223372036854775808

-- `n < 1` on a word.
abbrev pub below_one : ℕ → Bool
below_one n = n == 0 || leb negatives n

-- orderItem.
pub record OrderItem : Type 0 where
  pub sku : Bytes
  pub quantity : ℕ
  pub unit_price_cents : ℕ

-- The total, or what is wrong with the basket, and at which line.
pub data Basket : Type 0 where
  total_cents : ℕ → Basket
  no_items : Basket
  no_sku bad_quantity bad_price : ℕ → Basket

-- The loop over the lines, from line `i` and a total so far.
unfoldable pub add_lines : ℕ → ℕ → List OrderItem → Basket
add_lines i total [] = total_cents total
add_lines i total (item ∷ items) =
    let rest =
      add_lines (suc i) ((total + (item.quantity * item.unit_price_cents) % words) % words) items in
    if is_empty item.sku
    then no_sku i
    else if below_one item.quantity
    then bad_quantity i
    else if below_one item.unit_price_cents
    then bad_price i
    else rest

unfoldable pub validate_basket : List OrderItem → Basket
validate_basket items = if is_empty items then no_items else add_lines 0 0 items

-- order, as far as the book looks at it: its id and the rest.
pub record Order : Type 0 where
  pub id : ℕ
  pub content : Bytes

-- orderBook. The map is the list of its values, one for each key.
pub record OrderBook : Type 0 where
  pub by_id : List Order
  pub order : List ℕ
  pub max : ℕ

abbrev pub has_id : ℕ → Order → Bool
has_id id o = o.id == id

unfoldable pub new_order_book : ℕ → OrderBook
new_order_book max = record { by_id = []; order = []; max = max }

-- `b.byID[o.ID] = o` and `delete(b.byID, id)`.
unfoldable pub set_order : Order → List Order → List Order
set_order o os = filter (λ x. not (has_id o.id x)) os ++ o ∷ []

unfoldable pub delete_order : ℕ → List Order → List Order
delete_order id os = filter (λ x. not (has_id id x)) os

-- `for len(b.order) > b.max`.
unfoldable pub evict : List ℕ → ℕ → List Order → OrderBook
unfolding delete_order
evict [] max os = record { by_id = os; order = []; max = max }
evict (id ∷ ids) max os =
    let rest = evict ids max (delete_order id os) in
    if ltb max (length (id ∷ ids)) then rest else record { by_id = os; order = id ∷ ids; max = max }

unfoldable pub put : Order → OrderBook → OrderBook
unfolding set_order evict
put o b = evict (b.order ++ o.id ∷ []) b.max (set_order o b.by_id)

unfoldable pub get : ℕ → OrderBook → Option Order
get id b = find (has_id id) b.by_id
