-- ===== src/Tests/Orders.antt =====
-- internal/lab/checkout.go on small baskets, on one that wraps around, and on a book of two orders.
use incident_diag.Base.{
  ℕ, ◌≡◌, refl, List, [], ◌∷◌, ◌%◌, ◌↔◌, ◌&&◌, true, not, is_empty, arith, none,
}
use incident_diag.Store.Table.{find}
use incident_diag.Lab.Checkout.{
  words, OrderItem, total_cents, validate_basket, add_lines, Order, new_order_book, get, put,
  set_order, evict, delete_order,
}
use incident_diag.Lab.Checkout.Totals.{cost, are_lines, validate_basket_lem}
use incident_diag.Lab.Checkout.Book.{puts, puts-latest}

abbrev line : ℕ → ℕ → OrderItem
line quantity price = record { sku = 97 ∷ []; quantity = quantity; unit_price_cents = price }

abbrev basket : List OrderItem
basket = line 2 150 ∷ line 1 99 ∷ []

validate_basket_lem_example :
    (validate_basket basket ≡ total_cents 399)
    ↔ (((not (is_empty basket) && are_lines basket) ≡ true) × (399 ≡ cost basket % words))
validate_basket_lem_example = validate_basket_lem basket 399

-- 2 ^ 32 pieces at 2 ^ 32 cents cost nothing.
free_basket : validate_basket (line 4294967296 4294967296 ∷ []) ≡ total_cents 0
unfolding validate_basket add_lines
free_basket = refl

abbrev order : ℕ → Order
order id = record { id = id; content = [] }

puts-latest_example :
    puts (new_order_book 2) (order 1 ∷ order 2 ∷ order 3 ∷ [])
    ≡ record { by_id = order 2 ∷ (order 3 ∷ []); order = 2 ∷ (3 ∷ []); max = 2 }
puts-latest_example = puts-latest 2 (order 1 ∷ order 2 ∷ order 3 ∷ []) (λ id. ground arith)

evicted : get 1 (puts (new_order_book 2) (order 1 ∷ order 2 ∷ order 3 ∷ [])) ≡ none
unfolding get find puts new_order_book put set_order evict delete_order
evicted = refl
