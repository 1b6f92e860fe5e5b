-- ===== src/Lab/Checkout/Totals.antt =====
-- internal/lab/checkout.go, validateBasket: what is accepted, and the total that is charged.
use incident_diag.Base.{
  ℕ, suc, ◌+◌, ◌*◌, ◌%◌, ◌≡◌, refl, Bool, true, false, not, ◌&&◌, List, [], ◌∷◌, is_empty, arith,
  ap, ◌∙◌, sym, ◌↔◌, Bool-cases, inl, inr, if-cases,
}
use incident_diag.Lab.Checkout.{
  words, below_one, OrderItem, Basket, total_cents, no_items, no_sku, bad_quantity, bad_price,
  add_lines, validate_basket,
}

-- What a line costs in the integers.
abbrev pub cost : List OrderItem → ℕ
cost [] = 0
cost (item ∷ items) = item.quantity * item.unit_price_cents + cost items

abbrev pub are_lines : List OrderItem → Bool
are_lines [] = true
are_lines (item ∷ items) =
    (not (is_empty item.sku)
      && (not (below_one item.quantity) && not (below_one item.unit_price_cents)))
    && are_lines items

abbrev pub is_accepted : Basket → Bool
is_accepted (total_cents n) = true
is_accepted no_items = false
is_accepted (no_sku i) = false
is_accepted (bad_quantity i) = false
is_accepted (bad_price i) = false

lines_split :
    (item : OrderItem) (items : List OrderItem)
    → are_lines (item ∷ items) ≡ true
    → ((is_empty item.sku ≡ false)
        × (below_one item.quantity ≡ false)
        × (below_one item.unit_price_cents ≡ false))
      × (are_lines items ≡ true)
lines_split item items h = ground arith

lines_refused :
    (item : OrderItem) (items : List OrderItem)
    → are_lines (item ∷ items) ≡ false
    → is_empty item.sku ≡ false
    → below_one item.quantity ≡ false
    → below_one item.unit_price_cents ≡ false
    → are_lines items ≡ false
lines_refused item items h sku quantity price = ground arith

add_lines_lem :
    (i total : ℕ) (items : List OrderItem)
    → are_lines items ≡ true
    → add_lines i (total % words) items ≡ total_cents ((total + cost items) % words)
unfolding add_lines
add_lines_lem i total [] h = ap total_cents (omega arith)
add_lines_lem i total (item ∷ items) h =
    let ok = lines_split item items h in
    let price = item.quantity * item.unit_price_cents in
    let more = add_lines_lem (suc i) (total % words + price) items ok.1 in
    let sum : (total % words + price % words) % words ≡ (total % words + price) % words =
      omega arith in
    let all : (total % words + price + cost items) % words
        ≡ (total + (price + cost items)) % words =
      omega arith in
    rw (ok.0.0, ok.0.1, ok.0.2)
      (ap (λ t. add_lines (suc i) t items) sum ∙ more ∙ ap total_cents all)

add_lines_refused :
    (i total : ℕ) (items : List OrderItem)
    → are_lines items ≡ false
    → is_accepted (add_lines i total items) ≡ false
unfolding add_lines
add_lines_refused i total [] h = cc
add_lines_refused i total (item ∷ items) h =
    let total' = (total + (item.quantity * item.unit_price_cents) % words) % words in
    let rest = add_lines_refused (suc i) total' items in
    let P = λ (b : Basket). is_accepted b ≡ false in
    if-cases P (is_empty item.sku) _ _ (λ _. refl)
      (λ sku.
        if-cases P (below_one item.quantity) _ _ (λ _. refl)
          (λ quantity.
            if-cases P (below_one item.unit_price_cents) _ _ (λ _. refl)
              (λ price. rest (lines_refused item items h sku quantity price))))

validate_basket_total :
    (items : List OrderItem)
    → (not (is_empty items) && are_lines items) ≡ true
    → validate_basket items ≡ total_cents (cost items % words)
unfolding validate_basket
validate_basket_total [] h = cc
validate_basket_total (item ∷ items) h =
    ap (λ t. add_lines 0 t (item ∷ items)) (omega arith)
    ∙ add_lines_lem 0 0 (item ∷ items) h
    ∙ ap total_cents (omega arith)

validate_basket_refused :
    (items : List OrderItem)
    → (not (is_empty items) && are_lines items) ≡ false
    → is_accepted (validate_basket items) ≡ false
unfolding validate_basket
validate_basket_refused [] h = refl
validate_basket_refused (item ∷ items) h = add_lines_refused 0 0 (item ∷ items) h

-- A basket is accepted, with a total, if and only if it has a line and every line has an article and a
-- positive quantity and price, and then the total is what the lines cost modulo 2 ^ 64: it is that
-- cost only below 2 ^ 64.
pub validate_basket_lem :
    (items : List OrderItem) (n : ℕ)
    → (validate_basket items ≡ total_cents n)
      ↔ (((not (is_empty items) && are_lines items) ≡ true) × (n ≡ cost items % words))
validate_basket_lem items n = (forward, back)
  where
    forward :
        validate_basket items ≡ total_cents n
        → ((not (is_empty items) && are_lines items) ≡ true) × (n ≡ cost items % words)
    forward e = elim (Bool-cases (not (is_empty items) && are_lines items)) [
      | inl h ↦
          let same : total_cents n ≡ total_cents (cost items % words) =
            sym e ∙ validate_basket_total items h in
          (h, cc)
      | inr h ↦
          let wrong : true ≡ false = ap is_accepted (sym e) ∙ validate_basket_refused items h in
          absurd cc
    ]

    back :
        ((not (is_empty items) && are_lines items) ≡ true) × (n ≡ cost items % words)
        → validate_basket items ≡ total_cents n
    back h = validate_basket_total items h.0 ∙ ap total_cents (sym h.1)
