-- ===== src/Store/Page.antt =====
-- internal/store/store.go: cursor pages. A cursor is the id of the last item of the page before, and a
-- listing is the newest rows first. A page limit is a natural number, since a negative one is treated
-- like 0.
pub mod Order
pub mod Shape
pub mod Walk
use incident_diag.Base.{
  ℕ, ◌+◌, ◌-◌, Bool, true, ◌&&◌, List, [], ◌∷◌, Option, none, some, filter, get_elem?, length, ltb,
  leb, take, if◌then◌else◌,
}
use Order.{order_desc}

abbrev pub default_page_limit : ℕ
default_page_limit = 20

abbrev pub max_page_limit : ℕ
max_page_limit = 100

pub record PageParams : Type 0 where
  pub limit : ℕ
  pub cursor : Option ℕ

pub record Page {ℓ} (A : Type ℓ) : Type ℓ where
  pub items : List A
  pub next_cursor : Option ℕ

-- PageParams.normalize, on the limit, which is all that it changes.
unfoldable pub normal_limit : ℕ → ℕ
normal_limit limit =
    if ltb limit 1
    then default_page_limit
    else if ltb max_page_limit limit
    then max_page_limit
    else limit

unfoldable pub normalize : PageParams → PageParams
unfolding normal_limit
normalize p = record p { limit = normal_limit p.limit }

abbrev pub fetch_limit : PageParams → ℕ
fetch_limit p = p.limit + 1

-- `id < ?`, or no condition without a cursor.
abbrev pub cursor_before : Option ℕ → ℕ → Bool
cursor_before none id = true
cursor_before (some cursor) id = ltb id cursor

module _ {ℓ} {A : Type ℓ} (id_of : A → ℕ) where
  pub last_id : Option A → Option ℕ
  last_id none = none
  last_id (some x) = some (id_of x)

  unfoldable pub paginate : List A → PageParams → Page A
  unfolding last_id
  paginate rows p =
      if leb (length rows) p.limit
      then record { items = rows; next_cursor = none }
      else let items = take p.limit rows in
        record { items = items; next_cursor = last_id (get_elem? items (length items - 1)) }

  -- SELECT with the conditions of a listing, `ORDER BY id DESC LIMIT ?`.
  unfoldable pub select_page : (A → Bool) → PageParams → List A → List A
  unfolding order_desc
  select_page keep p rows =
      take (fetch_limit p)
        (order_desc id_of (filter (λ r. keep r && cursor_before p.cursor (id_of r)) rows))

  -- What the list methods of the package have in common: normalize, select, paginate.
  unfoldable pub list_page : (A → Bool) → PageParams → List A → Page A
  unfolding normalize select_page paginate
  list_page keep params rows = let p = normalize params in paginate (select_page keep p rows) p
