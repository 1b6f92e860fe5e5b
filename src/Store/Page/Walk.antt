-- ===== src/Store/Page/Walk.antt =====
-- internal/store/store.go, PageParams and paginate: what a client reads that follows the cursors.
use incident_diag.Base.{
  ℕ, suc, ◌-◌, ◌*◌, ◌<◌, ◌≤◌, ◌≡◌, refl, Bool, true, false, List, [], ◌∷◌, ◌++◌, Option, none, some,
  map, arith, ltb, filter, take, drop, get_elem?, length, take-append-drop, All, append_nil,
  All-filter, ap, any, sym, filter-append, filter-none, filter_ext, All-get_elem?, filter-passes,
  filter-filter, dec_le, ◌&&◌,
}
use incident_diag.Store.Page.{Page, normal_limit, normalize, cursor_before, select_page, list_page}
use incident_diag.Store.Page.Order.{
  order_desc, IsKeyed, All-order_desc, length-order_desc, filter-IsKeyed, order_desc-Descends,
  filter-order_desc, filter-drop,
}
use incident_diag.Store.Page.Shape.{
  normal_limit_bounds, get_elem?-some, length-drop, is_nil, paginate_rest, paginate_full,
}

module _ {ℓ} {A : Type ℓ} (id_of : A → ℕ) (keep : A → Bool) (limit : ℕ) where
  -- The rows that a listing from a cursor is taken of.
  abbrev test_at : Option ℕ → A → Bool
  test_at cursor r = keep r && cursor_before cursor (id_of r)

  abbrev older : Option ℕ → List A → List A
  older cursor rows = order_desc id_of (filter (test_at cursor) rows)

  abbrev page_at : Option ℕ → List A → Page A
  page_at cursor rows = list_page id_of keep (record { limit = limit; cursor = cursor }) rows

  abbrev size : ℕ
  size = normal_limit limit

  page_rest :
      (rows : List A) (cursor : Option ℕ)
      → length (older cursor rows) ≤ size
      → page_at cursor rows ≡ record { items = older cursor rows; next_cursor = none }
  unfolding list_page select_page normalize
  page_rest rows cursor h =
      paginate_rest id_of (older cursor rows) (record { limit = size; cursor = cursor }) h

  page_full :
      (rows : List A) (cursor : Option ℕ) (y : A)
      → size < length (older cursor rows)
      → get_elem? (older cursor rows) (size - 1) ≡ some y
      → page_at cursor rows
        ≡ record { items = take size (older cursor rows); next_cursor = some (id_of y) }
  unfolding list_page select_page normalize
  page_full rows cursor y h e =
      paginate_full id_of (older cursor rows) (record { limit = size; cursor = cursor }) y
        (normal_limit_bounds limit).0 h e

  -- A client that asks for a page of each table in turn, from the cursor that the page before it gave,
  -- until a page has none.
  unfoldable pub follow : List (List A) → Option ℕ → List A
  follow [] cursor = []
  follow (rows ∷ later) cursor =
      let page = page_at cursor rows in
      page.items ++ elim page.next_cursor [ none ↦ [] | some c ↦ follow later (some c) ]

  older-passes :
      (rows : List A) (cursor : Option ℕ) (i : ℕ) (y : A)
      → get_elem? (older cursor rows) i ≡ some y
      → test_at cursor y ≡ true
  older-passes rows cursor i y e =
      All-get_elem? (λ x. test_at cursor x ≡ true) (older cursor rows) i y
        (All-order_desc id_of (λ x. test_at cursor x ≡ true) (filter (test_at cursor) rows)
          (filter-passes (test_at cursor) rows))
        e

  test_next :
      (cursor : Option ℕ) (c : ℕ) (x : A)
      → cursor_before cursor c ≡ true
      → test_at cursor x ≡ true
      → ltb (id_of x) c ≡ test_at (some c) x
  test_next cursor c x h k = ground arith

  test_missed :
      (cursor : Option ℕ) (c : ℕ) (x : A)
      → cursor_before cursor c ≡ true
      → test_at cursor x ≡ false
      → test_at (some c) x ≡ false
  test_missed none c x h k = ground arith
  test_missed (some d) c x h k = ground arith

  older_next :
      (rows : List A) (cursor : Option ℕ) (i : ℕ) (y : A)
      → IsKeyed id_of rows
      → get_elem? (older cursor rows) i ≡ some y
      → older (some (id_of y)) rows ≡ drop (suc i) (older cursor rows)
  older_next rows cursor i y u e =
      let passes = older-passes rows cursor i y e in
      let before : cursor_before cursor (id_of y) ≡ true = ground arith in
      let keyed = filter-IsKeyed id_of (test_at cursor) rows u in
      rw
        (
          ← filter-drop id_of (older cursor rows) i y (order_desc-Descends id_of _ keyed) e,
          filter-order_desc id_of (λ x. ltb (id_of x) (id_of y)) (filter (test_at cursor) rows)
              keyed,
          filter-filter (λ x. ltb (id_of x) (id_of y)) (test_at cursor) (test_at (some (id_of y)))
              rows (λ x k. test_next cursor (id_of y) x before k)
              (λ x k. test_missed cursor (id_of y) x before k),
        )
        refl

  follow_page :
      (rows : List A) (later : List (List A)) (cursor : Option ℕ)
      → ((y : A)
          → size < length (older cursor rows)
          → get_elem? (older cursor rows) (size - 1) ≡ some y
          → follow later (some (id_of y)) ≡ drop size (older cursor rows))
      → follow (rows ∷ later) cursor ≡ older cursor rows
  unfolding follow
  follow_page rows later cursor next = elim (dec_le (length (older cursor rows)) size) [
    | yes h ↦ rw (page_rest rows cursor h) (append_nil (older cursor rows))
    | no h ↦
        let last =
          get_elem?-some (older cursor rows) (size - 1)
            (omega (arith, (normal_limit_bounds limit).0)) in
        rw (page_full rows cursor last.0 (omega arith) last.1, next last.0 (omega arith) last.1)
          (take-append-drop size (older cursor rows))
  ]

  none_below :
      (b c : ℕ) (new : List A)
      → c ≤ b
      → All (λ x. b ≤ id_of x) new
      → any (test_at (some c)) new ≡ false
  none_below b c [] le h = refl
  none_below b c (x ∷ new) le h = ground (arith, none_below b c new le h.1, h.0)

  -- Rows that are inserted later have greater ids, so a page from a cursor does not see them.
  older_append :
      (rows new : List A) (b c : ℕ)
      → c ≤ b
      → All (λ x. b ≤ id_of x) new
      → older (some c) (rows ++ new) ≡ older (some c) rows
  older_append rows new b c le h =
      rw
        (
          filter-append (test_at (some c)) rows new,
          filter-none (test_at (some c)) new (none_below b c new le h),
          append_nil (filter (test_at (some c)) rows),
        )
        refl

  module _ (rows : List A) (b : ℕ) (u : IsKeyed id_of rows) where
    abbrev IsNewer : List A → Type 0
    IsNewer new = All (λ x. b ≤ id_of x) new

    -- The page after a full one starts where it ended.
    older_rest :
        (cursor : Option ℕ) (y : A)
        → get_elem? (older cursor rows) (size - 1) ≡ some y
        → older (some (id_of y)) rows ≡ drop size (older cursor rows)
    older_rest cursor y e =
        let whole : suc (size - 1) ≡ size = omega (arith, (normal_limit_bounds limit).0) in
        rw (older_next rows cursor (size - 1) y u e, whole) refl

    follow_later_pages :
        (news : List (List A)) (c : ℕ)
        → c ≤ b
        → All IsNewer news
        → length (older (some c) rows) ≤ size * length news
        → follow (map (λ new. rows ++ new) news) (some c) ≡ older (some c) rows
    unfolding follow
    follow_later_pages [] c le h fits = sym (is_nil (older (some c) rows) (omega arith))
    follow_later_pages (new ∷ news) c le h fits =
        let same = older_append rows new b c le h.0 in
        let next : (y : A)
            → size < length (older (some c) rows)
            → get_elem? (older (some c) rows) (size - 1) ≡ some y
            → follow (map (λ new. rows ++ new) news) (some (id_of y))
              ≡ drop size (older (some c) rows) =
          λ y more e.
            let rest = older_rest (some c) y e in
            let below = older-passes rows (some c) (size - 1) y e in
            rw
              (
                follow_later_pages news (id_of y) (ground arith) h.1
                    (rw rest (omega (arith, length-drop size (older (some c) rows)))),
                rest,
              )
              refl in
        rw (follow_page (rows ++ new) (map (λ new. rows ++ new) news) (some c) (rw same next), same)
          refl

    -- A client that follows the cursors from the first page reads every row that matches, newest
    -- first and each once, although rows with greater ids are inserted between its requests, if the
    -- table fits the number of pages that it asks for; it stops where there is no cursor. The ids of
    -- the table are unique and below those that are inserted later.
    pub follow_lem :
        (news : List (List A))
        → All (λ x. id_of x < b) rows
        → All IsNewer news
        → length (filter keep rows) ≤ size * suc (length news)
        → follow (rows ∷ map (λ new. rows ++ new) news) none ≡ order_desc id_of (filter keep rows)
    follow_lem news low h fits =
        let all : older none rows ≡ order_desc id_of (filter keep rows) =
          rw (filter_ext (test_at none) keep rows (λ x. ground arith)) refl in
        let next : (y : A)
            → size < length (older none rows)
            → get_elem? (older none rows) (size - 1) ≡ some y
            → follow (map (λ new. rows ++ new) news) (some (id_of y))
              ≡ drop size (older none rows) =
          λ y more e.
            let rest = older_rest none y e in
            let below =
              All-get_elem? (λ x. id_of x < b) (older none rows) (size - 1) y
                (All-order_desc id_of (λ x. id_of x < b) (filter (test_at none) rows)
                  (All-filter (λ x. id_of x < b) (test_at none) rows low))
                e in
            rw
              (
                follow_later_pages news (id_of y) (omega (arith, below)) h (
                    rw rest (
                      omega (
                        arith,
                        length-drop size (older none rows),
                        length-order_desc id_of (filter keep rows),
                        ap length all,
                      ))),
                rest,
              )
              refl in
        rw (follow_page rows (map (λ new. rows ++ new) news) none next) all
