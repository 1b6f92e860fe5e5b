-- ===== src/Tests/Listings.antt =====
-- internal/store pages, on five incidents that are read two at a time.
use incident_diag.Base.{◌≡◌, refl, Bool, true, List, [], ◌∷◌, ◌++◌, map, none, some, arith, filter}
use incident_diag.Store.Errors.{ok}
use incident_diag.Store.Rows.{Incident}
use incident_diag.Store.Page.{normal_limit, list_page, select_page, normalize, paginate}
use incident_diag.Store.Page.Order.{order_desc}
use incident_diag.Store.Page.Walk.{follow, follow_lem}
use incident_diag.Store.Incidents.{list_incidents}
use incident_diag.Tests.Runs.{filed, one_db}

abbrev five : List Incident
five = filed 3 ∷ filed 1 ∷ filed 5 ∷ filed 2 ∷ filed 4 ∷ []

-- Two more are filed between the requests.
abbrev later : List (List Incident)
later = (filed 9 ∷ []) ∷ (filed 9 ∷ filed 11 ∷ []) ∷ []

abbrev all_rows : Incident → Bool
all_rows i = true

follow_lem_example :
    follow (λ (i : Incident). i.id) all_rows 2 (five ∷ map (λ new. five ++ new) later) none
    ≡ order_desc (λ (i : Incident). i.id) (filter all_rows five)
unfolding normal_limit
follow_lem_example =
    follow_lem (λ (i : Incident). i.id) all_rows 2 five 6 (λ i. ground arith) later (ground arith)
      (ground arith) (omega arith)

first_page :
    list_incidents none (record { limit = 2; cursor = none }) (record one_db { incidents = five })
    ≡ ok (record { items = filed 5 ∷ filed 4 ∷ []; next_cursor = some 4 })
unfolding list_incidents list_page select_page normalize paginate normal_limit order_desc
first_page = refl
