-- ===== src/Tests/Vectors.antt =====
-- internal/embed on a response of one vector.
use incident_diag.Base.{Bool, false, none, arith, ℕ, zero, suc, ◌≡◌, refl, List, [], ◌∷◌, some}
use incident_diag.Retry.{ok}
use incident_diag.Embed.{dimensions, Item, pair}
use incident_diag.Embed.Batches.{HttpAnswer, responded, embed}
use incident_diag.Embed.Batches.Order.{IsEmbedded, embed-IsEmbedded}

abbrev zeros : ℕ → List ℕ
zeros zero = []
zeros (suc n) = 0 ∷ zeros n

abbrev one_item : List (Item ℕ)
one_item = record { index = some 0; embedding = zeros dimensions } ∷ []

pair_one : pair one_item 1 ≡ ok (some (zeros dimensions) ∷ [])
unfolding pair
pair_one = refl

abbrev answers : ℕ → ℕ → HttpAnswer ℕ
answers start n = responded 200 none (some one_item)

abbrev not_at : ℕ → ℕ → Bool
not_at start n = false

embed-IsEmbedded_example :
    IsEmbedded answers not_at not_at 1 1 2 (embed answers not_at not_at 1 1 2)
embed-IsEmbedded_example = embed-IsEmbedded answers not_at not_at 1 1 2 (omega arith)
