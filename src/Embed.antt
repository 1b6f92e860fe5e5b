-- ===== src/Embed.antt =====
-- internal/embed/embed.go: the pairing of the provider's response with the texts of a batch. The type of
-- a vector's numbers is a parameter; a negative index is `none`, and a nil vector of the result too.
pub mod Pairing
pub mod Batches
use incident_diag.Retry.{Result, ok, err}
use incident_diag.Base.{
  ℕ, zero, suc, Bool, true, false, not, ◌||◌, ◌==◌, leb, List, [], ◌∷◌, Option, none, some,
  get_elem?, length, if◌then◌else◌,
}

abbrev pub dimensions : ℕ
dimensions = 1024

-- An APIError with its status and the delay it asks for, a DimensionError, ErrBadResponse, and all others.
pub data EmbedError : Type 0 where
  api_error : ℕ → ℕ → EmbedError
  dimension_error bad_response other_error : EmbedError

-- One element of a response's data.
pub record Item (V : Type 0) : Type 0 where
  pub index : Option ℕ
  pub embedding : List V

module _ {V : Type 0} where
  unfoldable pub nil_vectors : ℕ → List (Option (List V))
  nil_vectors zero = []
  nil_vectors (suc n) = none ∷ nil_vectors n

  -- `out[i] = v` within the bounds.
  unfoldable pub set : ℕ → List V → List (Option (List V)) → List (Option (List V))
  set i v [] = []
  set zero v (x ∷ xs) = some v ∷ xs
  set (suc i) v (x ∷ xs) = x ∷ set i v xs

  -- `out[i] != nil` behind the bounds check, which `none` stands for.
  unfoldable pub taken : Option (Option (List V)) → Bool
  taken none = true
  taken (some none) = false
  taken (some (some v)) = true

  -- The three cases of the switch, for an index that is not negative.
  unfoldable pub refused : ℕ → ℕ → List V → List (Option (List V)) → Option EmbedError
  unfolding taken
  refused want i v out =
      if leb want i
      then some bad_response
      else if taken (get_elem? out i)
      then some bad_response
      else if length v == dimensions
      then none
      else some dimension_error

  unfoldable pub place :
      ℕ → List (Item V) → List (Option (List V)) → Result EmbedError (List (Option (List V)))
  unfolding refused set
  place want [] out = ok out
  place want (x ∷ xs) out = elim x.index [
    | none ↦ err bad_response
    | some i ↦ elim (refused want i x.embedding out) [
      | some e ↦ err e
      | none ↦ place want xs (set i x.embedding out)
    ]
  ]

  unfoldable pub pair : List (Item V) → ℕ → Result EmbedError (List (Option (List V)))
  unfolding place nil_vectors
  pair items want =
      if length items == want then place want items (nil_vectors want) else err bad_response
