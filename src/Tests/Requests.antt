-- ===== src/Tests/Requests.antt =====
-- internal/api on a request with three problems, two of them with one field.
use incident_diag.Base.{
  ℕ, ◌≡◌, refl, Bool, List, [], ◌∷◌, none, some, is_empty, not, Bytes, bytes_eq,
}
use incident_diag.Store.Page.{normalize}
use incident_diag.Api.Validation.{
  Code, required, too_long, invalid_format, many_fields, no_problems, err, parse_page_params, atoi,
}
use incident_diag.Api.Validation.First.{
  Complaint, add_all, firsts, add_all-err, parse_page_params-normalize,
}

abbrev title : Bytes
title = 116 ∷ []

abbrev service : Bytes
service = 115 ∷ []

abbrev complaint : Bytes → Code → Bytes → Complaint
complaint name code message = record { name = name; code = code; message = message }

abbrev later : List Complaint
later = complaint service invalid_format (50 ∷ []) ∷ complaint title too_long (51 ∷ []) ∷ []

add_all-err_example :
    err (add_all (complaint title required (49 ∷ []) ∷ later) no_problems)
    ≡ some (
        many_fields (
          record { name = title; code = required }
          ∷ (record { name = service; code = invalid_format } ∷ [])))
unfolding firsts bytes_eq
add_all-err_example = add_all-err (complaint title required (49 ∷ [])) later

abbrev message : Code → Bytes → Bytes
message code name = name

abbrev number : Bytes → ℕ
number [] = 0
number (b ∷ _) = b

abbrev is_valid : Bytes → Bool
is_valid s = not (is_empty s)

-- limit=250 is refused, and the default is read.
parse_page_params-normalize_example :
    normalize
      (parse_page_params message is_valid number
        (some (50 ∷ 53 ∷ 48 ∷ []))
        (some (7 ∷ []))
        no_problems).1
    ≡ (parse_page_params message is_valid number
        (some (50 ∷ 53 ∷ 48 ∷ []))
        (some (7 ∷ []))
        no_problems).1
parse_page_params-normalize_example =
    parse_page_params-normalize message is_valid number (some (50 ∷ 53 ∷ 48 ∷ [])) (some (7 ∷ []))
      no_problems

negative : atoi (45 ∷ 53 ∷ []) ≡ some 0
unfolding atoi
negative = refl

not_a_number : atoi (53 ∷ 45 ∷ []) ≡ none
unfolding atoi
not_a_number = refl
