-- ===== src/Api/Validation.antt =====
-- internal/api/validate.go and page.go: the problems of a request, collected, and the page that it asks
-- for. The message of a problem is its text; whether an id is a ULID is a parameter.
pub mod First
use incident_diag.Base.{
  ℕ, zero, suc, ◌+◌, ◌-◌, ◌*◌, Bool, true, false, not, ◌&&◌, ◌||◌, List, [], ◌∷◌, ◌++◌, Option,
  none, some, any, ltb, leb, ◌==◌, if◌then◌else◌, is_empty, length, Bytes, bytes_eq,
}
use incident_diag.Store.Page.{PageParams, default_page_limit, max_page_limit}

-- The codes of httpx that the package uses here.
pub data Code : Type 0 where
  required too_long invalid_type invalid_value invalid_format : Code

-- A field with its code. The map of the source is the list of them, in the order of insertion.
pub record Field : Type 0 where
  pub name : Bytes
  pub code : Code

pub record Validation : Type 0 where
  pub fields : List Field
  pub first : Bytes

abbrev pub no_problems : Validation
no_problems = record { fields = []; first = [] }

abbrev pub is_field : Bytes → Field → Bool
is_field name f = bytes_eq f.name name

-- validation.add.
unfoldable pub add : Bytes → Code → Bytes → Validation → Validation
add name code message v = if any (is_field name) v.fields then v else record {
  fields = v.fields ++ record { name = name; code = code } ∷ [];
  first = if is_empty v.fields then message else v.first;
}

-- The error of a request: its one problem with the message of that, or all with a fixed one.
pub data Failure : Type 0 where
  one_field : Field → Bytes → Failure
  many_fields : List Field → Failure

-- validation.err.
unfoldable pub err : Validation → Option Failure
err v = elim v.fields [
  | [] ↦ none
  | f ∷ rest ↦ elim rest [ [] ↦ some (one_field f v.first) | _ ∷ _ ↦ some (many_fields v.fields) ]
]

-- strconv.Atoi on digits, from a value so far.
digits : ℕ → Bytes → Option ℕ
digits n [] = some n
digits n (b ∷ s) =
    let rest = digits (n * 10 + (b - 48)) s in if leb 48 b && leb b 57 then rest else none

-- The magnitude of a number without its sign, within a bound.
magnitude : ℕ → Bytes → Option ℕ
unfolding digits
magnitude bound [] = none
magnitude bound (b ∷ s) = elim (digits 0 (b ∷ s)) [
  | none ↦ none
  | some n ↦ if leb n bound then some n else none
]

-- strconv.Atoi, with 0 in the place of a negative number: its caller refuses both.
unfoldable pub atoi : Bytes → Option ℕ
unfolding magnitude
atoi [] = none
atoi (b ∷ s) =
    if b == 45
    then elim (magnitude 9223372036854775808 s) [ none ↦ none | some n ↦ some 0 ]
    else if b == 43
    then magnitude 9223372036854775807 s
    else magnitude 9223372036854775807 (b ∷ s)

abbrev limit_name : Bytes
limit_name = 108 ∷ 105 ∷ 109 ∷ 105 ∷ 116 ∷ []

abbrev cursor_name : Bytes
cursor_name = 99 ∷ 117 ∷ 114 ∷ 115 ∷ 111 ∷ 114 ∷ []

-- The messages, and the reading of an id.
module _ (message : Code → Bytes → Bytes) (is_valid : Bytes → Bool) (number : Bytes → ℕ) where
  parse_limit : Option Bytes → Validation → Validation × ℕ
  unfolding add atoi
  parse_limit none v = (v, default_page_limit)
  parse_limit (some raw) v = elim (atoi raw) [
    | none ↦ (add limit_name invalid_type (message invalid_type limit_name) v, default_page_limit)
    | some n ↦
        if ltb n 1 || ltb max_page_limit n
        then (add limit_name invalid_value (message invalid_value limit_name) v, default_page_limit)
        else (v, n)
  ]

  parse_cursor : Option Bytes → Validation → Validation × Option ℕ
  unfolding add
  parse_cursor none v = (v, none)
  parse_cursor (some raw) v =
      if is_empty raw
      then (v, none)
      else if is_valid raw
      then (v, some (number raw))
      else (add cursor_name invalid_format (message invalid_format cursor_name) v, none)

  -- parsePageParams.
  unfoldable pub parse_page_params :
      Option Bytes → Option Bytes → Validation → Validation × PageParams
  unfolding parse_limit parse_cursor
  parse_page_params limit cursor v =
      let (v', n) = parse_limit limit v in
      let (v'', c) = parse_cursor cursor v' in (v'', record { limit = n; cursor = c })
