-- ===== src/Api/Validation/First.antt =====
-- internal/api/validate.go and page.go: which problem of a field is reported, and that a page that is
-- accepted is the one that is read.
use incident_diag.Base.{
  ℕ, ◌≤◌, ◌≡◌, refl, sym, ap, ◌∙◌, Bool, true, false, List, [], ◌∷◌, ◌++◌, Option, none, some, any,
  if◌then◌else◌, is_empty, Bytes, arith, if-cases, Bool-cases, append_nil, append_assoc,
  Option-cases, inl, inr,
}
use incident_diag.Store.Page.{normalize, normal_limit}
use incident_diag.Api.Validation.{
  Code, Field, Validation, no_problems, is_field, add, one_field, many_fields, err, parse_limit,
  parse_page_params, atoi,
}

-- A complaint about a field.
pub record Complaint : Type 0 where
  pub name : Bytes
  pub code : Code
  pub message : Bytes

empty-append :
    (fs : List Field) (gs : List Field) → is_empty fs ≡ false → is_empty (fs ++ gs) ≡ false
empty-append [] gs h = cc
empty-append (f ∷ fs) gs h = refl

unfoldable pub add_all : List Complaint → Validation → Validation
add_all [] v = v
add_all (c ∷ cs) v = add_all cs (add c.name c.code c.message v)

-- The first complaint about each field, in order, of those about fields that are not yet named.
unfoldable pub firsts : List Field → List Complaint → List Field
firsts seen [] = []
firsts seen (c ∷ cs) =
    let f : Field = record { name = c.name; code = c.code } in
    let again = any (is_field c.name) seen in
    let rest = firsts (if again then seen else seen ++ f ∷ []) cs in
    if again then rest else f ∷ rest

add_again :
    (c : Complaint) (v : Validation)
    → any (is_field c.name) v.fields ≡ true
    → add c.name c.code c.message v ≡ v
unfolding add
add_again c v h = rw (add, h) refl

add_new :
    (c : Complaint) (v : Validation)
    → any (is_field c.name) v.fields ≡ false
    → add c.name c.code c.message v ≡ record {
      fields = v.fields ++ record { name = c.name; code = c.code } ∷ [];
      first = if is_empty v.fields then c.message else v.first;
    }
unfolding add
add_new c v h = rw (add, h) refl

firsts_again :
    (seen : List Field) (c : Complaint) (cs : List Complaint)
    → any (is_field c.name) seen ≡ true
    → firsts seen (c ∷ cs) ≡ firsts seen cs
unfolding firsts
firsts_again seen c cs h = rw (firsts, h) refl

firsts_new :
    (seen : List Field) (c : Complaint) (cs : List Complaint)
    → any (is_field c.name) seen ≡ false
    → let f : Field = record { name = c.name; code = c.code } in
      firsts seen (c ∷ cs) ≡ f ∷ firsts (seen ++ f ∷ []) cs
unfolding firsts
firsts_new seen c cs h = rw (firsts, h) refl

add_all-firsts :
    (cs : List Complaint) (v : Validation) → (add_all cs v).fields ≡ v.fields ++ firsts v.fields cs
unfolding add_all firsts
add_all-firsts [] v = sym (append_nil v.fields)
add_all-firsts (c ∷ cs) v = elim (Bool-cases (any (is_field c.name) v.fields)) [
  | inl h ↦
      ap (λ x. (add_all cs x).fields) (add_again c v h)
      ∙ add_all-firsts cs v
      ∙ ap (λ fs. v.fields ++ fs) (sym (firsts_again v.fields c cs h))
  | inr h ↦
      let f : Field = record { name = c.name; code = c.code } in
      ap (λ x. (add_all cs x).fields) (add_new c v h)
      ∙ add_all-firsts cs (record {
        fields = v.fields ++ f ∷ [];
        first = if is_empty v.fields then c.message else v.first;
      })
      ∙ append_assoc v.fields (f ∷ []) (firsts (v.fields ++ f ∷ []) cs)
      ∙ ap (λ fs. v.fields ++ fs) (sym (firsts_new v.fields c cs h))
]

add_first :
    (c : Complaint) (v : Validation)
    → is_empty v.fields ≡ false
    → ((add c.name c.code c.message v).first ≡ v.first)
      × (is_empty (add c.name c.code c.message v).fields ≡ false)
unfolding add
add_first c v h =
    if-cases (λ (x : Validation). (x.first ≡ v.first) × (is_empty x.fields ≡ false))
      (any (is_field c.name) v.fields) _ _ (λ _. (refl, h))
      (λ _. (rw h refl, empty-append v.fields _ h))

add_all-first :
    (cs : List Complaint) (v : Validation)
    → is_empty v.fields ≡ false
    → (add_all cs v).first ≡ v.first
unfolding add_all
add_all-first [] v h = refl
add_all-first (c ∷ cs) v h =
    let (kept, more) = add_first c v h in
    add_all-first cs (add c.name c.code c.message v) more ∙ kept

err-filled :
    (f : Field) (fs : List Field) (m : Bytes)
    → err (record { fields = f ∷ fs; first = m })
      ≡ some (if is_empty fs then one_field f m else many_fields (f ∷ fs))
unfolding err
err-filled f [] m = refl
err-filled f (g ∷ fs) m = refl

err_fields :
    (v : Validation) (f : Field) (fs : List Field)
    → v.fields ≡ f ∷ fs
    → err v ≡ some (if is_empty fs then one_field f v.first else many_fields (f ∷ fs))
err_fields v f fs h =
    ap (λ gs. err (record { fields = gs; first = v.first })) h ∙ err-filled f fs v.first

-- Where there are complaints, each field is reported once, with the code of the first complaint about
-- it, and in the order of these; and the message is that of the first complaint of all if there is one
-- field, and the fixed one otherwise.
pub add_all-err :
    (c : Complaint) (cs : List Complaint)
    → let f : Field = record { name = c.name; code = c.code } in
      let others = firsts (f ∷ []) cs in
      err (add_all (c ∷ cs) no_problems)
      ≡ some (if is_empty others then one_field f c.message else many_fields (f ∷ others))
unfolding add_all add
add_all-err c cs =
    let f : Field = record { name = c.name; code = c.code } in
    let v : Validation = record { fields = f ∷ []; first = c.message } in
    err_fields (add_all cs v) f (firsts (f ∷ []) cs) (add_all-firsts cs v)
    ∙ ap
        (λ m. some (
          if is_empty (firsts (f ∷ []) cs)
          then one_field f m
          else many_fields (f ∷ firsts (f ∷ []) cs)))
        (add_all-first cs v refl)

module _ (message : Code → Bytes → Bytes) (is_valid : Bytes → Bool) (number : Bytes → ℕ) where
  limit_bounds :
      (limit : Option Bytes) (v : Validation)
      → (1 ≤ (parse_limit message is_valid number limit v).1)
        × ((parse_limit message is_valid number limit v).1 ≤ 100)
  unfolding parse_limit
  limit_bounds none v = omega arith
  limit_bounds (some raw) v = elim (Option-cases (atoi raw)) [
    | inl e ↦ rw (parse_limit, e) (omega arith)
    | inr e ↦ rw (parse_limit, e.1) (ground arith)
  ]

  -- The page that a request is given is in range: the store's own correction leaves it as it is,
  -- whatever the query says and whether it is accepted.
  pub parse_page_params-normalize :
      (limit cursor : Option Bytes) (v : Validation)
      → let p = (parse_page_params message is_valid number limit cursor v).1 in normalize p ≡ p
  unfolding parse_page_params normalize normal_limit
  parse_page_params-normalize limit cursor v = ground (arith, limit_bounds limit v)
