-- ===== src/Opsmcp/Logs/Step.antt =====
-- internal/opsmcp/logs.go, what each line adds to the results of scanLog.
use incident_diag.Base.{
  ℕ, suc, ◌+◌, ◌-◌, ◌≤◌, ◌≡◌, refl, sym, leb, is_empty, ◌&&◌, ◌||◌, ap, ◌∙◌, Bool, true, false,
  List, [], ◌∷◌, ◌++◌, Option, none, some, length, length-append, append_assoc, append_nil, drop,
  count, ltb, ◌==◌, if◌then◌else◌, Bytes, arith, Bool-cases, inl, inr,
}
use incident_diag.Opsmcp.Logs.{
  max_log_line_bytes, trim_eol, RawRecord, LogRecord, LogFilter, Scan, keep, parse_record, matches,
  take_record, take_line,
}
use incident_diag.Opsmcp.Logs.Lines.{cut}

push : ℕ → List Bytes → List Bytes
push b [] = (b ∷ []) ∷ []
push b (x ∷ xs) = (b ∷ x) ∷ xs

-- The lines of a file, each with its newline, and what stands behind the last newline.
pub lines : Bytes → List Bytes
unfolding push
lines [] = [] ∷ []
lines (b ∷ s) = let rest = lines s in if b == 10 then (b ∷ []) ∷ rest else push b rest

pub lines-cut :
    (s : Bytes) → lines s ≡ (cut s).line ∷ (if (cut s).ended then [] else lines (cut s).rest)
unfolding lines cut
lines-cut [] = refl
lines-cut (b ∷ s) = elim (Bool-cases (b == 10)) [
  | inl e ↦ rw e refl
  | inr e ↦ rw (e, lines-cut s) refl
]

-- The last so many items.
abbrev pub last {ℓ} : {A : Type ℓ} → ℕ → List A → List A
last n xs = drop (length xs - n) xs

last-short {ℓ} : {A : Type ℓ} (n : ℕ) (xs : List A) → length xs ≤ n → last n xs ≡ xs
last-short n xs h = let e : length xs - n ≡ 0 = omega arith in rw e refl

last-append {ℓ} :
    {A : Type ℓ} (n : ℕ) (x : A) (xs ys : List A)
    → n ≤ length xs
    → last n (xs ++ ys) ≡ last n (x ∷ (xs ++ ys))
last-append n x xs ys h =
    let e : suc (length (xs ++ ys)) - n ≡ suc (length (xs ++ ys) - n) =
      omega (arith, length-append xs ys) in
    rw e refl

pub Scan_eq :
    {V : Type 0} {k k' : List (LogRecord V)} {m m' u u' : ℕ}
    → k ≡ k'
    → m ≡ m'
    → u ≡ u'
    → ◌≡◌ {A = Scan V}
        (record { kept = k; matched = m; unparseable = u })
        (record { kept = k'; matched = m'; unparseable = u' })
Scan_eq p q r = λ i. record { kept = p i; matched = q i; unparseable = r i }

module _ {V : Type 0} (unmarshal : Bytes → Option (RawRecord V)) (parse_time : Bytes → Option ℕ)
    (lower : Bytes → Bytes) (has_text : Bytes → Bytes → Bool) (f : LogFilter) where
  abbrev is_long : Bytes → Bool
  is_long x = ltb max_log_line_bytes (length x)

  -- A record is wanted: it is of the least level or a higher one, not before the one time and before the
  -- other, and its line has the text.
  abbrev is_from : Option ℕ → ℕ → Bool
  is_from none at = true
  is_from (some t) at = leb t at

  abbrev is_until : Option ℕ → ℕ → Bool
  is_until none at = true
  is_until (some t) at = ltb at t

  wanted : LogRecord V → Bytes → Bool
  wanted r line =
      leb f.min_level r.level
      && (is_from f.since r.at
          && (is_until f.until r.at && (is_empty f.contains || has_text (lower line) f.contains)))

  matches-wanted :
      (r : LogRecord V) (line : Bytes) (since until : Option ℕ)
      → f.since ≡ since
      → f.until ≡ until
      → matches unmarshal parse_time lower has_text f r line ≡ wanted r line
  unfolding matches wanted
  matches-wanted r line none none e e' = rw (e, e') (ground arith)
  matches-wanted r line none (some u) e e' = rw (e, e') (ground arith)
  matches-wanted r line (some s) none e e' = rw (e, e') (ground arith)
  matches-wanted r line (some s) (some u) e e' = rw (e, e') (ground arith)

  -- The record of a line, if it is one that is wanted.
  found_in : Option (LogRecord V) → Bytes → List (LogRecord V)
  found_in none line = []
  found_in (some r) line = if wanted r line then r ∷ [] else []

  found : Bytes → List (LogRecord V)
  unfolding found_in
  found [] = []
  found (b ∷ line) = found_in (parse_record unmarshal parse_time (b ∷ line)) (b ∷ line)

  is_none : Option (LogRecord V) → Bool
  is_none none = true
  is_none (some r) = false

  unreadable : Bytes → Bool
  unfolding is_none
  unreadable [] = false
  unreadable (b ∷ line) = is_none (parse_record unmarshal parse_time (b ∷ line))

  -- The matching records of some lines, in order, and whether a line is no record.
  pub records : List Bytes → List (LogRecord V)
  unfolding found
  records [] = []
  records (x ∷ xs) = (if is_long x then [] else found (trim_eol x)) ++ records xs

  pub is_unparseable : Bytes → Bool
  unfolding unreadable
  is_unparseable x = if is_long x then true else unreadable (trim_eol x)

  abbrev pub step : Scan V → Bytes → Scan V
  step st x =
      take_line unmarshal parse_time lower has_text f (is_long x)
        (if is_long x then [] else trim_eol x) st

  unfoldable pub take_lines : Scan V → List Bytes → Scan V
  take_lines st [] = st
  take_lines st (x ∷ xs) = take_lines (step st x) xs

  -- What the lines add to results.
  abbrev pub after : Scan V → List Bytes → Scan V
  after st xs = record {
    kept = last f.limit (st.kept ++ records xs);
    matched = st.matched + length (records xs);
    unparseable = st.unparseable + count is_unparseable xs;
  }

  -- The window over a list that is at most one too long.
  window_lem :
      (x : LogRecord V) (xs ys : List (LogRecord V))
      → length xs ≤ f.limit
      → (length (if ltb f.limit (length (x ∷ xs)) then xs else x ∷ xs) ≤ f.limit)
        × (last f.limit ((if ltb f.limit (length (x ∷ xs)) then xs else x ∷ xs) ++ ys)
            ≡ last f.limit (x ∷ (xs ++ ys)))
  window_lem x xs ys h = elim (Bool-cases (ltb f.limit (length (x ∷ xs)))) [
    | inl e ↦ rw e (h, last-append f.limit x xs ys (ground arith))
    | inr e ↦ rw e (ground arith, refl)
  ]

  keep_lem :
      (r : LogRecord V) (kept ys : List (LogRecord V))
      → length kept ≤ f.limit
      → (length (keep f.limit r kept) ≤ f.limit)
        × (last f.limit (keep f.limit r kept ++ ys) ≡ last f.limit (kept ++ r ∷ ys))
  unfolding keep
  keep_lem r [] ys h = window_lem r [] ys h
  keep_lem r (k ∷ kept) ys h =
      let (short, same) =
        window_lem k (kept ++ r ∷ []) ys (omega (arith, length-append kept (r ∷ []))) in
      (
        short,
        same
            ∙ ap (λ (l : List (LogRecord V)). last f.limit (k ∷ l)) (append_assoc kept (r ∷ []) ys),
      )

  -- The results behind a line, which add the records `rs'` of it and perhaps a line that is none.
  abbrev Adds : Scan V → List (LogRecord V) → Bool → Scan V → Type 0
  Adds st new bad st' =
      (length st'.kept ≤ f.limit)
      × (((rs : List (LogRecord V))
            → last f.limit (st'.kept ++ rs) ≡ last f.limit (st.kept ++ (new ++ rs)))
          × ((st'.matched ≡ st.matched + length new)
              × (st'.unparseable ≡ st.unparseable + (if bad then 1 else 0))))

  take_record_lem :
      (o : Option (LogRecord V)) (line : Bytes) (st : Scan V)
      → length st.kept ≤ f.limit
      → Adds st
          (found_in o line)
          (is_none o)
          (take_record unmarshal parse_time lower has_text f o line st)
  unfolding take_record found_in is_none
  take_record_lem none line st h = (h, ((λ rs. refl), (omega arith, refl)))
  take_record_lem (some r) line st h =
      elim (Bool-cases (matches unmarshal parse_time lower has_text f r line)) [
        | inl e ↦
            rw (e, sym same ∙ e)
              (
                (keep_lem r st.kept [] h).0,
                ((λ rs. (keep_lem r st.kept rs h).1), (refl, omega arith)),
              )
        | inr e ↦ rw (e, sym same ∙ e) (h, ((λ rs. refl), (omega arith, omega arith)))
      ]
    where
      same : matches unmarshal parse_time lower has_text f r line ≡ wanted r line
      same = matches-wanted r line f.since f.until refl refl

  take_line_lem :
      (long : Bool) (line : Bytes) (st : Scan V)
      → length st.kept ≤ f.limit
      → Adds st
          (if long then [] else found line)
          (if long then true else unreadable line)
          (take_line unmarshal parse_time lower has_text f long line st)
  unfolding take_line found unreadable
  take_line_lem true line st h = (h, ((λ rs. refl), (omega arith, refl)))
  take_line_lem false [] st h = (h, ((λ rs. refl), (omega arith, omega arith)))
  take_line_lem false (b ∷ line) st h =
      take_record_lem (parse_record unmarshal parse_time (b ∷ line)) (b ∷ line) st h

  step_lem :
      (st : Scan V) (x : Bytes)
      → length st.kept ≤ f.limit
      → Adds st (if is_long x then [] else found (trim_eol x)) (is_unparseable x) (step st x)
  unfolding is_unparseable
  step_lem st x h = elim (Bool-cases (is_long x)) [
    | inl e ↦ rw e (take_line_lem true [] st h)
    | inr e ↦ rw e (take_line_lem false (trim_eol x) st h)
  ]

  pub take_lines_lem :
      (st : Scan V) (xs : List Bytes) → length st.kept ≤ f.limit → take_lines st xs ≡ after st xs
  unfolding take_lines records
  take_lines_lem st [] h =
      let kept : last f.limit (st.kept ++ []) ≡ st.kept =
        ap (last f.limit) (append_nil st.kept) ∙ last-short f.limit st.kept h in
      let matched : st.matched + 0 ≡ st.matched = omega arith in
      let bad : st.unparseable + 0 ≡ st.unparseable = omega arith in rw (kept, matched, bad) refl
  take_lines_lem st (x ∷ xs) h =
      let (short, (same, (more, bad))) = step_lem st x h in
      let new = if is_long x then [] else found (trim_eol x) in
      take_lines_lem (step st x) xs short
      ∙ Scan_eq (same (records xs)) (omega (arith, more, length-append new (records xs)))
          (omega (arith, bad))
