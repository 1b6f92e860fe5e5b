-- ===== src/Opsmcp/Logs/Call/Filter.antt =====
-- internal/opsmcp/logs.go: what a filter that is built says of the arguments, and a refusal.
use incident_diag.Base.{
  ℕ, ◌≤◌, ◌<◌, ◌≡◌, ◌≢◌, ◌⊎◌, refl, ap, true, false, [], ◌∷◌, Option, none, some, ◌==◌, is_empty,
  Bytes, arith, Bool-cases, Option-cases, inl, inr,
}
use incident_diag.Opsmcp.Logs.{default_log_limit, levels, LogFilter}
use incident_diag.Opsmcp.Logs.Call.{
  ReadServiceLogsArgs, Filtered, filter, refusal, Refusal, bad_since, bad_until, bad_order,
  bad_level, bad_limit, unknown_service, is_disordered, limit_argument, time_argument,
  level_argument, build_filter,
}

-- The limit that an argument stands for: a default, or a number from 1 to the most that is allowed.
abbrev pub Limits : ℕ → Option ℕ → ℕ → Type 0
Limits most asked n =
    ((asked ≡ some 0) × (n ≡ default_log_limit)) ⊎ ((asked ≡ some n) × ((1 ≤ n) × (n ≤ most)))

-- One time is before another, where both are given.
abbrev pub Ordered : Option ℕ → Option ℕ → Type 0
Ordered none until = Unit
Ordered (some s) none = Unit
Ordered (some s) (some u) = s < u

limit_argument_lem :
    (most : ℕ) (asked : Option ℕ) (n : ℕ) → limit_argument most asked ≡ some n → Limits most asked n
unfolding limit_argument
limit_argument_lem most none n h = cc
limit_argument_lem most (some k) n h = elim (Bool-cases (k == 0)) [
  | inl e ↦ inl (ap some (ground arith), ground arith)
  | inr e ↦ inr (ground arith)
]

is_disordered-Ordered : (s u : Option ℕ) → is_disordered s u ≡ false → Ordered s u
unfolding is_disordered
is_disordered-Ordered none u h = tt
is_disordered-Ordered (some s) none h = tt
is_disordered-Ordered (some s) (some u) h = ground arith

module _ (parse_time : Bytes → Option ℕ) (zero_time : ℕ) (lower upper : Bytes → Bytes)
    (max_log_lines : ℕ) where
  -- A bound on the time: none for an empty argument and for the zero time.
  abbrev pub IsTime : Bytes → Option ℕ → Type 0
  IsTime [] bound = bound ≡ none
  IsTime (b ∷ raw) none = parse_time (b ∷ raw) ≡ some zero_time
  IsTime (b ∷ raw) (some t) = (parse_time (b ∷ raw) ≡ some t) × (t ≢ zero_time)

  -- A level: INFO for an empty argument, or the one that is named.
  abbrev pub IsLevel : Bytes → ℕ → Type 0
  IsLevel [] level = level ≡ 1
  IsLevel (b ∷ raw) level = levels (upper (b ∷ raw)) ≡ some level

  -- The filter that the arguments ask for.
  pub record IsFilter (a : ReadServiceLogsArgs) (f : LogFilter) : Type 0 where
    pub since : IsTime a.since f.since
    pub until : IsTime a.until f.until
    pub ordered : Ordered f.since f.until
    pub level : IsLevel a.min_level f.min_level
    pub contains : f.contains ≡ lower a.contains
    pub limit : Limits max_log_lines a.limit f.limit

  time_argument-IsTime :
      (raw : Bytes) (bound : Option ℕ)
      → time_argument parse_time zero_time lower upper max_log_lines raw ≡ some bound
      → IsTime raw bound
  unfolding time_argument
  time_argument-IsTime [] bound h = ground arith
  time_argument-IsTime (b ∷ raw) none h = ground arith
  time_argument-IsTime (b ∷ raw) (some t) h = ground arith

  level_argument-IsLevel :
      (raw : Bytes) (level : ℕ)
      → level_argument parse_time zero_time lower upper max_log_lines raw ≡ some level
      → IsLevel raw level
  unfolding level_argument
  level_argument-IsLevel [] level h = ground arith
  level_argument-IsLevel (b ∷ raw) level h = h

  time_argument-unread :
      (raw : Bytes)
      → time_argument parse_time zero_time lower upper max_log_lines raw ≡ none
      → (is_empty raw ≡ false) × (parse_time raw ≡ none)
  unfolding time_argument
  time_argument-unread [] h = cc
  time_argument-unread (b ∷ raw) h = ground arith

  level_argument-unread :
      (raw : Bytes)
      → level_argument parse_time zero_time lower upper max_log_lines raw ≡ none
      → (is_empty raw ≡ false) × (levels (upper raw) ≡ none)
  unfolding level_argument
  level_argument-unread [] h = cc
  level_argument-unread (b ∷ raw) h = (refl, h)

  limit_argument-unread :
      (asked : Option ℕ)
      → limit_argument max_log_lines asked ≡ none
      → (n : ℕ) → ¬ Limits max_log_lines asked n
  unfolding limit_argument
  limit_argument-unread none h n (inl (e, k)) = cc
  limit_argument-unread none h n (inr (e, k)) = cc
  limit_argument-unread (some k) h n (inl (e, _)) = ground arith
  limit_argument-unread (some k) h n (inr (e, (low, high))) = ground arith

  -- Why arguments are refused.
  abbrev pub IsRefusal : ReadServiceLogsArgs → Refusal → Type 0
  IsRefusal a unknown_service = ⊥
  IsRefusal a bad_since = (is_empty a.since ≡ false) × (parse_time a.since ≡ none)
  IsRefusal a bad_until = (is_empty a.until ≡ false) × (parse_time a.until ≡ none)
  IsRefusal a bad_order = (s u : ℕ) × (IsTime a.since (some s) × IsTime a.until (some u) × (u ≤ s))
  IsRefusal a bad_level = (is_empty a.min_level ≡ false) × (levels (upper a.min_level) ≡ none)
  IsRefusal a bad_limit = (n : ℕ) → ¬ Limits max_log_lines a.limit n

  abbrev pub IsFiltered : ReadServiceLogsArgs → Filtered → Type 0
  IsFiltered a (filter f) = IsFilter a f
  IsFiltered a (refusal r) = IsRefusal a r

  disordered :
      (a : ReadServiceLogsArgs) (s u : Option ℕ)
      → IsTime a.since s
      → IsTime a.until u
      → is_disordered s u ≡ true
      → IsRefusal a bad_order
  unfolding is_disordered
  disordered a none u hs hu h = cc
  disordered a (some s) none hs hu h = cc
  disordered a (some s) (some u) hs hu h = (s, u, (hs, hu, ground arith))

  -- The arguments are read into the filter that they ask for, or refused with a reason that holds.
  pub build_filter-IsFiltered :
      (a : ReadServiceLogsArgs)
      → IsFiltered a (build_filter parse_time zero_time lower upper max_log_lines a)
  unfolding build_filter
  build_filter-IsFiltered a = elim (Option-cases (time a.since)) [
    | inl e ↦ rw (e, IsFiltered) (time_argument-unread a.since e)
    | inr (s, e) ↦
        rw (e, IsFiltered)
          (elim (Option-cases (time a.until)) [
            | inl e' ↦ rw (e', IsFiltered) (time_argument-unread a.until e')
            | inr (u, e') ↦
                let from = time_argument-IsTime a.since s e in
                let to = time_argument-IsTime a.until u e' in
                rw (e', IsFiltered)
                  (elim (Bool-cases (is_disordered s u)) [
                    | inl d ↦ rw (d, IsFiltered) (disordered a s u from to d)
                    | inr d ↦
                        rw (d, IsFiltered)
                          (elim (Option-cases (level a.min_level)) [
                            | inl k ↦ rw (k, IsFiltered) (level_argument-unread a.min_level k)
                            | inr (l, k) ↦
                                rw (k, IsFiltered)
                                  (elim (Option-cases (limit_argument max_log_lines a.limit)) [
                                    | inl m ↦ rw (m, IsFiltered) (limit_argument-unread a.limit m)
                                    | inr (n, m) ↦
                                        rw (m, IsFiltered)
                                          (record {
                                            since = from;
                                            until = to;
                                            ordered = is_disordered-Ordered s u d;
                                            level = level_argument-IsLevel a.min_level l k;
                                            contains = refl;
                                            limit = limit_argument_lem max_log_lines a.limit n m;
                                          })
                                  ])
                          ])
                  ])
          ])
  ]
    where
      time : Bytes → Option (Option ℕ)
      time = time_argument parse_time zero_time lower upper max_log_lines

      level : Bytes → Option ℕ
      level = level_argument parse_time zero_time lower upper max_log_lines
