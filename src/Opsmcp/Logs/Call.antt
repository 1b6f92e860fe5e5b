-- ===== src/Opsmcp/Logs/Call.antt =====
-- internal/opsmcp/logs.go: the arguments of read_service_logs, and the call as a whole. A negative limit
-- is `none`. Whether a service's file can be opened, what it holds and how it ends are arbitrary. The
-- texts of the answers are left out.
pub mod Filter
pub mod Fits
use incident_diag.Base.{
  ℕ, zero, suc, ◌+◌, Bool, true, false, not, List, [], ◌∷◌, Option, none, some, any, ltb, leb, ◌==◌,
  if◌then◌else◌, is_empty, length, Bytes, bytes_eq,
}
use incident_diag.Opsmcp.Logs.{
  default_log_limit, levels, LogFilter, RawRecord, Scan, Outcome, scanned, context_ended,
  read_failed, out_of_fuel, scan_log,
}

pub record ReadServiceLogsArgs : Type 0 where
  pub service : Bytes
  pub since : Bytes
  pub until : Bytes
  pub min_level : Bytes
  pub contains : Bytes
  pub limit : Option ℕ

-- What a refusal is about.
pub data Refusal : Type 0 where
  unknown_service bad_since bad_until bad_order bad_level bad_limit : Refusal

pub data Filtered : Type 0 where
  filter : LogFilter → Filtered
  refusal : Refusal → Filtered

-- The kinds of a failure, KindError and KindTimeout.
pub data Kind : Type 0 where
  error timeout : Kind

-- A file: its bytes, whether reading it ends with a fault, and whether the context has then ended.
pub record LogFile : Type 0 where
  pub bytes : Bytes
  pub faulty : Bool
  pub late : Bool

pub data Answer (V : Type 0) : Type 0 where
  refused : Refusal → Answer V
  failed : Kind → Answer V
  found : Scan V → Answer V
  unfinished : Answer V

-- `!until.After(since)`, where both are given.
unfoldable pub is_disordered : Option ℕ → Option ℕ → Bool
is_disordered none until = false
is_disordered (some s) none = false
is_disordered (some s) (some u) = not (ltb s u)

unfoldable pub limit_argument : ℕ → Option ℕ → Option ℕ
limit_argument max_log_lines none = none
limit_argument max_log_lines (some n) =
    if n == 0 then some default_log_limit else if leb n max_log_lines then some n else none

module _ (parse_time : Bytes → Option ℕ) (zero_time : ℕ) (lower upper : Bytes → Bytes)
    (max_log_lines : ℕ) where
  -- A time argument: absent, or parsed, where the zero time is as good as none.
  unfoldable pub time_argument : Bytes → Option (Option ℕ)
  time_argument raw = if is_empty raw then some none else elim (parse_time raw) [
    | none ↦ none
    | some t ↦ some (if t == zero_time then none else some t)
  ]

  unfoldable pub level_argument : Bytes → Option ℕ
  unfolding levels
  level_argument raw = if is_empty raw then some 1 else levels (upper raw)

  -- buildFilter.
  unfoldable pub build_filter : ReadServiceLogsArgs → Filtered
  build_filter a = elim (time_argument a.since) [
    | none ↦ refusal bad_since
    | some since ↦ elim (time_argument a.until) [
      | none ↦ refusal bad_until
      | some until ↦
          if is_disordered since until
          then refusal bad_order
          else elim (level_argument a.min_level) [
            | none ↦ refusal bad_level
            | some level ↦ elim (limit_argument max_log_lines a.limit) [
              | none ↦ refusal bad_limit
              | some limit ↦ filter (record {
                since = since;
                until = until;
                min_level = level;
                contains = lower a.contains;
                limit = limit;
              })
            ]
          ]
    ]
  ]

  module _ {V : Type 0} (unmarshal : Bytes → Option (RawRecord V)) (has_text : Bytes → Bytes → Bool)
      (log_services : List Bytes) (open_log : Bytes → Option LogFile) (ended_at : ℕ → Bool) where
    abbrev answer : Bool → Outcome V → Answer V
    answer late (scanned st) = found st
    answer late context_ended = failed timeout
    answer late read_failed = failed (if late then timeout else error)
    answer late out_of_fuel = unfinished

    -- Server.readServiceLogs.
    unfoldable pub read_service_logs : ReadServiceLogsArgs → Answer V
    read_service_logs a =
        if not (any (bytes_eq a.service) log_services)
        then refused unknown_service
        else elim (build_filter a) [
          | refusal r ↦ refused r
          | filter f ↦ elim (open_log a.service) [
            | none ↦ failed error
            | some file ↦
                answer file.late
                  (scan_log unmarshal parse_time lower has_text f file.faulty ended_at file.bytes)
          ]
        ]
