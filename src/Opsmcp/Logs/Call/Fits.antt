-- ===== src/Opsmcp/Logs/Call/Fits.antt =====
-- internal/opsmcp/logs.go: what read_service_logs shows of which file.
use incident_diag.Base.{
  ℕ, zero, suc, ◌-◌, ◌≤◌, ◌≡◌, ◌⊎◌, refl, Bool, true, false, List, [], ◌∷◌, Option, none, some, any,
  length, count, drop, Bytes, bytes_eq, arith, Bool-cases, Option-cases, inl, inr,
}
use mathlib.Core.Path.{subst}
use incident_diag.Opsmcp.Logs.Call.Filter.{IsFilter, IsRefusal, IsFiltered, build_filter-IsFiltered}
use incident_diag.Opsmcp.Logs.{
  LogFilter, RawRecord, Scan, Outcome, scanned, context_ended, read_failed, out_of_fuel,
}
use incident_diag.Opsmcp.Logs.Step.{lines, last, records, is_unparseable}
use incident_diag.Opsmcp.Logs.Tail.{IsScanned, scan_log-IsScanned}
use incident_diag.Opsmcp.Logs.Call.{
  ReadServiceLogsArgs, Filtered, filter, refusal, Refusal, LogFile, Answer, refused, failed, found,
  unfinished, unknown_service, build_filter, answer, read_service_logs,
}

length-drop {ℓ} : {A : Type ℓ} (k : ℕ) (xs : List A) → length (drop k xs) ≡ length xs - k
length-drop zero xs = omega arith
length-drop (suc k) [] = omega arith
length-drop (suc k) (x ∷ xs) = omega (arith, length-drop k xs)

length-last {ℓ} : {A : Type ℓ} (n : ℕ) (xs : List A) → length (last n xs) ≤ n
length-last n xs = omega (arith, length-drop (length xs - n) xs)

Filtered-cases :
    (x : Filtered) → ((f : LogFilter) × (x ≡ filter f)) ⊎ ((r : Refusal) × (x ≡ refusal r))
Filtered-cases (filter f) = inl (f, refl)
Filtered-cases (refusal r) = inr (r, refl)

module _ (parse_time : Bytes → Option ℕ) (zero_time : ℕ) (lower upper : Bytes → Bytes)
    (max_log_lines : ℕ) where
  abbrev Filters : ReadServiceLogsArgs → LogFilter → Type 0
  Filters a f = IsFilter parse_time zero_time lower upper max_log_lines a f

  filtered :
      (a : ReadServiceLogsArgs) (x : Filtered)
      → build_filter parse_time zero_time lower upper max_log_lines a ≡ x
      → IsFiltered parse_time zero_time lower upper max_log_lines a x
  filtered a x e =
      subst (IsFiltered parse_time zero_time lower upper max_log_lines a) e
        (build_filter-IsFiltered parse_time zero_time lower upper max_log_lines a)

  module _ {V : Type 0} (unmarshal : Bytes → Option (RawRecord V)) (has_text : Bytes → Bytes → Bool)
      (log_services : List Bytes) (open_log : Bytes → Option LogFile) (ended_at : ℕ → Bool) where
    -- The results over the whole file.
    abbrev pub all_of : LogFilter → LogFile → Scan V
    all_of f file =
        let rs = records unmarshal parse_time lower has_text f (lines file.bytes) in
        record {
          kept = last f.limit rs;
          matched = length rs;
          unparseable =
              count (is_unparseable unmarshal parse_time lower has_text f) (lines file.bytes);
        }

    -- A file of a service that the server knows.
    abbrev pub IsOpened : ReadServiceLogsArgs → LogFile → Type 0
    IsOpened a file =
        (any (bytes_eq a.service) log_services ≡ true) × (open_log a.service ≡ some file)

    -- What becomes of a call.
    abbrev pub IsAnswered : ReadServiceLogsArgs → Answer V → Type 0
    IsAnswered a (refused r) =
        ((any (bytes_eq a.service) log_services ≡ false) × (r ≡ unknown_service))
        ⊎ IsRefusal parse_time zero_time lower upper max_log_lines a r
    IsAnswered a (failed k) =
        (open_log a.service ≡ none)
        ⊎ ((file : LogFile) × (IsOpened a file
              × ((file.faulty ≡ true) ⊎ ((n : ℕ) × (ended_at n ≡ true)))))
    IsAnswered a (found st) =
        (file : LogFile) × ((f : LogFilter) × (IsOpened a file
            × ((file.faulty ≡ false)
                × (Filters a f × ((length st.kept ≤ f.limit) × (st ≡ all_of f file))))))
    IsAnswered a unfinished = ⊥

    answer_lem :
        (a : ReadServiceLogsArgs) (f : LogFilter) (file : LogFile) (o : Outcome V)
        → IsOpened a file
        → Filters a f
        → IsScanned unmarshal parse_time lower has_text f file.faulty ended_at (all_of f file) o
        → IsAnswered a (
            answer parse_time zero_time lower upper max_log_lines unmarshal has_text log_services
              open_log ended_at file.late o)
    answer_lem a f file (scanned st) h l (whole, e) = (
      file,
      (
        f,
        (
          h,
          (
            whole,
            (
              l,
              (
                rw e (
                    length-last f.limit
                      (records unmarshal parse_time lower has_text f (lines file.bytes))),
                e,
              ),
            ),
          ),
        ),
      ),
    )
    answer_lem a f file context_ended h l s = inr (file, (h, inr s))
    answer_lem a f file read_failed h l s = inr (file, (h, inl s))
    answer_lem a f file out_of_fuel h l s = s

    -- A call is refused for a service that the server does not know, or for an argument: a time or a level
    -- that cannot be read, times out of order, or a limit that is not allowed. It fails if the file cannot
    -- be opened or read or the context has ended. Otherwise it finds the last records of the service's
    -- file that match the filter that the arguments ask for: from the one time to before the other, at
    -- least of the level, or INFO, and with the text in lower case; at most as many as the limit that is
    -- asked for and allowed, or 200, with the number of all that match and of the lines that are no
    -- record.
    pub read_service_logs-IsAnswered :
        (a : ReadServiceLogsArgs)
        → IsAnswered a (
            read_service_logs parse_time zero_time lower upper max_log_lines unmarshal has_text
              log_services open_log ended_at a)
    unfolding read_service_logs
    read_service_logs-IsAnswered a = elim (Bool-cases (any (bytes_eq a.service) log_services)) [
      | inr e ↦ rw e (inl (e, refl))
      | inl e ↦
          rw e
            (elim (Filtered-cases (build_filter parse_time zero_time lower upper max_log_lines a)) [
              | inr (r, g) ↦ rw g (inr (filtered a (refusal r) g))
              | inl (f, g) ↦ rw g (elim (Option-cases (open_log a.service)) [
                | inl o ↦ rw o (inl o)
                | inr (file, o) ↦ rw o (
                    answer_lem a f file _ (e, o) (filtered a (filter f) g)
                      (scan_log-IsScanned unmarshal parse_time lower has_text f file.faulty ended_at
                        file.bytes))
              ])
            ])
    ]
