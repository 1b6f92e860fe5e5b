-- ===== src/Opsmcp/Logs/Tail.antt =====
-- internal/opsmcp/logs.go, scanLog: it keeps the last matching records of the file.
use incident_diag.Base.{
  ℕ, zero, suc, ◌+◌, ◌%◌, ◌≤◌, ◌≡◌, refl, ◌∙◌, Bool, true, false, ◌&&◌, [], Option, length, count,
  ltb, ◌==◌, if◌then◌else◌, Bytes, arith, Bool-cases, inl, inr,
}
use mathlib.Core.Path.{subst}
use incident_diag.Opsmcp.Logs.{
  finish_line, RawRecord, LogFilter, Scan, Outcome, scanned, context_ended, read_failed,
  out_of_fuel, scan_lines, scan_log,
}
use incident_diag.Opsmcp.Logs.Lines.{cut, cut_shorter, read_line_lem}
use incident_diag.Opsmcp.Logs.Step.{
  lines, lines-cut, last, Scan_eq, records, is_unparseable, step, take_lines, take_lines_lem,
}

module _ {V : Type 0} (unmarshal : Bytes → Option (RawRecord V)) (parse_time : Bytes → Option ℕ)
    (lower : Bytes → Bytes) (has_text : Bytes → Bytes → Bool) (f : LogFilter) where
  -- What becomes of a scan: with the results over all lines, or an end for which there is a reason.
  abbrev pub IsScanned : Bool → (ℕ → Bool) → Scan V → Outcome V → Type 0
  IsScanned faulty ended_at all (scanned st) = (faulty ≡ false) × (st ≡ all)
  IsScanned faulty ended_at all context_ended = (n : ℕ) × (ended_at n ≡ true)
  IsScanned faulty ended_at all read_failed = faulty ≡ true
  IsScanned faulty ended_at all out_of_fuel = ⊥

  last_line :
      (faulty : Bool) (ended_at : ℕ → Bool) (st : Scan V)
      → IsScanned faulty ended_at st (if faulty then read_failed else scanned st)
  last_line true ended_at st = refl
  last_line false ended_at st = (refl, refl)

  scan_lines_lem :
      (faulty : Bool) (ended_at : ℕ → Bool) (fuel n : ℕ) (st : Scan V) (s : Bytes)
      → suc (length s) ≤ fuel
      → IsScanned faulty ended_at
          (take_lines unmarshal parse_time lower has_text f st (lines s))
          (scan_lines unmarshal parse_time lower has_text f faulty ended_at fuel n st s)
  unfolding scan_lines finish_line take_lines
  scan_lines_lem faulty ended_at zero n st s h = elim h [ ]
  scan_lines_lem faulty ended_at (suc fuel) n st s h =
      elim (Bool-cases ((n % 1000 == 0) && (ltb 0 n && ended_at n))) [
        | inl e ↦ rw e (n, ground arith)
        | inr e ↦
            rw (e, read_line_lem s, lines-cut s)
              (elim (Bool-cases (cut s).ended) [
                | inl d ↦ rw d (
                    last_line faulty ended_at
                      (step unmarshal parse_time lower has_text f st (cut s).line))
                | inr d ↦ rw d (
                    scan_lines_lem faulty ended_at fuel (n + 1)
                      (step unmarshal parse_time lower has_text f st (cut s).line) (cut s).rest
                      (omega (arith, cut_shorter s d)))
              ])
      ]

  -- A scan ends with the last records of the file that match the filter, as many as the limit allows and
  -- in the order of the file, and with the numbers of all that match and of all lines that are no record,
  -- unless reading failed or the context has ended.
  pub scan_log-IsScanned :
      (faulty : Bool) (ended_at : ℕ → Bool) (s : Bytes)
      → IsScanned faulty ended_at
          (record {
            kept = last f.limit (records unmarshal parse_time lower has_text f (lines s));
            matched = length (records unmarshal parse_time lower has_text f (lines s));
            unparseable = count (is_unparseable unmarshal parse_time lower has_text f) (lines s);
          })
          (scan_log unmarshal parse_time lower has_text f faulty ended_at s)
  unfolding scan_log
  scan_log-IsScanned faulty ended_at s =
      subst
        (λ (all : Scan V).
          IsScanned faulty ended_at all
            (scan_log unmarshal parse_time lower has_text f faulty ended_at s))
        (take_lines_lem unmarshal parse_time lower has_text f
            (record { kept = []; matched = 0; unparseable = 0 }) (lines s) (omega arith)
          ∙ Scan_eq refl (omega arith) (omega arith))
        (scan_lines_lem faulty ended_at (suc (length s)) 0 _ s (omega arith))
