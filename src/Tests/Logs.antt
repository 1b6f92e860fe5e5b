-- ===== src/Tests/Logs.antt =====
-- internal/opsmcp/logs.go on a file of three lines, in a format of three bytes for a record.
use incident_diag.Base.{
  ℕ, ◌≡◌, refl, Bool, false, [], ◌∷◌, Option, none, some, Bytes, bytes_eq, ◌==◌, if◌then◌else◌,
}
use incident_diag.Opsmcp.Logs.{
  RawRecord, LogFilter, scanned, level_warn, read_slice, read_more, read_line, parse_record,
  matches, take_line, scan_log,
}
use incident_diag.Opsmcp.Logs.Call.{ReadServiceLogsArgs, LogFile, read_service_logs}
use incident_diag.Opsmcp.Logs.Call.Fits.{IsAnswered, read_service_logs-IsAnswered}

-- A record is its time, a W for a warning, and its message.
abbrev decode : Bytes → Option (RawRecord ℕ)
decode (t ∷ l ∷ m) =
    if l == 87
    then some (record { time = some (t ∷ []); level = some level_warn; msg = some m; attrs = 0 })
    else none
decode _ = none

abbrev read_time : Bytes → Option ℕ
read_time (t ∷ []) = some t
read_time _ = none

abbrev same_case : Bytes → Bytes
same_case s = s

abbrev never : Bytes → Bytes → Bool
never s t = false

abbrev lives : ℕ → Bool
lives n = false

abbrev payment : Bytes
payment = 112 ∷ 97 ∷ 121 ∷ []

-- Two records and a line that is none.
abbrev log_bytes : Bytes
log_bytes = 5 ∷ 87 ∷ 1 ∷ 10 ∷ 9 ∷ 10 ∷ 6 ∷ 87 ∷ 2 ∷ 10 ∷ []

abbrev warnings : LogFilter
warnings = record { since = none; until = none; min_level = 2; contains = []; limit = 1 }

scan_last :
    scan_log decode read_time same_case never warnings false lives log_bytes
    ≡ scanned (record {
      kept = record { at = 6; level = 2; msg = 2 ∷ []; attrs = 0 } ∷ [];
      matched = 2;
      unparseable = 1;
    })
unfolding scan_log read_line read_slice read_more parse_record matches take_line bytes_eq
scan_last = refl

abbrev arguments : ReadServiceLogsArgs
arguments = record {
  service = payment;
  since = [];
  until = [];
  min_level = level_warn;
  contains = [];
  limit = some 1;
}

abbrev open_log : Bytes → Option LogFile
open_log service = some (record { bytes = log_bytes; faulty = false; late = false })

read_service_logs-IsAnswered_example :
    IsAnswered read_time 0 same_case same_case 1000 decode never
      (payment ∷ [])
      open_log
      lives
      arguments
      (read_service_logs read_time 0 same_case same_case 1000 decode never
        (payment ∷ [])
        open_log
        lives
        arguments)
read_service_logs-IsAnswered_example =
    read_service_logs-IsAnswered read_time 0 same_case same_case 1000 decode never (payment ∷ [])
      open_log lives arguments
