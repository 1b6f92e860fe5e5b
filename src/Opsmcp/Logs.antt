-- ===== src/Opsmcp/Logs.antt =====
-- internal/opsmcp/logs.go: read_service_logs. The JSON decoder, the parser of a time, lower-casing, the
-- test for a substring and the end of the context are parameters. A time is a number, and a filter's
-- time that is the zero time is `none`. A log file is its bytes, and whether reading ends with a fault.
pub mod Lines
pub mod Step
pub mod Tail
pub mod Call
use incident_diag.Base.{
  ℕ, zero, suc, ◌+◌, ◌%◌, Bool, true, false, not, ◌&&◌, ◌||◌, List, [], ◌∷◌, ◌++◌, Option, none,
  some, ◌>>=◌, drop, ltb, leb, ◌==◌, if◌then◌else◌, is_empty, length, Bytes, bytes_eq,
}

abbrev pub default_log_limit : ℕ
default_log_limit = 200

abbrev pub max_log_line_bytes : ℕ
max_log_line_bytes = 1048576

abbrev pub read_buffer_bytes : ℕ
read_buffer_bytes = 65536

-- How bufio.Reader.ReadSlice stops where it finds no newline.
pub data Stop : Type 0 where
  buffer_full at_end : Stop

pub record Slice : Type 0 where
  pub chunk : Bytes
  pub rest : Bytes
  pub stop : Option Stop

-- bufio.Reader.ReadSlice('\n') with room for so many bytes.
unfoldable pub read_slice : ℕ → Bytes → Slice
read_slice zero s = record { chunk = []; rest = s; stop = some buffer_full }
read_slice (suc n) [] = record { chunk = []; rest = []; stop = some at_end }
read_slice (suc n) (b ∷ s) =
    let r = read_slice n s in
    if b == 10
    then record { chunk = b ∷ []; rest = s; stop = none }
    else record r { chunk = b ∷ r.chunk }

abbrev pub is_eol : ℕ → Bool
is_eol b = b == 13 || b == 10

-- trimEOL.
unfoldable pub trim_eol : Bytes → Bytes
trim_eol [] = []
trim_eol (b ∷ s) = let t = trim_eol s in if is_empty t && is_eol b then [] else b ∷ t

-- A line as readLine returns it: its bytes, whether it was over the bound, and whether an error, which
-- is the end of the file or a fault, came with it. The rest is what the reader still holds.
pub record Line : Type 0 where
  pub text : Bytes
  pub too_long : Bool
  pub ended : Bool
  pub rest : Bytes

-- What readLine returns for the bytes of a line.
unfoldable pub finish_line : Bool → Bytes → Bool → Bytes → Line
unfolding trim_eol
finish_line too_long buf ended rest = record {
  text = if too_long then [] else trim_eol buf;
  too_long = too_long;
  ended = ended;
  rest = rest;
}

-- The loop of readLine behind a full buffer. The fuel bounds its rounds, and `none` is its end.
unfoldable pub read_more : ℕ → Bytes → Bool → Bytes → Option Line
unfolding finish_line
read_more zero buf too_long s = none
read_more (suc fuel) buf too_long s =
    let r = read_slice read_buffer_bytes s in
    let over = ltb max_log_line_bytes (length buf + length r.chunk) in
    let buf' = if over then buf else buf ++ r.chunk in
    let again = read_more fuel buf' (too_long || over) r.rest in
    elim r.stop [
      | none ↦ some (finish_line (too_long || over) buf' false r.rest)
      | some e ↦ elim e [
        | buffer_full ↦ again
        | at_end ↦ some (finish_line (too_long || over) buf' true r.rest)
      ]
    ]

-- readLine.
unfoldable pub read_line : Bytes → Option Line
unfolding finish_line read_more
read_line s =
    let r = read_slice read_buffer_bytes s in
    elim r.stop [
      | none ↦ some (finish_line false r.chunk false r.rest)
      | some e ↦ elim e [
        | buffer_full ↦ read_more (suc (length r.rest)) r.chunk false r.rest
        | at_end ↦ some (finish_line false r.chunk true r.rest)
      ]
    ]

-- The keys of `levels`: DEBUG, INFO, WARN and ERROR.
abbrev pub level_debug : Bytes
level_debug = 68 ∷ 69 ∷ 66 ∷ 85 ∷ 71 ∷ []

abbrev pub level_info : Bytes
level_info = 73 ∷ 78 ∷ 70 ∷ 79 ∷ []

abbrev pub level_warn : Bytes
level_warn = 87 ∷ 65 ∷ 82 ∷ 78 ∷ []

abbrev pub level_error : Bytes
level_error = 69 ∷ 82 ∷ 82 ∷ 79 ∷ 82 ∷ []

-- A lookup in `levels`.
unfoldable pub levels : Bytes → Option ℕ
levels s =
    if bytes_eq s level_debug
    then some 0
    else if bytes_eq s level_info
    then some 1
    else if bytes_eq s level_warn
    then some 2
    else if bytes_eq s level_error
    then some 3
    else none

pub record LogFilter : Type 0 where
  pub since : Option ℕ
  pub until : Option ℕ
  pub min_level : ℕ
  pub contains : Bytes
  pub limit : ℕ

-- A line that is a JSON object: its keys time, level and msg, each where it is a string, and the others.
pub record RawRecord (V : Type 0) : Type 0 where
  pub time : Option Bytes
  pub level : Option Bytes
  pub msg : Option Bytes
  pub attrs : V

-- The number of a level stands for its name, which is a key of `levels`.
pub record LogRecord (V : Type 0) : Type 0 where
  pub at : ℕ
  pub level : ℕ
  pub msg : Bytes
  pub attrs : V

-- The results of scanLog.
pub record Scan (V : Type 0) : Type 0 where
  pub kept : List (LogRecord V)
  pub matched : ℕ
  pub unparseable : ℕ

pub data Outcome (V : Type 0) : Type 0 where
  scanned : Scan V → Outcome V
  context_ended read_failed out_of_fuel : Outcome V

abbrev before_since : {V : Type 0} → LogRecord V → Option ℕ → Bool
before_since r none = false
before_since r (some t) = ltb r.at t

abbrev past_until : {V : Type 0} → LogRecord V → Option ℕ → Bool
past_until r none = false
past_until r (some t) = not (ltb r.at t)

-- The window over the matches: `kept[1:]` behind the limit.
unfoldable pub keep : {V : Type 0} → ℕ → LogRecord V → List (LogRecord V) → List (LogRecord V)
keep limit r kept =
    let kept' = kept ++ r ∷ [] in if ltb limit (length kept') then drop 1 kept' else kept'

module _ {V : Type 0} (unmarshal : Bytes → Option (RawRecord V))
    (parse_time : Bytes → Option ℕ) where
  -- parseRecord.
  unfoldable pub parse_record : Bytes → Option (LogRecord V)
  unfolding levels
  parse_record line = do
    raw ← unmarshal line
    at ← raw.time
    t ← parse_time at
    level ← raw.level
    l ← levels level
    m ← raw.msg
    some (record { at = t; level = l; msg = m; attrs = raw.attrs })

  module _ (lower : Bytes → Bytes) (has_text : Bytes → Bytes → Bool) (f : LogFilter) where
    -- logFilter.matches.
    unfoldable pub matches : LogRecord V → Bytes → Bool
    matches r raw =
        if ltb r.level f.min_level
        then false
        else if before_since r f.since
        then false
        else if past_until r f.until
        then false
        else is_empty f.contains || has_text (lower raw) f.contains

    -- What a line does to the results, when it was parsed.
    unfoldable pub take_record : Option (LogRecord V) → Bytes → Scan V → Scan V
    unfolding keep
    take_record none line st = record st { unparseable = st.unparseable + 1 }
    take_record (some r) line st =
        if matches r line
        then record st { kept = keep f.limit r st.kept; matched = st.matched + 1 }
        else st

    unfoldable pub take_line : Bool → Bytes → Scan V → Scan V
    unfolding take_record
    take_line true line st = record st { unparseable = st.unparseable + 1 }
    take_line false [] st = st
    take_line false (b ∷ line) st = take_record (parse_record (b ∷ line)) (b ∷ line) st

    -- The loop of scanLog over a file that ends with a fault or not, where the context has ended or not
    -- at a number of lines. The fuel bounds the lines.
    module _ (faulty : Bool) (ended_at : ℕ → Bool) where
      unfoldable pub scan_lines : ℕ → ℕ → Scan V → Bytes → Outcome V
      scan_lines zero lines st s = out_of_fuel
      scan_lines (suc fuel) lines st s =
          if (lines % 1000 == 0) && (ltb 0 lines && ended_at lines)
          then context_ended
          else elim (read_line s) [
            | none ↦ out_of_fuel
            | some l ↦
                let st' = take_line l.too_long l.text st in
                let next = scan_lines fuel (lines + 1) st' l.rest in
                if l.ended then (if faulty then read_failed else scanned st') else next
          ]

      -- scanLog.
      unfoldable pub scan_log : Bytes → Outcome V
      unfolding scan_lines
      scan_log s =
          scan_lines (suc (length s)) 0 (record { kept = []; matched = 0; unparseable = 0 }) s
