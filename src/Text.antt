-- ===== src/Text.antt =====
-- What the source uses of Go's `strings`, `strconv` and `fmt` on byte strings.
pub mod Space
use Prim.Native.Char.{code}
use Prim.Native.String.{String}
use incident_diag.Base.{
  ℕ, zero, suc, ◌+◌, ◌/◌, ◌%◌, Bool, true, false, List, [], ◌∷◌, ◌++◌, ltb, if◌then◌else◌, Bytes,
}

-- The bytes of an ASCII literal.
abbrev pub codes : String → Bytes
codes String.[] = []
codes (String.◌∷◌ c s) = code c ∷ codes s

digits_fuel : ℕ → ℕ → Bytes
digits_fuel zero n = []
digits_fuel (suc fuel) n =
    let more = digits_fuel fuel (n / 10) in
    let last = (48 + n % 10) ∷ [] in if ltb n 10 then last else more ++ last

-- `%d` on a number that is not negative. A number has at most as many digits as its value plus one.
unfoldable pub decimal : ℕ → Bytes
unfolding digits_fuel
decimal n = digits_fuel (suc n) n

-- strings.Join.
unfoldable pub join : List Bytes → Bytes → Bytes
join [] sep = []
join (s ∷ []) sep = s
join (s ∷ (t ∷ ss)) sep = s ++ (sep ++ join (t ∷ ss) sep)
