-- ===== src/Summary.antt =====
-- internal/summary/summary.go: text capped at a byte limit on a rune boundary.
-- A Go string is its list of bytes. The limit is an `int`; a negative one is set to 0 at once, so
-- the model takes it as a natural number.
pub mod Bounds
use incident_diag.Base.{
  ℕ, zero, suc, ◌/◌, ◌*◌, Bool, true, false, not, ◌&&◌, leb, ◌==◌, if◌then◌else◌, Bytes, length,
  get_elem?, take, Option, none, some,
}

-- LimitBytes = 8 << 10.
abbrev pub limit_bytes : ℕ
limit_bytes = 8192

-- utf8.RuneStart: a byte that is not of the form 10xxxxxx.
abbrev pub rune_start : ℕ → Bool
rune_start b = not (b / 64 == 2)

-- `s[cut]` starts a rune; read only where `cut < len(s)`.
abbrev pub starts_at : Bytes → ℕ → Bool
starts_at s i = elim (get_elem? s i) [ none ↦ true | some b ↦ rune_start b ]

-- The loop `for cut > 0 && !utf8.RuneStart(s[cut]) { cut-- }`.
pub back_up : Bytes → ℕ → ℕ
back_up s zero = zero
back_up s (suc cut) =
    let earlier = back_up s cut in if starts_at s (suc cut) then suc cut else earlier

pub record Capped : Type 0 where
  pub text : Bytes
  pub original_bytes : ℕ
  pub truncated : Bool

unfoldable pub cap_at : Bytes → ℕ → Capped
unfolding back_up
cap_at s limit =
    if leb (length s) limit
    then record { text = s; original_bytes = length s; truncated = false }
    else record { text = take (back_up s limit) s; original_bytes = length s; truncated = true }

unfoldable pub cap : Bytes → Capped
cap s = cap_at s limit_bytes
