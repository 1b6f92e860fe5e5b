-- ===== src/Text/Space.antt =====
-- strings.TrimSpace: the runes of Unicode's White_Space are taken off both ends. Their UTF-8 forms
-- are written out; the last rune of a string is read off its reversed bytes.
use incident_diag.Base.{
  ℕ, zero, suc, Bool, ◌&&◌, ◌||◌, [], ◌∷◌, Option, none, some, leb, ◌==◌, if◌then◌else◌, length,
  Bytes,
}
use mathlib.Core.List.{reverse}

abbrev is_ascii_space : ℕ → Bool
is_ascii_space b = (leb 9 b && leb b 13) || b == 32

-- U+0085 and U+00A0.
abbrev is_space_2 : ℕ → ℕ → Bool
is_space_2 a b = a == 0xc2 && (b == 0x85 || b == 0xa0)

-- U+1680, U+2000 to U+200A, U+2028, U+2029, U+202F, U+205F and U+3000.
abbrev is_space_3 : ℕ → ℕ → ℕ → Bool
is_space_3 a b c =
    (a == 0xe1 && (b == 0x9a && c == 0x80))
    || ((a == 0xe2
          && ((b == 0x80 && ((leb 0x80 c && leb c 0x8a) || (c == 0xa8 || (c == 0xa9 || c == 0xaf))))
              || (b == 0x81 && c == 0x9f)))
        || (a == 0xe3 && (b == 0x80 && c == 0x80)))

-- The rest of a string that begins with a space.
after_space : Bytes → Option Bytes
after_space [] = none
after_space (a ∷ []) = if is_ascii_space a then some [] else none
after_space (a ∷ (b ∷ [])) =
    if is_ascii_space a then some (b ∷ []) else if is_space_2 a b then some [] else none
after_space (a ∷ (b ∷ (c ∷ s))) =
    if is_ascii_space a
    then some (b ∷ (c ∷ s))
    else if is_space_2 a b
    then some (c ∷ s)
    else if is_space_3 a b c
    then some s
    else none

-- The same for a reversed string that ends with one.
before_space : Bytes → Option Bytes
before_space [] = none
before_space (a ∷ []) = if is_ascii_space a then some [] else none
before_space (b ∷ (a ∷ [])) =
    if is_ascii_space b then some (a ∷ []) else if is_space_2 a b then some [] else none
before_space (c ∷ (b ∷ (a ∷ s))) =
    if is_ascii_space c
    then some (b ∷ (a ∷ s))
    else if is_space_2 b c
    then some (a ∷ s)
    else if is_space_3 a b c
    then some s
    else none

-- Each round takes at least one byte off, so the length is enough fuel.
strip : (Bytes → Option Bytes) → ℕ → Bytes → Bytes
strip shorter zero s = s
strip shorter (suc fuel) s = elim (shorter s) [ none ↦ s | some rest ↦ strip shorter fuel rest ]

unfoldable pub trim_space : Bytes → Bytes
unfolding strip after_space before_space
trim_space s =
    let left = strip after_space (length s) s in
    reverse (strip before_space (length left) (reverse left))
