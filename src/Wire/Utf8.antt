-- ===== src/Wire/Utf8.antt =====
-- `str::from_utf8` of the standard library: the well-formed byte sequences of RFC 3629. A `String`
-- is its list of bytes.
pub mod Sequences
pub mod Cuts
use confluxmap_pumpkin.Base.{
  ℕ, zero, suc, ◌≡◌, Bool, true, false, ◌&&◌, Option, none, some, List, [], ◌∷◌, ltb, leb,
  if◌then◌else◌,
}

-- How many continuation bytes are still to come, and the range of the next one.
pub record Utf8State : Type 0 where
  pub need : ℕ
  pub low : ℕ
  pub high : ℕ

abbrev pub expect : ℕ → ℕ → ℕ → Utf8State
expect n l h = record { need = n; low = l; high = h }

abbrev pub boundary : Utf8State
boundary = expect 0 0x80 0xbf

abbrev within : ℕ → ℕ → ℕ → Bool
within l h b = leb l b && leb b h

unfoldable pub lead_step : ℕ → Option Utf8State
lead_step b =
    if ltb b 0x80
    then some boundary
    else if within 0xc2 0xdf b
    then some (expect 1 0x80 0xbf)
    else if within 0xe0 0xe0 b
    then some (expect 2 0xa0 0xbf)
    else if within 0xed 0xed b
    then some (expect 2 0x80 0x9f)
    else if within 0xe1 0xef b
    then some (expect 2 0x80 0xbf)
    else if within 0xf0 0xf0 b
    then some (expect 3 0x90 0xbf)
    else if within 0xf1 0xf3 b
    then some (expect 3 0x80 0xbf)
    else if within 0xf4 0xf4 b
    then some (expect 3 0x80 0x8f)
    else none

pub utf8_step : ℕ → ℕ → ℕ → ℕ → Option Utf8State
utf8_step zero l h b = lead_step b
utf8_step (suc n) l h b = if within l h b then some (expect n 0x80 0xbf) else none

unfoldable pub utf8_from : Utf8State → List ℕ → Bool
unfolding lead_step utf8_step
utf8_from s [] = ltb s.need 1
utf8_from s (b ∷ bs) = elim (utf8_step s.need s.low s.high b) [
  | none ↦ false
  | some t ↦ utf8_from t bs
]

unfoldable pub is_utf8 : List ℕ → Bool
unfolding utf8_from
is_utf8 bs = utf8_from boundary bs

-- The bytes of a Rust `String`.
abbrev pub IsUtf8 : List ℕ → Type 0
IsUtf8 bs = is_utf8 bs ≡ true

-- `str::from_utf8(bytes).ok().map(str::to_owned)`
unfoldable pub from_utf8 : List ℕ → Option (List ℕ)
from_utf8 bs = if is_utf8 bs then some bs else none
