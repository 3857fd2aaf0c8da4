-- ===== src/Float.antt =====
-- What the program does with an `f64` apart from arithmetic: it is its IEEE-754 bit pattern.
pub mod Arithmetic
use confluxmap_pumpkin.Base.{
  ℕ, ◌+◌, ◌-◌, ◌*◌, ◌/◌, ◌%◌, ◌^◌, ◌<◌, ◌≡◌, refl, Bool, true, false, not, ◌&&◌, ltb, leb, ◌==◌,
  if◌then◌else◌,
}
use confluxmap_pumpkin.Base.Int.{ℤ, pos, negsuc}

abbrev pub IsF64 : ℕ → Type 0
IsF64 b = b < 2 ^ 64

abbrev pub infinity : ℕ
infinity = 0x7ff0_0000_0000_0000

abbrev pub sign_bit : ℕ
sign_bit = 0x8000_0000_0000_0000

-- The pattern of `value.abs()`. Patterns of non-negative numbers are ordered as the numbers are.
unfoldable pub abs : ℕ → ℕ
abs b = b % sign_bit

unfoldable pub is_finite : ℕ → Bool
unfolding abs
is_finite b = ltb (abs b) infinity

-- `value.abs() > bound`, for a positive finite bound; a NaN compares false.
unfoldable pub abs_gt : ℕ → ℕ → Bool
unfolding abs
abs_gt b bound = ltb bound (abs b) && leb (abs b) infinity

-- `a == b`: a NaN is not equal to itself, and the two zeros are equal.
unfoldable pub eq : ℕ → ℕ → Bool
unfolding abs
eq a b = leb (abs a) infinity && (if a == b then true else abs a + abs b == 0)

-- |value| is `significand * 2 ^ exponent / 2 ^ 1075`.
unfoldable pub exponent : ℕ → ℕ
exponent m = if m / 2 ^ 52 == 0 then 1 else m / 2 ^ 52

unfoldable pub significand : ℕ → ℕ
significand m = if m / 2 ^ 52 == 0 then m else m % 2 ^ 52 + 2 ^ 52

-- The whole part of |value|, and whether something is cut off.
unfoldable pub whole : ℕ → ℕ
unfolding exponent significand
whole m =
    if leb 1075 (exponent m)
    then significand m * 2 ^ (exponent m - 1075)
    else significand m / 2 ^ (1075 - exponent m)

unfoldable pub has_fraction : ℕ → Bool
unfolding exponent significand
has_fraction m =
    if leb 1075 (exponent m) then false else not (significand m % 2 ^ (1075 - exponent m) == 0)

-- `value.floor()` of a finite value, as an integer.
unfoldable pub floor : ℕ → ℤ
unfolding abs whole has_fraction
floor b =
    if leb sign_bit b
    then (if has_fraction (abs b)
        then negsuc (whole (abs b))
        else if whole (abs b) == 0
        then pos 0
        else negsuc (whole (abs b) - 1))
    else pos (whole (abs b))

floor_examples :
    (floor 0x4029_cccc_cccc_cccd ≡ pos 12)
    × (floor 0xc01d_0000_0000_0000 ≡ negsuc 7)
    × (floor 0xc020_0000_0000_0000 ≡ negsuc 7)
    × (floor 0x8000_0000_0000_0000 ≡ pos 0)
unfolding floor
floor_examples = (refl, refl, refl, refl)
