-- ===== src/Float/Arithmetic.antt =====
-- The arithmetic of the token buckets on numbers that are finite and not negative, which is all that
-- a bucket holds. Such a number is a whole number of units of 2^-1074, the smallest subnormal; a
-- result is rounded to the nearest number, a tie to the even one.
use confluxmap_pumpkin.Base.{
  ℕ, zero, suc, ◌+◌, ◌-◌, ◌*◌, ◌/◌, ◌%◌, ◌^◌, ◌≡◌, refl, Bool, ◌&&◌, ◌||◌, ltb, ◌==◌, if◌then◌else◌,
  min,
}
use confluxmap_pumpkin.Float.{infinity, exponent, significand}

-- How many bits a number has, if at most `fuel`. No number here has more than 4200: a finite number
-- has fewer than 2^2099 units.
unfoldable pub bits : ℕ → ℕ → ℕ
bits zero n = 0
bits (suc fuel) n = let rest = bits fuel (n / 2) in if n == 0 then 0 else suc rest

unfoldable pub units : ℕ → ℕ
unfolding exponent significand
units b = significand b * 2 ^ (exponent b - 1)

-- Of `n / d` units in steps of `2 ^ shift`, the pattern of the nearest number.
unfoldable pub round_at : ℕ → ℕ → ℕ → ℕ
round_at shift n d = min infinity (
    shift * 2 ^ 52
    + n / d
    + (if ltb d (2 * (n % d)) || (2 * (n % d) == d && n / d % 2 == 1) then 1 else 0))

unfoldable pub round : ℕ → ℕ → ℕ
unfolding bits round_at
round n d = let shift = bits 4200 (n / d) - 53 in round_at shift n (d * 2 ^ shift)

-- a + b, a - b where b ≤ a, a * b, a / b, and n as f64
unfoldable pub add : ℕ → ℕ → ℕ
unfolding round units
add a b = round (units a + units b) 1

unfoldable pub sub : ℕ → ℕ → ℕ
unfolding round units
sub a b = round (units a - units b) 1

unfoldable pub mul : ℕ → ℕ → ℕ
unfolding round units
mul a b = round (units a * units b) (2 ^ 1074)

unfoldable pub div : ℕ → ℕ → ℕ
unfolding round units
div a b = round (units a * 2 ^ 1074) (units b)

unfoldable pub of_nat : ℕ → ℕ
unfolding round
of_nat n = round (n * 2 ^ 1074) 1

-- a.min(b) and a < b
unfoldable pub lesser : ℕ → ℕ → ℕ
lesser a b = if ltb b a then b else a

unfoldable pub less : ℕ → ℕ → Bool
less a b = ltb a b

of_nat_examples : (of_nat 8 ≡ 0x4020_0000_0000_0000) × (of_nat 60000 ≡ 0x40ed_4c00_0000_0000)
unfolding of_nat
of_nat_examples = (refl, refl)

-- 60.0 / 60000.0 is the number nearest to 0.001; 0.1 + 0.2 and 3.0 - 1.0
arithmetic_examples :
    (div (of_nat 60) (of_nat 60000) ≡ 0x3f50_624d_d2f1_a9fc)
    × (add 0x3fb9_9999_9999_999a 0x3fc9_9999_9999_999a ≡ 0x3fd3_3333_3333_3334)
    × (sub (of_nat 3) (of_nat 1) ≡ of_nat 2)
    × (mul (of_nat 1000) 0x3f50_624d_d2f1_a9fc ≡ of_nat 1)
unfolding of_nat div add sub mul
arithmetic_examples = (refl, refl, refl, refl)
