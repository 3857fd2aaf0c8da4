-- ===== src/Base/Int.antt =====
-- Signed integers over the native numbers, and the words of 32 and 64 bits that hold them.
use confluxmap_pumpkin.Base.Tests.{ltb, ◌==◌, if◌then◌else◌}
use Prim.Native.Nat.{ℕ, zero, suc, ◌+◌, ◌-◌, ◌%◌, ◌^◌, ◌≤◌, ◌<◌}
use mathlib.Core.Path.{◌≡◌, refl}
use mathlib.Core.Logic.{◌↔◌}
use mathlib.Core.Bool.{Bool, true}
use native.Mathlib.Omega.{arith}

-- `negsuc n` is -(n + 1).
pub data ℤ : Type 0 where
  pos : ℕ → ℤ
  negsuc : ℕ → ℤ

abbrev pub pos_part : ℤ → ℕ
pos_part (pos n) = n
pos_part (negsuc n) = 0

abbrev pub neg_part : ℤ → ℕ
neg_part (pos n) = 0
neg_part (negsuc n) = suc n

infix 50 ◌≤ℤ◌ ◌<ℤ◌ ◌==ℤ◌
abbrev pub ◌≤ℤ◌ : ℤ → ℤ → Type 0
a ≤ℤ b = pos_part a + neg_part b ≤ pos_part b + neg_part a

abbrev pub ◌<ℤ◌ : ℤ → ℤ → Type 0
a <ℤ b = pos_part a + neg_part b < pos_part b + neg_part a

abbrev pub ltb_ℤ : ℤ → ℤ → Bool
ltb_ℤ a b = ltb (pos_part a + neg_part b) (pos_part b + neg_part a)

abbrev pub ◌==ℤ◌ : ℤ → ℤ → Bool
a ==ℤ b = pos_part a + neg_part b == pos_part b + neg_part a

pub ==ℤ_iff : (a b : ℤ) → ((a ==ℤ b) ≡ true) ↔ (a ≡ b)
==ℤ_iff (pos a) (pos b) = ground arith
==ℤ_iff (pos a) (negsuc b) = ground arith
==ℤ_iff (negsuc a) (pos b) = ground arith
==ℤ_iff (negsuc a) (negsuc b) = ground arith

pub ==ℤ_refl : (a : ℤ) → (a ==ℤ a) ≡ true
==ℤ_refl a = (==ℤ_iff a a).1 refl

-- a + 1
abbrev pub suc_ℤ : ℤ → ℤ
suc_ℤ (pos n) = pos (n + 1)
suc_ℤ (negsuc zero) = pos 0
suc_ℤ (negsuc (suc n)) = negsuc n

abbrev pub IsI32 : ℤ → Type 0
IsI32 a = (pos_part a < 2 ^ 31) × (neg_part a ≤ 2 ^ 31)

abbrev pub IsI64 : ℤ → Type 0
IsI64 a = (pos_part a < 2 ^ 63) × (neg_part a ≤ 2 ^ 63)

-- The two's complement pattern of a word, and the integer that it stands for.
unfoldable pub to_word : ℕ → ℤ → ℕ
to_word m (pos n) = n % m
to_word m (negsuc n) = m - 1 - n % m

unfoldable pub of_word : ℕ → ℕ → ℤ
of_word half w = if ltb w half then pos w else negsuc (half + half - 1 - w)

pub of_word-to_word_i32 : (a : ℤ) → IsI32 a → of_word (2 ^ 31) (to_word (2 ^ 32) a) ≡ a
unfolding of_word to_word
of_word-to_word_i32 (pos n) h = ground arith
of_word-to_word_i32 (negsuc n) h = ground arith

pub of_word-to_word_i64 : (a : ℤ) → IsI64 a → of_word (2 ^ 63) (to_word (2 ^ 64) a) ≡ a
unfolding of_word to_word
of_word-to_word_i64 (pos n) h = ground arith
of_word-to_word_i64 (negsuc n) h = ground arith

pub to_word-lt : (m : ℕ) (a : ℤ) → 0 < m → to_word m a < m
unfolding to_word
to_word-lt m (pos n) h = grind arith
to_word-lt m (negsuc n) h = grind arith

pub of_word-IsI32 : (w : ℕ) → w < 2 ^ 32 → IsI32 (of_word (2 ^ 31) w)
unfolding of_word
of_word-IsI32 w h = ground arith

pub of_word-IsI64 : (w : ℕ) → w < 2 ^ 64 → IsI64 (of_word (2 ^ 63) w)
unfolding of_word
of_word-IsI64 w h = ground arith

-- A word survives the way through its signed reading.
pub to_word-of_word : (w : ℕ) → w < 2 ^ 64 → to_word (2 ^ 64) (of_word (2 ^ 63) w) ≡ w
unfolding of_word to_word
to_word-of_word w h = ground arith
