-- ===== src/Wire/Bytes.antt =====
-- `to_be_bytes` and `from_be_bytes` of the standard library, at any width.
use confluxmap_pumpkin.Base.{
  ℕ, zero, suc, ◌+◌, ◌*◌, ◌/◌, ◌%◌, ◌^◌, ◌<◌, ◌≡◌, refl, List, [], ◌∷◌, ◌++◌, arith, length,
  length-append, All, All-append,
}
use native.Mathlib.Nat.{pow-suc, div-add-mod}

abbrev pub IsByte : ℕ → Type 0
IsByte b = b < 256

-- The last `k` bytes of a number, the most significant first.
unfoldable pub to_be : ℕ → ℕ → List ℕ
to_be zero n = []
to_be (suc k) n = to_be k (n / 256) ++ n % 256 ∷ []

-- The number of a byte sequence, after the bytes that `acc` stands for.
unfoldable pub of_be_from : ℕ → List ℕ → ℕ
of_be_from acc [] = acc
of_be_from acc (b ∷ bs) = of_be_from (acc * 256 + b) bs

unfoldable pub of_be : List ℕ → ℕ
of_be bs = of_be_from 0 bs

pub length-to_be : (k n : ℕ) → length (to_be k n) ≡ k
unfolding to_be
length-to_be zero n = refl
length-to_be (suc k) n =
    omega (arith, length-append (to_be k (n / 256)) (n % 256 ∷ []), length-to_be k (n / 256))

pub to_be-IsByte : (k n : ℕ) → All IsByte (to_be k n)
unfolding to_be
to_be-IsByte zero n = tt
to_be-IsByte (suc k) n =
    All-append IsByte (to_be k (n / 256)) (n % 256 ∷ []) (to_be-IsByte k (n / 256)) (omega arith)

of_be_from-append :
    (acc : ℕ) (xs ys : List ℕ) → of_be_from acc (xs ++ ys) ≡ of_be_from (of_be_from acc xs) ys
unfolding of_be_from
of_be_from-append acc [] ys = refl
of_be_from-append acc (x ∷ xs) ys = of_be_from-append (acc * 256 + x) xs ys

pub of_be-to_be : (k n : ℕ) → n < 256 ^ k → of_be (to_be k n) ≡ n
unfolding of_be to_be of_be_from
of_be-to_be zero n h = omega arith
of_be-to_be (suc k) n h =
    rw (of_be_from-append 0 (to_be k (n / 256)) (n % 256 ∷ []))
      (omega (arith, of_be-to_be k (n / 256) (omega (arith, pow-suc 256 k)), div-add-mod n 256))
