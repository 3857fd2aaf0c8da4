-- ===== src/Identity/Halves.antt =====
-- The loop of `parse_uuid` that packs the digits of an id.
use confluxmap_pumpkin.Base.{
  ℕ, zero, suc, ◌+◌, ◌*◌, ◌/◌, ◌%◌, ◌^◌, ◌≤◌, ◌<◌, ◌≡◌, refl, sym, ap, ◌∙◌, true, false, List, [],
  ◌∷◌, ◌++◌, arith, ◌==◌, length,
}
use native.Mathlib.Nat.{pow-suc, div-add-mod, mul_assoc}
use confluxmap_pumpkin.Identity.{Uid, shift_in, fill}
use confluxmap_pumpkin.Identity.Hex.{nibbles}

unfoldable pub shift_all : ℕ → List ℕ → ℕ
shift_all half [] = half
shift_all half (d ∷ ds) = shift_all (shift_in half d) ds

pub shift_all-append :
    (half : ℕ) (xs ys : List ℕ) → shift_all half (xs ++ ys) ≡ shift_all (shift_all half xs) ys
unfolding shift_all
shift_all-append half [] ys = refl
shift_all-append half (x ∷ xs) ys = shift_all-append (shift_in half x) xs ys

scaled : (half k : ℕ) → half * 16 ^ suc k ≡ half * 16 ^ k * 16
scaled half k = ap (λ m. half * m) (pow-suc 16 k) ∙ sym (mul_assoc half (16 ^ k) 16)

pub shift_all-nibbles :
    (half k n : ℕ)
    → n < 16 ^ k
    → half * 16 ^ k + n < 2 ^ 64
    → shift_all half (nibbles k n) ≡ half * 16 ^ k + n
unfolding nibbles shift_in shift_all
shift_all-nibbles half zero n h room = omega arith
shift_all-nibbles half (suc k) n h room =
    rw (shift_all-append half (nibbles k (n / 16)) (n % 16 ∷ [])) (
      omega (
        arith,
        scaled half k,
        pow-suc 16 k,
        div-add-mod n 16,
        shift_all-nibbles half k (n / 16) (omega (arith, pow-suc 16 k))
            (omega (arith, scaled half k)),
      ))

pub fill-append :
    (index : ℕ) (a : Uid) (xs ys : List ℕ)
    → fill index a (xs ++ ys) ≡ fill (index + length xs) (fill index a xs) ys
unfolding fill
fill-append index a [] ys = let here : index + 0 ≡ index = omega arith in rw here
fill-append index a (x ∷ xs) ys =
    let there : suc index + length xs ≡ index + suc (length xs) = omega arith in
    rw (fill-append (suc index) _ xs ys, there)

pub fill-high :
    (index : ℕ) (a : Uid) (ds : List ℕ)
    → index + length ds ≤ 16
    → fill index a ds ≡ record a { high = shift_all a.high ds }
unfolding fill shift_all
fill-high index a [] room = refl
fill-high index a (d ∷ ds) room =
    let slot : (index / 16 == 0) ≡ true = ground arith in
    rw (slot, fill-high (suc index) (record a { high = shift_in a.high d }) ds (omega arith))

pub fill-low :
    (index : ℕ) (a : Uid) (ds : List ℕ)
    → 16 ≤ index
    → fill index a ds ≡ record a { low = shift_all a.low ds }
unfolding fill shift_all
fill-low index a [] room = refl
fill-low index a (d ∷ ds) room =
    let slot : (index / 16 == 0) ≡ false = ground arith in
    rw (slot, fill-low (suc index) (record a { low = shift_in a.low d }) ds (omega arith))

pub high_half :
    (h : ℕ)
    → h < 2 ^ 64
    → shift_all 0
        ((nibbles 8 (h / 2 ^ 32) ++ nibbles 4 (h / 2 ^ 16 % 2 ^ 16)) ++ nibbles 4 (h % 2 ^ 16))
      ≡ h
high_half h room =
    let first = nibbles 8 (h / 2 ^ 32) in
    let second = nibbles 4 (h / 2 ^ 16 % 2 ^ 16) in
    rw
      (
        shift_all-append 0 (first ++ second) (nibbles 4 (h % 2 ^ 16)),
        shift_all-append 0 first second,
        shift_all-nibbles 0 8 (h / 2 ^ 32) (omega arith) (omega arith),
        shift_all-nibbles (0 * 16 ^ 8 + h / 2 ^ 32) 4 (h / 2 ^ 16 % 2 ^ 16) (omega arith)
            (omega arith),
        shift_all-nibbles ((0 * 16 ^ 8 + h / 2 ^ 32) * 16 ^ 4 + h / 2 ^ 16 % 2 ^ 16) 4 (h % 2 ^ 16)
            (omega arith) (omega arith),
      )
      (omega arith)

pub low_half :
    (l : ℕ) → l < 2 ^ 64 → shift_all 0 (nibbles 4 (l / 2 ^ 48) ++ nibbles 12 (l % 2 ^ 48)) ≡ l
low_half l room =
    rw
      (
        shift_all-append 0 (nibbles 4 (l / 2 ^ 48)) (nibbles 12 (l % 2 ^ 48)),
        shift_all-nibbles 0 4 (l / 2 ^ 48) (omega arith) (omega arith),
        shift_all-nibbles (0 * 16 ^ 4 + l / 2 ^ 48) 12 (l % 2 ^ 48) (omega arith) (omega arith),
      )
      (omega arith)
