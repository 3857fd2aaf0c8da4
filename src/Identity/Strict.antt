-- ===== src/Identity/Strict.antt =====
-- What `parse_uuid` has established when it accepts a text.
use confluxmap_pumpkin.Base.{
  ℕ, suc, ◌/◌, ◌^◌, ◌<◌, ◌≡◌, Bool, true, false, some, List, [], ◌∷◌, ◌++◌, arith, ◌==◌, length,
  if◌then◌else◌, All, All-append, Bool-cases, Option-cases, inl, inr,
}
use mathlib.Core.Path.{subst}
use confluxmap_pumpkin.Identity.{
  Uid, IsId, digit_of, push_digit, read_digits, shift_in, fill, parse_uuid,
}
use confluxmap_pumpkin.Identity.Hex.{IsNibble}

digit_of-IsNibble : (b d : ℕ) → digit_of b ≡ some d → d < 16
unfolding digit_of
digit_of-IsNibble b d e = ground arith

shift_in-below : (half d : ℕ) → d < 16 → shift_in half d < 2 ^ 64
unfolding shift_in
shift_in-below half d h = omega arith

if-IsId : (b : Bool) (x y : Uid) → IsId x → IsId y → IsId (if b then x else y)
if-IsId true x y h k = h
if-IsId false x y h k = k

fill-IsId : (index : ℕ) (a : Uid) (ds : List ℕ) → IsId a → All IsNibble ds → IsId (fill index a ds)
unfolding fill
fill-IsId index a [] h hs = h
fill-IsId index a (d ∷ ds) (high, low) (h, hs) =
    fill-IsId (suc index) _ ds
      (if-IsId (index / 16 == 0) (record a { high = shift_in a.high d })
        (record a { low = shift_in a.low d }) (shift_in-below a.high d h, low)
        (high, shift_in-below a.low d h))
      hs

push_digit-IsNibble :
    (index : ℕ) (ds : List ℕ) (b : ℕ) (out : List ℕ)
    → All IsNibble ds
    → push_digit index ds b ≡ some out
    → All IsNibble out
unfolding push_digit
push_digit-IsNibble index ds b out h e = elim (Bool-cases (b == b'-')) [
  | inl hyphen ↦ let same : ds ≡ out = ground arith in subst (All IsNibble) same h
  | inr other ↦ elim (Option-cases (digit_of b)) [
    | inl q ↦ absurd (ground arith)
    | inr (d, q) ↦
        let same : ds ++ d ∷ [] ≡ out = ground arith in
        subst (All IsNibble) same (All-append IsNibble ds (d ∷ []) h (digit_of-IsNibble b d q, tt))
  ]
]

read_digits-IsNibble :
    (index : ℕ) (ds t out : List ℕ)
    → All IsNibble ds
    → read_digits index ds t ≡ some out
    → All IsNibble out
unfolding read_digits
read_digits-IsNibble index ds [] out h e = let same : ds ≡ out = cc in subst (All IsNibble) same h
read_digits-IsNibble index ds (b ∷ t) out h e = elim (Option-cases (push_digit index ds b)) [
  | inl q ↦ absurd (ground arith)
  | inr (more, q) ↦
      read_digits-IsNibble (suc index) more t out (push_digit-IsNibble index ds b more h q)
        (rw q at e)
]

-- A text that is parsed to an id has 36 bytes, and both halves of the id are below 2 ^ 64.
parse_uuid-IsId : (t : List ℕ) (a : Uid) → parse_uuid t ≡ some a → (length t ≡ 36) × IsId a
unfolding parse_uuid
parse_uuid-IsId t a e = elim (Bool-cases (length t == 36)) [
  | inr other ↦ absurd (ground arith)
  | inl size ↦ elim (Option-cases (read_digits 0 [] t)) [
    | inl q ↦ absurd (ground arith)
    | inr (ds, q) ↦
        let same : fill 0 (record { high = 0; low = 0 }) ds ≡ a = ground arith in
        let small = read_digits-IsNibble 0 [] t ds tt q in
        (ground arith, subst IsId same (fill-IsId 0 _ ds (omega arith, omega arith) small))
  ]
]
