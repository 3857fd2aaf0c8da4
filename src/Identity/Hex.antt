-- ===== src/Identity/Hex.antt =====
-- The hexadecimal digits of a number, and the loop of `parse_uuid` over them.
use confluxmap_pumpkin.Base.{
  ℕ, zero, suc, ◌+◌, ◌-◌, ◌/◌, ◌%◌, ◌≤◌, ◌<◌, ◌≡◌, refl, ap, ◌∙◌, false, some, List, [], ◌∷◌, ◌++◌,
  map, append_assoc, append-nil, arith, ltb, ◌==◌, length, length-append, if◌then◌else◌, All,
  All-append,
}
use confluxmap_pumpkin.Identity.{digit_of, push_digit, read_digits}

abbrev pub IsNibble : ℕ → Type 0
IsNibble d = d < 16

-- The last `k` hexadecimal digits of a number.
unfoldable pub nibbles : ℕ → ℕ → List ℕ
nibbles zero n = []
nibbles (suc k) n = nibbles k (n / 16) ++ n % 16 ∷ []

abbrev pub hex_digit : ℕ → ℕ
hex_digit d = if ltb d 10 then b'0' + d else b'a' + (d - 10)

abbrev pub hex : ℕ → ℕ → List ℕ
hex k n = map hex_digit (nibbles k n)

pub length-nibbles : (k n : ℕ) → length (nibbles k n) ≡ k
unfolding nibbles
length-nibbles zero n = refl
length-nibbles (suc k) n =
    omega (arith, length-append (nibbles k (n / 16)) (n % 16 ∷ []), length-nibbles k (n / 16))

pub nibbles-IsNibble : (k n : ℕ) → All IsNibble (nibbles k n)
unfolding nibbles
nibbles-IsNibble zero n = tt
nibbles-IsNibble (suc k) n =
    All-append IsNibble (nibbles k (n / 16)) (n % 16 ∷ []) (nibbles-IsNibble k (n / 16))
      (omega arith)

pub digit_of-hex_digit : (d : ℕ) → d < 16 → digit_of (hex_digit d) ≡ some d
unfolding digit_of
digit_of-hex_digit d h = ground arith

push_digit-hex_digit :
    (index d : ℕ) (digits : List ℕ)
    → d < 16
    → length digits < 32
    → push_digit index digits (hex_digit d) ≡ some (digits ++ d ∷ [])
unfolding push_digit
push_digit-hex_digit index d digits h room =
    let other : (hex_digit d == b'-') ≡ false = ground arith in
    let free : (length digits == 32) ≡ false = ground arith in
    rw (other, free, digit_of-hex_digit d h)

read_digits-hex :
    (index : ℕ) (digits ds rest : List ℕ)
    → All IsNibble ds
    → length digits + length ds ≤ 32
    → read_digits index digits (map hex_digit ds ++ rest)
      ≡ read_digits (index + length ds) (digits ++ ds) rest
unfolding read_digits
read_digits-hex index digits [] rest h room =
    let here : index + 0 ≡ index = omega arith in rw (append-nil digits, here)
read_digits-hex index digits (d ∷ ds) rest (h, hs) room =
    let more = digits ++ d ∷ [] in
    let size = length-append digits (d ∷ []) in
    let next = read_digits-hex (suc index) more ds rest hs (omega arith) in
    let there : suc index + length ds ≡ index + suc (length ds) = omega arith in
    rw (
      push_digit-hex_digit index d digits h (omega arith),
      next,
      append_assoc digits (d ∷ []) ds,
      there,
    )

pub read_digits-part :
    (index k n : ℕ) (digits rest : List ℕ)
    → length digits + k ≤ 32
    → read_digits index digits (hex k n ++ rest)
      ≡ read_digits (index + k) (digits ++ nibbles k n) rest
read_digits-part index k n digits rest room =
    let size = length-nibbles k n in
    let whole =
      read_digits-hex index digits (nibbles k n) rest (nibbles-IsNibble k n)
        (omega (arith, size)) in
    whole ∙ ap (λ m. read_digits (index + m) (digits ++ nibbles k n) rest) size
