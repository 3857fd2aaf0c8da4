-- ===== src/Identity/Canonical.antt =====
-- The canonical text of an id, and what `parse_uuid` makes of it.
use confluxmap_pumpkin.Base.{
  ℕ, ◌/◌, ◌%◌, ◌^◌, ◌≡◌, refl, sym, ap, ◌∙◌, some, List, [], ◌∷◌, ◌++◌, map, append_assoc,
  append-nil, arith, length, length-append,
}
use confluxmap_pumpkin.Identity.{Uid, IsId, push_digit, read_digits, fill, parse_uuid}
use confluxmap_pumpkin.Identity.Hex.{nibbles, hex_digit, hex, length-nibbles, read_digits-part}
use confluxmap_pumpkin.Identity.Halves.{
  shift_all, fill-append, fill-high, fill-low, high_half, low_half,
}

-- The form 8-4-4-4-12, in lower case.
abbrev pub canonical : Uid → List ℕ
canonical a =
    hex 8 (a.high / 2 ^ 32)
    ++ (b'-'
        ∷ (hex 4 (a.high / 2 ^ 16 % 2 ^ 16)
            ++ (b'-'
                ∷ (hex 4 (a.high % 2 ^ 16)
                    ++ (b'-' ∷ (hex 4 (a.low / 2 ^ 48) ++ (b'-' ∷ hex 12 (a.low % 2 ^ 48))))))))

abbrev high_digits : Uid → List ℕ
high_digits a =
    (nibbles 8 (a.high / 2 ^ 32) ++ nibbles 4 (a.high / 2 ^ 16 % 2 ^ 16))
    ++ nibbles 4 (a.high % 2 ^ 16)

abbrev low_digits : Uid → List ℕ
low_digits a = nibbles 4 (a.low / 2 ^ 48) ++ nibbles 12 (a.low % 2 ^ 48)

length-high_digits : (a : Uid) → length (high_digits a) ≡ 16
length-high_digits a =
    let n1 = nibbles 8 (a.high / 2 ^ 32) in
    let n2 = nibbles 4 (a.high / 2 ^ 16 % 2 ^ 16) in
    let n3 = nibbles 4 (a.high % 2 ^ 16) in
    omega (
      arith,
      length-append (n1 ++ n2) n3,
      length-append n1 n2,
      length-nibbles 8 (a.high / 2 ^ 32),
      length-nibbles 4 (a.high / 2 ^ 16 % 2 ^ 16),
      length-nibbles 4 (a.high % 2 ^ 16),
    )

length-low_digits : (a : Uid) → length (low_digits a) ≡ 16
length-low_digits a = omega (
  arith,
  length-append (nibbles 4 (a.low / 2 ^ 48)) (nibbles 12 (a.low % 2 ^ 48)),
  length-nibbles 4 (a.low / 2 ^ 48),
  length-nibbles 12 (a.low % 2 ^ 48),
)

fill-digits :
    (a : Uid) → IsId a → fill 0 (record { high = 0; low = 0 }) (high_digits a ++ low_digits a) ≡ a
fill-digits a (h, l) = rw (
  fill-append 0 (record { high = 0; low = 0 }) (high_digits a) (low_digits a),
  length-high_digits a,
  fill-high 0 (record { high = 0; low = 0 }) (high_digits a) (omega (arith, length-high_digits a)),
  fill-low 16 (record { high = shift_all 0 (high_digits a); low = 0 }) (low_digits a) (omega arith),
  high_half a.high h,
  low_half a.low l,
)

length-map : (f : ℕ → ℕ) (xs : List ℕ) → length (map f xs) ≡ length xs
length-map f [] = refl
length-map f (x ∷ xs) = omega (arith, length-map f xs)

length-hex : (k n : ℕ) → length (hex k n) ≡ k
length-hex k n = length-map hex_digit (nibbles k n) ∙ length-nibbles k n

length-canonical : (a : Uid) → length (canonical a) ≡ 36
length-canonical a =
    let e = hex 12 (a.low % 2 ^ 48) in
    let d = hex 4 (a.low / 2 ^ 48) in
    let c = hex 4 (a.high % 2 ^ 16) in
    let b = hex 4 (a.high / 2 ^ 16 % 2 ^ 16) in
    omega (
      arith,
      length-hex 12 (a.low % 2 ^ 48),
      length-hex 4 (a.low / 2 ^ 48),
      length-hex 4 (a.high % 2 ^ 16),
      length-hex 4 (a.high / 2 ^ 16 % 2 ^ 16),
      length-hex 8 (a.high / 2 ^ 32),
      length-append d (b'-' ∷ e),
      length-append c (b'-' ∷ (d ++ (b'-' ∷ e))),
      length-append b (b'-' ∷ (c ++ (b'-' ∷ (d ++ (b'-' ∷ e))))),
      length-append (hex 8 (a.high / 2 ^ 32))
          (b'-' ∷ (b ++ (b'-' ∷ (c ++ (b'-' ∷ (d ++ (b'-' ∷ e))))))),
    )

read_digits-hyphen8 : (ds rest : List ℕ) → read_digits 8 ds (b'-' ∷ rest) ≡ read_digits 9 ds rest
unfolding read_digits push_digit
read_digits-hyphen8 ds rest = refl

read_digits-hyphen13 : (ds rest : List ℕ) → read_digits 13 ds (b'-' ∷ rest) ≡ read_digits 14 ds rest
unfolding read_digits push_digit
read_digits-hyphen13 ds rest = refl

read_digits-hyphen18 : (ds rest : List ℕ) → read_digits 18 ds (b'-' ∷ rest) ≡ read_digits 19 ds rest
unfolding read_digits push_digit
read_digits-hyphen18 ds rest = refl

read_digits-hyphen23 : (ds rest : List ℕ) → read_digits 23 ds (b'-' ∷ rest) ≡ read_digits 24 ds rest
unfolding read_digits push_digit
read_digits-hyphen23 ds rest = refl

read_digits-end : (index : ℕ) (ds : List ℕ) → read_digits index ds [] ≡ some ds
unfolding read_digits
read_digits-end index ds = refl

read_digits-canonical :
    (a : Uid) → read_digits 0 [] (canonical a) ≡ some (high_digits a ++ low_digits a)
read_digits-canonical a =
    let n1 = nibbles 8 (a.high / 2 ^ 32) in
    let n2 = nibbles 4 (a.high / 2 ^ 16 % 2 ^ 16) in
    let n3 = nibbles 4 (a.high % 2 ^ 16) in
    let n4 = nibbles 4 (a.low / 2 ^ 48) in
    let s1 = length-nibbles 8 (a.high / 2 ^ 32) in
    let s2 = length-append n1 n2 in
    let t2 = length-nibbles 4 (a.high / 2 ^ 16 % 2 ^ 16) in
    let s3 = length-append (n1 ++ n2) n3 in
    let t3 = length-nibbles 4 (a.high % 2 ^ 16) in
    let s4 = length-append ((n1 ++ n2) ++ n3) n4 in
    let t4 = length-nibbles 4 (a.low / 2 ^ 48) in
    read_digits-part 0 8 (a.high / 2 ^ 32) [] _ (omega arith)
    ∙ read_digits-hyphen8 n1 _
    ∙ read_digits-part 9 4 (a.high / 2 ^ 16 % 2 ^ 16) n1 _ (omega arith)
    ∙ read_digits-hyphen13 (n1 ++ n2) _
    ∙ read_digits-part 14 4 (a.high % 2 ^ 16) (n1 ++ n2) _ (omega arith)
    ∙ read_digits-hyphen18 ((n1 ++ n2) ++ n3) _
    ∙ read_digits-part 19 4 (a.low / 2 ^ 48) ((n1 ++ n2) ++ n3) _ (omega arith)
    ∙ read_digits-hyphen23 (((n1 ++ n2) ++ n3) ++ n4) _
    ∙ ap (λ t. read_digits 24 (((n1 ++ n2) ++ n3) ++ n4) t)
        (sym (append-nil (hex 12 (a.low % 2 ^ 48))))
    ∙ read_digits-part 24 12 (a.low % 2 ^ 48) (((n1 ++ n2) ++ n3) ++ n4) [] (omega arith)
    ∙ read_digits-end 36 ((((n1 ++ n2) ++ n3) ++ n4) ++ nibbles 12 (a.low % 2 ^ 48))
    ∙ ap some (append_assoc ((n1 ++ n2) ++ n3) n4 (nibbles 12 (a.low % 2 ^ 48)))

-- The text of an id in the form 8-4-4-4-12, in lower case, is parsed to that id.
pub parse_uuid-canonical : (a : Uid) → IsId a → parse_uuid (canonical a) ≡ some a
unfolding parse_uuid
parse_uuid-canonical a h =
    let digits : length (high_digits a ++ low_digits a) ≡ 32 = omega (
      arith,
      length-append (high_digits a) (low_digits a),
      length-high_digits a,
      length-low_digits a,
    ) in
    rw (length-canonical a, read_digits-canonical a, digits, fill-digits a h)
