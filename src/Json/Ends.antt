-- ===== src/Json/Ends.antt =====
-- No document takes the parser past its fuel: each call consumes a part of what is left.

use mathlib.Core.Logic.{◌≢◌}
use confluxmap_pumpkin.Base.{
  ℕ, zero, suc, ◌+◌, ◌-◌, ◌*◌, ◌^◌, ◌≤◌, ◌<◌, ◌≡◌, refl, sym, Bool, true, false, not, ◌&&◌, Option,
  none, some, [], ◌∷◌, ◌++◌, arith, ltb, leb, ◌==◌, if◌then◌else◌, length, length-drop, take,
}
use confluxmap_pumpkin.Identity.{digit_of}
use confluxmap_pumpkin.Text.{ascii, within, is_empty, strip_prefix}
use confluxmap_pumpkin.Wire.Utf8.{is_utf8}
use confluxmap_pumpkin.Json.{
  Str, Value, Start, Outcome, ok, err, out_of_fuel, ◌>>=◌, JsonError, or_err, fail_if, starts,
  rest_of, skip_whitespace, expect, digits, optional, digits_if, sign_if, is_minus, is_dot, is_e,
  is_sign, Scanned, scan, is_f64, read_number, hex_digits, hex4, char_of, code_unit, from_u32,
  simple_escape, read_escape, width_of, read_sequence, piece, string_step, string_loop, read_string,
  start_of, literal, read_key, separator, value, value_at, object_of, entries, array_of, items,
  finish, parse, max_depth, at_end, brace, bracket, quote, letter_t, letter_f, letter_n,
  minus_or_digit, other_byte, lone_surrogate, unknown_escape, invalid_utf8,
}

-- The call kept within its fuel, and `P` holds of its value if it has one.
pub data Ensures {ℓ κ} {A : Type ℓ} (P : A → Type κ) : Outcome A → Type (ℓ ⊔ κ) where
  holds : {a : A} → P a → Ensures P (ok a)
  refused : {e : JsonError} → Ensures P (err e)

module _ {ℓ κ} {A : Type ℓ} {P : A → Type κ} where
  Ensures-out_of_fuel : {r : Outcome A} → Ensures P r → r ≢ out_of_fuel
  Ensures-out_of_fuel (holds h) = cc
  Ensures-out_of_fuel refused = cc

  Ensures-if :
      (b : Bool) {x y : Outcome A}
      → (b ≡ true → Ensures P x)
      → (b ≡ false → Ensures P y)
      → Ensures P (if b then x else y)
  Ensures-if true hx hy = hx refl
  Ensures-if false hx hy = hy refl

  Ensures-or_err :
      (e : JsonError) (o : Option A) → ((a : A) → o ≡ some a → P a) → Ensures P (or_err e o)
  Ensures-or_err e none h = refused
  Ensures-or_err e (some a) h = holds (h a refl)

  Ensures-bind {ℓ' κ'} :
      {B : Type ℓ'} {Q : B → Type κ'} {r : Outcome A} {f : A → Outcome B}
      → Ensures P r
      → ((a : A) → P a → Ensures Q (f a))
      → Ensures Q (r >>= f)
  Ensures-bind (holds {a} h) k = k a h
  Ensures-bind refused k = refused

-- `elim` of a computed value, in the cases of the value.
module _ {ℓ κ} {A : Type ℓ} {P : A → Type κ} where
  Ensures-bool :
      (b : Bool) {x y : Outcome A}
      → (b ≡ true → Ensures P x)
      → (b ≡ false → Ensures P y)
      → Ensures P (elim b as (λ _. Outcome A) [ true ↦ x | false ↦ y ])
  Ensures-bool true hx hy = hx refl
  Ensures-bool false hx hy = hy refl

  Ensures-option {μ} :
      {B : Type μ} (o : Option B) {x : Outcome A} {k : B → Outcome A}
      → Ensures P x
      → ((t : B) → Ensures P (k t))
      → Ensures P (elim o as (λ _. Outcome A) [ none ↦ x | some t ↦ k t ])
  Ensures-option none hx hk = hx
  Ensures-option (some t) hx hk = hk t

Ensures-map {ℓ κ} :
    {A : Type ℓ} {P Q : A → Type κ} {r : Outcome A}
    → Ensures P r
    → ((a : A) → P a → Q a)
    → Ensures Q r
Ensures-map (holds {a} h) k = holds (k a h)
Ensures-map refused k = refused

fail_if-Ensures : (b : Bool) (e : JsonError) → Ensures (λ _. b ≡ false) (fail_if b e)
fail_if-Ensures true e = refused
fail_if-Ensures false e = holds refl

-- At most, or less than, what was there is left.
abbrev Within {ℓ} : {A : Type ℓ} → Str → A × Str → Type 0
Within s (_, rest) = length rest ≤ length s

abbrev Below {ℓ} : {A : Type ℓ} → Str → A × Str → Type 0
Below s (_, rest) = length rest < length s

skip_whitespace-le : (s : Str) → length (skip_whitespace s) ≤ length s
unfolding skip_whitespace
skip_whitespace-le [] = omega arith
skip_whitespace-le (b ∷ s) = ground (arith, skip_whitespace-le s)

starts-rest_of : (b : ℕ) (s : Str) → starts b s ≡ true → length (rest_of s) < length s
unfolding starts
starts-rest_of b [] h = cc
starts-rest_of b (c ∷ s) h = omega arith

expect-Ensures :
    (b : ℕ) (e : JsonError) (s : Str) → Ensures (λ rest. length rest < length s) (expect b e s)
unfolding expect
expect-Ensures b e s = Ensures-if (starts b s) (λ h. holds (starts-rest_of b s h)) λ _. refused

separator-Ensures : (close : ℕ) (s : Str) → Ensures (Below s) (separator close s)
unfolding separator
separator-Ensures close s =
    Ensures-if (starts b',' s) (λ h. holds (starts-rest_of b',' s h))
      λ _. Ensures-if (starts close s) (λ h. holds (starts-rest_of close s h)) λ _. refused

length-strip_prefix :
    (word s rest : Str) → strip_prefix word s ≡ some rest → length word + length rest ≡ length s
unfolding strip_prefix
length-strip_prefix [] s rest e = ground arith
length-strip_prefix (p ∷ word) [] rest e = cc
length-strip_prefix (p ∷ word) (b ∷ s) rest e = ground (arith, length-strip_prefix word s rest)

literal-Ensures :
    (word : Str) (v : Value) (s : Str) → 0 < length word → Ensures (Below s) (literal word v s)
unfolding literal
literal-Ensures word v s h =
    Ensures-bind
      (Ensures-or_err _ (strip_prefix word s) λ rest e. length-strip_prefix word s rest e)
      λ rest e. holds (omega arith)

length-digits : (s : Str) → length (digits s).0 + length (digits s).1 ≡ length s
unfolding digits
length-digits [] = omega arith
length-digits (b ∷ s) = ground (arith, length-digits s)

length-optional :
    (p : ℕ → Bool) (s : Str) → length (optional p s).0 + length (optional p s).1 ≡ length s
unfolding optional
length-optional p [] = omega arith
length-optional p (b ∷ s) = ground arith

length-digits_if : (m s : Str) → length (digits_if m s).0 + length (digits_if m s).1 ≡ length s
length-digits_if [] s = omega arith
length-digits_if (m ∷ _) s = length-digits s

length-sign_if : (m s : Str) → length (sign_if m s).0 + length (sign_if m s).1 ≡ length s
length-sign_if [] s = omega arith
length-sign_if (m ∷ _) s = length-optional is_sign s

is_empty-false : (s : Str) → is_empty s ≡ false → 0 < length s
is_empty-false [] h = cc
is_empty-false (b ∷ s) h = omega arith

is_f64-digits : (n : Scanned) → is_f64 n ≡ true → 0 < length n.whole + length n.fraction
is_f64-digits n h = found n.whole n.fraction _ h
  where
    found :
        (w f : Str) (b : Bool)
        → not (is_empty w && is_empty f) && b ≡ true
        → 0 < length w + length f
    found [] [] b h = cc
    found [] (x ∷ f) b h = omega arith
    found (x ∷ w) f b h = omega arith

scan-length :
    (s : Str) → length (scan s).whole + length (scan s).fraction + length (scan s).rest ≤ length s
unfolding scan
scan-length s =
    let s1 = (optional is_minus s).1 in
    let s2 = (digits s1).1 in
    let dot = (optional is_dot s2).0 in
    let s3 = (optional is_dot s2).1 in
    let s4 = (digits_if dot s3).1 in
    let e = (optional is_e s4).0 in
    let s5 = (optional is_e s4).1 in
    let s6 = (sign_if e s5).1 in
    omega (
      arith,
      length-optional is_minus s,
      length-digits s1,
      length-optional is_dot s2,
      length-digits_if dot s3,
      length-optional is_e s4,
      length-sign_if e s5,
      length-digits_if e s6,
    )

read_number-Ensures : (s : Str) → Ensures (Below s) (read_number s)
unfolding read_number
read_number-Ensures s =
    Ensures-if (is_f64 (scan s))
      (λ h. holds (omega (arith, scan-length s, is_f64-digits (scan s) h))) λ _. refused

hex_digits-Ensures : (n v : ℕ) (s : Str) → Ensures (Within s) (hex_digits n v s)
unfolding hex_digits
hex_digits-Ensures zero v s = holds (omega arith)
hex_digits-Ensures (suc n) v [] = refused
hex_digits-Ensures (suc n) v (b ∷ s) =
    Ensures-bind (Ensures-or_err {P = λ _. Unit {0}} _ (digit_of b) λ _ _. tt)
      λ d _. Ensures-map (hex_digits-Ensures n _ s) λ _ h. omega arith

char_of-Ensures : (c : ℕ) (s : Str) → Ensures (Within s) (char_of c s)
char_of-Ensures c s =
    Ensures-bind (Ensures-or_err {P = λ _. Unit {0}} _ (from_u32 c) λ _ _. tt)
      λ ch _. holds (omega arith)

code_unit-Ensures : (s : Str) → Ensures (Within s) (code_unit s)
unfolding code_unit hex4
code_unit-Ensures s = Ensures-bind (hex_digits-Ensures 4 0 s) λ (first, s1) h1.
    Ensures-if (within 0xd800 0xdbff first)
      (λ _. Ensures-bind (expect-Ensures b'\\' lone_surrogate s1) λ s2 h2.
        Ensures-bind (expect-Ensures b'u' lone_surrogate s2) λ s3 h3.
          Ensures-bind (hex_digits-Ensures 4 0 s3) λ (second, s4) h4.
            Ensures-bind (fail_if-Ensures (not (within 0xdc00 0xdfff second)) lone_surrogate) λ _ _.
              Ensures-map
                (char_of-Ensures (0x1_0000 + (first - 0xd800) * 2 ^ 10 + (second - 0xdc00)) s4)
                λ _ h. omega arith)
      λ _. Ensures-map (char_of-Ensures first s1) λ _ h. omega arith

read_escape-Ensures : (s : Str) → Ensures (Below s) (read_escape s)
unfolding read_escape
read_escape-Ensures [] = refused
read_escape-Ensures (b ∷ s) =
    Ensures-if (b == b'u') (λ _. Ensures-map (code_unit-Ensures s) λ _ h. omega arith)
      λ _.
        Ensures-bind (Ensures-or_err {P = λ _. Unit {0}} unknown_escape (simple_escape b) λ _ _. tt)
          λ c _. holds (omega arith)

read_sequence-Ensures :
    (b : ℕ) (s : Str) (w : ℕ) → 0 < w → Ensures (Below (b ∷ s)) (read_sequence (b ∷ s) w)
unfolding read_sequence
read_sequence-Ensures b s w h =
    Ensures-if (leb w (length (b ∷ s)) && is_utf8 (take w (b ∷ s)))
      (λ _. holds (omega (arith, length-drop w (b ∷ s)))) λ _. refused

width_of-pos : (b w : ℕ) → width_of b ≡ some w → 0 < w
unfolding width_of
width_of-pos b w h = ground arith

abbrev BelowPiece : Str → Option Str × Str → Type 0
BelowPiece s (_, rest) = length rest < length s

piece-Ensures :
    (s : Str) {r : Outcome (Str × Str)} → Ensures (Below s) r → Ensures (BelowPiece s) (piece r)
piece-Ensures s (holds h) = holds h
piece-Ensures s refused = refused

string_step-Ensures : (s : Str) → Ensures (BelowPiece s) (string_step s)
unfolding string_step
string_step-Ensures [] = refused
string_step-Ensures (b ∷ s) =
    Ensures-if (b == b'"') (λ _. holds (omega arith))
      λ _.
        Ensures-if (b == b'\\')
          (λ _. piece-Ensures (b ∷ s) (Ensures-map (read_escape-Ensures s) λ _ h. omega arith))
          λ _.
            Ensures-if (ltb b 0x20) (λ _. refused)
              λ _.
                Ensures-if (ltb b 0x80)
                  (λ _. piece-Ensures (b ∷ s) (read_sequence-Ensures b s 1 (omega arith)))
                  λ _. piece-Ensures (b ∷ s) (
                    Ensures-bind
                      (Ensures-or_err invalid_utf8 (width_of b) λ w e. width_of-pos b w e)
                      λ w h. read_sequence-Ensures b s w h)

string_loop-Ensures : (f : ℕ) (out s : Str) → length s < f → Ensures (Below s) (string_loop f out s)
unfolding string_loop
string_loop-Ensures zero out s h = absurd (omega arith)
string_loop-Ensures (suc f) out s h = Ensures-bind (string_step-Ensures s) λ (p, rest) h'.
    Ensures-option p (holds h')
      λ t. Ensures-map (string_loop-Ensures f (out ++ t) rest (omega arith)) λ _ k. omega arith

read_string-Ensures : (s : Str) → Ensures (Below s) (read_string s)
unfolding read_string
read_string-Ensures s = string_loop-Ensures (suc (length s)) [] s (omega arith)

read_key-Ensures : (s : Str) → Ensures (Below s) (read_key s)
unfolding read_key
read_key-Ensures s = Ensures-bind (fail_if-Ensures (not (starts b'"' s)) _) λ _ h.
    Ensures-map (read_string-Ensures (rest_of s)) λ _ k. ground (arith, starts-rest_of b'"' s)

start_of-rest_of :
    (s : Str) (k : Start) → start_of s ≡ k → k ≢ at_end → length (rest_of s) < length s
unfolding start_of
start_of-rest_of [] k e h = absurd (h (sym e))
start_of-rest_of (b ∷ s) k e h = omega arith

-- One induction on the fuel: what is left is shorter at the next call, so its fuel is enough.
mutual
  unfolding value

  value-Ensures : (f n : ℕ) (s : Str) → 4 * length s + 1 < f → Ensures (Below s) (value f n s)
  value-Ensures zero n s h = absurd (omega arith)
  value-Ensures (suc f) n s h =
      Ensures-bool (ltb max_depth n) (λ _. refused)
        λ _. value_at-Ensures f n s (omega arith) (start_of s) refl

  value_at-Ensures :
      (f n : ℕ) (s : Str)
      → 4 * length s < f
      → (k : Start) → start_of s ≡ k
      → Ensures (Below s) (value_at f n s k)
  value_at-Ensures zero n s h k e = absurd (omega arith)
  value_at-Ensures (suc f) n s h at_end e = refused
  value_at-Ensures (suc f) n s h brace e =
      let smaller = start_of-rest_of s brace e (λ q. cc) in
      Ensures-map (object_of-Ensures f n (rest_of s) (omega arith)) λ _ k. omega arith
  value_at-Ensures (suc f) n s h bracket e =
      let smaller = start_of-rest_of s bracket e (λ q. cc) in
      Ensures-map (array_of-Ensures f n (rest_of s) (omega arith)) λ _ k. omega arith
  value_at-Ensures (suc f) n s h quote e =
      let smaller = start_of-rest_of s quote e (λ q. cc) in
      Ensures-bind (read_string-Ensures (rest_of s)) λ _ k. holds (omega arith)
  value_at-Ensures (suc f) n s h letter_t e =
      literal-Ensures (ascii "true") (Value.bool true) s (omega arith)
  value_at-Ensures (suc f) n s h letter_f e =
      literal-Ensures (ascii "false") (Value.bool false) s (omega arith)
  value_at-Ensures (suc f) n s h letter_n e =
      literal-Ensures (ascii "null") Value.null s (omega arith)
  value_at-Ensures (suc f) n s h minus_or_digit e = read_number-Ensures s
  value_at-Ensures (suc f) n s h other_byte e = refused

  object_of-Ensures :
      (f n : ℕ) (s : Str) → 4 * length s + 3 < f → Ensures (Within s) (object_of f n s)
  object_of-Ensures zero n s h = absurd (omega arith)
  object_of-Ensures (suc f) n s h =
      let trimmed = skip_whitespace-le s in
      Ensures-bool (starts b'}' (skip_whitespace s))
        (λ e. holds (omega (arith, starts-rest_of b'}' (skip_whitespace s) e)))
        λ _. Ensures-bind (entries-Ensures f n s (omega arith)) λ _ k. holds (omega arith)

  entries-Ensures : (f n : ℕ) (s : Str) → 4 * length s + 2 < f → Ensures (Below s) (entries f n s)
  entries-Ensures zero n s h = absurd (omega arith)
  entries-Ensures (suc f) n s h =
      let w1 = skip_whitespace-le s in
      Ensures-bind (read_key-Ensures (skip_whitespace s)) λ (key, s1) h1.
        let w2 = skip_whitespace-le s1 in
        Ensures-bind (expect-Ensures b':' JsonError.expected_colon (skip_whitespace s1)) λ s2 h2.
          let w3 = skip_whitespace-le s2 in
          Ensures-bind (value-Ensures f (suc n) (skip_whitespace s2) (omega arith)) λ (v, s3) h3.
            let w4 = skip_whitespace-le s3 in
            Ensures-bind (separator-Ensures b'}' (skip_whitespace s3)) λ (more, s4) h4.
              Ensures-bool more
                (λ _.
                  Ensures-bind (entries-Ensures f n s4 (omega arith)) λ _ k. holds (omega arith))
                λ _. holds (omega arith)

  array_of-Ensures :
      (f n : ℕ) (s : Str) → 4 * length s + 3 < f → Ensures (Within s) (array_of f n s)
  array_of-Ensures zero n s h = absurd (omega arith)
  array_of-Ensures (suc f) n s h =
      let trimmed = skip_whitespace-le s in
      Ensures-bool (starts b']' (skip_whitespace s))
        (λ e. holds (omega (arith, starts-rest_of b']' (skip_whitespace s) e)))
        λ _. Ensures-bind (items-Ensures f n s (omega arith)) λ _ k. holds (omega arith)

  items-Ensures : (f n : ℕ) (s : Str) → 4 * length s + 2 < f → Ensures (Below s) (items f n s)
  items-Ensures zero n s h = absurd (omega arith)
  items-Ensures (suc f) n s h =
      let w1 = skip_whitespace-le s in
      Ensures-bind (value-Ensures f (suc n) (skip_whitespace s) (omega arith)) λ (v, s1) h1.
        let w2 = skip_whitespace-le s1 in
        Ensures-bind (separator-Ensures b']' (skip_whitespace s1)) λ (more, s2) h2.
          Ensures-bool more
            (λ _. Ensures-bind (items-Ensures f n s2 (omega arith)) λ _ k. holds (omega arith))
            λ _. holds (omega arith)

finish-Ensures : (v : Value) (s : Str) → Ensures (λ _. Unit {0}) (finish v s)
unfolding finish
finish-Ensures v [] = holds tt
finish-Ensures v (b ∷ s) = refused

-- On any bytes, `parse` ends with a value or an error: its recursion never exceeds the fuel of four
-- calls for each byte and two more.
pub parse-ne-out_of_fuel : (text : Str) → parse text ≢ out_of_fuel
unfolding parse
parse-ne-out_of_fuel text = Ensures-out_of_fuel (
    Ensures-bind (value-Ensures (4 * length s + 2) 0 s (omega arith))
      λ (v, rest) _. finish-Ensures v (skip_whitespace rest))
  where
    s : Str
    s = skip_whitespace text
