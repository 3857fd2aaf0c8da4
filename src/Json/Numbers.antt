-- ===== src/Json/Numbers.antt =====
-- A number without an exponent, as the writers spell it, is read back.
use confluxmap_pumpkin.Base.{
  ℕ, ◌≡◌, refl, ap, ◌∙◌, Bool, true, false, not, ◌&&◌, ◌||◌, [], ◌∷◌, ◌++◌, append-nil, arith, all,
}
use confluxmap_pumpkin.Text.{is_empty, is_ascii_digit}
use confluxmap_pumpkin.Json.{
  Str, Value, ok, digits, optional, digits_if, is_minus, is_dot, is_e, scan, checked, read_number,
}

-- No digit, dot or exponent mark at the front.
abbrev pub stops : Str → Bool
stops [] = true
stops (b ∷ s) = not (is_ascii_digit b || is_dot b || is_e b)

abbrev pub sign_of : Bool → Str
sign_of true = b'-' ∷ []
sign_of false = []

abbrev pub dot_of : Str → Str
dot_of [] = []
dot_of (d ∷ ds) = b'.' ∷ []

-- The text of a numeral: a minus or not, the digits, and behind a dot those of a fraction.
abbrev pub numeral_text : Bool → Str → Str → Str
numeral_text minus whole fraction = sign_of minus ++ (whole ++ (dot_of fraction ++ fraction))

abbrev pub is_numeral : Str → Str → Bool
is_numeral whole fraction =
    not (is_empty whole) && (all is_ascii_digit whole && all is_ascii_digit fraction)

abbrev no_digit : Str → Bool
no_digit [] = true
no_digit (b ∷ s) = not (is_ascii_digit b)

digits-stop :
    (ds s : Str) → all is_ascii_digit ds ≡ true → no_digit s ≡ true → digits (ds ++ s) ≡ (ds, s)
unfolding digits
digits-stop [] [] h e = refl
digits-stop [] (b ∷ s) h e = ground arith
digits-stop (d ∷ ds) s h e =
    let (one, others) = both (is_ascii_digit d) (all is_ascii_digit ds) h in
    rw (one, digits-stop ds s others e)
  where
    both : (a b : Bool) → a && b ≡ true → (a ≡ true) × (b ≡ true)
    both true b q = (refl, q)
    both false b q = cc

misses : (ℕ → Bool) → Str → Bool
misses p [] = true
misses p (b ∷ s) = not (p b)

optional-misses : (p : ℕ → Bool) (s : Str) → misses p s ≡ true → optional p s ≡ ([], s)
unfolding optional misses
optional-misses p [] h = refl
optional-misses p (b ∷ s) h = let no : p b ≡ false = missed (p b) h in rw no
  where
    missed : (x : Bool) → not x ≡ true → x ≡ false
    missed true q = cc
    missed false q = refl

optional-takes : (p : ℕ → Bool) (b : ℕ) (s : Str) → p b ≡ true → optional p (b ∷ s) ≡ (b ∷ [], s)
unfolding optional
optional-takes p b s h = rw h

-- The scan of a numeral, part by part.
scan_parts :
    (s s1 s2 s3 s4 sign whole dot fraction : Str)
    → optional is_minus s ≡ (sign, s1)
    → digits s1 ≡ (whole, s2)
    → optional is_dot s2 ≡ (dot, s3)
    → digits_if dot s3 ≡ (fraction, s4)
    → optional is_e s4 ≡ ([], s4)
    → scan s ≡ record {
      sign = sign;
      whole = whole;
      dot = dot;
      fraction = fraction;
      e = [];
      e_sign = [];
      exponent = [];
      rest = s4;
    }
unfolding scan
scan_parts s s1 s2 s3 s4 sign whole dot fraction a b c d e = rw (a, b, c, d, e)

none_of :
    (a b c : Bool) → not (a || b || c) ≡ true → (not a ≡ true) × (not b ≡ true) × (not c ≡ true)
none_of false false false h = (refl, refl, refl)
none_of false false true h = cc
none_of false true c h = cc
none_of true b c h = cc

stops-e : (s : Str) → stops s ≡ true → misses is_e s ≡ true
unfolding misses
stops-e [] h = refl
stops-e (b ∷ s) h =
    let (digit, dot, mark) = none_of (is_ascii_digit b) (is_dot b) (is_e b) h in mark

stops-dot : (s : Str) → stops s ≡ true → misses is_dot s ≡ true
unfolding misses
stops-dot [] h = refl
stops-dot (b ∷ s) h =
    let (digit, dot, mark) = none_of (is_ascii_digit b) (is_dot b) (is_e b) h in dot

stops-digit : (s : Str) → stops s ≡ true → no_digit s ≡ true
stops-digit [] h = refl
stops-digit (b ∷ s) h =
    let (digit, dot, mark) = none_of (is_ascii_digit b) (is_dot b) (is_e b) h in digit

digit-minus : (d : ℕ) → is_ascii_digit d ≡ true → not (is_minus d) ≡ true
unfolding is_ascii_digit
digit-minus d h = ground arith

first_of : (a b : Bool) → a && b ≡ true → a ≡ true
first_of true b h = refl
first_of false b h = cc

minus_part :
    (minus : Bool) (whole s : Str)
    → not (is_empty whole) ≡ true
    → all is_ascii_digit whole ≡ true
    → optional is_minus (sign_of minus ++ (whole ++ s)) ≡ (sign_of minus, whole ++ s)
unfolding misses
minus_part true whole s h k = optional-takes is_minus b'-' (whole ++ s) refl
minus_part false [] s h k = cc
minus_part false (d ∷ ds) s h k =
    optional-misses is_minus (d ∷ (ds ++ s)) (digit-minus d (first_of _ _ k))

no_digit_dot :
    (fraction s : Str) → stops s ≡ true → no_digit (dot_of fraction ++ (fraction ++ s)) ≡ true
unfolding is_ascii_digit
no_digit_dot [] s h = stops-digit s h
no_digit_dot (d ∷ ds) s h = refl

dot_part :
    (fraction s : Str)
    → stops s ≡ true
    → optional is_dot (dot_of fraction ++ (fraction ++ s)) ≡ (dot_of fraction, fraction ++ s)
dot_part [] s h = optional-misses is_dot s (stops-dot s h)
dot_part (d ∷ ds) s h = optional-takes is_dot b'.' (d ∷ (ds ++ s)) refl

fraction_part :
    (fraction s : Str)
    → all is_ascii_digit fraction ≡ true
    → stops s ≡ true
    → digits_if (dot_of fraction) (fraction ++ s) ≡ (fraction, s)
fraction_part [] s k h = refl
fraction_part (d ∷ ds) s k h = digits-stop (d ∷ ds) s k (stops-digit s h)

three : (a b c : Bool) → a && (b && c) ≡ true → (a ≡ true) × (b ≡ true) × (c ≡ true)
three true true true h = (refl, refl, refl)
three true true false h = cc
three true false c h = cc
three false b c h = cc

found :
    (whole fraction : Str)
    → not (is_empty whole) ≡ true
    → not (is_empty whole && is_empty fraction) && true ≡ true
found [] fraction h = cc
found (d ∷ ds) fraction h = refl

pub read_number-numeral :
    (minus : Bool) (whole fraction s : Str)
    → is_numeral whole fraction ≡ true
    → stops s ≡ true
    → read_number (sign_of minus ++ (whole ++ (dot_of fraction ++ (fraction ++ s))))
      ≡ ok (Value.number (numeral_text minus whole fraction), s)
unfolding read_number
read_number-numeral minus whole fraction s h k =
    let (a, b, c) = three (not (is_empty whole)) (all is_ascii_digit whole) _ h in
    let scanned =
      scan_parts (sign_of minus ++ (whole ++ (dot_of fraction ++ (fraction ++ s))))
        (whole ++ (dot_of fraction ++ (fraction ++ s))) (dot_of fraction ++ (fraction ++ s))
        (fraction ++ s) s (sign_of minus) whole (dot_of fraction) fraction
        (minus_part minus whole (dot_of fraction ++ (fraction ++ s)) a b)
        (digits-stop whole (dot_of fraction ++ (fraction ++ s)) b (no_digit_dot fraction s k))
        (dot_part fraction s k) (fraction_part fraction s c k)
        (optional-misses is_e s (stops-e s k)) in
    ap checked scanned ∙ rw (found whole fraction a, append-nil fraction)
