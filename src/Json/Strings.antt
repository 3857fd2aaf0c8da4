-- ===== src/Json/Strings.antt =====
-- A string that `escape` wrote is read back.
use confluxmap_pumpkin.Base.{
  ℕ, zero, suc, ◌+◌, ◌*◌, ◌/◌, ◌%◌, ◌^◌, ◌≤◌, ◌<◌, ◌≡◌, refl, sym, ap, ◌∙◌, true, false, ◌||◌, none,
  some, [], ◌∷◌, ◌++◌, append_assoc, append-nil, arith, ltb, leb, ◌==◌, length, length-append,
  take-append, drop-append, All, inl, inr, Bool-cases,
}
use confluxmap_pumpkin.Text.{within}
use confluxmap_pumpkin.Identity.Hex.{hex_digit, digit_of-hex_digit}
use confluxmap_pumpkin.Wire.Utf8.{Utf8State, is_utf8, IsUtf8, lead_step, utf8_from}
use confluxmap_pumpkin.Wire.Utf8.Sequences.{IsHigh, IsUtf8-ascii, Sequence, IsUtf8-Sequence}
use confluxmap_pumpkin.Json.{
  Str, ok, hex_digits, hex4, from_u32, encode_utf8, code_unit, simple_escape, read_escape, width_of,
  read_sequence, string_step, string_loop, read_string, escape_byte, escape,
}

hex_digits-step :
    (n v d : ℕ) (s : Str)
    → d < 16
    → hex_digits (suc n) v (hex_digit d ∷ s) ≡ hex_digits n (v * 16 % 2 ^ 32 + d) s
unfolding hex_digits
hex_digits-step n v d s h = rw (digit_of-hex_digit d h)

hex_digits-done : (v : ℕ) (s : Str) → hex_digits 0 v s ≡ ok (v, s)
unfolding hex_digits
hex_digits-done v s = refl

hex4-control :
    (b : ℕ) (s : Str)
    → b < 0x20
    → hex4 (b'0' ∷ b'0' ∷ hex_digit (b / 16) ∷ hex_digit (b % 16) ∷ s) ≡ ok (b, s)
unfolding hex4
hex4-control b s h =
    let sum : ((0 * 16 % 2 ^ 32 + 0) * 16 % 2 ^ 32 + 0) * 16 % 2 ^ 32 + b / 16 ≡ b / 16 =
      omega arith in
    let all : (b / 16) * 16 % 2 ^ 32 + b % 16 ≡ b = omega arith in
    hex_digits-step 3 0 0 (b'0' ∷ hex_digit (b / 16) ∷ hex_digit (b % 16) ∷ s) (omega arith)
    ∙ hex_digits-step 2 (0 * 16 % 2 ^ 32 + 0) 0 (hex_digit (b / 16) ∷ hex_digit (b % 16) ∷ s)
        (omega arith)
    ∙ hex_digits-step 1 ((0 * 16 % 2 ^ 32 + 0) * 16 % 2 ^ 32 + 0) (b / 16) (hex_digit (b % 16) ∷ s)
        (omega arith)
    ∙ ap (λ v. hex_digits 1 v (hex_digit (b % 16) ∷ s)) sum
    ∙ hex_digits-step 0 (b / 16) (b % 16) s (omega arith)
    ∙ hex_digits-done ((b / 16) * 16 % 2 ^ 32 + b % 16) s
    ∙ ap (λ v. ok (v, s)) all

read_escape-control :
    (b : ℕ) (s : Str)
    → b < 0x20
    → read_escape (b'u' ∷ b'0' ∷ b'0' ∷ hex_digit (b / 16) ∷ hex_digit (b % 16) ∷ s)
      ≡ ok (b ∷ [], s)
unfolding read_escape code_unit from_u32 encode_utf8
read_escape-control b s h =
    let low : within 0xd800 0xdbff b ≡ false = ground arith in
    let scalar : within 0xd800 0xdfff b || ltb 0x10_ffff b ≡ false = ground arith in
    let ascii : ltb b 0x80 ≡ true = ground arith in rw (hex4-control b s h, low, scalar, ascii)

-- What the step of the loop makes of one escaped byte.
abbrev Steps : ℕ → Type 0
Steps b = (s : Str) → string_step (escape_byte b ++ s) ≡ ok (some (b ∷ []), s)

Steps-or : (b c : ℕ) → Steps c → ((b == c) ≡ false → Steps b) → Steps b
Steps-or b c k other = elim (Bool-cases (b == c)) [
  | inl q ↦ λ s. let same : b ≡ c = ground arith in rw same (k s)
  | inr q ↦ other q
]

-- None of the bytes that `escape` has an escape of its own for.
record IsOther (b : ℕ) : Type 0 where
  quote : (b == b'"') ≡ false
  backslash : (b == b'\\') ≡ false
  newline : (b == 10) ≡ false
  return : (b == 13) ≡ false
  tab : (b == 9) ≡ false
  back : (b == 8) ≡ false
  feed : (b == 12) ≡ false

Steps-control : (b : ℕ) → IsOther b → b < 0x20 → Steps b
unfolding string_step escape_byte
Steps-control b o h s =
    let low : ltb b 0x20 ≡ true = ground arith in
    rw (
      o.quote,
      o.backslash,
      o.newline,
      o.return,
      o.tab,
      o.back,
      o.feed,
      low,
      read_escape-control b s h,
    )

IsUtf8-single : (b : ℕ) → b < 0x80 → IsUtf8 (b ∷ [])
unfolding is_utf8 utf8_from
IsUtf8-single b h = ground arith

read_sequence-append : (t s : Str) → IsUtf8 t → read_sequence (t ++ s) (length t) ≡ ok (t, s)
unfolding read_sequence
read_sequence-append t s u =
    let room : leb (length t) (length (t ++ s)) ≡ true = ground (arith, length-append t s) in
    rw (room, take-append t s, drop-append t s, u)

read_sequence-whole :
    (t s : Str) (w : ℕ) → length t ≡ w → IsUtf8 t → read_sequence (t ++ s) w ≡ ok (t, s)
read_sequence-whole t s w e u = ap (read_sequence (t ++ s)) (sym e) ∙ read_sequence-append t s u

escape_byte-plain : (b : ℕ) → IsOther b → 0x20 ≤ b → escape_byte b ≡ b ∷ []
unfolding escape_byte
escape_byte-plain b o h =
    let low : ltb b 0x20 ≡ false = ground arith in
    rw (o.quote, o.backslash, o.newline, o.return, o.tab, o.back, o.feed, low)

string_step-plain :
    (b : ℕ) (s : Str)
    → IsOther b
    → 0x20 ≤ b
    → b < 0x80
    → string_step (b ∷ s) ≡ ok (some (b ∷ []), s)
unfolding string_step
string_step-plain b s o h k =
    let low : ltb b 0x20 ≡ false = ground arith in
    let ascii : ltb b 0x80 ≡ true = ground arith in
    rw (o.quote, o.backslash, low, ascii, read_sequence-whole (b ∷ []) s 1 refl (IsUtf8-single b k))

Steps-plain : (b : ℕ) → IsOther b → 0x20 ≤ b → b < 0x80 → Steps b
Steps-plain b o h k s =
    ap (λ t. string_step (t ++ s)) (escape_byte-plain b o h) ∙ string_step-plain b s o h k

Steps-special : Steps b'"' × Steps b'\\' × Steps 10 × Steps 13 × Steps 9 × Steps 8 × Steps 12
unfolding string_step escape_byte read_escape simple_escape
Steps-special = (λ s. refl, λ s. refl, λ s. refl, λ s. refl, λ s. refl, λ s. refl, λ s. refl)

Steps-ascii : (b : ℕ) → b < 0x80 → Steps b
Steps-ascii b h =
    let (k1, k2, k3, k4, k5, k6, k7) = Steps-special in
    Steps-or b b'"' k1 λ o1. Steps-or b b'\\' k2 λ o2. Steps-or b 10 k3 λ o3. Steps-or b 13 k4 λ o4.
      Steps-or b 9 k5 λ o5. Steps-or b 8 k6 λ o6. Steps-or b 12 k7 λ o7.
        let o : IsOther b = record {
          quote = o1;
          backslash = o2;
          newline = o3;
          return = o4;
          tab = o5;
          back = o6;
          feed = o7;
        } in
        elim (Bool-cases (ltb b 0x20)) [
          | inl low ↦ Steps-control b o (ground arith)
          | inr high ↦ Steps-plain b o (ground arith) h
        ]

high-IsOther : (b : ℕ) → IsHigh b → IsOther b
high-IsOther b h = record {
  quote = ground arith;
  backslash = ground arith;
  newline = ground arith;
  return = ground arith;
  tab = ground arith;
  back = ground arith;
  feed = ground arith;
}

escape-high : (t s : Str) → All IsHigh t → escape (t ++ s) ≡ t ++ escape s
unfolding escape
escape-high [] s h = refl
escape-high (b ∷ t) s (h, hs) =
    rw (escape_byte-plain b (high-IsOther b h) (omega arith), escape-high t s hs)

width_of-lead :
    (b : ℕ) (t : Utf8State) → IsHigh b → lead_step b ≡ some t → width_of b ≡ some (suc t.need)
unfolding lead_step width_of
width_of-lead b t h e = ground arith

string_step-high :
    (b : ℕ) (bs s : Str) (q : Sequence b bs)
    → IsHigh b
    → string_step ((b ∷ q.tail) ++ s) ≡ ok (some (b ∷ q.tail), s)
unfolding string_step
string_step-high b bs s q h =
    let o = high-IsOther b h in
    let low : ltb b 0x20 ≡ false = ground arith in
    let ascii : ltb b 0x80 ≡ false = ground arith in
    let size : length (b ∷ q.tail) ≡ suc q.state.need = omega (arith, q.size) in
    rw (
      o.quote,
      o.backslash,
      low,
      ascii,
      width_of-lead b q.state h q.lead,
      read_sequence-whole (b ∷ q.tail) s (suc q.state.need) size q.whole,
    )

string_loop-none :
    (f : ℕ) (out s rest : Str)
    → string_step s ≡ ok (none, rest)
    → string_loop (suc f) out s ≡ ok (out, rest)
unfolding string_loop
string_loop-none f out s rest e = rw e

string_loop-some :
    (f : ℕ) (out s t rest : Str)
    → string_step s ≡ ok (some t, rest)
    → string_loop (suc f) out s ≡ string_loop f (out ++ t) rest
unfolding string_loop
string_loop-some f out s t rest e = rw e

string_step-quote : (rest : Str) → string_step (b'"' ∷ rest) ≡ ok (none, rest)
unfolding string_step
string_step-quote rest = refl

string_loop-escape :
    (f : ℕ) (out t rest : Str)
    → length t < f
    → IsUtf8 t
    → string_loop f out (escape t ++ b'"' ∷ rest) ≡ ok (out ++ t, rest)
unfolding escape
string_loop-escape zero out t rest h u = absurd (omega arith)
string_loop-escape (suc f) out [] rest h u =
    string_loop-none f out (b'"' ∷ rest) rest (string_step-quote rest)
    ∙ ap (λ t. ok (t, rest)) (sym (append-nil out))
string_loop-escape (suc f) out (b ∷ t) rest h u = elim (Bool-cases (ltb b 0x80)) [
  | inl low ↦
      let small : b < 0x80 = ground arith in
      ap (string_loop (suc f) out) (append_assoc (escape_byte b) (escape t) (b'"' ∷ rest))
      ∙ string_loop-some f out _ (b ∷ []) (escape t ++ b'"' ∷ rest) (Steps-ascii b small _)
      ∙ string_loop-escape f (out ++ b ∷ []) t rest (omega arith) (IsUtf8-ascii b t small u)
      ∙ ap (λ t. ok (t, rest)) (append_assoc out (b ∷ []) t)
  | inr high ↦
      let q = IsUtf8-Sequence b t u in
      let big : IsHigh b = ground arith in
      let tail_size = ap length q.split ∙ length-append q.tail q.rest in
      let shape : escape_byte b ++ escape t ≡ (b ∷ q.tail) ++ escape q.rest = rw (
        escape_byte-plain b (high-IsOther b big) (omega arith),
        q.split,
        escape-high q.tail q.rest q.high,
      ) in
      ap (λ s. string_loop (suc f) out (s ++ b'"' ∷ rest)) shape
      ∙ ap (string_loop (suc f) out) (append_assoc (b ∷ q.tail) (escape q.rest) (b'"' ∷ rest))
      ∙ string_loop-some f out _ (b ∷ q.tail) (escape q.rest ++ b'"' ∷ rest)
          (string_step-high b t _ q big)
      ∙ string_loop-escape f (out ++ b ∷ q.tail) q.rest rest (omega arith) q.after
      ∙ ap (λ t. ok (t, rest))
          (append_assoc out (b ∷ q.tail) q.rest ∙ ap (λ t. out ++ b ∷ t) (sym q.split))
]

escape_byte-pos : (b : ℕ) → 0 < length (escape_byte b)
unfolding escape_byte
escape_byte-pos b = ground arith

length-escape : (t : Str) → length t ≤ length (escape t)
unfolding escape
length-escape [] = omega arith
length-escape (b ∷ t) =
    omega (arith, length-append (escape_byte b) (escape t), escape_byte-pos b, length-escape t)

pub read_string-escape :
    (t rest : Str) → IsUtf8 t → read_string (escape t ++ b'"' ∷ rest) ≡ ok (t, rest)
unfolding read_string
read_string-escape t rest u =
    string_loop-escape (suc (length (escape t ++ b'"' ∷ rest))) [] t rest
      (omega (arith, length-append (escape t) (b'"' ∷ rest), length-escape t)) u
