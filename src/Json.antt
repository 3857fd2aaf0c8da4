-- ===== src/Json.antt =====
-- json.rs: the reader and the writer of the plugin's files. The parser's state is what is left of
-- its bytes; an error is a constructor in place of its text.
pub mod Ends
pub mod Strings
pub mod Numbers
pub mod Documents
pub mod Layout
mod Tests
use confluxmap_pumpkin.Base.{
  ℕ, zero, suc, ◌+◌, ◌-◌, ◌*◌, ◌/◌, ◌%◌, ◌^◌, Bool, true, false, not, ◌&&◌, ◌||◌, Option, none,
  some, List, [], ◌∷◌, ◌++◌, ltb, leb, ◌==◌, if◌then◌else◌, length, take, drop, is_some,
}
use confluxmap_pumpkin.Identity.{digit_of}
use confluxmap_pumpkin.Identity.Hex.{hex_digit}
use confluxmap_pumpkin.Text.{ascii, within, is_empty, strip_prefix, is_ascii_digit}
use confluxmap_pumpkin.Wire.Utf8.{is_utf8}

abbrev pub Str : Type 0
Str = List ℕ

abbrev pub max_depth : ℕ
max_depth = 32

mutual
  pub data Value : Type 0 where
    null : Value
    bool : Bool → Value
    number : Str → Value
    string : Str → Value
    array : Items → Value
    object : Entries → Value

  -- `Vec<Value>`
  pub data Items : Type 0 where
    no_items : Items
    item : Value → Items → Items

  -- `Vec<(String, Value)>`
  pub data Entries : Type 0 where
    no_entries : Entries
    entry : Str → Value → Entries → Entries

-- The texts of `JsonError`.
pub data JsonError : Type 0 where
  trailing_content too_deep unexpected_end unexpected_byte : JsonError
  key_not_a_string expected_colon expected_comma_or_close not_a_number : JsonError
  unterminated_string unterminated_escape unknown_escape control_character : JsonError
  invalid_utf8 lone_surrogate invalid_code_point truncated_escape non_hex_digit : JsonError

-- `out_of_fuel` has no counterpart in the code; no document reaches it (Json/Ends).
pub data Outcome {ℓ} (A : Type ℓ) : Type ℓ where
  ok : A → Outcome A
  err : JsonError → Outcome A
  out_of_fuel : Outcome A

infixl 1 ◌>>=◌
abbrev pub ◌>>=◌ {ℓ κ} : {A : Type ℓ} {B : Type κ} → Outcome A → (A → Outcome B) → Outcome B
ok a >>= f = f a
err e >>= f = err e
out_of_fuel >>= f = out_of_fuel

abbrev pub or_err {ℓ} : {A : Type ℓ} → JsonError → Option A → Outcome A
or_err e none = err e
or_err e (some a) = ok a

abbrev pub fail_if : Bool → JsonError → Outcome (Unit {0})
fail_if true e = err e
fail_if false e = ok tt

-- `peek` against one byte.
unfoldable pub starts : ℕ → Str → Bool
starts b [] = false
starts b (c ∷ s) = c == b

abbrev pub rest_of : Str → Str
rest_of [] = []
rest_of (b ∷ s) = s

unfoldable pub is_space : ℕ → Bool
is_space b = b == b' ' || b == 9 || b == 10 || b == 13

unfoldable pub skip_whitespace : Str → Str
unfolding is_space
skip_whitespace [] = []
skip_whitespace (b ∷ s) = let rest = skip_whitespace s in if is_space b then rest else b ∷ s

-- `take` of one expected byte.
unfoldable pub expect : ℕ → JsonError → Str → Outcome Str
unfolding starts
expect b e s = if starts b s then ok (rest_of s) else err e

-- The loop over digits: the digits, and what follows them.
unfoldable pub digits : Str → Str × Str
digits [] = ([], [])
digits (b ∷ s) =
    let (ds, rest) = digits s in if is_ascii_digit b then (b ∷ ds, rest) else ([], b ∷ s)

-- A byte of a number that may be missing.
unfoldable pub optional : (ℕ → Bool) → Str → Str × Str
optional p [] = ([], [])
optional p (b ∷ s) = if p b then (b ∷ [], s) else ([], b ∷ s)

abbrev pub is_minus : ℕ → Bool
is_minus b = b == b'-'

abbrev pub is_dot : ℕ → Bool
is_dot b = b == b'.'

abbrev pub is_e : ℕ → Bool
is_e b = b == b'e' || b == b'E'

abbrev pub is_sign : ℕ → Bool
is_sign b = b == b'+' || b == b'-'

-- The parts of a number as it is scanned.
pub record Scanned : Type 0 where
  pub sign : Str
  pub whole : Str
  pub dot : Str
  pub fraction : Str
  pub e : Str
  pub e_sign : Str
  pub exponent : Str
  pub rest : Str

-- The digits that only follow where their mark is there.
abbrev pub digits_if : Str → Str → Str × Str
digits_if [] s = ([], s)
digits_if (m ∷ _) s = digits s

abbrev pub sign_if : Str → Str → Str × Str
sign_if [] s = ([], s)
sign_if (m ∷ _) s = optional is_sign s

unfoldable pub scan : Str → Scanned
unfolding digits optional
scan s =
    let (sign, s1) = optional is_minus s in
    let (whole, s2) = digits s1 in
    let (dot, s3) = optional is_dot s2 in
    let (fraction, s4) = digits_if dot s3 in
    let (e, s5) = optional is_e s4 in
    let (e_sign, s6) = sign_if e s5 in
    let (exponent, s7) = digits_if e s6 in
    record {
      sign = sign;
      whole = whole;
      dot = dot;
      fraction = fraction;
      e = e;
      e_sign = e_sign;
      exponent = exponent;
      rest = s7;
    }

abbrev pub text_of : Scanned → Str
text_of n = n.sign ++ (n.whole ++ (n.dot ++ (n.fraction ++ (n.e ++ (n.e_sign ++ n.exponent)))))

-- `text.parse::<f64>()` of a scanned text succeeds: a number has a digit before or behind its dot,
-- and one in its exponent if it has any.
abbrev pub is_f64 : Scanned → Bool
is_f64 n =
    not (is_empty n.whole && is_empty n.fraction) && (is_empty n.e || not (is_empty n.exponent))

abbrev pub checked : Scanned → Outcome (Value × Str)
checked n = if is_f64 n then ok (number (text_of n), n.rest) else err not_a_number

unfoldable pub read_number : Str → Outcome (Value × Str)
unfolding scan
read_number s = checked (scan s)

-- The loop of `hex4` over the digits that are still to come.
unfoldable pub hex_digits : ℕ → ℕ → Str → Outcome (ℕ × Str)
hex_digits zero value s = ok (value, s)
hex_digits (suc n) value [] = err truncated_escape
hex_digits (suc n) value (b ∷ s) =
    or_err non_hex_digit (digit_of b) >>= λ nibble. hex_digits n (value * 16 % 2 ^ 32 + nibble) s

unfoldable pub hex4 : Str → Outcome (ℕ × Str)
unfolding hex_digits
hex4 s = hex_digits 4 0 s

-- `char::from_u32`
unfoldable pub from_u32 : ℕ → Option ℕ
from_u32 c = if within 0xd800 0xdfff c || ltb 0x10_ffff c then none else some c

-- The bytes of a `char`.
unfoldable pub encode_utf8 : ℕ → Str
encode_utf8 c =
    if ltb c 0x80
    then c ∷ []
    else if ltb c 0x800
    then (0xc0 + c / 64) ∷ (0x80 + c % 64) ∷ []
    else if ltb c 0x1_0000
    then (0xe0 + c / 4096) ∷ (0x80 + c / 64 % 64) ∷ (0x80 + c % 64) ∷ []
    else (0xf0 + c / 262144) ∷ (0x80 + c / 4096 % 64) ∷ (0x80 + c / 64 % 64) ∷ (0x80 + c % 64) ∷ []

abbrev char_of : ℕ → Str → Outcome (Str × Str)
char_of c s = or_err invalid_code_point (from_u32 c) >>= λ ch. ok (encode_utf8 ch, s)

unfoldable pub code_unit : Str → Outcome (Str × Str)
unfolding hex4 from_u32 encode_utf8 expect
code_unit s = hex4 s >>= λ (first, s1).
    let pair = expect b'\\' lone_surrogate s1 >>= λ s2. expect b'u' lone_surrogate s2 >>= λ s3.
    hex4 s3 >>= λ (second, s4). fail_if (not (within 0xdc00 0xdfff second)) lone_surrogate >>= λ _.
    char_of (0x1_0000 + (first - 0xd800) * 2 ^ 10 + (second - 0xdc00)) s4 in
    if within 0xd800 0xdbff first then pair else char_of first s1

-- The escapes of one byte.
unfoldable pub simple_escape : ℕ → Option ℕ
simple_escape b =
    if b == b'"' || b == b'\\' || b == b'/'
    then some b
    else if b == b'b'
    then some 8
    else if b == b'f'
    then some 12
    else if b == b'n'
    then some 10
    else if b == b'r'
    then some 13
    else if b == b't'
    then some 9
    else none

unfoldable pub read_escape : Str → Outcome (Str × Str)
unfolding simple_escape code_unit
read_escape [] = err unterminated_escape
read_escape (b ∷ s) =
    let simple = or_err unknown_escape (simple_escape b) >>= λ c. ok (c ∷ [], s) in
    if b == b'u' then code_unit s else simple

-- The bytes of the sequence that this byte starts.
unfoldable pub width_of : ℕ → Option ℕ
width_of b =
    if within 0xc2 0xdf b
    then some 2
    else if within 0xe0 0xef b
    then some 3
    else if within 0xf0 0xf4 b
    then some 4
    else none

-- `self.bytes.get(start..start + width)`, if it is valid UTF-8.
unfoldable pub read_sequence : Str → ℕ → Outcome (Str × Str)
read_sequence s width =
    if leb width (length s) && is_utf8 (take width s)
    then ok (take width s, drop width s)
    else err invalid_utf8

-- `out.push`, of a piece that was read.
abbrev pub piece : Outcome (Str × Str) → Outcome (Option Str × Str)
piece (ok a) = ok (some a.0, a.1)
piece (err e) = err e
piece out_of_fuel = out_of_fuel

-- The body of the loop of `string`: what is pushed, or `none` at the closing quote.
unfoldable pub string_step : Str → Outcome (Option Str × Str)
unfolding read_escape width_of read_sequence
string_step [] = err unterminated_string
string_step (b ∷ s) =
    if b == b'"'
    then ok (none, s)
    else if b == b'\\'
    then piece (read_escape s)
    else if ltb b 0x20
    then err control_character
    else if ltb b 0x80
    then piece (read_sequence (b ∷ s) 1)
    else piece (or_err invalid_utf8 (width_of b) >>= read_sequence (b ∷ s))

unfoldable pub string_loop : ℕ → Str → Str → Outcome (Str × Str)
unfolding string_step
string_loop zero out s = out_of_fuel
string_loop (suc f) out s = string_step s >>= λ (piece, rest). elim piece [
  | none ↦ ok (out, rest)
  | some t ↦ string_loop f (out ++ t) rest
]

-- `string`, behind its opening quote.
unfoldable pub read_string : Str → Outcome (Str × Str)
unfolding string_loop
read_string s = string_loop (suc (length s)) [] s

-- What `value` does with the byte it peeks.
pub data Start : Type 0 where
  at_end brace bracket quote letter_t letter_f letter_n minus_or_digit other_byte : Start

unfoldable pub start_of : Str → Start
start_of [] = at_end
start_of (b ∷ s) =
    if b == b'{'
    then brace
    else if b == b'['
    then bracket
    else if b == b'"'
    then quote
    else if b == b't'
    then letter_t
    else if b == b'f'
    then letter_f
    else if b == b'n'
    then letter_n
    else if b == b'-' || is_ascii_digit b
    then minus_or_digit
    else other_byte

-- `literal`, whose failure leads to the arm of an unexpected byte.
unfoldable pub literal : Str → Value → Str → Outcome (Value × Str)
literal word v s = or_err unexpected_byte (strip_prefix word s) >>= λ rest. ok (v, rest)

-- The key of an entry.
unfoldable pub read_key : Str → Outcome (Str × Str)
unfolding read_string starts
read_key s = fail_if (not (starts b'"' s)) key_not_a_string >>= λ _. read_string (rest_of s)

-- What ends an element: whether another one follows.
unfoldable pub separator : ℕ → Str → Outcome (Bool × Str)
unfolding starts
separator close s =
    if starts b',' s
    then ok (true, rest_of s)
    else if starts close s
    then ok (false, rest_of s)
    else err expected_comma_or_close

-- The first argument is fuel: a call costs a unit of it. The second is the depth.
unfoldable mutual
  unfolding skip_whitespace starts start_of literal read_number read_string read_key separator
      expect

  pub value : ℕ → ℕ → Str → Outcome (Value × Str)
  value zero depth s = out_of_fuel
  value (suc f) depth s = elim (ltb max_depth depth) [
    | true ↦ err too_deep
    | false ↦ value_at f depth s (start_of s)
  ]

  -- The arms of the `match` on the byte that is peeked.
  pub value_at : ℕ → ℕ → Str → Start → Outcome (Value × Str)
  value_at zero depth s k = out_of_fuel
  value_at (suc f) depth s at_end = err unexpected_end
  value_at (suc f) depth s brace = object_of f depth (rest_of s)
  value_at (suc f) depth s bracket = array_of f depth (rest_of s)
  value_at (suc f) depth s quote = read_string (rest_of s) >>= λ (t, rest). ok (string t, rest)
  value_at (suc f) depth s letter_t = literal (ascii "true") (bool true) s
  value_at (suc f) depth s letter_f = literal (ascii "false") (bool false) s
  value_at (suc f) depth s letter_n = literal (ascii "null") null s
  value_at (suc f) depth s minus_or_digit = read_number s
  value_at (suc f) depth s other_byte = err unexpected_byte

  -- `object`, behind its brace.
  pub object_of : ℕ → ℕ → Str → Outcome (Value × Str)
  object_of zero depth s = out_of_fuel
  object_of (suc f) depth s = elim (starts b'}' (skip_whitespace s)) [
    | true ↦ ok (object no_entries, rest_of (skip_whitespace s))
    | false ↦ entries f depth s >>= λ (es, rest). ok (object es, rest)
  ]

  pub entries : ℕ → ℕ → Str → Outcome (Entries × Str)
  entries zero depth s = out_of_fuel
  entries (suc f) depth s = read_key (skip_whitespace s) >>= λ (key, s1).
      expect b':' expected_colon (skip_whitespace s1) >>= λ s2.
      value f (suc depth) (skip_whitespace s2) >>= λ (v, s3).
      separator b'}' (skip_whitespace s3) >>= λ (more, s4). elim more [
        | true ↦ entries f depth s4 >>= λ (es, rest). ok (entry key v es, rest)
        | false ↦ ok (entry key v no_entries, s4)
      ]

  -- `array`, behind its bracket.
  pub array_of : ℕ → ℕ → Str → Outcome (Value × Str)
  array_of zero depth s = out_of_fuel
  array_of (suc f) depth s = elim (starts b']' (skip_whitespace s)) [
    | true ↦ ok (array no_items, rest_of (skip_whitespace s))
    | false ↦ items f depth s >>= λ (vs, rest). ok (array vs, rest)
  ]

  pub items : ℕ → ℕ → Str → Outcome (Items × Str)
  items zero depth s = out_of_fuel
  items (suc f) depth s = value f (suc depth) (skip_whitespace s) >>= λ (v, s1).
      separator b']' (skip_whitespace s1) >>= λ (more, s2). elim more [
        | true ↦ items f depth s2 >>= λ (vs, rest). ok (item v vs, rest)
        | false ↦ ok (item v no_items, s2)
      ]

unfoldable pub finish : Value → Str → Outcome Value
finish v [] = ok v
finish v (b ∷ s) = err trailing_content

unfoldable pub parse : Str → Outcome Value
unfolding value skip_whitespace finish
parse text =
    let s = skip_whitespace text in
    value (4 * length s + 2) 0 s >>= λ (v, rest). finish v (skip_whitespace rest)

-- One byte of `escape`: the bytes of a `char` from 0x80 on are pushed as they are.
unfoldable pub escape_byte : ℕ → Str
escape_byte b =
    if b == b'"'
    then b'\\' ∷ b'"' ∷ []
    else if b == b'\\'
    then b'\\' ∷ b'\\' ∷ []
    else if b == 10
    then b'\\' ∷ b'n' ∷ []
    else if b == 13
    then b'\\' ∷ b'r' ∷ []
    else if b == 9
    then b'\\' ∷ b't' ∷ []
    else if b == 8
    then b'\\' ∷ b'b' ∷ []
    else if b == 12
    then b'\\' ∷ b'f' ∷ []
    else if ltb b 0x20
    then b'\\' ∷ b'u' ∷ b'0' ∷ b'0' ∷ hex_digit (b / 16) ∷ hex_digit (b % 16) ∷ []
    else b ∷ []

unfoldable pub escape : Str → Str
unfolding escape_byte
escape [] = []
escape (b ∷ s) = escape_byte b ++ escape s

-- `Value::get`, of an object's entries.
unfoldable pub find_entry : Str → Entries → Option Value
find_entry key no_entries = none
find_entry key (entry k v es) =
    let rest = find_entry key es in if str_beq k key then some v else rest
  where
    str_beq : Str → Str → Bool
    str_beq [] [] = true
    str_beq (a ∷ s) (b ∷ t) = a == b && str_beq s t
    str_beq _ _ = false

unfoldable pub get : Str → Value → Option Value
unfolding find_entry
get key (object es) = find_entry key es
get key _ = none

abbrev pub as_str : Value → Option Str
as_str (string t) = some t
as_str _ = none

abbrev pub as_array : Value → Option Items
as_array (array vs) = some vs
as_array _ = none
