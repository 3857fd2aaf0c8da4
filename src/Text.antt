-- ===== src/Text.antt =====
-- The methods of `str` that the program calls. A `str` is its bytes in UTF-8; its characters are the
-- groups of those bytes.
pub mod Trim
use confluxmap_pumpkin.Base.{
  ℕ, zero, suc, ◌+◌, ◌*◌, ◌%◌, Bool, true, false, not, ◌&&◌, ◌||◌, Option, none, some, List, [],
  ◌∷◌, ltb, leb, ◌==◌, if◌then◌else◌,
}
use mathlib.Core.List.{reverse, flatten}
use Prim.Native.Char.{code}
use Prim.Native.String.{String}

-- The bytes of an ASCII literal.
abbrev pub ascii : String → List ℕ
ascii String.[] = []
ascii (String.◌∷◌ c s) = code c ∷ ascii s

abbrev pub within : ℕ → ℕ → ℕ → Bool
within l h c = leb l c && leb c h

-- A byte 0b10xxxxxx belongs to the character before it.
unfoldable pub is_continuation : ℕ → Bool
is_continuation b = within 0x80 0xbf b

-- `s.is_char_boundary(index)`
unfoldable pub is_char_boundary : ℕ → List ℕ → Bool
unfolding is_continuation
is_char_boundary zero s = true
is_char_boundary (suc i) [] = false
is_char_boundary (suc zero) (b ∷ []) = true
is_char_boundary (suc (suc i)) (b ∷ []) = false
is_char_boundary (suc zero) (b ∷ c ∷ s) = not (is_continuation c)
is_char_boundary (suc (suc i)) (b ∷ c ∷ s) = is_char_boundary (suc i) (c ∷ s)

abbrev pub starts_char : List ℕ → Bool
starts_char [] = true
starts_char (b ∷ bs) = not (is_continuation b)

-- `b` in front of the characters of what follows it.
abbrev pub join : ℕ → List (List ℕ) → List (List ℕ)
join b [] = (b ∷ []) ∷ []
join b (g ∷ gs) = if starts_char g then (b ∷ []) ∷ g ∷ gs else (b ∷ g) ∷ gs

-- `s.chars()`, each character as its bytes.
unfoldable pub chars : List ℕ → List (List ℕ)
unfolding is_continuation
chars [] = []
chars (b ∷ bs) = join b (chars bs)

-- The scalar value of a character.
unfoldable pub scalar : List ℕ → ℕ
scalar (a ∷ []) = a
scalar (a ∷ b ∷ []) = a % 32 * 64 + b % 64
scalar (a ∷ b ∷ c ∷ []) = (a % 16 * 64 + b % 64) * 64 + c % 64
scalar (a ∷ b ∷ c ∷ d ∷ []) = ((a % 8 * 64 + b % 64) * 64 + c % 64) * 64 + d % 64
scalar _ = 0

-- `char::is_whitespace`: the property White_Space.
unfoldable pub is_whitespace : ℕ → Bool
is_whitespace c =
    within 0x09 0x0d c
    || c == 0x20
    || c == 0x85
    || c == 0xa0
    || c == 0x1680
    || within 0x2000 0x200a c
    || within 0x2028 0x2029 c
    || c == 0x202f
    || c == 0x205f
    || c == 0x3000

-- `char::is_control`: the general category Cc.
unfoldable pub is_control : ℕ → Bool
is_control c = ltb c 0x20 || within 0x7f 0x9f c

unfoldable pub is_blank : List ℕ → Bool
unfolding scalar is_whitespace
is_blank g = is_whitespace (scalar g)

unfoldable pub drop_blank : List (List ℕ) → List (List ℕ)
drop_blank [] = []
drop_blank (g ∷ gs) = let rest = drop_blank gs in if is_blank g then rest else g ∷ gs

-- `s.trim()`
unfoldable pub trim : List ℕ → List ℕ
unfolding chars is_blank drop_blank
trim s = flatten (reverse (drop_blank (reverse (drop_blank (chars s)))))

abbrev pub is_empty : List ℕ → Bool
is_empty [] = true
is_empty (b ∷ bs) = false

-- `s.strip_prefix(prefix)`
unfoldable pub strip_prefix : List ℕ → List ℕ → Option (List ℕ)
strip_prefix [] s = some s
strip_prefix (p ∷ ps) [] = none
strip_prefix (p ∷ ps) (b ∷ s) = let rest = strip_prefix ps s in if p == b then rest else none

abbrev pub push_front : ℕ → Option (List ℕ × List ℕ) → Option (List ℕ × List ℕ)
push_front b none = none
push_front b (some (before, after)) = some (b ∷ before, after)

-- `s.split_once(c)`, for an ASCII character.
unfoldable pub split_once : ℕ → List ℕ → Option (List ℕ × List ℕ)
split_once c [] = none
split_once c (b ∷ s) =
    let rest = split_once c s in if b == c then some ([], s) else push_front b rest

unfoldable pub is_ascii_lowercase : ℕ → Bool
is_ascii_lowercase b = within b'a' b'z' b

unfoldable pub is_ascii_digit : ℕ → Bool
is_ascii_digit b = within b'0' b'9' b
