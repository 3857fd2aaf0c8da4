-- ===== src/Json/Layout.antt =====
-- A document is read as the value that it lays out.

use confluxmap_pumpkin.Base.{
  ℕ, zero, suc, ◌+◌, ◌*◌, ◌≤◌, ◌<◌, ◌≡◌, refl, ap, ◌∙◌, Bool, true, false, not, ◌&&◌, [], ◌∷◌, ◌++◌,
  arith, ltb, all, length,
}
use confluxmap_pumpkin.Text.{ascii, is_ascii_digit, strip_prefix}
use confluxmap_pumpkin.Json.{
  Str, Value, Items, Entries, no_items, item, no_entries, entry, Outcome, ok, starts, is_space,
  skip_whitespace, expect, read_number, read_key, literal, separator, Start, start_of, value,
  value_at, object_of, entries, array_of, items, finish, parse, max_depth, brace, bracket, quote,
  letter_t, letter_f, letter_n, minus_or_digit, expected_colon,
}
use confluxmap_pumpkin.Wire.Utf8.{IsUtf8}
use confluxmap_pumpkin.Json.Strings.{read_string-escape}
use confluxmap_pumpkin.Json.Numbers.{stops, is_numeral, sign_of, dot_of, read_number-numeral}
use confluxmap_pumpkin.Json.Documents.{
  Doc, Elements, Members, null, boolean, numeral, text, empty_array, empty_object, array, object,
  last, more, last_member, member, quoted, doc_text, elements_text, members_text, doc_value,
  elements_value, members_value, IsBlank, Fits, FitsElements, FitsMembers, length-doc_text,
  length-blank, length-quoted,
}

-- No whitespace at the front.
solid : Str → Bool
solid [] = true
solid (b ∷ s) = not (is_space b)

IsBlank-cons : (b : ℕ) (bs : Str) → IsBlank (b ∷ bs) → (is_space b ≡ true) × IsBlank bs
IsBlank-cons b bs h = both (is_space b) (all is_space bs) h
  where
    both : (x y : Bool) → x && y ≡ true → (x ≡ true) × (y ≡ true)
    both true y q = (refl, q)
    both false y q = cc

skip_whitespace-solid : (s : Str) → solid s ≡ true → skip_whitespace s ≡ s
unfolding skip_whitespace solid
skip_whitespace-solid [] h = refl
skip_whitespace-solid (b ∷ s) h = let no : is_space b ≡ false = missed (is_space b) h in rw no
  where
    missed : (x : Bool) → not x ≡ true → x ≡ false
    missed true q = cc
    missed false q = refl

skip_whitespace-blank : (b s : Str) → IsBlank b → solid s ≡ true → skip_whitespace (b ++ s) ≡ s
unfolding skip_whitespace
skip_whitespace-blank [] s h k = skip_whitespace-solid s k
skip_whitespace-blank (c ∷ b) s h k =
    let (one, others) = IsBlank-cons c b h in rw (one, skip_whitespace-blank b s others k)

stops-space : (b : ℕ) (s : Str) → is_space b ≡ true → stops (b ∷ s) ≡ true
unfolding is_space is_ascii_digit
stops-space b s h = ground arith

stops-blank : (b s : Str) → IsBlank b → stops s ≡ true → stops (b ++ s) ≡ true
stops-blank [] s h k = k
stops-blank (c ∷ b) s h k = stops-space c (b ++ s) (IsBlank-cons c b h).0

digit_head :
    (d : ℕ) (s : Str)
    → is_ascii_digit d ≡ true
    → (start_of (d ∷ s) ≡ minus_or_digit) × (solid (d ∷ s) ≡ true) × (starts b']' (d ∷ s) ≡ false)
unfolding is_ascii_digit start_of solid starts is_space
digit_head d s h = (ground arith, ground arith, ground arith)

-- What `value` sees of a document.
kind_of : Doc → Start
kind_of null = letter_n
kind_of (boolean true) = letter_t
kind_of (boolean false) = letter_f
kind_of (numeral minus whole fraction) = minus_or_digit
kind_of (text t) = quote
kind_of (empty_array inside) = bracket
kind_of (empty_object inside) = brace
kind_of (array es) = bracket
kind_of (object ms) = brace

record Head (d : Doc) (k : Str) : Type 0 where
  kind : start_of (doc_text d k) ≡ kind_of d
  firm : solid (doc_text d k) ≡ true
  opened : starts b']' (doc_text d k) ≡ false

first_digit :
    (d : ℕ) (ds fraction : Str) → is_numeral (d ∷ ds) fraction ≡ true → is_ascii_digit d ≡ true
first_digit d ds fraction h = both (is_ascii_digit d) _ _ h
  where
    both : (x y z : Bool) → (x && y) && z ≡ true → x ≡ true
    both true y z q = refl
    both false y z q = cc

doc-Head : (n : ℕ) (d : Doc) (k : Str) → Fits n d → Head d k
unfolding doc_text kind_of start_of solid starts is_space Fits
doc-Head n null k h = record { kind = refl; firm = refl; opened = refl }
doc-Head n (boolean true) k h = record { kind = refl; firm = refl; opened = refl }
doc-Head n (boolean false) k h = record { kind = refl; firm = refl; opened = refl }
doc-Head n (numeral true whole fraction) k h = record { kind = refl; firm = refl; opened = refl }
doc-Head n (numeral false [] fraction) k (h, i) = absurd cc
doc-Head n (numeral false (d ∷ ds) fraction) k (h, i) =
    let (a, b, c) =
      digit_head d (ds ++ (dot_of fraction ++ (fraction ++ k))) (first_digit d ds fraction i) in
    record { kind = a; firm = b; opened = c }
doc-Head n (text t) k h = record { kind = refl; firm = refl; opened = refl }
doc-Head n (empty_array inside) k h = record { kind = refl; firm = refl; opened = refl }
doc-Head n (empty_object inside) k h = record { kind = refl; firm = refl; opened = refl }
doc-Head n (array es) k h = record { kind = refl; firm = refl; opened = refl }
doc-Head n (object ms) k h = record { kind = refl; firm = refl; opened = refl }

value-start :
    (f n : ℕ) (s : Str) (t : Start)
    → n ≤ max_depth
    → start_of s ≡ t
    → value (suc f) n s ≡ value_at f n s t
unfolding value
value-start f n s t h e =
    let shallow : ltb max_depth n ≡ false = ground arith in rw (shallow, value, e)

read_key-quoted : (t k : Str) → IsUtf8 t → read_key (quoted t k) ≡ ok (t, k)
unfolding read_key starts
read_key-quoted t k u = read_string-escape t k u

entries-more :
    (f n : ℕ) (s s1 s2 s3 s4 s5 key : Str) (v : Value) (es : Entries)
    → read_key (skip_whitespace s) ≡ ok (key, s1)
    → expect b':' expected_colon (skip_whitespace s1) ≡ ok s2
    → value f (suc n) (skip_whitespace s2) ≡ ok (v, s3)
    → separator b'}' (skip_whitespace s3) ≡ ok (true, s4)
    → entries f n s4 ≡ ok (es, s5)
    → entries (suc f) n s ≡ ok (entry key v es, s5)
unfolding value
entries-more f n s s1 s2 s3 s4 s5 key v es a b c d e = rw (a, b, c, d, e)

entries-last :
    (f n : ℕ) (s s1 s2 s3 s4 key : Str) (v : Value)
    → read_key (skip_whitespace s) ≡ ok (key, s1)
    → expect b':' expected_colon (skip_whitespace s1) ≡ ok s2
    → value f (suc n) (skip_whitespace s2) ≡ ok (v, s3)
    → separator b'}' (skip_whitespace s3) ≡ ok (false, s4)
    → entries (suc f) n s ≡ ok (entry key v no_entries, s4)
unfolding value
entries-last f n s s1 s2 s3 s4 key v a b c d = rw (a, b, c, d)

items-more :
    (f n : ℕ) (s s1 s2 s3 : Str) (v : Value) (vs : Items)
    → value f (suc n) (skip_whitespace s) ≡ ok (v, s1)
    → separator b']' (skip_whitespace s1) ≡ ok (true, s2)
    → items f n s2 ≡ ok (vs, s3)
    → items (suc f) n s ≡ ok (item v vs, s3)
unfolding value
items-more f n s s1 s2 s3 v vs a b c = rw (a, b, c)

items-last :
    (f n : ℕ) (s s1 s2 : Str) (v : Value)
    → value f (suc n) (skip_whitespace s) ≡ ok (v, s1)
    → separator b']' (skip_whitespace s1) ≡ ok (false, s2)
    → items (suc f) n s ≡ ok (item v no_items, s2)
unfolding value
items-last f n s s1 s2 v a b = rw (a, b)

-- An object or an array that does not close at once.
object_of-entries :
    (f n : ℕ) (s rest : Str) (es : Entries)
    → starts b'}' (skip_whitespace s) ≡ false
    → entries f n s ≡ ok (es, rest)
    → object_of (suc f) n s ≡ ok (Value.object es, rest)
unfolding value
object_of-entries f n s rest es a b = rw (a, object_of, b)

array_of-items :
    (f n : ℕ) (s rest : Str) (vs : Items)
    → starts b']' (skip_whitespace s) ≡ false
    → items f n s ≡ ok (vs, rest)
    → array_of (suc f) n s ≡ ok (Value.array vs, rest)
unfolding value
array_of-items f n s rest vs a b = rw (a, array_of, b)

object_of-empty :
    (f n : ℕ) (s rest : Str)
    → skip_whitespace s ≡ b'}' ∷ rest
    → object_of (suc f) n s ≡ ok (Value.object no_entries, rest)
unfolding value starts
object_of-empty f n s rest a = rw (a, object_of, a)

array_of-empty :
    (f n : ℕ) (s rest : Str)
    → skip_whitespace s ≡ b']' ∷ rest
    → array_of (suc f) n s ≡ ok (Value.array no_items, rest)
unfolding value starts
array_of-empty f n s rest a = rw (a, array_of, a)

separator-at :
    (close : ℕ) (b k : Str)
    → IsBlank b
    → (separator close (skip_whitespace (b ++ b',' ∷ k)) ≡ ok (true, k))
unfolding separator starts solid is_space
separator-at close b k h = rw (skip_whitespace-blank b (b',' ∷ k) h refl)

closes_array :
    (b k : Str) → IsBlank b → separator b']' (skip_whitespace (b ++ b']' ∷ k)) ≡ ok (false, k)
unfolding separator starts solid is_space
closes_array b k h = rw (skip_whitespace-blank b (b']' ∷ k) h refl)

closes_object :
    (b k : Str) → IsBlank b → separator b'}' (skip_whitespace (b ++ b'}' ∷ k)) ≡ ok (false, k)
unfolding separator starts solid is_space
closes_object b k h = rw (skip_whitespace-blank b (b'}' ∷ k) h refl)

colon_at :
    (b k : Str) → IsBlank b → expect b':' expected_colon (skip_whitespace (b ++ b':' ∷ k)) ≡ ok k
unfolding expect starts solid is_space
colon_at b k h = rw (skip_whitespace-blank b (b':' ∷ k) h refl)

key_at :
    (b t k : Str) → IsBlank b → IsUtf8 t → read_key (skip_whitespace (b ++ quoted t k)) ≡ ok (t, k)
unfolding solid is_space
key_at b t k h u = rw (skip_whitespace-blank b (quoted t k) h refl) (read_key-quoted t k u)

-- The arms of `value`.
true_at :
    (f n : ℕ) (k : Str) → value_at (suc f) n (ascii "true" ++ k) letter_t ≡ ok (Value.bool true, k)
unfolding value literal strip_prefix
true_at f n k = refl

false_at :
    (f n : ℕ) (k : Str)
    → value_at (suc f) n (ascii "false" ++ k) letter_f ≡ ok (Value.bool false, k)
unfolding value literal strip_prefix
false_at f n k = refl

null_at : (f n : ℕ) (k : Str) → value_at (suc f) n (ascii "null" ++ k) letter_n ≡ ok (Value.null, k)
unfolding value literal strip_prefix
null_at f n k = refl

number_at : (f n : ℕ) (s : Str) → value_at (suc f) n s minus_or_digit ≡ read_number s
unfolding value
number_at f n s = refl

object_at : (f n : ℕ) (s : Str) → value_at (suc f) n (b'{' ∷ s) brace ≡ object_of f n s
unfolding value
object_at f n s = refl

array_at : (f n : ℕ) (s : Str) → value_at (suc f) n (b'[' ∷ s) bracket ≡ array_of f n s
unfolding value
array_at f n s = refl

string_at :
    (f n : ℕ) (t k : Str)
    → IsUtf8 t
    → value_at (suc f) n (quoted t k) quote ≡ ok (Value.string t, k)
unfolding value
string_at f n t k u = rw (read_string-escape t k u)

object_of-blank :
    (f n : ℕ) (b k : Str)
    → IsBlank b
    → 0 < f
    → object_of f n (b ++ b'}' ∷ k) ≡ ok (Value.object no_entries, k)
unfolding solid is_space
object_of-blank zero n b k h g = absurd (omega arith)
object_of-blank (suc f) n b k h g =
    object_of-empty f n (b ++ b'}' ∷ k) k (skip_whitespace-blank b (b'}' ∷ k) h refl)

array_of-blank :
    (f n : ℕ) (b k : Str)
    → IsBlank b
    → 0 < f
    → array_of f n (b ++ b']' ∷ k) ≡ ok (Value.array no_items, k)
unfolding solid is_space
array_of-blank zero n b k h g = absurd (omega arith)
array_of-blank (suc f) n b k h g =
    array_of-empty f n (b ++ b']' ∷ k) k (skip_whitespace-blank b (b']' ∷ k) h refl)

members_open :
    (n : ℕ) (ms : Members) (k : Str)
    → FitsMembers n ms
    → starts b'}' (skip_whitespace (members_text ms k)) ≡ false
unfolding members_text FitsMembers starts solid is_space
members_open n (last_member b key c cb d bh) k (h, _, _, _, _, _) =
    rw (skip_whitespace-blank b _ h refl)
members_open n (member b key c cb d bh ms) k (h, _, _, _, _, _, _) =
    rw (skip_whitespace-blank b _ h refl)

elements_open :
    (n : ℕ) (es : Elements) (k : Str)
    → FitsElements n es
    → starts b']' (skip_whitespace (elements_text es k)) ≡ false
unfolding elements_text FitsElements
elements_open n (last b d bh) k (h, _, i) =
    let head = doc-Head n d (bh ++ b']' ∷ k) i in
    ap (starts b']') (skip_whitespace-blank b _ h head.firm) ∙ head.opened
elements_open n (more b d bh es) k (h, _, i, _) =
    let head = doc-Head n d (bh ++ b',' ∷ elements_text es k) i in
    ap (starts b']') (skip_whitespace-blank b _ h head.firm) ∙ head.opened

depth_of : (n : ℕ) (d : Doc) → Fits n d → n ≤ max_depth
unfolding Fits
depth_of n null h = h
depth_of n (boolean b) h = h
depth_of n (numeral minus whole fraction) h = h.0
depth_of n (text t) h = h.0
depth_of n (empty_array inside) h = h.0
depth_of n (empty_object inside) h = h.0
depth_of n (array es) h = h.0
depth_of n (object ms) h = h.0

stops-comma : (b k : Str) → IsBlank b → stops (b ++ b',' ∷ k) ≡ true
unfolding is_ascii_digit
stops-comma b k h = stops-blank b (b',' ∷ k) h refl

stops-bracket : (b k : Str) → IsBlank b → stops (b ++ b']' ∷ k) ≡ true
unfolding is_ascii_digit
stops-bracket b k h = stops-blank b (b']' ∷ k) h refl

stops-brace : (b k : Str) → IsBlank b → stops (b ++ b'}' ∷ k) ≡ true
unfolding is_ascii_digit
stops-brace b k h = stops-blank b (b'}' ∷ k) h refl

-- A document behind whitespace.
value-blank :
    (d : Doc) (n f : ℕ) (b k : Str) {r : Outcome (Value × Str)}
    → IsBlank b
    → Fits n d
    → value f n (doc_text d k) ≡ r
    → value f n (skip_whitespace (b ++ doc_text d k)) ≡ r
value-blank d n f b k blank h e =
    ap (value f n) (skip_whitespace-blank b (doc_text d k) blank (doc-Head n d k h).firm) ∙ e

-- With enough fuel for all that is left, a document is read off its front.
mutual
  unfolding doc_text doc_value Fits kind_of

  value_at-doc_text :
      (d : Doc) (n f : ℕ) (k : Str)
      → Fits n d
      → stops k ≡ true
      → 4 * length (doc_text d k) < f
      → value_at f n (doc_text d k) (kind_of d) ≡ ok (doc_value d, k)
  value_at-doc_text d n zero k h st g = absurd (omega arith)
  value_at-doc_text null n (suc f) k h st g = null_at f n k
  value_at-doc_text (boolean true) n (suc f) k h st g = true_at f n k
  value_at-doc_text (boolean false) n (suc f) k h st g = false_at f n k
  value_at-doc_text (numeral minus whole fraction) n (suc f) k (h, i) st g =
      number_at f n (sign_of minus ++ (whole ++ (dot_of fraction ++ (fraction ++ k))))
      ∙ read_number-numeral minus whole fraction k i st
  value_at-doc_text (text t) n (suc f) k (h, u) st g = string_at f n t k u
  value_at-doc_text (empty_array inside) n (suc f) k (h, i) st g =
      array_at f n (inside ++ b']' ∷ k) ∙ array_of-blank f n inside k i (omega arith)
  value_at-doc_text (empty_object inside) n (suc f) k (h, i) st g =
      object_at f n (inside ++ b'}' ∷ k) ∙ object_of-blank f n inside k i (omega arith)
  value_at-doc_text (array es) n (suc f) k (h, i) st g =
      array_at f n (elements_text es k) ∙ array_of-elements_text es n f k i (omega arith)
  value_at-doc_text (object ms) n (suc f) k (h, i) st g =
      object_at f n (members_text ms k) ∙ object_of-members_text ms n f k i (omega arith)

  value-doc_text :
      (d : Doc) (n f : ℕ) (k : Str)
      → Fits n d
      → stops k ≡ true
      → 4 * length (doc_text d k) + 1 < f
      → value f n (doc_text d k) ≡ ok (doc_value d, k)
  value-doc_text d n zero k h st g = absurd (omega arith)
  value-doc_text d n (suc f) k h st g =
      value-start f n (doc_text d k) (kind_of d) (depth_of n d h) (doc-Head n d k h).kind
      ∙ value_at-doc_text d n f k h st (omega arith)

  array_of-elements_text :
      (es : Elements) (n f : ℕ) (k : Str)
      → FitsElements (suc n) es
      → 4 * length (elements_text es k) + 3 < f
      → array_of f n (elements_text es k) ≡ ok (Value.array (elements_value es), k)
  array_of-elements_text es n zero k h g = absurd (omega arith)
  array_of-elements_text es n (suc f) k h g =
      array_of-items f n (elements_text es k) k (elements_value es) (elements_open (suc n) es k h)
        (items-elements_text es n f k h (omega arith))

  items-elements_text :
      (es : Elements) (n f : ℕ) (k : Str)
      → FitsElements (suc n) es
      → 4 * length (elements_text es k) + 2 < f
      → items f n (elements_text es k) ≡ ok (elements_value es, k)
  items-elements_text es n zero k h g = absurd (omega arith)
  items-elements_text (last b d bh) n (suc f) k (hb, hbh, i) g =
      let s = bh ++ b']' ∷ k in
      let w = length-blank b (doc_text d s) in
      items-last f n (b ++ doc_text d s) s k (doc_value d)
        (value-blank d (suc n) f b s hb i
          (value-doc_text d (suc n) f s i (stops-bracket bh k hbh) (omega arith)))
        (closes_array bh k hbh)
  items-elements_text (more b d bh es) n (suc f) k (hb, hbh, i, j) g =
      let s = bh ++ b',' ∷ elements_text es k in
      let w = length-blank b (doc_text d s) in
      let x = length-doc_text (suc n) d s i in
      let y = length-blank bh (b',' ∷ elements_text es k) in
      items-more f n (b ++ doc_text d s) s (elements_text es k) k (doc_value d) (elements_value es)
        (value-blank d (suc n) f b s hb i
          (value-doc_text d (suc n) f s i (stops-comma bh (elements_text es k) hbh) (omega arith)))
        (separator-at b']' bh (elements_text es k) hbh)
        (items-elements_text es n f k j (omega arith))

  object_of-members_text :
      (ms : Members) (n f : ℕ) (k : Str)
      → FitsMembers (suc n) ms
      → 4 * length (members_text ms k) + 3 < f
      → object_of f n (members_text ms k) ≡ ok (Value.object (members_value ms), k)
  object_of-members_text ms n zero k h g = absurd (omega arith)
  object_of-members_text ms n (suc f) k h g =
      object_of-entries f n (members_text ms k) k (members_value ms) (members_open (suc n) ms k h)
        (entries-members_text ms n f k h (omega arith))

  entries-members_text :
      (ms : Members) (n f : ℕ) (k : Str)
      → FitsMembers (suc n) ms
      → 4 * length (members_text ms k) + 2 < f
      → entries f n (members_text ms k) ≡ ok (members_value ms, k)
  entries-members_text ms n zero k h g = absurd (omega arith)
  entries-members_text (last_member b key c cb d bh) n (suc f) k (hb, u, hc, hcb, hbh, i) g =
      let s = bh ++ b'}' ∷ k in
      let v = cb ++ doc_text d s in
      let w1 = length-blank b (quoted key (c ++ b':' ∷ v)) in
      let w2 = length-quoted key (c ++ b':' ∷ v) in
      let w3 = length-blank c (b':' ∷ v) in
      let w4 = length-blank cb (doc_text d s) in
      entries-last f n (b ++ quoted key (c ++ b':' ∷ v)) (c ++ b':' ∷ v) v s k key (doc_value d)
        (key_at b key (c ++ b':' ∷ v) hb u) (colon_at c v hc)
        (value-blank d (suc n) f cb s hcb i
          (value-doc_text d (suc n) f s i (stops-brace bh k hbh) (omega arith)))
        (closes_object bh k hbh)
  entries-members_text (member b key c cb d bh ms) n (suc f) k (hb, u, hc, hcb, hbh, i, j) g =
      let s = bh ++ b',' ∷ members_text ms k in
      let v = cb ++ doc_text d s in
      let w1 = length-blank b (quoted key (c ++ b':' ∷ v)) in
      let w2 = length-quoted key (c ++ b':' ∷ v) in
      let w3 = length-blank c (b':' ∷ v) in
      let w4 = length-blank cb (doc_text d s) in
      let w5 = length-doc_text (suc n) d s i in
      let w6 = length-blank bh (b',' ∷ members_text ms k) in
      entries-more f n (b ++ quoted key (c ++ b':' ∷ v)) (c ++ b':' ∷ v) v s (members_text ms k) k
        key (doc_value d) (members_value ms) (key_at b key (c ++ b':' ∷ v) hb u) (colon_at c v hc)
        (value-blank d (suc n) f cb s hcb i
          (value-doc_text d (suc n) f s i (stops-comma bh (members_text ms k) hbh) (omega arith)))
        (separator-at b'}' bh (members_text ms k) hbh)
        (entries-members_text ms n f k j (omega arith))

parse_at :
    (t s rest : Str) (v : Value)
    → skip_whitespace t ≡ s
    → value (4 * length s + 2) 0 s ≡ ok (v, rest)
    → skip_whitespace rest ≡ []
    → parse t ≡ ok v
unfolding parse finish
parse_at t s rest v a b c = rw (a, b, c)

stops_end : (b : Str) → IsBlank b → stops b ≡ true
stops_end [] h = refl
stops_end (c ∷ b) h = stops-space c b (IsBlank-cons c b h).0

skip_all : (b : Str) → IsBlank b → skip_whitespace b ≡ []
unfolding skip_whitespace
skip_all [] h = refl
skip_all (c ∷ b) h = let (one, others) = IsBlank-cons c b h in rw (one, skip_all b others)

-- A document that `Fits` describes, with whitespace before and behind it, is parsed to the value
-- that it lays out.
pub parse-doc_text :
    (before behind : Str) (d : Doc)
    → IsBlank before
    → IsBlank behind
    → Fits 0 d
    → parse (before ++ doc_text d behind) ≡ ok (doc_value d)
parse-doc_text before behind d hb hbh h =
    parse_at (before ++ doc_text d behind) (doc_text d behind) behind (doc_value d)
      (skip_whitespace-blank before (doc_text d behind) hb (doc-Head 0 d behind h).firm)
      (value-doc_text d 0 (4 * length (doc_text d behind) + 2) behind h (stops_end behind hbh)
        (omega arith))
      (skip_all behind hbh)
