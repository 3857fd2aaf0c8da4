-- ===== src/Json/Documents.antt =====
-- Documents as a writer lays them out, with any whitespace between their parts.
use confluxmap_pumpkin.Base.{
  ℕ, suc, ◌≤◌, ◌<◌, ◌≡◌, Bool, true, false, [], ◌∷◌, ◌++◌, arith, all, length, length-append,
}
use confluxmap_pumpkin.Text.{ascii}
use confluxmap_pumpkin.Wire.Utf8.{IsUtf8}
use confluxmap_pumpkin.Json.{
  Str, Value, Items, Entries, no_items, item, no_entries, entry, is_space, escape, max_depth,
}
use confluxmap_pumpkin.Json.Numbers.{numeral_text, is_numeral, sign_of, dot_of}

mutual
  pub data Doc : Type 0 where
    null : Doc
    boolean : Bool → Doc
    numeral : (minus : Bool) (whole fraction : Str) → Doc
    text : Str → Doc
    empty_array empty_object : (inside : Str) → Doc
    array : Elements → Doc
    object : Members → Doc

  -- Each element with the whitespace before and behind it.
  pub data Elements : Type 0 where
    last : (before : Str) → Doc → (behind : Str) → Elements
    more : (before : Str) → Doc → (behind : Str) → Elements → Elements

  -- A key has whitespace before it, and before and behind its colon.
  pub data Members : Type 0 where
    last_member : (before key colon colon_behind : Str) → Doc → (behind : Str) → Members
    member : (before key colon colon_behind : Str) → Doc → (behind : Str) → Members → Members

abbrev pub quoted : Str → Str → Str
quoted t k = b'"' ∷ (escape t ++ b'"' ∷ k)

-- The text of a document in front of `k`.
unfoldable mutual
  pub doc_text : Doc → Str → Str
  doc_text null k = ascii "null" ++ k
  doc_text (boolean true) k = ascii "true" ++ k
  doc_text (boolean false) k = ascii "false" ++ k
  doc_text (numeral minus whole fraction) k =
      sign_of minus ++ (whole ++ (dot_of fraction ++ (fraction ++ k)))
  doc_text (text t) k = quoted t k
  doc_text (empty_array inside) k = b'[' ∷ (inside ++ b']' ∷ k)
  doc_text (empty_object inside) k = b'{' ∷ (inside ++ b'}' ∷ k)
  doc_text (array es) k = b'[' ∷ elements_text es k
  doc_text (object ms) k = b'{' ∷ members_text ms k

  pub elements_text : Elements → Str → Str
  elements_text (last before d behind) k = before ++ doc_text d (behind ++ b']' ∷ k)
  elements_text (more before d behind es) k =
      before ++ doc_text d (behind ++ b',' ∷ elements_text es k)

  pub members_text : Members → Str → Str
  members_text (last_member before key colon colon_behind d behind) k =
      before ++ quoted key (colon ++ b':' ∷ (colon_behind ++ doc_text d (behind ++ b'}' ∷ k)))
  members_text (member before key colon colon_behind d behind ms) k =
      before
      ++ quoted key
          (colon ++ b':' ∷ (colon_behind ++ doc_text d (behind ++ b',' ∷ members_text ms k)))

unfoldable mutual
  pub doc_value : Doc → Value
  doc_value null = Value.null
  doc_value (boolean b) = Value.bool b
  doc_value (numeral minus whole fraction) = Value.number (numeral_text minus whole fraction)
  doc_value (text t) = Value.string t
  doc_value (empty_array inside) = Value.array no_items
  doc_value (empty_object inside) = Value.object no_entries
  doc_value (array es) = Value.array (elements_value es)
  doc_value (object ms) = Value.object (members_value ms)

  pub elements_value : Elements → Items
  elements_value (last before d behind) = item (doc_value d) no_items
  elements_value (more before d behind es) = item (doc_value d) (elements_value es)

  pub members_value : Members → Entries
  members_value (last_member before key colon colon_behind d behind) =
      entry key (doc_value d) no_entries
  members_value (member before key colon colon_behind d behind ms) =
      entry key (doc_value d) (members_value ms)

abbrev pub IsBlank : Str → Type 0
IsBlank s = all is_space s ≡ true

-- A document at depth `n`: its whitespace is whitespace, its texts are UTF-8, its numerals have
-- digits, and it nests to the depth of 32 at most.
unfoldable mutual
  pub Fits : ℕ → Doc → Type 0
  Fits n null = n ≤ max_depth
  Fits n (boolean b) = n ≤ max_depth
  Fits n (numeral minus whole fraction) = (n ≤ max_depth) × (is_numeral whole fraction ≡ true)
  Fits n (text t) = (n ≤ max_depth) × IsUtf8 t
  Fits n (empty_array inside) = (n ≤ max_depth) × IsBlank inside
  Fits n (empty_object inside) = (n ≤ max_depth) × IsBlank inside
  Fits n (array es) = (n ≤ max_depth) × FitsElements (suc n) es
  Fits n (object ms) = (n ≤ max_depth) × FitsMembers (suc n) ms

  pub FitsElements : ℕ → Elements → Type 0
  FitsElements n (last before d behind) = IsBlank before × IsBlank behind × Fits n d
  FitsElements n (more before d behind es) =
      IsBlank before × IsBlank behind × Fits n d × FitsElements n es

  pub FitsMembers : ℕ → Members → Type 0
  FitsMembers n (last_member before key colon colon_behind d behind) =
      IsBlank before × IsUtf8 key × IsBlank colon × IsBlank colon_behind × IsBlank behind × Fits n d
  FitsMembers n (member before key colon colon_behind d behind ms) =
      IsBlank before
      × IsUtf8 key
      × IsBlank colon
      × IsBlank colon_behind
      × IsBlank behind
      × Fits n d
      × FitsMembers n ms

pub length-blank : (b s : Str) → length s ≤ length (b ++ s)
length-blank b s = omega (arith, length-append b s)

pub length-quoted : (t k : Str) → length k < length (quoted t k)
length-quoted t k = omega (arith, length-append (escape t) (b'"' ∷ k))

length-numeral :
    (minus : Bool) (whole fraction k : Str)
    → is_numeral whole fraction ≡ true
    → length k < length (sign_of minus ++ (whole ++ (dot_of fraction ++ (fraction ++ k))))
length-numeral minus [] fraction k h = cc
length-numeral minus (d ∷ ds) fraction k h = omega (
  arith,
  length-append (sign_of minus) (d ∷ (ds ++ (dot_of fraction ++ (fraction ++ k)))),
  length-append ds (dot_of fraction ++ (fraction ++ k)),
  length-append (dot_of fraction) (fraction ++ k),
  length-append fraction k,
)

-- A document is not empty.
mutual
  unfolding doc_text Fits

  pub length-doc_text : (n : ℕ) (d : Doc) (k : Str) → Fits n d → length k < length (doc_text d k)
  length-doc_text n null k h = omega arith
  length-doc_text n (boolean true) k h = omega arith
  length-doc_text n (boolean false) k h = omega arith
  length-doc_text n (numeral minus whole fraction) k (h, i) =
      length-numeral minus whole fraction k i
  length-doc_text n (text t) k h = length-quoted t k
  length-doc_text n (empty_array inside) k h = omega (arith, length-blank inside (b']' ∷ k))
  length-doc_text n (empty_object inside) k h = omega (arith, length-blank inside (b'}' ∷ k))
  length-doc_text n (array es) k (h, i) = omega (arith, length-elements_text (suc n) es k i)
  length-doc_text n (object ms) k (h, i) = omega (arith, length-members_text (suc n) ms k i)

  pub length-elements_text :
      (n : ℕ) (es : Elements) (k : Str) → FitsElements n es → length k < length (elements_text es k)
  length-elements_text n (last before d behind) k (a, b, i) = omega (
    arith,
    length-blank before (doc_text d (behind ++ b']' ∷ k)),
    length-doc_text n d (behind ++ b']' ∷ k) i,
    length-blank behind (b']' ∷ k),
  )
  length-elements_text n (more before d behind es) k (a, b, i, j) = omega (
    arith,
    length-blank before (doc_text d (behind ++ b',' ∷ elements_text es k)),
    length-doc_text n d (behind ++ b',' ∷ elements_text es k) i,
    length-blank behind (b',' ∷ elements_text es k),
    length-elements_text n es k j,
  )

  pub length-members_text :
      (n : ℕ) (ms : Members) (k : Str) → FitsMembers n ms → length k < length (members_text ms k)
  length-members_text n (last_member before key colon colon_behind d behind) k (a, u, b, c, e, i) =
      let v = doc_text d (behind ++ b'}' ∷ k) in
      omega (
        arith,
        length-blank before (quoted key (colon ++ b':' ∷ (colon_behind ++ v))),
        length-quoted key (colon ++ b':' ∷ (colon_behind ++ v)),
        length-blank colon (b':' ∷ (colon_behind ++ v)),
        length-blank colon_behind v,
        length-doc_text n d (behind ++ b'}' ∷ k) i,
        length-blank behind (b'}' ∷ k),
      )
  length-members_text n (member before key colon colon_behind d behind ms) k (a, u, b, c, e, i, j) =
      let v = doc_text d (behind ++ b',' ∷ members_text ms k) in
      omega (
        arith,
        length-blank before (quoted key (colon ++ b':' ∷ (colon_behind ++ v))),
        length-quoted key (colon ++ b':' ∷ (colon_behind ++ v)),
        length-blank colon (b':' ∷ (colon_behind ++ v)),
        length-blank colon_behind v,
        length-doc_text n d (behind ++ b',' ∷ members_text ms k) i,
        length-blank behind (b',' ∷ members_text ms k),
        length-members_text n ms k j,
      )
