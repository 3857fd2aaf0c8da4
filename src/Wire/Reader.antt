-- ===== src/Wire/Reader.antt =====
-- `Reader`: a bounds-checked cursor. A method that fails leaves the cursor where its last good
-- read put it, as the Rust methods do.
use confluxmap_pumpkin.Base.{
  ℕ, zero, suc, ◌+◌, ◌-◌, ◌*◌, ◌^◌, Bool, true, false, Option, none, some, List, [], ◌∷◌, ltb, leb,
  ◌==◌, if◌then◌else◌, length, get_elem?, take, drop,
}
use confluxmap_pumpkin.Base.Int.{ℤ, of_word, to_word}
use confluxmap_pumpkin.Identity.{Uid}
use confluxmap_pumpkin.Wire.Bytes.{of_be}
use confluxmap_pumpkin.Wire.Utf8.{from_utf8}

pub record Reader : Type 0 where
  pub buf : List ℕ
  pub pos : ℕ

-- `Reader::new`
abbrev pub new : List ℕ → Reader
new buf = record { buf = buf; pos = 0 }

-- A method that takes `&mut self` and may fail.
abbrev pub Read {ℓ} : Type ℓ → Type ℓ
Read A = Reader → Option A × Reader

abbrev pub advance : ℕ → Reader → Reader
advance n r = record r { pos = r.pos + n }

abbrev pub continue {ℓ κ} : {A : Type ℓ} {B : Type κ} → Option A → (A → Read B) → Read B
continue none f r = (none, r)
continue (some a) f r = f a r

-- The `?` of a block.
infixl 5 ◌>>=◌
abbrev pub ◌>>=◌ {ℓ κ} : {A : Type ℓ} {B : Type κ} → Read A → (A → Read B) → Read B
◌>>=◌ m f r = continue (m r).0 f (m r).1

abbrev pub pure {ℓ} : {A : Type ℓ} → A → Read A
pure a r = (some a, r)

-- An optional value that reads nothing.
abbrev pub lift {ℓ} : {A : Type ℓ} → Option A → Read A
lift o r = (o, r)

abbrev pub fail {ℓ} : {A : Type ℓ} → Read A
fail r = (none, r)

-- `self.buf.get(self.pos)`, then `self.pos += 1`
unfoldable pub byte_at : Option ℕ → Read ℕ
byte_at none r = (none, r)
byte_at (some b) r = (some b, advance 1 r)

unfoldable pub u8 : Read ℕ
unfolding byte_at
u8 r = byte_at (get_elem? r.buf r.pos) r

unfoldable pub u16 : Read ℕ
u16 = do hi ← u8; lo ← u8; pure (hi * 256 + lo)

-- `for byte in &mut bytes { *byte = self.u8()?; }`
unfoldable pub bytes : ℕ → Read (List ℕ)
bytes zero = pure []
bytes (suc n) = do b ← u8; bs ← bytes n; pure (b ∷ bs)

unfoldable pub i32 : Read ℤ
i32 = do bs ← bytes 4; pure (of_word (2 ^ 31) (of_be bs))

unfoldable pub i64 : Read ℤ
i64 = do bs ← bytes 8; pure (of_word (2 ^ 63) (of_be bs))

-- An `f64` is its bit pattern.
unfoldable pub f64 : Read ℕ
f64 = do bs ← bytes 8; pure (of_be bs)

-- Any encoding of a boolean but 0 and 1 is refused.
unfoldable pub bool_of : ℕ → Option Bool
bool_of b = if b == 0 then some false else if b == 1 then some true else none

unfoldable pub bool : Read Bool
unfolding bool_of
bool = do b ← u8; lift (bool_of b)

-- `self.buf.get(self.pos..self.pos + len)?`, then `self.pos += len`
unfoldable pub slice : ℕ → Read (List ℕ)
slice len r =
    if leb (r.pos + len) (length r.buf)
    then (some (take len (drop r.pos r.buf)), advance len r)
    else (none, r)

unfoldable pub utf : ℕ → Read (List ℕ)
utf max_bytes = do
  len ← u16
  if ltb max_bytes len then fail else do bs ← slice len; lift (from_utf8 bs)

unfoldable pub uuid : Read Uid
uuid = do
  high ← i64
  low ← i64
  pure (record { high = to_word (2 ^ 64) high; low = to_word (2 ^ 64) low })

-- `usize` subtraction: `pos` never passes the end of `buf` (Reader/Bounds).
unfoldable pub remaining : Reader → ℕ
remaining r = length r.buf - r.pos

-- `if r.remaining() != 0 { return None; }`, and the value.
unfoldable pub at_end {ℓ} : {A : Type ℓ} → A → Read A
at_end a r = if remaining r == 0 then (some a, r) else (none, r)
