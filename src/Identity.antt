-- ===== src/Identity.antt =====
-- identity.rs: `Uid` is the `Id` of players and waypoints, 128 bits in two words; `parse_uuid` reads
-- its text form.
pub mod Hex
pub mod Halves
pub mod Canonical
pub mod Strict
mod Tests
use confluxmap_pumpkin.Base.{
  ℕ, suc, ◌+◌, ◌-◌, ◌*◌, ◌/◌, ◌%◌, ◌^◌, ◌<◌, ◌≡◌, ◌↔◌, Bool, true, ◌&&◌, ◌||◌, not, Option, none,
  some, List, [], ◌∷◌, ◌++◌, arith, ◌==◌, length, if◌then◌else◌,
}
use confluxmap_pumpkin.Text.{within}
use confluxmap_pumpkin.Base.Maps.{Eq}

pub record Uid : Type 0 where
  pub high : ℕ
  pub low : ℕ

-- The derived equality.
abbrev pub id_beq : Uid → Uid → Bool
id_beq a b = a.high == b.high && a.low == b.low

pub id_beq_iff : (a b : Uid) → (id_beq a b ≡ true) ↔ (a ≡ b)
id_beq_iff a b = ground arith

instance abbrev pub id_eq : Eq Uid
id_eq = record { beq = id_beq; beq_iff = id_beq_iff }

-- Both halves are `u64`s.
abbrev pub IsId : Uid → Type 0
IsId a = (a.high < 2 ^ 64) × (a.low < 2 ^ 64)

infixl 5 ◌>>=◌
abbrev ◌>>=◌ {ℓ κ} : {A : Type ℓ} {B : Type κ} → Option A → (A → Option B) → Option B
none >>= f = none
some a >>= f = f a

-- The value of a hexadecimal digit.
unfoldable pub digit_of : ℕ → Option ℕ
digit_of b =
    if within b'0' b'9' b
    then some (b - b'0')
    else if within b'a' b'f' b
    then some (b - b'a' + 10)
    else if within b'A' b'F' b
    then some (b - b'A' + 10)
    else none

-- The body of the loop over the bytes: `digits[count] = ...; count += 1`.
unfoldable pub push_digit : ℕ → List ℕ → ℕ → Option (List ℕ)
unfolding digit_of
push_digit index digits byte =
    if byte == b'-'
    then if index == 8 || index == 13 || index == 18 || index == 23 then some digits else none
    else if length digits == 32
    then none
    else do digit ← digit_of byte; some (digits ++ digit ∷ [])

-- The loop over the bytes; the digits seen so far are `digits[..count]`.
unfoldable pub read_digits : ℕ → List ℕ → List ℕ → Option (List ℕ)
unfolding push_digit
read_digits index digits [] = some digits
read_digits index digits (byte ∷ bytes) = do
  more ← push_digit index digits byte
  read_digits (suc index) more bytes

-- `(half << 4) | nibble`, on a `u64`.
unfoldable pub shift_in : ℕ → ℕ → ℕ
shift_in half nibble = half * 16 % 2 ^ 64 + nibble

-- The loop over the nibbles: `halves[index / 16]` takes each.
unfoldable pub fill : ℕ → Uid → List ℕ → Uid
unfolding shift_in
fill index halves [] = halves
fill index halves (nibble ∷ nibbles) =
    fill (suc index)
      (if index / 16 == 0
        then record halves { high = shift_in halves.high nibble }
        else record halves { low = shift_in halves.low nibble })
      nibbles

unfoldable pub parse_uuid : List ℕ → Option Uid
unfolding read_digits fill
parse_uuid bytes = if not (length bytes == 36) then none else do
  digits ← read_digits 0 [] bytes
  if not (length digits == 32) then none else some (fill 0 (record { high = 0; low = 0 }) digits)
