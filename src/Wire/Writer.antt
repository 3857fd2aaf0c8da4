-- ===== src/Wire/Writer.antt =====
-- The writers of wire.rs: each appends to the buffer that it is given.
use confluxmap_pumpkin.Base.{ℕ, ◌^◌, Bool, List, [], ◌∷◌, ◌++◌, ltb, if◌then◌else◌, length}
use confluxmap_pumpkin.Base.Int.{ℤ, to_word, of_word}
use confluxmap_pumpkin.Identity.{Uid}
use confluxmap_pumpkin.Wire.Bytes.{to_be}

-- `UtfTooLong`
pub record UtfTooLong : Type 0 where
  pub len : ℕ
  pub max : ℕ

-- `Result<(), UtfTooLong>` beside the buffer.
pub data Utf : Type 0 where
  ok : List ℕ → Utf
  err : UtfTooLong → Utf

unfoldable pub u8 : List ℕ → ℕ → List ℕ
u8 out value = out ++ value ∷ []

unfoldable pub bool : List ℕ → Bool → List ℕ
bool out value = out ++ (if value then 1 else 0) ∷ []

-- `out.extend_from_slice(&value.to_be_bytes())` of a `u16`
unfoldable pub u16 : List ℕ → ℕ → List ℕ
u16 out value = out ++ to_be 2 value

unfoldable pub i32 : List ℕ → ℤ → List ℕ
i32 out value = out ++ to_be 4 (to_word (2 ^ 32) value)

unfoldable pub i64 : List ℕ → ℤ → List ℕ
i64 out value = out ++ to_be 8 (to_word (2 ^ 64) value)

unfoldable pub f64 : List ℕ → ℕ → List ℕ
f64 out value = out ++ to_be 8 value

unfoldable pub uuid : List ℕ → Uid → List ℕ
uuid out value = i64 (i64 out (of_word (2 ^ 63) value.high)) (of_word (2 ^ 63) value.low)

unfoldable pub utf : List ℕ → List ℕ → ℕ → Utf
utf out value max =
    if ltb max (length value)
    then err (record { len = length value; max = max })
    else ok (u16 out (length value) ++ value)
