-- ===== src/Wire/Encoding.antt =====
-- The bytes of each kind of field, as plain lists, and the writers in their terms.
use confluxmap_pumpkin.Base.{
  ℕ, ◌^◌, ◌≤◌, ◌≡◌, Bool, List, [], ◌∷◌, ◌++◌, append_assoc, length, if◌then◌else◌, arith,
}
use confluxmap_pumpkin.Base.Int.{ℤ, to_word, to_word-of_word}
use confluxmap_pumpkin.Identity.{Uid, IsId}
use confluxmap_pumpkin.Wire.Bytes.{to_be}
use confluxmap_pumpkin.Wire.Writer

abbrev pub i32_bytes : ℤ → List ℕ
i32_bytes v = to_be 4 (to_word (2 ^ 32) v)

abbrev pub i64_bytes : ℤ → List ℕ
i64_bytes v = to_be 8 (to_word (2 ^ 64) v)

abbrev pub bool_bytes : Bool → List ℕ
bool_bytes v = (if v then 1 else 0) ∷ []

abbrev pub id_bytes : Uid → List ℕ
id_bytes a = to_be 8 a.high ++ to_be 8 a.low

abbrev pub utf_bytes : List ℕ → List ℕ
utf_bytes s = to_be 2 (length s) ++ s

module _ (out : List ℕ) where
  pub uuid_appends : (a : Uid) → IsId a → Writer.uuid out a ≡ out ++ id_bytes a
  unfolding Writer.uuid Writer.i64
  uuid_appends a h = rw (to_word-of_word a.high h.0, to_word-of_word a.low h.1, append_assoc)

  pub utf_appends :
      (s : List ℕ) (max : ℕ)
      → length s ≤ max
      → Writer.utf out s max ≡ Writer.ok (out ++ utf_bytes s)
  unfolding Writer.utf Writer.u16
  utf_appends s max h = ground (arith, append_assoc out (to_be 2 (length s)) s)
