-- ===== src/Protocol/Tests.antt =====
-- Frames of the map channel on concrete data.
use confluxmap_pumpkin.Base.{ℕ, ◌<◌, ◌≡◌, ◌⊎◌, refl, none, some, List, [], ◌∷◌, ◌++◌, length}
use confluxmap_pumpkin.Text.{ascii}
use confluxmap_pumpkin.Wire.Utf8
use confluxmap_pumpkin.Wire.Utf8.{IsUtf8}
use confluxmap_pumpkin.Wire.Fields.{behind}
use confluxmap_pumpkin.Wire.Reader
use confluxmap_pumpkin.Protocol.{Str, write_utf, parse_hello_c2s}
use confluxmap_pumpkin.Protocol.Clamp.{write_utf-utf}

-- "é!"
abbrev accented : Str
accented = 0xc3 ∷ 0xa9 ∷ b'!' ∷ []

accented-IsUtf8 : IsUtf8 accented
unfolding Utf8.is_utf8
accented-IsUtf8 = refl

write_utf-utf_example :
    (kept : List ℕ) × (dropped : List ℕ) × (accented ≡ kept ++ dropped)
    × ((kept ≡ accented) ⊎ (256 < length accented))
    × IsUtf8 kept
    × (Reader.utf 256 (behind (0x13 ∷ []) (write_utf (0x13 ∷ []) accented ++ 7 ∷ [])) ≡ (
      some kept,
      behind (write_utf (0x13 ∷ []) accented) (write_utf (0x13 ∷ []) accented ++ 7 ∷ []),
    ))
write_utf-utf_example = write_utf-utf (0x13 ∷ []) accented (7 ∷ []) accented-IsUtf8

reads_hello :
    parse_hello_c2s (0x01 ∷ 0 ∷ 1 ∷ b'2' ∷ 0 ∷ 2 ∷ b'v' ∷ b'0' ∷ [])
    ≡ some (record { mod_version = ascii "2"; predictor_version = ascii "v0" })
unfolding parse_hello_c2s Reader.u8 Reader.utf Reader.u16 Reader.slice Utf8.from_utf8 Utf8.is_utf8
    Reader.remaining
reads_hello = refl

refuses_trailing : parse_hello_c2s (0x01 ∷ 0 ∷ 0 ∷ 0 ∷ 0 ∷ 9 ∷ []) ≡ none
unfolding parse_hello_c2s Reader.u8 Reader.utf Reader.u16 Reader.slice Utf8.from_utf8 Utf8.is_utf8
    Reader.remaining
refuses_trailing = refl
