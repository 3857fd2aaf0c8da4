-- ===== src/Wire/Tests.antt =====
-- Runs of the primitives on concrete data.
use confluxmap_pumpkin.Base.{◌≡◌, refl, none, some, [], ◌∷◌}
use confluxmap_pumpkin.Text.{ascii}
use confluxmap_pumpkin.Wire.Reader
use confluxmap_pumpkin.Wire.Reader.{new}
use confluxmap_pumpkin.Wire.Writer
use confluxmap_pumpkin.Wire.Utf8

refuses_other_bools : (Reader.bool (new (2 ∷ []))).0 ≡ none
unfolding Reader.bool Reader.bool_of Reader.u8 Reader.byte_at
refuses_other_bools = refl

reads_text : (Reader.utf 4 (new (0 ∷ 2 ∷ b'H' ∷ b'i' ∷ 9 ∷ []))).0 ≡ some (ascii "Hi")
unfolding Reader.utf Reader.u16 Reader.u8 Reader.byte_at Reader.slice Utf8.from_utf8 Utf8.is_utf8
reads_text = refl

refuses_long_text : Writer.utf (9 ∷ []) (ascii "Home") 3 ≡ Writer.err (record { len = 4; max = 3 })
unfolding Writer.utf
refuses_long_text = refl
