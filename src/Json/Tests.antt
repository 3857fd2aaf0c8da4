-- ===== src/Json/Tests.antt =====
-- Documents read on concrete data.
use confluxmap_pumpkin.Base.{◌≡◌, ◌≢◌, refl, arith, Bool, true, [], ◌∷◌, ◌++◌}
use confluxmap_pumpkin.Text
use confluxmap_pumpkin.Text.{ascii}
use confluxmap_pumpkin.Identity
use confluxmap_pumpkin.Wire.Utf8
use confluxmap_pumpkin.Json
use confluxmap_pumpkin.Json.{
  Value, ok, err, out_of_fuel, trailing_content, parse, not_a_number, lone_surrogate,
}
use confluxmap_pumpkin.Json.Documents
use confluxmap_pumpkin.Json.Documents.{
  Doc, Fits, doc_text, doc_value, last_member, member, last, more,
}
use confluxmap_pumpkin.Json.Ends.{parse-ne-out_of_fuel}
use confluxmap_pumpkin.Json.Layout.{parse-doc_text}

-- {"revision": 3, "waypoints": [1.5, "a\"b", true ] }
abbrev sample : Doc
sample = Doc.object (
    member [] (ascii "revision") [] (ascii " ") (Doc.numeral Bool.false (ascii "3") []) []
      (last_member (ascii " ") (ascii "waypoints") [] (ascii " ") (Doc.array points) (ascii " ")))
  where
    points : Documents.Elements
    points = more [] (Doc.numeral Bool.false (ascii "1") (ascii "5")) [] (
        more (ascii " ") (Doc.text (ascii "a\"b")) []
          (last (ascii " ") (Doc.boolean true) (ascii " ")))

sample_text :
    doc_text sample [] ≡ ascii "{\"revision\": 3, \"waypoints\": [1.5, \"a\\\"b\", true ] }"
unfolding doc_text Json.escape Json.escape_byte
sample_text = refl

sample-Fits : Fits 0 sample
unfolding Fits Json.is_space Text.is_ascii_digit Utf8.is_utf8 Utf8.utf8_from
sample-Fits = ground arith

parse-doc_text_example : parse (ascii " " ++ doc_text sample (ascii "\n")) ≡ ok (doc_value sample)
unfolding Json.is_space
parse-doc_text_example = parse-doc_text (ascii " ") (ascii "\n") sample refl refl sample-Fits

reads_emoji :
    parse (ascii "\"\\ud83d\\ude00\"") ≡ ok (Value.string (0xf0 ∷ 0x9f ∷ 0x98 ∷ 0x80 ∷ []))
unfolding parse Identity.digit_of
reads_emoji = refl

refuses_lone_surrogate : parse (ascii "\"\\ud83d!\"") ≡ err lone_surrogate
unfolding parse Identity.digit_of
refuses_lone_surrogate = refl

refuses_trailing : parse (ascii "null null") ≡ err trailing_content
unfolding parse Identity.digit_of Text.strip_prefix
refuses_trailing = refl

refuses_minus : parse (ascii "[1, -]") ≡ err not_a_number
unfolding parse Identity.digit_of Text.is_ascii_digit
refuses_minus = refl

parse-ne-out_of_fuel_example : parse (ascii "[1, {\"a\"") ≢ out_of_fuel
parse-ne-out_of_fuel_example = parse-ne-out_of_fuel (ascii "[1, {\"a\"")
