-- ===== src/Protocol.antt =====
-- protocol.rs: the hello of the map channel with the capability offer inside it, and the frames that
-- the server answers with.

pub mod Growth
pub mod Clamp
pub mod Layout
mod Tests
use confluxmap_pumpkin.Base.{
  ℕ, zero, suc, ◌+◌, ◌-◌, ◌*◌, ◌/◌, ◌%◌, ◌^◌, Bool, true, false, not, ◌&&◌, ◌||◌, Option, none,
  some, List, [], ◌∷◌, ◌++◌, ltb, leb, ◌==◌, if◌then◌else◌, length, take, drop, min,
}
use confluxmap_pumpkin.Base.Int.{ℤ, pos, to_word}
use confluxmap_pumpkin.Text.{ascii, within, is_char_boundary, strip_prefix, push_front}
use confluxmap_pumpkin.Wire.Bytes.{to_be}
use confluxmap_pumpkin.Wire.Reader
use confluxmap_pumpkin.Wire.Reader.{Reader, Read, ◌>>=◌, pure, fail, new}
use confluxmap_pumpkin.Wire.Writer

abbrev pub Str : Type 0
Str = List ℕ

abbrev pub msg_hello : ℕ
msg_hello = 0x01

abbrev pub msg_hello_policy : ℕ
msg_hello_policy = 0x02

abbrev pub msg_error : ℕ
msg_error = 0x06

abbrev pub msg_server_view_distance : ℕ
msg_server_view_distance = 0x11

abbrev pub msg_map_capabilities : ℕ
msg_map_capabilities = 0x12

abbrev pub msg_server_instance : ℕ
msg_server_instance = 0x13

abbrev pub msg_player_positions : ℕ
msg_player_positions = 0x14

abbrev pub max_utf8_bytes : ℕ
max_utf8_bytes = 256

abbrev pub max_dim_entries : ℕ
max_dim_entries = 8

abbrev pub max_player_position_entries : ℕ
max_player_position_entries = 512

abbrev pub negotiation_version : ℕ
negotiation_version = 2

abbrev pub caps_marker : Str
caps_marker = ascii "|caps2:"

abbrev pub max_capabilities : ℕ
max_capabilities = 32

abbrev pub max_correction_profiles : ℕ
max_correction_profiles = 8

abbrev pub cap_server_view_distance : ℕ
cap_server_view_distance = 6

abbrev pub cap_server_view_distance_version : ℕ
cap_server_view_distance_version = 1

abbrev pub cap_server_instance : ℕ
cap_server_instance = 7

abbrev pub cap_server_instance_version : ℕ
cap_server_instance_version = 1

abbrev pub cap_player_positions : ℕ
cap_player_positions = 8

abbrev pub cap_player_positions_version : ℕ
cap_player_positions_version = 1

abbrev pub correction_mode_disabled : ℕ
correction_mode_disabled = 2

abbrev pub reason_no_common_wire : ℕ
reason_no_common_wire = 2

abbrev pub correction_profile_source_light_v2 : ℕ
correction_profile_source_light_v2 = 2

-- `flags::SEED_GRANTED`
abbrev pub seed_granted : ℕ
seed_granted = 1

pub record Budgets : Type 0 where
  pub max_bytes_per_sec : ℤ
  pub max_tiles_per_req : ℕ
  pub min_req_interval_ms : ℕ
  pub max_patch_lod : ℕ

-- `Budgets::default`
abbrev pub default_budgets : Budgets
default_budgets = record {
  max_bytes_per_sec = pos 262144;
  max_tiles_per_req = 8;
  min_req_interval_ms = 100;
  max_patch_lod = 4;
}

pub record Dim : Type 0 where
  pub id : Str
  pub kind : Str
  pub predictable : Bool
  pub has_seed : Bool
  pub seed : ℤ
  pub preset : ℕ

-- The bits do not overlap: `|=` adds them.
unfoldable pub bits : Dim → ℕ
bits d = (if d.predictable then 1 else 0) + (if d.has_seed then 2 else 0) + d.preset % 8 * 4

pub record Hello : Type 0 where
  pub mod_version : Str
  pub predictor_version : Str

unfoldable pub read_hello : Read Hello
unfolding Reader.at_end
read_hello = do
  type_id ← Reader.u8
  if not (type_id == msg_hello) then fail else do
    mod_version ← Reader.utf max_utf8_bytes
    predictor_version ← Reader.utf max_utf8_bytes
    Reader.at_end (record { mod_version = mod_version; predictor_version = predictor_version })

abbrev pub result {ℓ} : {A : Type ℓ} → Option A × Reader → Option A
result (o, r) = o

unfoldable pub parse_hello_c2s : List ℕ → Option Hello
unfolding read_hello
parse_hello_c2s payload = result (read_hello (new payload))

-- What one byte of base64url says.
pub data Symbol : Type 0 where
  sextet : ℕ → Symbol
  padding : Symbol
  foreign : Symbol

unfoldable pub symbol_of : ℕ → Symbol
symbol_of b =
    if within b'A' b'Z' b
    then sextet (b - b'A')
    else if within b'a' b'z' b
    then sextet (b - b'a' + 26)
    else if within b'0' b'9' b
    then sextet (b - b'0' + 52)
    else if b == b'-'
    then sextet 62
    else if b == b'_'
    then sextet 63
    else if b == b'='
    then padding
    else foreign

-- The loop of `base64_url_decode`, with `accumulator` (of 32 bits), `bits` and `out`.
unfoldable pub sextets : ℕ → ℕ → List ℕ → Str → Option (List ℕ)
unfolding symbol_of
sextets accumulator bits out [] = some out
sextets accumulator bits out (b ∷ text) = elim (symbol_of b) [
  | foreign ↦ none
  | padding ↦ sextets accumulator bits out text
  | sextet v ↦
      let accumulator' = accumulator * 64 % 2 ^ 32 + v in
      elim (leb 8 (bits + 6)) [
        | true ↦
            sextets accumulator' (bits + 6 - 8)
              (out ++ accumulator' / 2 ^ (bits + 6 - 8) % 256 ∷ []) text
        | false ↦ sextets accumulator' (bits + 6) out text
      ]
]

unfoldable pub base64_url_decode : Str → Option (List ℕ)
unfolding sextets
base64_url_decode text = sextets 0 0 [] text

-- `for _ in 0..profile_count`: the count of the profiles that are skipped.
unfoldable pub skip_profiles : ℕ → Read ℕ
skip_profiles zero = pure 0
skip_profiles (suc n) = do profile ← Reader.u8; count ← skip_profiles n; pure (suc count)

-- An id that was seen keeps the larger version.
unfoldable pub offered_with : List (ℕ × ℕ) → ℕ → ℕ → List (ℕ × ℕ)
offered_with [] id version = (id, version) ∷ []
offered_with ((seen, known) ∷ offered) id version =
    let rest = offered_with offered id version in
    if seen == id
    then (seen, if ltb known version then version else known) ∷ offered
    else (seen, known) ∷ rest

-- `for _ in 0..capability_count`
unfoldable pub read_offered : ℕ → List (ℕ × ℕ) → Read (List (ℕ × ℕ))
unfolding offered_with
read_offered zero offered = pure offered
read_offered (suc n) offered = do
  id ← Reader.u8
  version ← Reader.u8
  read_offered n (if version == 0 then offered else offered_with offered id version)

unfoldable pub read_offer : Read (List (ℕ × ℕ))
unfolding skip_profiles read_offered
read_offer = do
  version ← Reader.u8
  if not (version == negotiation_version) then fail else do
    profile_count ← Reader.u8
    if ltb profile_count 1 || ltb max_correction_profiles profile_count then fail else do
      profiles ← skip_profiles profile_count
      capability_count ← Reader.u8
      if ltb max_capabilities capability_count then fail else do
        offered ← read_offered capability_count []
        λ r. if not (Reader.remaining r == 0) || profiles == 0 then (none, r) else (some offered, r)

abbrev or_nothing : Option (List (ℕ × ℕ)) → List (ℕ × ℕ)
or_nothing none = []
or_nothing (some offered) = offered

abbrev offer_in : Option (List ℕ) → List (ℕ × ℕ)
offer_in none = []
offer_in (some bytes) = or_nothing (result (read_offer (new bytes)))

unfoldable pub decode_offer : Str → List (ℕ × ℕ)
unfolding base64_url_decode read_offer
decode_offer encoded = offer_in (base64_url_decode encoded)

pub record Offer : Type 0 where
  pub predictor : Str
  pub caps2 : Bool
  pub server_instance : Bool
  pub server_view_distance : Bool
  pub player_positions : Bool

-- `s.find(pattern)`: what stands before the first place of the pattern, and behind it.
unfoldable pub find_text : Str → Str → Option (Str × Str)
unfolding strip_prefix
find_text pattern [] = none
find_text pattern (b ∷ s) = elim (strip_prefix pattern (b ∷ s)) [
  | some behind ↦ some ([], behind)
  | none ↦ push_front b (find_text pattern s)
]

abbrev before {ℓ} : {A : Type ℓ} → A → Option (A × A) → A
before whole none = whole
before whole (some (a, b)) = a

-- `capabilities.iter().any(|(id, version)| *id == capability && *version > 0)`
unfoldable pub has_capability : ℕ → List (ℕ × ℕ) → Bool
has_capability capability [] = false
has_capability capability ((id, version) ∷ offered) =
    id == capability && ltb 0 version || has_capability capability offered

abbrev offer_of : Str → List (ℕ × ℕ) → Offer
offer_of predictor capabilities = record {
  predictor = predictor;
  caps2 = true;
  server_instance = has_capability cap_server_instance capabilities;
  server_view_distance = has_capability cap_server_view_distance capabilities;
  player_positions = has_capability cap_player_positions capabilities;
}

-- From the place of the marker.
abbrev marked_offer : Str → Option (Str × Str) → Offer
marked_offer predictor none = record {
  predictor = predictor;
  caps2 = false;
  server_instance = false;
  server_view_distance = false;
  player_positions = false;
}
marked_offer predictor (some (ahead, rest)) =
    offer_of predictor (decode_offer (before rest (find_text (b'|' ∷ []) rest)))

unfoldable pub parse_offer : Str → Offer
unfolding find_text decode_offer has_capability
parse_offer field =
    marked_offer (before field (find_text (ascii "|sync:") field)) (find_text caps_marker field)

-- `while end > 0 && !s.is_char_boundary(end) { end -= 1; }`
unfoldable pub char_end : ℕ → Str → ℕ
unfolding is_char_boundary
char_end zero s = 0
char_end (suc n) s = let lower = char_end n s in if is_char_boundary (suc n) s then suc n else lower

-- The text that `write_utf` keeps.
unfoldable pub clamped : Str → Str
unfolding char_end
clamped s = take (char_end (min (length s) max_utf8_bytes) s) s

unfoldable pub write_utf : List ℕ → Str → List ℕ
unfolding clamped
write_utf out s = let bytes = clamped s in Writer.u16 out (length bytes) ++ bytes

unfoldable pub put_capabilities : List ℕ → List (ℕ × ℕ) → List ℕ
put_capabilities out [] = out
put_capabilities out ((id, version) ∷ capabilities) =
    put_capabilities (Writer.u8 (Writer.u8 out id) version) capabilities

unfoldable pub build_map_capabilities : Str → List (ℕ × ℕ) → List ℕ
unfolding write_utf put_capabilities
build_map_capabilities server_mod_version all_capabilities =
    let out = Writer.u8 (msg_map_capabilities ∷ []) negotiation_version in
    let out = write_utf out server_mod_version in
    let out = write_utf out [] in
    let out = Writer.u8 out correction_mode_disabled in
    let out = Writer.u8 out reason_no_common_wire in
    let out = Writer.u8 out correction_profile_source_light_v2 in
    let capabilities = take (min (length all_capabilities) max_capabilities) all_capabilities in
    put_capabilities (Writer.u8 out (length capabilities)) capabilities

unfoldable pub build_server_instance : Str → List ℕ
unfolding write_utf
build_server_instance instance_id = write_utf (msg_server_instance ∷ []) instance_id

unfoldable pub put_dims : List ℕ → List Dim → List ℕ
unfolding write_utf bits
put_dims out [] = out
put_dims out (d ∷ dims) =
    let out = write_utf out d.id in
    let out = write_utf out d.kind in put_dims (Writer.i64 (Writer.u8 out (bits d)) d.seed) dims

unfoldable pub build_hello_policy : ℕ → Str → Str → Budgets → List Dim → List ℕ
unfolding write_utf put_dims
build_hello_policy flags world_id worldgen_version budgets all_dims =
    let out = msg_hello_policy ∷ flags ∷ [] in
    let out = write_utf out world_id in
    let out = write_utf out worldgen_version in
    let out = Writer.i32 out budgets.max_bytes_per_sec in
    let out = Writer.u16 out budgets.max_tiles_per_req in
    let out = Writer.u16 out budgets.min_req_interval_ms in
    let out = Writer.u8 out budgets.max_patch_lod in
    let dims = take (min (length all_dims) max_dim_entries) all_dims in
    put_dims (Writer.u8 out (length dims)) dims

unfoldable pub build_server_view_distance : ℕ → List ℕ
build_server_view_distance chunks = Writer.u16 (msg_server_view_distance ∷ []) chunks

unfoldable pub build_error : ℕ → Str → List ℕ
unfolding write_utf
build_error code detail = write_utf (msg_error ∷ code ∷ []) detail

pub record PlayerPositionEntry : Type 0 where
  pub id_high : ℕ
  pub id_low : ℕ
  pub name : Str
  pub dimension_id : Str
  pub x : ℕ
  pub y : ℕ
  pub z : ℕ
  pub spectator : Bool

unfoldable pub put_positions : List ℕ → List PlayerPositionEntry → List ℕ
unfolding write_utf
put_positions out [] = out
put_positions out (e ∷ entries) =
    let out = out ++ to_be 8 e.id_high in
    let out = out ++ to_be 8 e.id_low in
    let out = write_utf out e.name in
    let out = write_utf out e.dimension_id in
    let out = Writer.f64 (Writer.f64 (Writer.f64 out e.x) e.y) e.z in
    put_positions (out ++ (if e.spectator then 1 else 0) ∷ []) entries

unfoldable pub build_player_positions : List PlayerPositionEntry → List ℕ
unfolding put_positions
build_player_positions all_entries =
    let entries = take (min (length all_entries) max_player_position_entries) all_entries in
    put_positions (Writer.u16 (msg_player_positions ∷ []) (length entries)) entries
