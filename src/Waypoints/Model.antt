-- ===== src/Waypoints/Model.antt =====
-- waypoints/model.rs: the block that a point occupies, and the rules for an untrusted body.
pub mod Valid
pub mod Again
mod Tests
use confluxmap_pumpkin.Base.{
  ℕ, ◌-◌, ◌/◌, ◌^◌, ◌≡◌, ◌↔◌, Bool, true, false, not, ◌&&◌, ◌||◌, Option, none, some, List, [], ◌∷◌,
  ltb, ◌==◌, if◌then◌else◌, length, all, arith,
}
use confluxmap_pumpkin.Base.Int.{ℤ, pos, negsuc, ltb_ℤ, ◌==ℤ◌, ==ℤ_iff, to_word}
use confluxmap_pumpkin.Base.Maps.{Eq}
use confluxmap_pumpkin.Float
use confluxmap_pumpkin.Text.{
  ascii, within, chars, scalar, is_control, trim, is_empty, strip_prefix, split_once,
  is_ascii_lowercase, is_ascii_digit,
}
use confluxmap_pumpkin.Waypoints.Proto.Messages.{Str, WaypointKind, Waypoint}

abbrev pub max_name_code_points : ℕ
max_name_code_points = 64

abbrev pub max_publisher_name_code_points : ℕ
max_publisher_name_code_points = 64

abbrev pub max_label_code_points : ℕ
max_label_code_points = 3

-- The patterns of 29_999_984.0 and 30_000_000.0.
abbrev pub max_horizontal_coordinate : ℕ
max_horizontal_coordinate = 0x417c_9c37_0000_0000

abbrev pub max_absolute_coordinate : ℕ
max_absolute_coordinate = 0x417c_9c38_0000_0000

pub record LocationKey : Type 0 where
  pub dimension_id : Str
  pub block_x : ℤ
  pub block_y : ℤ
  pub block_z : ℤ

-- `i64::MIN as f64` and `i64::MAX as f64` are -2^63 and 2^63; `as i64` saturates.
unfoldable pub floor_to_i64 : ℕ → Option ℤ
floor_to_i64 value =
    if not (Float.is_finite value)
    then none
    else if ltb_ℤ (Float.floor value) (negsuc (2 ^ 63 - 1))
        || ltb_ℤ (pos (2 ^ 63)) (Float.floor value)
    then none
    else some (if Float.floor value ==ℤ pos (2 ^ 63) then pos (2 ^ 63 - 1) else Float.floor value)

infixl 5 ◌>>=◌
abbrev pub ◌>>=◌ {ℓ κ} : {A : Type ℓ} {B : Type κ} → Option A → (A → Option B) → Option B
none >>= f = none
some a >>= f = f a

-- `LocationKey::of`
unfoldable pub location_of : Str → ℕ → ℕ → ℕ → Option LocationKey
location_of dimension_id x y z = do
  block_x ← floor_to_i64 x
  block_y ← floor_to_i64 y
  block_z ← floor_to_i64 z
  some (record {
    dimension_id = dimension_id;
    block_x = block_x;
    block_y = block_y;
    block_z = block_z;
  })

abbrev or_origin : Str → Option LocationKey → LocationKey
or_origin d none = record { dimension_id = d; block_x = pos 0; block_y = pos 0; block_z = pos 0 }
or_origin d (some l) = l

-- `LocationKey::from`
unfoldable pub location_from : Waypoint → LocationKey
location_from w = or_origin w.dimension_id (location_of w.dimension_id w.x w.y w.z)

abbrev pub str_beq : Str → Str → Bool
str_beq [] [] = true
str_beq [] (b ∷ t) = false
str_beq (a ∷ s) [] = false
str_beq (a ∷ s) (b ∷ t) = a == b && str_beq s t

pub str_beq_iff : (s t : Str) → (str_beq s t ≡ true) ↔ (s ≡ t)
str_beq_iff [] [] = ground arith
str_beq_iff [] (b ∷ t) = ground arith
str_beq_iff (a ∷ s) [] = ground arith
str_beq_iff (a ∷ s) (b ∷ t) = ground (arith, str_beq_iff s t)

instance abbrev pub str_eq : Eq Str
str_eq = record { beq = str_beq; beq_iff = str_beq_iff }

-- The derived equality.
abbrev pub location_beq : LocationKey → LocationKey → Bool
location_beq a b =
    str_beq a.dimension_id b.dimension_id
    && a.block_x ==ℤ b.block_x
    && a.block_y ==ℤ b.block_y
    && a.block_z ==ℤ b.block_z

pub location_beq_iff : (a b : LocationKey) → (location_beq a b ≡ true) ↔ (a ≡ b)
location_beq_iff a b = ground (
  arith,
  str_beq_iff a.dimension_id b.dimension_id,
  ==ℤ_iff a.block_x b.block_x,
  ==ℤ_iff a.block_y b.block_y,
  ==ℤ_iff a.block_z b.block_z,
)

instance abbrev pub location_eq : Eq LocationKey
location_eq = record { beq = location_beq; beq_iff = location_beq_iff }

pub record Draft : Type 0 where
  pub name : Str
  pub dimension_id : Str
  pub x : ℕ
  pub y : ℕ
  pub z : ℕ
  pub color : ℤ
  pub kind : WaypointKind
  pub icon_item_id : Str
  pub marker_label : Str

-- `Validated` has the fields of `Draft`.
pub record Validated : Type 0 where
  pub name : Str
  pub dimension_id : Str
  pub x : ℕ
  pub y : ℕ
  pub z : ℕ
  pub color : ℤ
  pub kind : WaypointKind
  pub icon_item_id : Str
  pub marker_label : Str

unfoldable pub is_format_char : ℕ → Bool
is_format_char c =
    c == 0x00ad
    || within 0x0600 0x0605 c
    || c == 0x061c
    || c == 0x06dd
    || c == 0x070f
    || within 0x0890 0x0891 c
    || c == 0x08e2
    || c == 0x180e
    || within 0x200b 0x200f c
    || within 0x202a 0x202e c
    || within 0x2060 0x2064 c
    || within 0x2066 0x206f c
    || c == 0xfeff
    || within 0xfff9 0xfffb c
    || c == 0x110bd
    || c == 0x110cd
    || within 0x13430 0x1343f c
    || within 0x1bca0 0x1bca3 c
    || within 0x1d173 0x1d17a c
    || c == 0xe0001
    || within 0xe0020 0xe007f c

abbrev pub displayable : List ℕ → Bool
displayable ch = not (is_control (scalar ch) || scalar ch == 0xa7 || is_format_char (scalar ch))

unfoldable pub valid_display_text : Str → ℕ → Bool
unfolding is_control scalar is_format_char
valid_display_text value max_code_points =
    if is_empty (trim value) || ltb max_code_points (length (chars value))
    then false
    else all displayable (chars value)

unfoldable pub valid_publisher_name : Str → Bool
valid_publisher_name value = valid_display_text (trim value) max_publisher_name_code_points

unfoldable pub normalize_marker_label : Str → Option Str
normalize_marker_label value =
    if not (valid_display_text (trim value) max_label_code_points) && not (is_empty (trim value))
    then none
    else some (trim value)

abbrev icon_byte : ℕ → Bool
icon_byte b =
    is_ascii_lowercase b || is_ascii_digit b || b == b'/' || b == b'.' || b == b'_' || b == b'-'

abbrev pub vanilla_path : Str → Option (List ℕ) → Option Str
vanilla_path trimmed none = none
vanilla_path trimmed (some path) =
    if is_empty path || not (all icon_byte path) then none else some trimmed

unfoldable pub normalize_icon_item_id : Str → Option Str
normalize_icon_item_id value =
    if is_empty (trim value)
    then some []
    else vanilla_path (trim value) (strip_prefix (ascii "minecraft:") (trim value))

abbrev resource_byte : Bool → ℕ → Bool
resource_byte allow_slash b =
    is_ascii_lowercase b
    || is_ascii_digit b
    || b == b'_'
    || b == b'-'
    || b == b'.'
    || (allow_slash && b == b'/')

unfoldable pub valid_resource_part : Str → Bool → Bool
valid_resource_part value allow_slash =
    not (is_empty value) && all (resource_byte allow_slash) value

abbrev valid_parts : Str → Option (List ℕ × List ℕ) → Bool
valid_parts value none = valid_resource_part value true
valid_parts value (some (namespace, path)) =
    valid_resource_part namespace false && valid_resource_part path true

unfoldable pub valid_dimension_id : Str → Bool
valid_dimension_id value =
    if is_empty value || ltb 256 (length value)
    then false
    else valid_parts value (split_once b':' value)

-- The test of the loop over the three coordinates.
abbrev pub in_range : ℕ → Bool
in_range value = Float.is_finite value && not (Float.abs_gt value max_absolute_coordinate)

-- `(draft.color as u32 >> 24) != 0xff`
abbrev pub opaque : ℤ → Bool
opaque color = to_word (2 ^ 32) color / 2 ^ 24 == 0xff

unfoldable pub validate : Draft → Option Validated
validate draft =
    if not (valid_display_text (trim draft.name) max_name_code_points)
    then none
    else if not (valid_dimension_id (trim draft.dimension_id))
    then none
    else if not (in_range draft.x && in_range draft.y && in_range draft.z)
    then none
    else if Float.abs_gt draft.x max_horizontal_coordinate
        || Float.abs_gt draft.z max_horizontal_coordinate
    then none
    else if not (opaque draft.color)
    then none
    else do
      icon_item_id ← normalize_icon_item_id draft.icon_item_id
      marker_label ← normalize_marker_label draft.marker_label
      some (record {
        name = trim draft.name;
        dimension_id = trim draft.dimension_id;
        x = draft.x;
        y = draft.y;
        z = draft.z;
        color = draft.color;
        kind = draft.kind;
        icon_item_id = icon_item_id;
        marker_label = marker_label;
      })
