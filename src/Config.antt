-- ===== src/Config.antt =====
-- config.rs: the plugin's settings, read leniently from the lines of its file. A warning names its
-- line and key in place of its text.

pub mod Parse
pub mod Template
use confluxmap_pumpkin.Base.{
  ℕ, zero, suc, ◌+◌, ◌-◌, ◌*◌, ◌%◌, ◌^◌, ◌≤◌, Bool, true, false, not, ◌&&◌, ◌||◌, Option, none,
  some, List, [], ◌∷◌, ◌++◌, map, ltb, leb, ◌==◌, if◌then◌else◌, length, is_some, min,
}
use confluxmap_pumpkin.Base.Int.{ℤ, pos, negsuc, of_word, to_word}
use confluxmap_pumpkin.Text.{
  ascii, within, is_empty, trim, strip_prefix, split_once, is_ascii_digit,
}
use confluxmap_pumpkin.Identity.Hex.{hex}
use confluxmap_pumpkin.Waypoints.Proto.Messages.{Str}
use confluxmap_pumpkin.Waypoints.Model.{str_beq}
use confluxmap_pumpkin.Protocol.{Budgets, Dim, default_budgets}

pub record DimSpec : Type 0 where
  pub id : Str
  pub kind : Str
  pub predictable : Bool

pub record Config : Type 0 where
  pub seed : Option ℤ
  pub share_seed : Bool
  pub share_corrections : Bool
  pub worldgen_override : Option Str
  pub world_id_override : Option Str
  pub dims : List DimSpec
  pub budgets : Budgets
  pub share_waypoints : Bool
  pub allow_non_operator_waypoint_management : Bool
  pub max_waypoints_per_world : ℕ
  pub max_waypoints_per_player : ℕ
  pub waypoint_mutations_per_minute : ℕ
  pub allow_entity_radar : Bool
  pub view_distance_override : Option ℕ

abbrev pub fallback_mc_version : Str
fallback_mc_version = ascii "26.2"

-- The kind of a vanilla dimension.
unfoldable pub vanilla_kind : Str → Option Str
vanilla_kind id =
    if str_beq id (ascii "minecraft:overworld")
    then some (ascii "overworld")
    else if str_beq id (ascii "minecraft:the_nether")
    then some (ascii "the_nether")
    else if str_beq id (ascii "minecraft:the_end")
    then some (ascii "the_end")
    else none

-- `id.rsplit(':').next()`: what stands behind the last colon.
unfoldable pub behind_last : ℕ → Str → Str → Str
behind_last c piece [] = piece
behind_last c piece (b ∷ s) = behind_last c (if b == c then [] else piece ++ b ∷ []) s

abbrev known_spec : Str → Option Str → DimSpec
known_spec id (some kind) = record { id = id; kind = kind; predictable = true }
known_spec id none = record { id = id; kind = behind_last b':' [] id; predictable = false }

unfoldable pub spec_for : Str → DimSpec
unfolding vanilla_kind behind_last
spec_for id = known_spec id (vanilla_kind id)

unfoldable pub default_dims : List DimSpec
unfolding spec_for
default_dims = spec_for (ascii "minecraft:overworld") ∷ []

-- `Config::default`
unfoldable pub default_config : Config
unfolding default_dims
default_config = record {
  seed = none;
  share_seed = true;
  share_corrections = true;
  worldgen_override = none;
  world_id_override = none;
  dims = default_dims;
  budgets = default_budgets;
  share_waypoints = true;
  allow_non_operator_waypoint_management = true;
  max_waypoints_per_world = 512;
  max_waypoints_per_player = 64;
  waypoint_mutations_per_minute = 30;
  allow_entity_radar = true;
  view_distance_override = none;
}

unfoldable pub grants_seed : Config → Bool
grants_seed c = c.share_seed && is_some c.seed

abbrev pub unwrap_or {ℓ} : {A : Type ℓ} → A → Option A → A
unwrap_or a none = a
unwrap_or a (some b) = b

unfoldable pub advertised_seed : Config → ℤ
unfolding grants_seed
advertised_seed c = if grants_seed c then unwrap_or (pos 0) c.seed else pos 0

-- `{:012x}` of the low 48 bits.
unfoldable pub world_id_for : ℤ → Str
world_id_for seed = ascii "00000000-0000-0000-0000-" ++ hex 12 (to_word (2 ^ 64) seed % 2 ^ 48)

abbrev seeded_world_id : Option ℤ → Str
seeded_world_id (some seed) = world_id_for seed
seeded_world_id none = ascii "00000000-0000-0000-0000-000000000000"

unfoldable pub world_id : Config → Str
unfolding world_id_for
world_id c = unwrap_or (seeded_world_id c.seed) c.world_id_override

-- `split('-').next()`: what stands before the first of the byte.
unfoldable pub before_first : ℕ → Str → Str
before_first c [] = []
before_first c (b ∷ s) = let rest = before_first c s in if b == c then [] else b ∷ rest

abbrev non_empty_of : Str → Option Str
non_empty_of s = if is_empty s then none else some s

abbrev mc_behind_plus : Option (Str × Str) → Option Str
mc_behind_plus none = none
mc_behind_plus (some (before, after)) = non_empty_of (trim (before_first b'-' after))

unfoldable pub parse_mc_version : Str → Option Str
unfolding before_first split_once trim
parse_mc_version version = mc_behind_plus (split_once b'+' version)

abbrev derived_version : Option Str → Option Str
derived_version none = none
derived_version (some version) = parse_mc_version version

unfoldable pub resolve_worldgen : Config → Option Str → Str
unfolding parse_mc_version
resolve_worldgen c server_version =
    unwrap_or (unwrap_or fallback_mc_version (derived_version server_version)) c.worldgen_override

abbrev policy_dim : Bool → ℤ → DimSpec → Dim
policy_dim granted seed spec = record {
  id = spec.id;
  kind = spec.kind;
  predictable = spec.predictable;
  has_seed = granted;
  seed = if granted then seed else pos 0;
  preset = 0;
}

unfoldable pub dims_for_policy : Config → List Dim
unfolding grants_seed advertised_seed
dims_for_policy c = map (policy_dim (grants_seed c) (advertised_seed c)) c.dims

-- `clamp` of the standard library.
abbrev pub clamp : ℕ → ℕ → ℕ → ℕ
clamp low high n = if ltb n low then low else if ltb high n then high else n

unfoldable pub normalize : Config → Config
normalize c =
    let per_world = clamp 1 512 c.max_waypoints_per_world in
    record c {
      max_waypoints_per_world = per_world;
      max_waypoints_per_player = clamp 1 per_world c.max_waypoints_per_player;
      waypoint_mutations_per_minute = clamp 1 6000 c.waypoint_mutations_per_minute;
    }

abbrev is_quote : ℕ → Bool
is_quote b = b == b'"' || b == b'\''

-- The loop of `strip_comment`, with the quote that is open.
unfoldable pub strip_comment_from : Option ℕ → Str → Str
strip_comment_from quote [] = []
strip_comment_from (some q) (b ∷ s) = b ∷ strip_comment_from (if b == q then none else some q) s
strip_comment_from none (b ∷ s) =
    let rest = strip_comment_from (if is_quote b then some b else none) s in
    if b == b'#' then [] else b ∷ rest

unfoldable pub strip_comment : Str → Str
unfolding strip_comment_from
strip_comment line = strip_comment_from none line

abbrev pub prepend : ℕ → Option Str → Option Str
prepend b none = none
prepend b (some s) = some (b ∷ s)

-- `s.strip_suffix(c)`
unfoldable pub strip_suffix : ℕ → Str → Option Str
strip_suffix c [] = none
strip_suffix c (b ∷ []) = if b == c then some [] else none
strip_suffix c (b ∷ d ∷ s) = prepend b (strip_suffix c (d ∷ s))

-- One layer of matching quotes.
unfoldable pub unquote : Str → Str
unfolding strip_suffix
unquote [] = []
unquote (b ∷ s) = if is_quote b then unwrap_or (b ∷ s) (strip_suffix b s) else b ∷ s

-- `s.split(c)`, with the piece that is being read.
unfoldable pub split_from : ℕ → Str → Str → List Str
split_from c piece [] = piece ∷ []
split_from c piece (b ∷ s) = elim (b == c) [
  | true ↦ piece ∷ split_from c [] s
  | false ↦ split_from c (piece ++ b ∷ []) s
]

abbrev pub keep_non_empty : List Str → List Str
keep_non_empty [] = []
keep_non_empty (s ∷ ss) = let rest = keep_non_empty ss in if is_empty s then rest else s ∷ rest

abbrev inner_list : Str → Option Str → Str
inner_list whole none = whole
inner_list whole (some inner) = unwrap_or whole (strip_suffix b']' inner)

unfoldable pub list_values : Str → List Str
unfolding split_from unquote strip_prefix strip_suffix trim
list_values raw =
    let body = inner_list (trim raw) (strip_prefix (b'[' ∷ []) (trim raw)) in
    keep_non_empty (map (λ item. unquote (trim item)) (split_from b',' [] body))

abbrev pub or_default : List DimSpec → List DimSpec
or_default [] = default_dims
or_default (spec ∷ specs) = spec ∷ specs

unfoldable pub parse_dims : Str → List DimSpec
unfolding list_values spec_for default_dims
parse_dims raw = or_default (map spec_for (list_values raw))

-- The decimal digits of a text, if it is not empty and has only digits.
unfoldable pub digits_from : ℕ → Str → Option ℕ
unfolding is_ascii_digit
digits_from n [] = some n
digits_from n (b ∷ s) = if is_ascii_digit b then digits_from (n * 10 + (b - b'0')) s else none

unfoldable pub decimal : Str → Option ℕ
unfolding digits_from
decimal [] = none
decimal (b ∷ s) = digits_from 0 (b ∷ s)

abbrev pub at_most : ℕ → Option ℕ → Option ℕ
at_most max none = none
at_most max (some n) = if ltb max n then none else some n

-- `text.parse()` of an unsigned integer of this width.
unfoldable pub parse_unsigned : ℕ → Str → Option ℕ
unfolding decimal
parse_unsigned width [] = none
parse_unsigned width (b ∷ s) =
    at_most (2 ^ width - 1) (if b == b'+' then decimal s else decimal (b ∷ s))

abbrev pub as_positive : Option ℕ → Option ℤ
as_positive none = none
as_positive (some n) = some (pos n)

abbrev pub as_negative : Option ℕ → Option ℤ
as_negative none = none
as_negative (some zero) = some (pos 0)
as_negative (some (suc n)) = some (negsuc n)

-- `text.parse::<i64>()`
unfoldable pub parse_i64 : Str → Option ℤ
unfolding decimal
parse_i64 [] = none
parse_i64 (b ∷ s) =
    if b == b'-'
    then as_negative (at_most (2 ^ 63) (decimal s))
    else as_positive (at_most (2 ^ 63 - 1) (if b == b'+' then decimal s else decimal (b ∷ s)))

-- `replace('_', "")`
abbrev pub without_underscores : Str → Str
without_underscores [] = []
without_underscores (b ∷ s) =
    let rest = without_underscores s in if b == b'_' then rest else b ∷ rest

abbrev pub as_i64 : Option ℕ → Option ℤ
as_i64 none = none
as_i64 (some v) = some (of_word (2 ^ 63) v)

abbrev pub or_else {ℓ} : {A : Type ℓ} → Option A → Option A → Option A
or_else none o = o
or_else (some a) o = some a

unfoldable pub parse_seed : Str → Option ℤ
unfolding parse_i64 parse_unsigned trim
parse_seed raw =
    let trimmed = without_underscores (trim raw) in
    or_else (parse_i64 trimmed) (as_i64 (parse_unsigned 64 trimmed))

abbrev to_ascii_lowercase : Str → Str
to_ascii_lowercase = map λ b. if within b'A' b'Z' b then b + 32 else b

abbrev one_of : Str → List Str → Bool
one_of s [] = false
one_of s (t ∷ ts) = str_beq s t || one_of s ts

unfoldable pub parse_bool : Str → Option Bool
unfolding trim
parse_bool raw =
    let word = to_ascii_lowercase (trim raw) in
    if one_of word (ascii "1" ∷ ascii "true" ∷ ascii "yes" ∷ ascii "on" ∷ [])
    then some true
    else if one_of word (ascii "0" ∷ ascii "false" ∷ ascii "no" ∷ ascii "off" ∷ [])
    then some false
    else none

abbrev not_zero : Option ℕ → Option ℕ
not_zero none = none
not_zero (some n) = if n == 0 then none else some n

unfoldable pub parse_u32 : Str → Option ℕ
unfolding parse_unsigned trim
parse_u32 raw = not_zero (parse_unsigned 32 (trim raw))

unfoldable pub non_empty : Str → Option Str
non_empty value = non_empty_of value
