-- ===== src/Config/Parse.antt =====
-- config.rs: `parse`, the loop over the lines of the file. A warning names its line and its key; the
-- text of it is for the operator.

pub mod Ranges
mod Tests
use confluxmap_pumpkin.Base.{
  ℕ, suc, ◌&&◌, Bool, true, false, Option, none, some, List, [], ◌∷◌, ◌++◌, leb, ◌==◌,
  if◌then◌else◌,
}
use confluxmap_pumpkin.Base.Int.{ℤ}
use confluxmap_pumpkin.Text.{ascii, is_empty, trim, split_once}
use confluxmap_pumpkin.Waypoints.Proto.Messages.{Str}
use confluxmap_pumpkin.Waypoints.Model.{str_beq}
use confluxmap_pumpkin.Config.{
  Config, default_config, normalize, strip_comment, strip_suffix, unquote, parse_dims, parse_seed,
  parse_bool, parse_u32, non_empty, unwrap_or,
}

-- The keys that the `match` knows.
pub data Key : Type 0 where
  key_seed : Key
  key_share_seed : Key
  key_share_corrections : Key
  key_worldgen : Key
  key_world_id : Key
  key_dims : Key
  key_share_waypoints : Key
  key_allow_management : Key
  key_per_world : Key
  key_per_player : Key
  key_per_minute : Key
  key_entity_radar : Key
  key_view_distance : Key
  key_unknown : Key

unfoldable pub key_of : Str → Key
key_of key =
    if str_beq key (ascii "seed")
    then key_seed
    else if str_beq key (ascii "share_seed")
    then key_share_seed
    else if str_beq key (ascii "share_corrections")
    then key_share_corrections
    else if str_beq key (ascii "worldgen")
    then key_worldgen
    else if str_beq key (ascii "world_id")
    then key_world_id
    else if str_beq key (ascii "dims")
    then key_dims
    else if str_beq key (ascii "share_waypoints")
    then key_share_waypoints
    else if str_beq key (ascii "allow_non_operator_waypoint_management")
    then key_allow_management
    else if str_beq key (ascii "max_waypoints_per_world")
    then key_per_world
    else if str_beq key (ascii "max_waypoints_per_player")
    then key_per_player
    else if str_beq key (ascii "waypoint_mutations_per_minute")
    then key_per_minute
    else if str_beq key (ascii "allow_entity_radar")
    then key_entity_radar
    else if str_beq key (ascii "view_distance")
    then key_view_distance
    else key_unknown

pub data Warning : Type 0 where
  not_a_pair : ℕ → Str → Warning
  bad_value : ℕ → Key → Str → Warning
  unrecognised : List Str → Warning

-- The configuration with the warnings and the unknown keys so far.
pub record Reading : Type 0 where
  pub config : Config
  pub warnings : List Warning
  pub unknown : List Str

abbrev pub warn : Warning → Reading → Reading
warn w r = record r { warnings = r.warnings ++ w ∷ [] }

-- The value that was read, or a warning that leaves the setting.
abbrev pub set_or_warn {ℓ} : {A : Type ℓ} → Option A → (A → Config) → Warning → Reading → Reading
set_or_warn none set w r = warn w r
set_or_warn (some a) set w r = record r { config = set a }

abbrev pub in_view : Option ℕ → Option ℕ
in_view none = none
in_view (some chunks) = if leb 2 chunks && leb chunks 64 then some chunks else none

-- The arms of the `match` on a key.
unfoldable pub apply : ℕ → Key → Str → Str → Reading → Reading
unfolding parse_seed parse_bool parse_u32 parse_dims non_empty
apply number key_seed key value r =
    set_or_warn (parse_seed value) (λ seed. record r.config { seed = some seed })
      (bad_value number key_seed value) r
apply number key_share_seed key value r =
    set_or_warn (parse_bool value) (λ b. record r.config { share_seed = b })
      (bad_value number key_share_seed value) r
apply number key_share_corrections key value r =
    set_or_warn (parse_bool value) (λ b. record r.config { share_corrections = b })
      (bad_value number key_share_corrections value) r
apply number key_worldgen key value r = record r {
  config = record r.config { worldgen_override = non_empty value };
}
apply number key_world_id key value r = record r {
  config = record r.config { world_id_override = non_empty value };
}
apply number key_dims key value r = record r {
  config = record r.config { dims = parse_dims value };
}
apply number key_share_waypoints key value r =
    set_or_warn (parse_bool value) (λ b. record r.config { share_waypoints = b })
      (bad_value number key_share_waypoints value) r
apply number key_allow_management key value r =
    set_or_warn (parse_bool value)
      (λ b. record r.config { allow_non_operator_waypoint_management = b })
      (bad_value number key_allow_management value) r
apply number key_per_world key value r =
    set_or_warn (parse_u32 value) (λ n. record r.config { max_waypoints_per_world = n })
      (bad_value number key_per_world value) r
apply number key_per_player key value r =
    set_or_warn (parse_u32 value) (λ n. record r.config { max_waypoints_per_player = n })
      (bad_value number key_per_player value) r
apply number key_per_minute key value r =
    set_or_warn (parse_u32 value) (λ n. record r.config { waypoint_mutations_per_minute = n })
      (bad_value number key_per_minute value) r
apply number key_entity_radar key value r =
    set_or_warn (parse_bool value) (λ b. record r.config { allow_entity_radar = b })
      (bad_value number key_entity_radar value) r
apply number key_view_distance key value r =
    set_or_warn (in_view (parse_u32 value))
      (λ n. record r.config { view_distance_override = some n })
      (bad_value number key_view_distance value) r
apply number key_unknown key value r = record r { unknown = r.unknown ++ key ∷ [] }

abbrev with_pair : ℕ → Str → Option (Str × Str) → Reading → Reading
with_pair number line none r = warn (not_a_pair number line) r
with_pair number line (some (raw_key, raw_value)) r =
    let key = unquote (trim raw_key) in apply number (key_of key) key (unquote (trim raw_value)) r

abbrev starts_section : Str → Bool
starts_section [] = true
starts_section (b ∷ line) = b == b'['

-- The body of the loop, with the number of its line.
unfoldable pub parse_line : ℕ → Str → Reading → Reading
unfolding strip_comment trim unquote key_of apply split_once
parse_line number raw r =
    let line = trim (strip_comment raw) in
    if starts_section line then r else with_pair number line (split_once b'=' line) r

unfoldable pub parse_lines : ℕ → List Str → Reading → Reading
unfolding parse_line
parse_lines number [] r = r
parse_lines number (raw ∷ raws) r = parse_lines (suc number) raws (parse_line number raw r)

-- `source.lines()`, with the line that is being read.
unfoldable pub lines_from : Str → Str → List Str
unfolding strip_suffix
lines_from line [] = if is_empty line then [] else line ∷ []
lines_from line (b ∷ source) = elim (b == 10) [
  | true ↦ unwrap_or line (strip_suffix 13 line) ∷ lines_from [] source
  | false ↦ lines_from (line ++ b ∷ []) source
]

abbrev unknown_warning : List Str → List Warning
unknown_warning [] = []
unknown_warning (key ∷ keys) = unrecognised (key ∷ keys) ∷ []

-- The configuration, and the warnings.
unfoldable pub parse : Str → Config × List Warning
unfolding parse_lines lines_from normalize
parse source =
    let start : Reading = record { config = default_config; warnings = []; unknown = [] } in
    let r = parse_lines 1 (lines_from [] source) start in
    (normalize r.config, r.warnings ++ unknown_warning r.unknown)
