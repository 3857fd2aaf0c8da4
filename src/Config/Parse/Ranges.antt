-- ===== src/Config/Parse/Ranges.antt =====
-- Whatever the file says, the settings that are read of it lie in their ranges.
use confluxmap_pumpkin.Base.{
  ℕ, zero, suc, ◌-◌, ◌^◌, ◌≤◌, ◌≢◌, Bool, true, false, Option, none, some, List, [], ◌∷◌, map,
  arith, ◌==◌, if◌then◌else◌, Bool-cases, inl, inr, Holds, Holds-always, Holds-imp,
}
use confluxmap_pumpkin.Base.Int.{ℤ, IsI64, of_word-IsI64}
use confluxmap_pumpkin.Text.{trim, split_once}
use confluxmap_pumpkin.Waypoints.Proto.Messages.{Str}
use confluxmap_pumpkin.Config.{
  Config, DimSpec, default_config, default_dims, spec_for, clamp, normalize, list_values,
  parse_dims, decimal, at_most, without_underscores, parse_unsigned, as_positive, as_negative,
  parse_i64, parse_seed, or_else, or_default, as_i64, parse_bool, parse_u32, strip_comment, unquote,
}
use confluxmap_pumpkin.Config.Parse.{
  Key, key_seed, key_share_seed, key_share_corrections, key_worldgen, key_world_id, key_dims,
  key_share_waypoints, key_allow_management, key_per_world, key_per_player, key_per_minute,
  key_entity_radar, key_view_distance, key_unknown, key_of, Warning, Reading, set_or_warn, in_view,
  apply, with_pair, starts_section, parse_line, parse_lines, lines_from, parse,
}

abbrev pub IsNonEmpty : List DimSpec → Type 0
IsNonEmpty specs = specs ≢ []

abbrev pub IsView : ℕ → Type 0
IsView n = (2 ≤ n) × (n ≤ 64)

-- What each line keeps.
abbrev IsSettled : Config → Type 0
IsSettled c = Holds IsI64 c.seed × IsNonEmpty c.dims × Holds IsView c.view_distance_override

abbrev pub IsLimited : Config → Type 0
IsLimited c =
    (1 ≤ c.max_waypoints_per_player)
    × (c.max_waypoints_per_player ≤ c.max_waypoints_per_world)
    × (c.max_waypoints_per_world ≤ 512)
    × (1 ≤ c.waypoint_mutations_per_minute)
    × (c.waypoint_mutations_per_minute ≤ 6000)

at_most-Holds : (max : ℕ) (o : Option ℕ) → Holds (λ n. n ≤ max) (at_most max o)
at_most-Holds max none = tt
at_most-Holds max (some n) = ground arith

as_positive-Holds : (o : Option ℕ) → Holds (λ n. n ≤ 2 ^ 63 - 1) o → Holds IsI64 (as_positive o)
as_positive-Holds none h = tt
as_positive-Holds (some n) h = (omega arith, omega arith)

as_negative-Holds : (o : Option ℕ) → Holds (λ n. n ≤ 2 ^ 63) o → Holds IsI64 (as_negative o)
as_negative-Holds none h = tt
as_negative-Holds (some zero) h = (omega arith, omega arith)
as_negative-Holds (some (suc n)) h = (omega arith, omega arith)

parse_i64-Holds : (s : Str) → Holds IsI64 (parse_i64 s)
unfolding parse_i64
parse_i64-Holds [] = tt
parse_i64-Holds (b ∷ s) = elim (Bool-cases (b == b'-')) [
  | inl minus ↦ rw minus (as_negative-Holds _ (at_most-Holds (2 ^ 63) (decimal s)))
  | inr other ↦ rw other (
      as_positive-Holds _
        (at_most-Holds (2 ^ 63 - 1) (if b == b'+' then decimal s else decimal (b ∷ s))))
]

as_i64-Holds : (o : Option ℕ) → Holds (λ n. n ≤ 2 ^ 64 - 1) o → Holds IsI64 (as_i64 o)
as_i64-Holds none h = tt
as_i64-Holds (some n) h = of_word-IsI64 n (omega arith)

or_else-Holds : (o p : Option ℤ) → Holds IsI64 o → Holds IsI64 p → Holds IsI64 (or_else o p)
or_else-Holds none p h k = k
or_else-Holds (some a) p h k = h

parse_unsigned-Holds : (w : ℕ) (s : Str) → Holds (λ n. n ≤ 2 ^ w - 1) (parse_unsigned w s)
unfolding parse_unsigned
parse_unsigned-Holds w [] = tt
parse_unsigned-Holds w (b ∷ s) =
    at_most-Holds (2 ^ w - 1) (if b == b'+' then decimal s else decimal (b ∷ s))

parse_seed-Holds : (s : Str) → Holds IsI64 (parse_seed s)
unfolding parse_seed
parse_seed-Holds s =
    let digits = without_underscores (trim s) in
    or_else-Holds (parse_i64 digits) (as_i64 (parse_unsigned 64 digits)) (parse_i64-Holds digits)
      (as_i64-Holds (parse_unsigned 64 digits) (parse_unsigned-Holds 64 digits))

or_default-IsNonEmpty : (specs : List DimSpec) → IsNonEmpty (or_default specs)
unfolding default_dims
or_default-IsNonEmpty [] h = absurd (cc h)
or_default-IsNonEmpty (spec ∷ specs) h = absurd (cc h)

parse_dims-IsNonEmpty : (s : Str) → IsNonEmpty (parse_dims s)
unfolding parse_dims
parse_dims-IsNonEmpty s = or_default-IsNonEmpty (map spec_for (list_values s))

in_view-Holds : (o : Option ℕ) → Holds IsView (in_view o)
in_view-Holds none = tt
in_view-Holds (some n) = ground arith

set_or_warn-IsSettled {ℓ} :
    {A : Type ℓ} (o : Option A) (set : A → Config) (w : Warning) (r : Reading)
    → IsSettled r.config
    → Holds (λ a. IsSettled (set a)) o
    → IsSettled (set_or_warn o set w r).config
set_or_warn-IsSettled none set w r h k = h
set_or_warn-IsSettled (some a) set w r h k = k

apply-IsSettled :
    (number : ℕ) (k : Key) (key value : Str) (r : Reading)
    → IsSettled r.config
    → IsSettled (apply number k key value r).config
unfolding apply
apply-IsSettled number key_seed key value r (s, d, v) =
    set_or_warn-IsSettled (parse_seed value) (λ seed. record r.config { seed = some seed }) _ r
      (s, d, v)
      (Holds-imp IsI64 _ (parse_seed value) (λ seed h. (h, d, v)) (parse_seed-Holds value))
apply-IsSettled number key_share_seed key value r h =
    set_or_warn-IsSettled (parse_bool value) (λ b. record r.config { share_seed = b }) _ r h
      (Holds-always _ (parse_bool value) λ b. h)
apply-IsSettled number key_share_corrections key value r h =
    set_or_warn-IsSettled (parse_bool value) (λ b. record r.config { share_corrections = b }) _ r h
      (Holds-always _ (parse_bool value) λ b. h)
apply-IsSettled number key_worldgen key value r h = h
apply-IsSettled number key_world_id key value r h = h
apply-IsSettled number key_dims key value r (s, d, v) = (s, parse_dims-IsNonEmpty value, v)
apply-IsSettled number key_share_waypoints key value r h =
    set_or_warn-IsSettled (parse_bool value) (λ b. record r.config { share_waypoints = b }) _ r h
      (Holds-always _ (parse_bool value) λ b. h)
apply-IsSettled number key_allow_management key value r h =
    set_or_warn-IsSettled (parse_bool value)
      (λ b. record r.config { allow_non_operator_waypoint_management = b }) _ r h
      (Holds-always _ (parse_bool value) λ b. h)
apply-IsSettled number key_per_world key value r h =
    set_or_warn-IsSettled (parse_u32 value) (λ n. record r.config { max_waypoints_per_world = n }) _
      r h (Holds-always _ (parse_u32 value) λ n. h)
apply-IsSettled number key_per_player key value r h =
    set_or_warn-IsSettled (parse_u32 value) (λ n. record r.config { max_waypoints_per_player = n })
      _ r h (Holds-always _ (parse_u32 value) λ n. h)
apply-IsSettled number key_per_minute key value r h =
    set_or_warn-IsSettled (parse_u32 value)
      (λ n. record r.config { waypoint_mutations_per_minute = n }) _ r h
      (Holds-always _ (parse_u32 value) λ n. h)
apply-IsSettled number key_entity_radar key value r h =
    set_or_warn-IsSettled (parse_bool value) (λ b. record r.config { allow_entity_radar = b }) _ r h
      (Holds-always _ (parse_bool value) λ b. h)
apply-IsSettled number key_view_distance key value r (s, d, v) =
    set_or_warn-IsSettled (in_view (parse_u32 value))
      (λ n. record r.config { view_distance_override = some n }) _ r (s, d, v)
      (Holds-imp IsView _ (in_view (parse_u32 value)) (λ n h. (s, d, h))
        (in_view-Holds (parse_u32 value)))
apply-IsSettled number key_unknown key value r h = h

with_pair-IsSettled :
    (number : ℕ) (line : Str) (o : Option (Str × Str)) (r : Reading)
    → IsSettled r.config
    → IsSettled (with_pair number line o r).config
with_pair-IsSettled number line none r h = h
with_pair-IsSettled number line (some (k, v)) r h =
    let key = unquote (trim k) in apply-IsSettled number (key_of key) key (unquote (trim v)) r h

either-IsSettled :
    (b : Bool) (r r' : Reading)
    → IsSettled r.config
    → IsSettled r'.config
    → IsSettled (if b then r else r').config
either-IsSettled true r r' h k = h
either-IsSettled false r r' h k = k

parse_line-IsSettled :
    (number : ℕ) (raw : Str) (r : Reading)
    → IsSettled r.config
    → IsSettled (parse_line number raw r).config
unfolding parse_line
parse_line-IsSettled number raw r h =
    let line = trim (strip_comment raw) in
    either-IsSettled (starts_section line) r _ h
      (with_pair-IsSettled number line (split_once b'=' line) r h)

parse_lines-IsSettled :
    (number : ℕ) (raws : List Str) (r : Reading)
    → IsSettled r.config
    → IsSettled (parse_lines number raws r).config
unfolding parse_lines
parse_lines-IsSettled number [] r h = h
parse_lines-IsSettled number (raw ∷ raws) r h =
    parse_lines-IsSettled (suc number) raws (parse_line number raw r)
      (parse_line-IsSettled number raw r h)

default_config-IsSettled : IsSettled default_config
unfolding default_config
default_config-IsSettled = (tt, or_default-IsNonEmpty [], tt)

clamp_within : (low high n : ℕ) → low ≤ high → (low ≤ clamp low high n) × (clamp low high n ≤ high)
clamp_within low high n h = ground arith

normalize-IsLimited : (c : Config) → IsLimited (normalize c)
unfolding normalize
normalize-IsLimited c =
    let (world_low, world_high) = clamp_within 1 512 c.max_waypoints_per_world (omega arith) in
    let per_world = clamp 1 512 c.max_waypoints_per_world in
    let (low, high) = clamp_within 1 per_world c.max_waypoints_per_player world_low in
    let (rate_low, rate_high) = clamp_within 1 6000 c.waypoint_mutations_per_minute (omega arith) in
    (low, high, world_high, rate_low, rate_high)

-- Whatever the file says, the limit of waypoints of a world is from 1 to 512, that of a player from 1
-- to the limit of the world, and that of changes a minute from 1 to 6000; the seed is an `i64`, there
-- is a dimension to advertise, and a view distance is from 2 to 64 chunks.
pub parse-InRange :
    (source : Str)
    → IsLimited (parse source).0
      × Holds IsI64 (parse source).0.seed
      × IsNonEmpty (parse source).0.dims
      × Holds IsView (parse source).0.view_distance_override
unfolding parse normalize
parse-InRange source =
    let start : Reading = record { config = default_config; warnings = []; unknown = [] } in
    let r = parse_lines 1 (lines_from [] source) start in
    let (seed, dims, view) =
      parse_lines-IsSettled 1 (lines_from [] source) start default_config-IsSettled in
    (normalize-IsLimited r.config, seed, dims, view)
