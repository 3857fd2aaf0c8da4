-- ===== src/Config/Parse/Tests.antt =====
-- Settings read from concrete files.
use mathlib.Core.List.{flatten}
use confluxmap_pumpkin.Base.{Holds, ◌≡◌, refl, some, [], ◌∷◌}
use confluxmap_pumpkin.Base.Int.{pos}
use confluxmap_pumpkin.Text.{ascii}
use confluxmap_pumpkin.Waypoints.Proto.Messages.{Str}
use confluxmap_pumpkin.Config.{default_config}
use confluxmap_pumpkin.Config.Template.{template}
use confluxmap_pumpkin.Config.Parse.{parse, bad_value, unrecognised, key_view_distance}
use confluxmap_pumpkin.Config.Parse.Ranges.{IsNonEmpty, IsView, IsLimited, parse-InRange}
use confluxmap_pumpkin.Base.Int.{IsI64}

abbrev sample : Str
sample =
    ascii
      "# a comment\nseed = 1_234 # mine\r\nview_distance = 1\n[section]\n'max_waypoints_per_player' = \"99\"\nfoo = 1"

parse-InRange_example :
    IsLimited (parse sample).0
    × Holds IsI64 (parse sample).0.seed
    × IsNonEmpty (parse sample).0.dims
    × Holds IsView (parse sample).0.view_distance_override
parse-InRange_example = parse-InRange sample

reads_sample : parse sample ≡ (
  record default_config { seed = some (pos 1234); max_waypoints_per_player = 99 },
  bad_value 3 key_view_distance (ascii "1") ∷ unrecognised (ascii "foo" ∷ []) ∷ [],
)
unfolding parse flatten default_config
reads_sample = refl

reads_template : parse template ≡ (default_config, [])
unfolding parse flatten default_config
reads_template = refl
