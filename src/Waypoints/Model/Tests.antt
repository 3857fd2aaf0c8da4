-- ===== src/Waypoints/Model/Tests.antt =====
-- Runs of the validation on concrete data.
use confluxmap_pumpkin.Base.{◌≡◌, refl, some, []}
use confluxmap_pumpkin.Base.Int
use confluxmap_pumpkin.Base.Int.{negsuc}
use confluxmap_pumpkin.Float
use confluxmap_pumpkin.Text
use confluxmap_pumpkin.Text.{ascii}
use mathlib.Core.List.{flatten}
use confluxmap_pumpkin.Waypoints.Proto.Messages.{normal}
use confluxmap_pumpkin.Waypoints.Model
use confluxmap_pumpkin.Waypoints.Model.{Draft, Validated, LocationKey, validate, location_of}
use confluxmap_pumpkin.Waypoints.Model.Again.{draft_again, validate-draft_again}
use confluxmap_pumpkin.Waypoints.Model.Valid.{validate-location_of}

abbrev home : Draft
home = record {
  name = ascii " Home ";
  dimension_id = ascii "minecraft:overworld";
  x = 0x3ff8_0000_0000_0000;
  y = 0;
  z = 0;
  color = negsuc 0;
  kind = normal;
  icon_item_id = ascii "minecraft:torch";
  marker_label = [];
}

abbrev trimmed : Validated
trimmed = record {
  name = ascii "Home";
  dimension_id = ascii "minecraft:overworld";
  x = 0x3ff8_0000_0000_0000;
  y = 0;
  z = 0;
  color = negsuc 0;
  kind = normal;
  icon_item_id = ascii "minecraft:torch";
  marker_label = [];
}

home_validated : validate home ≡ some trimmed
unfolding Model.validate Model.valid_display_text Model.normalize_marker_label
    Model.normalize_icon_item_id Model.valid_dimension_id Model.valid_resource_part
    Model.is_format_char Text.trim Text.chars Text.is_continuation Text.is_blank Text.drop_blank
    Text.scalar Text.is_whitespace Text.is_control Text.strip_prefix Text.split_once
    Text.is_ascii_lowercase Text.is_ascii_digit Float.is_finite Float.abs_gt Float.abs flatten
    Int.to_word
home_validated = refl

validate-location_of_example :
    (l : LocationKey) × (location_of trimmed.dimension_id trimmed.x trimmed.y trimmed.z ≡ some l)
validate-location_of_example = validate-location_of home trimmed home_validated

validate-draft_again_example : validate (draft_again trimmed) ≡ some trimmed
validate-draft_again_example = validate-draft_again home trimmed home_validated
