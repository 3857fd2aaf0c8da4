-- ===== src/Waypoints/Persist.antt =====
-- waypoints/persist.rs: when a catalog is written to the file. Whether the write itself succeeds is
-- the argument `writes`; the file holds the snapshot then, and its old content otherwise.
use confluxmap_pumpkin.Base.{ℕ, Bool, false, not, ◌&&◌, all, ltb, if◌then◌else◌, length, is_some}
use confluxmap_pumpkin.Base.Int.{ℤ, pos, ltb_ℤ}
use confluxmap_pumpkin.Float
use confluxmap_pumpkin.Waypoints.Proto.Messages.{Waypoint}
use confluxmap_pumpkin.Waypoints.Model.{
  Draft, validate, valid_publisher_name, max_horizontal_coordinate,
}
use confluxmap_pumpkin.Waypoints.Store.{Snapshot}

abbrev pub max_persisted_waypoints : ℕ
max_persisted_waypoints = 512

-- The body of a stored point.
abbrev pub draft_of : Waypoint → Draft
draft_of w = record {
  name = w.name;
  dimension_id = w.dimension_id;
  x = w.x;
  y = w.y;
  z = w.z;
  color = w.color_argb;
  kind = w.kind;
  icon_item_id = w.icon_item_id;
  marker_label = w.marker_label;
}

-- `w.x.abs() <= bound` of a number that `validate` found finite
unfoldable pub persistable : ℤ → Waypoint → Bool
persistable global_revision w =
    is_some (validate (draft_of w))
    && valid_publisher_name w.publisher_name
    && not (ltb_ℤ w.created_at_ms (pos 0))
    && not (ltb_ℤ w.revision (pos 1))
    && not (ltb_ℤ global_revision w.revision)
    && not (Float.abs_gt w.x max_horizontal_coordinate)
    && not (Float.abs_gt w.z max_horizontal_coordinate)

-- Whether `Persistence::save` succeeds.
unfoldable pub save : Snapshot → Bool → Bool
unfolding persistable
save snapshot writes =
    if ltb max_persisted_waypoints (length snapshot.waypoints)
    then false
    else all (persistable snapshot.revision) snapshot.waypoints && writes
