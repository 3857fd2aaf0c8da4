-- ===== src/Waypoints/Service/Tests.antt =====
-- Runs of the service on concrete data.
use confluxmap_pumpkin.Base.{arith}
use confluxmap_pumpkin.Base.{◌+◌, ◌≤◌, ◌≡◌, refl, true, false, some, []}
use confluxmap_pumpkin.Base.Int.{ℤ, pos, negsuc}
use confluxmap_pumpkin.Identity.{Uid}
use confluxmap_pumpkin.Text.{ascii}
use confluxmap_pumpkin.Waypoints.Proto.Messages.{
  Waypoint, CreateRequest, UpdateRequest, DeleteRequest, normal,
}
use confluxmap_pumpkin.Waypoints.Store
use confluxmap_pumpkin.Waypoints.Store.{
  Store, Snapshot, empty, snapshot, new, len, count_published_by, find,
}
use confluxmap_pumpkin.Waypoints.Store.History.{here, Reach-IsSound}
use confluxmap_pumpkin.Waypoints.Store.Pending.{PreparedOn}
use confluxmap_pumpkin.Waypoints.Service
use confluxmap_pumpkin.Waypoints.Service.{
  Service, Host, Actor, Limits, owner_managed, create, update, delete, can_create, can_manage,
  sanitize_loaded,
}
use confluxmap_pumpkin.Base.Maps
use confluxmap_pumpkin.Float
use confluxmap_pumpkin.Float.Arithmetic
use confluxmap_pumpkin.Text
use confluxmap_pumpkin.Waypoints.Model
use confluxmap_pumpkin.Waypoints.Session
use confluxmap_pumpkin.Waypoints.Persist
use mathlib.Core.List.{flatten}
use confluxmap_pumpkin.Base.Int
use confluxmap_pumpkin.Waypoints.Service.Players
use confluxmap_pumpkin.Waypoints.Service.Players.{MutationResult}
use confluxmap_pumpkin.Waypoints.Service.Outcome.{Outcome, created, Serves-Outcome}
use confluxmap_pumpkin.Waypoints.Service.Bounds.{IsBounded}
use confluxmap_pumpkin.Waypoints.Service.Retention.{Serves-IsBounded}
use confluxmap_pumpkin.Waypoints.Service.Durable.{IsDurable, idle, served}
use confluxmap_pumpkin.Waypoints.Service.Lasting.{Serving-sanitize_loaded}
use confluxmap_pumpkin.Waypoints.Service.Rights.{
  IsFresh, create-limits, delete-can_manage, update-can_manage,
}
use confluxmap_pumpkin.Waypoints.Service.Replay.{
  Replays, create-replay, update-replay, delete-replay,
}

abbrev fresh_service : Service
fresh_service = record {
  store = empty;
  disk = record { revision = pos 0; waypoints = [] };
  limits = record { max_per_world = 8; max_per_player = 2; mutations_per_minute = 30 };
  access = owner_managed;
  players = record { order = []; states = [] };
}

abbrev host : Host
host = record { now = pos 1000; draws = λ i. record { high = 0; low = i + 1 }; writes = true }

abbrev alex : Actor
alex = record { id = record { high = 1; low = 2 }; name = ascii "Alex"; operator = false }

abbrev home_request : CreateRequest
home_request = record {
  operation_id = record { high = 5; low = 5 };
  expected_revision = pos 0;
  name = ascii "Home";
  dimension_id = ascii "minecraft:overworld";
  x = 0x3ff8_0000_0000_0000;
  y = 0;
  z = 0;
  color = negsuc 0;
  kind = normal;
  icon_item_id = [];
  marker_label = ascii "H";
}

abbrev after_create : MutationResult × Service
after_create = create fresh_service host alex home_request

-- The id that the host drew.
abbrev drawn : Uid
drawn = record { high = 0; low = 1 }

abbrev camp_request : UpdateRequest
camp_request = record {
  operation_id = record { high = 5; low = 6 };
  id = drawn;
  expected_revision = pos 1;
  name = ascii "Camp";
  dimension_id = ascii "minecraft:overworld";
  x = 0;
  y = 0;
  z = 0;
  color = negsuc 0;
  kind = normal;
  icon_item_id = ascii "minecraft:torch";
  marker_label = [];
}

abbrev after_update : MutationResult × Service
after_update = update after_create.1 host alex camp_request

abbrev removal_request : DeleteRequest
removal_request = record {
  operation_id = record { high = 5; low = 7 };
  id = drawn;
  expected_revision = pos 1;
}

abbrev after_delete : MutationResult × Service
after_delete = delete after_create.1 host alex removal_request

runs : IsFresh after_create.0 × IsFresh after_update.0 × IsFresh after_delete.0
unfolding create Service.finish Service.persist Service.create_checks Service.can_create
    Service.can_manage Service.unique_id Service.draw_id Service.store_error Service.checked_suc
    Players.replay_decision Players.matches Players.touch Players.make_room Players.is_in
    Players.take_out Players.new_player Players.put Players.remember Players.remember_for
    Players.applied Players.reject Session.try_consume Session.refill Session.new_bucket
    Arithmetic.less Arithmetic.lesser Arithmetic.of_nat Arithmetic.sub Arithmetic.div Arithmetic.mul
    Arithmetic.add Arithmetic.round Arithmetic.round_at Arithmetic.bits Arithmetic.units
    Float.exponent Float.significand Float.is_finite Float.abs_gt Float.abs Float.floor Float.whole
    Float.has_fraction empty Model.validate Model.valid_display_text Model.valid_publisher_name
    Model.normalize_marker_label Model.normalize_icon_item_id Model.valid_dimension_id
    Model.valid_resource_part Model.is_format_char Model.location_of Model.location_from
    Model.floor_to_i64 Text.trim Text.chars Text.is_continuation Text.is_blank Text.drop_blank
    Text.scalar Text.is_whitespace Text.is_control Text.strip_prefix Text.split_once
    Text.is_ascii_lowercase Text.is_ascii_digit Maps.lookup Maps.contains_key Maps.insert
    Maps.insert_new Maps.remove find Store.find_at Store.first_with_id len count_published_by
    Store.published_by Store.prepare_create Store.next_revision Store.upsert Store.noop Store.commit
    Store.push_all Store.push Persist.save Persist.persistable flatten Int.to_word update
    Service.update_checks Store.prepare_update delete Service.delete_checks Store.prepare_delete
runs = (
  record { done = refl; fresh = refl },
  record { done = refl; fresh = refl },
  record { done = refl; fresh = refl },
)

fresh_service-IsDurable : IsDurable fresh_service.store fresh_service.disk
unfolding empty snapshot
fresh_service-IsDurable = record { sound = (Reach-IsSound here).0; written = refl }

Serves-Outcome_example :
    Outcome
      (PreparedOn empty)
      empty
      fresh_service.disk
      after_create.0
      after_create.1.store
      after_create.1.disk
Serves-Outcome_example = Serves-Outcome (created host alex home_request refl)

Serving-sanitize_loaded_example : sanitize_loaded after_create.1.disk ≡ after_create.1.disk
unfolding empty
Serving-sanitize_loaded_example =
    Serving-sanitize_loaded fresh_service-IsDurable tt
      (served idle (created host alex home_request refl))

create-limits_example :
    (can_create alex owner_managed ≡ true)
    × (pos 0 ≡ empty.revision)
    × (len after_create.1.store ≤ 8)
    × (count_published_by after_create.1.store alex.id ≤ 2)
create-limits_example =
    create-limits fresh_service after_create.1 host alex after_create.0 home_request refl runs.0

create-replay_example :
    Replays after_create.1 after_create.0 (create after_create.1 host alex home_request)
create-replay_example =
    create-replay fresh_service after_create.1 host host alex after_create.0 home_request refl
      runs.0

update-can_manage_example :
    (w : Waypoint) × (find after_create.1.store drawn ≡ some w)
    × (can_manage alex w after_create.1.access ≡ true)
    × (pos 1 ≡ w.revision)
update-can_manage_example =
    update-can_manage after_create.1 after_update.1 host alex after_update.0 camp_request refl
      runs.1

delete-can_manage_example :
    (w : Waypoint) × (find after_create.1.store drawn ≡ some w)
    × (can_manage alex w after_create.1.access ≡ true)
    × (pos 1 ≡ w.revision)
delete-can_manage_example =
    delete-can_manage after_create.1 after_delete.1 host alex after_delete.0 removal_request refl
      runs.2

update-replay_example :
    Replays after_update.1 after_update.0 (update after_update.1 host alex camp_request)
update-replay_example =
    update-replay after_create.1 after_update.1 host host alex after_update.0 camp_request refl
      runs.1

delete-replay_example :
    Replays after_delete.1 after_delete.0 (delete after_delete.1 host alex removal_request)
delete-replay_example =
    delete-replay after_create.1 after_delete.1 host host alex after_delete.0 removal_request refl
      runs.2

fresh_service-IsBounded : IsBounded fresh_service.players
unfolding Maps.contains_key Maps.lookup Players.is_in
fresh_service-IsBounded = record {
  paired = record { known = λ k. refl; distinct = tt; fits = ground arith };
  small = ground arith;
  players = λ k p e. cc;
}

Serves-IsBounded_example : IsBounded after_create.1.players
Serves-IsBounded_example =
    Serves-IsBounded {s = fresh_service} (created host alex home_request refl)
      fresh_service-IsBounded
