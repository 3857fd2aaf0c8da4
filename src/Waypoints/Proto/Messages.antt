-- ===== src/Waypoints/Proto/Messages.antt =====
-- The messages of waypoints/proto.rs. An `f64` is its bit pattern, a `String` its bytes.
use confluxmap_pumpkin.Base.{ℕ, Bool, List, Option, none, some, if◌then◌else◌, ◌==◌}
use confluxmap_pumpkin.Base.Int.{ℤ, pos}
use confluxmap_pumpkin.Identity.{Uid}

abbrev pub Str : Type 0
Str = List ℕ

abbrev pub proto_major : ℤ
proto_major = pos 1

abbrev pub proto_minor : ℕ
proto_minor = 3

abbrev pub max_c2s_payload : ℕ
max_c2s_payload = 8192

abbrev pub max_utf8_bytes : ℕ
max_utf8_bytes = 256

abbrev pub max_snapshot_waypoints : ℕ
max_snapshot_waypoints = 512

pub data WaypointKind : Type 0 where
  normal death : WaypointKind

-- `WaypointKind::wire` and `from_wire`
unfoldable pub kind_wire : WaypointKind → ℕ
kind_wire normal = 0
kind_wire death = 1

unfoldable pub kind_from_wire : ℕ → Option WaypointKind
kind_from_wire value = if value == 0 then some normal else if value == 1 then some death else none

pub record Waypoint : Type 0 where
  pub id : Uid
  pub publisher_id : Uid
  pub publisher_name : Str
  pub name : Str
  pub dimension_id : Str
  pub x : ℕ
  pub y : ℕ
  pub z : ℕ
  pub color_argb : ℤ
  pub kind : WaypointKind
  pub icon_item_id : Str
  pub marker_label : Str
  pub created_at_ms : ℤ
  pub revision : ℤ

pub record CreateRequest : Type 0 where
  pub operation_id : Uid
  pub expected_revision : ℤ
  pub name : Str
  pub dimension_id : Str
  pub x : ℕ
  pub y : ℕ
  pub z : ℕ
  pub color : ℤ
  pub kind : WaypointKind
  pub icon_item_id : Str
  pub marker_label : Str

pub record UpdateRequest : Type 0 where
  pub operation_id : Uid
  pub id : Uid
  pub expected_revision : ℤ
  pub name : Str
  pub dimension_id : Str
  pub x : ℕ
  pub y : ℕ
  pub z : ℕ
  pub color : ℤ
  pub kind : WaypointKind
  pub icon_item_id : Str
  pub marker_label : Str

pub record DeleteRequest : Type 0 where
  pub operation_id : Uid
  pub id : Uid
  pub expected_revision : ℤ

pub record LockRequest : Type 0 where
  pub operation_id : Uid
  pub id : Uid
  pub expected_revision : ℤ
  pub locked : Bool

pub data Inbound : Type 0 where
  hello : ℤ → ℤ → Inbound
  subscribe : Inbound
  create : CreateRequest → Inbound
  update : UpdateRequest → Inbound
  delete : DeleteRequest → Inbound
  lock : LockRequest → Inbound

pub record Status : Type 0 where
  pub major : ℤ
  pub minor : ℤ
  pub supported : Bool
  pub enabled : Bool
  pub operator : Bool
  pub world_id : Str
  pub revision : ℤ
  pub max_world : ℤ
  pub max_player : ℤ
  pub owner_management_allowed : Bool

pub data Outbound : Type 0 where
  status : Status → Outbound
  -- revision, operator, waypoints
  snapshot : ℤ → Bool → List Waypoint → Outbound
  upsert : ℤ → Waypoint → Outbound
  remove : ℤ → Uid → Outbound
  -- operation id, status, error
  result : Uid → ℤ → ℤ → Outbound

-- The text of a `DecodeError` names a field or a number: a constructor for each text.
pub data Field : Type 0 where
  major minor operation_id id revision name dimension_id : Field
  x y z colour kind icon_item_id marker_label world_id publisher_name : Field

pub data DecodeError : Type 0 where
  empty_payload bad_locked : DecodeError
  oversized unknown_type wrong_direction unhandled unknown_kind trailing : ℕ → DecodeError
  truncated invalid not_finite : Field → DecodeError

pub data EncodeError : Type 0 where
  too_many_waypoints : ℕ → EncodeError
  field_not_finite : Field → EncodeError
  field_too_long : Field → ℕ → EncodeError

pub data Result {ℓ} (E : Type 0) (A : Type ℓ) : Type ℓ where
  ok : A → Result E A
  err : E → Result E A
