-- ===== src/Waypoints/Proto/Decode.antt =====
-- `decode` of waypoints/proto.rs.
use confluxmap_pumpkin.Base.{
  ℕ, Bool, not, ◌&&◌, ◌||◌, Option, none, some, List, [], ◌∷◌, ltb, leb, ◌==◌, if◌then◌else◌,
  length,
}
use confluxmap_pumpkin.Base.Int.{ℤ, pos, ltb_ℤ}
use confluxmap_pumpkin.Float
use confluxmap_pumpkin.Wire.Reader
use confluxmap_pumpkin.Wire.Reader.{Reader, Read, new}
use confluxmap_pumpkin.Waypoints.Proto.Messages.{
  WaypointKind, Str, Inbound, hello, subscribe, create, update, delete, lock, Field, DecodeError,
  empty_payload, bad_locked, oversized, unknown_type, wrong_direction, unhandled, unknown_kind,
  trailing, truncated, invalid, not_finite, Result, ok, err, max_c2s_payload, max_utf8_bytes,
  kind_from_wire,
}

-- A step of `decode`, which may end it with an error.
abbrev pub Parse {ℓ} : Type ℓ → Type ℓ
Parse A = Reader → Result DecodeError A × Reader

abbrev pub continue {ℓ κ} :
    {A : Type ℓ} {B : Type κ} → Result DecodeError A → (A → Parse B) → Parse B
continue (ok a) f r = f a r
continue (err e) f r = (err e, r)

infixl 5 ◌>>=◌
abbrev pub ◌>>=◌ {ℓ κ} : {A : Type ℓ} {B : Type κ} → Parse A → (A → Parse B) → Parse B
◌>>=◌ m f r = continue (m r).0 f (m r).1

abbrev pub pure {ℓ} : {A : Type ℓ} → A → Parse A
pure a r = (ok a, r)

abbrev pub fail {ℓ} : {A : Type ℓ} → DecodeError → Parse A
fail e r = (err e, r)

abbrev pub or_err {ℓ} : {A : Type ℓ} → DecodeError → Option A → Result DecodeError A
or_err e none = err e
or_err e (some a) = ok a

-- `.ok_or_else(|| decode_error(…))?`
infixl 6 ◌or_else◌
abbrev pub ◌or_else◌ {ℓ} : {A : Type ℓ} → Read A → DecodeError → Parse A
◌or_else◌ m e r = (or_err e (m r).0, (m r).1)

unfoldable pub finite : Field → Parse ℕ
finite field = do
  value ← Reader.f64 or_else truncated field
  if Float.is_finite value then pure value else fail (not_finite field)

unfoldable pub kind : Parse WaypointKind
kind = do
  value ← Reader.u8 or_else truncated Field.kind
  Reader.lift (kind_from_wire value) or_else unknown_kind value

-- Read only where the connection negotiated it.
unfoldable pub marker_utf : ℤ → Field → Parse Str
marker_utf negotiated_minor field =
    if ltb_ℤ negotiated_minor (pos 3)
    then pure []
    else Reader.utf max_utf8_bytes or_else invalid field

unfoldable pub decode_hello : Parse Inbound
decode_hello = do
  major ← Reader.i32 or_else truncated Field.major
  minor ← Reader.i32 or_else truncated Field.minor
  pure (hello major minor)

unfoldable pub decode_create : ℤ → Parse Inbound
decode_create negotiated_minor = do
  operation_id ← Reader.uuid or_else truncated Field.operation_id
  expected_revision ← Reader.i64 or_else truncated Field.revision
  name ← Reader.utf max_utf8_bytes or_else invalid Field.name
  dimension_id ← Reader.utf max_utf8_bytes or_else invalid Field.dimension_id
  x ← finite Field.x
  y ← finite Field.y
  z ← finite Field.z
  color ← Reader.i32 or_else truncated Field.colour
  waypoint_kind ← kind
  icon_item_id ← marker_utf negotiated_minor Field.icon_item_id
  marker_label ← marker_utf negotiated_minor Field.marker_label
  pure (
      create (record {
        operation_id = operation_id;
        expected_revision = expected_revision;
        name = name;
        dimension_id = dimension_id;
        x = x;
        y = y;
        z = z;
        color = color;
        kind = waypoint_kind;
        icon_item_id = icon_item_id;
        marker_label = marker_label;
      }))

unfoldable pub decode_update : ℤ → Parse Inbound
decode_update negotiated_minor = do
  operation_id ← Reader.uuid or_else truncated Field.operation_id
  id ← Reader.uuid or_else truncated Field.id
  expected_revision ← Reader.i64 or_else truncated Field.revision
  name ← Reader.utf max_utf8_bytes or_else invalid Field.name
  dimension_id ← Reader.utf max_utf8_bytes or_else invalid Field.dimension_id
  x ← finite Field.x
  y ← finite Field.y
  z ← finite Field.z
  color ← Reader.i32 or_else truncated Field.colour
  waypoint_kind ← kind
  icon_item_id ← marker_utf negotiated_minor Field.icon_item_id
  marker_label ← marker_utf negotiated_minor Field.marker_label
  pure (
      update (record {
        operation_id = operation_id;
        id = id;
        expected_revision = expected_revision;
        name = name;
        dimension_id = dimension_id;
        x = x;
        y = y;
        z = z;
        color = color;
        kind = waypoint_kind;
        icon_item_id = icon_item_id;
        marker_label = marker_label;
      }))

unfoldable pub decode_delete : Parse Inbound
decode_delete = do
  operation_id ← Reader.uuid or_else truncated Field.operation_id
  id ← Reader.uuid or_else truncated Field.id
  expected_revision ← Reader.i64 or_else truncated Field.revision
  pure (
      delete
        (record { operation_id = operation_id; id = id; expected_revision = expected_revision }))

unfoldable pub decode_lock : Parse Inbound
decode_lock = do
  operation_id ← Reader.uuid or_else truncated Field.operation_id
  id ← Reader.uuid or_else truncated Field.id
  expected_revision ← Reader.i64 or_else truncated Field.revision
  locked ← Reader.bool or_else bad_locked
  pure (
      lock (record {
        operation_id = operation_id;
        id = id;
        expected_revision = expected_revision;
        locked = locked;
      }))

-- The `match type_id`.
unfoldable pub decode_body : ℕ → ℤ → Parse Inbound
decode_body type_id negotiated_minor =
    if type_id == 0x01
    then decode_hello
    else if type_id == 0x03
    then pure subscribe
    else if type_id == 0x04
    then decode_create negotiated_minor
    else if type_id == 0x0b
    then decode_update negotiated_minor
    else if type_id == 0x05
    then decode_delete
    else if type_id == 0x06
    then decode_lock
    else fail (unhandled type_id)

unfoldable pub is_known : ℕ → Bool
is_known type_id = leb 0x01 type_id && leb type_id 0x0b

unfoldable pub is_serverbound : ℕ → Bool
is_serverbound type_id =
    type_id == 0x02 || type_id == 0x07 || type_id == 0x08 || type_id == 0x09 || type_id == 0x0a

-- The test on what is left after the message.
unfoldable pub finish : Result DecodeError Inbound × Reader → Result DecodeError Inbound
finish (err e, r) = err e
finish (ok message, r) =
    if Reader.remaining r == 0 then ok message else err (trailing (Reader.remaining r))

unfoldable pub decode : List ℕ → ℤ → Result DecodeError Inbound
decode [] negotiated_minor = err empty_payload
decode (type_id ∷ body) negotiated_minor =
    if ltb max_c2s_payload (length (type_id ∷ body))
    then err (oversized (length (type_id ∷ body)))
    else if not (is_known type_id)
    then err (unknown_type type_id)
    else if is_serverbound type_id
    then err (wrong_direction type_id)
    else finish (decode_body type_id negotiated_minor (new body))
