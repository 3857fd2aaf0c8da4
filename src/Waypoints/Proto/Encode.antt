-- ===== src/Waypoints/Proto/Encode.antt =====
-- `encode` of waypoints/proto.rs. Each `put` takes the buffer and returns the longer one.
use confluxmap_pumpkin.Base.{ℕ, false, List, [], ◌∷◌, ltb, if◌then◌else◌, length}
use confluxmap_pumpkin.Base.Int.{ℤ, pos, ltb_ℤ}
use confluxmap_pumpkin.Float
use confluxmap_pumpkin.Wire.Writer
use confluxmap_pumpkin.Waypoints.Proto.Messages.{
  Str, Waypoint, Outbound, status, snapshot, upsert, remove, result, Status, Field, EncodeError,
  too_many_waypoints, field_not_finite, field_too_long, Result, ok, err, kind_wire, max_utf8_bytes,
  max_snapshot_waypoints,
}

infixl 5 ◌>>=◌
abbrev pub ◌>>=◌ {ℓ κ} :
    {A : Type ℓ} {B : Type κ}
    → Result EncodeError A
    → (A → Result EncodeError B)
    → Result EncodeError B
ok a >>= f = f a
err e >>= f = err e

abbrev pub map_err : Field → Writer.Utf → Result EncodeError (List ℕ)
map_err field (Writer.ok out) = ok out
map_err field (Writer.err long) = err (field_too_long field long.len)

unfoldable pub put_utf : List ℕ → Str → Field → Result EncodeError (List ℕ)
put_utf out value field = map_err field (Writer.utf out value max_utf8_bytes)

-- One round of the loop over the coordinates.
unfoldable pub put_coordinate : List ℕ → ℕ → Field → Result EncodeError (List ℕ)
put_coordinate out value field =
    if Float.is_finite value then ok (Writer.f64 out value) else err (field_not_finite field)

unfoldable pub put_marker : List ℕ → Waypoint → ℤ → Result EncodeError (List ℕ)
put_marker out waypoint negotiated_minor = if ltb_ℤ negotiated_minor (pos 3) then ok out else do
  out ← put_utf out waypoint.icon_item_id Field.icon_item_id
  put_utf out waypoint.marker_label Field.marker_label

unfoldable pub put_waypoint : List ℕ → Waypoint → ℤ → Result EncodeError (List ℕ)
put_waypoint out waypoint negotiated_minor = do
  let out = Writer.uuid out waypoint.id
  let out = Writer.uuid out waypoint.publisher_id
  out ← put_utf out waypoint.publisher_name Field.publisher_name
  out ← put_utf out waypoint.name Field.name
  out ← put_utf out waypoint.dimension_id Field.dimension_id
  out ← put_coordinate out waypoint.x Field.x
  out ← put_coordinate out waypoint.y Field.y
  out ← put_coordinate out waypoint.z Field.z
  let out = Writer.i32 out waypoint.color_argb
  let out = Writer.u8 out (kind_wire waypoint.kind)
  let out = Writer.bool out false
  let out = Writer.i64 out waypoint.created_at_ms
  let out = Writer.i64 out waypoint.revision
  put_marker out waypoint negotiated_minor

unfoldable pub put_waypoints : List ℕ → List Waypoint → ℤ → Result EncodeError (List ℕ)
put_waypoints out [] negotiated_minor = ok out
put_waypoints out (w ∷ ws) negotiated_minor = do
  out ← put_waypoint out w negotiated_minor
  put_waypoints out ws negotiated_minor

-- `negotiated_minor.max(0)`
unfoldable pub max_zero : ℤ → ℤ
max_zero minor = if ltb_ℤ minor (pos 0) then pos 0 else minor

unfoldable pub encode_status : Status → ℤ → Result EncodeError (List ℕ)
encode_status m negotiated_minor = do
  let minor = max_zero negotiated_minor
  let out = Writer.u8 [] 0x02
  let out = Writer.i32 out m.major
  let out = Writer.i32 out minor
  let out = Writer.bool out m.supported
  let out = Writer.bool out m.enabled
  let out = Writer.bool out m.operator
  out ← put_utf out m.world_id Field.world_id
  let out = Writer.i64 out m.revision
  let out = Writer.i32 out m.max_world
  let out = Writer.i32 out m.max_player
  ok (if ltb_ℤ minor (pos 2) then out else Writer.bool out m.owner_management_allowed)

unfoldable pub encode : Outbound → ℤ → Result EncodeError (List ℕ)
unfolding encode_status
encode (status m) negotiated_minor = encode_status m negotiated_minor
encode (snapshot revision operator waypoints) negotiated_minor =
    if ltb max_snapshot_waypoints (length waypoints)
    then err (too_many_waypoints (length waypoints))
    else do
      let out = Writer.u8 [] 0x07
      let out = Writer.i64 out revision
      let out = Writer.bool out operator
      let out = Writer.u16 out (length waypoints)
      put_waypoints out waypoints negotiated_minor
encode (upsert revision waypoint) negotiated_minor = do
  let out = Writer.u8 [] 0x08
  let out = Writer.i64 out revision
  put_waypoint out waypoint negotiated_minor
encode (remove revision id) negotiated_minor = do
  let out = Writer.u8 [] 0x09
  let out = Writer.i64 out revision
  ok (Writer.uuid out id)
encode (result operation_id code error) negotiated_minor = do
  let out = Writer.u8 [] 0x0a
  let out = Writer.uuid out operation_id
  let out = Writer.i32 out code
  ok (Writer.i32 out error)
