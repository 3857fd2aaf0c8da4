-- ===== src/Waypoints/Proto/Frames.antt =====
-- The frames that a client writes, and what their fields may hold.
use confluxmap_pumpkin.Base.{ℕ, ◌≤◌, ◌≡◌, true, List, [], ◌∷◌, ◌++◌, length, if◌then◌else◌}
use confluxmap_pumpkin.Base.Int.{ℤ, pos, ltb_ℤ, IsI32, IsI64}
use confluxmap_pumpkin.Identity.{IsId}
use confluxmap_pumpkin.Float
use confluxmap_pumpkin.Float.{IsF64}
use confluxmap_pumpkin.Wire.Bytes.{to_be}
use confluxmap_pumpkin.Wire.Encoding.{i32_bytes, i64_bytes, bool_bytes, id_bytes, utf_bytes}
use confluxmap_pumpkin.Wire.Utf8.{IsUtf8}
use confluxmap_pumpkin.Wire.RoundTrip.{}
use confluxmap_pumpkin.Waypoints.Proto.Messages.{
  WaypointKind, Str, Inbound, hello, subscribe, create, update, delete, lock, kind_wire,
}
use confluxmap_pumpkin.Waypoints.Proto.Decode.{}

abbrev pub kind_bytes : WaypointKind → List ℕ
kind_bytes k = kind_wire k ∷ []

-- Both marker fields stand on the wire from minor 3 on.
abbrev pub marker_bytes : ℤ → Str → List ℕ
marker_bytes minor s = if ltb_ℤ minor (pos 3) then [] else utf_bytes s

-- The frame that a client sends for a message.
unfoldable pub frame_body : ℤ → Inbound → List ℕ
frame_body minor (hello major own) = i32_bytes major ++ i32_bytes own
frame_body minor subscribe = []
frame_body minor (create q) =
    id_bytes q.operation_id
    ++ (i64_bytes q.expected_revision
        ++ (utf_bytes q.name
            ++ (utf_bytes q.dimension_id
                ++ (to_be 8 q.x
                    ++ (to_be 8 q.y
                        ++ (to_be 8 q.z
                            ++ (i32_bytes q.color
                                ++ (kind_bytes q.kind
                                    ++ (marker_bytes minor q.icon_item_id
                                        ++ marker_bytes minor q.marker_label)))))))))
frame_body minor (update q) =
    id_bytes q.operation_id
    ++ (id_bytes q.id
        ++ (i64_bytes q.expected_revision
            ++ (utf_bytes q.name
                ++ (utf_bytes q.dimension_id
                    ++ (to_be 8 q.x
                        ++ (to_be 8 q.y
                            ++ (to_be 8 q.z
                                ++ (i32_bytes q.color
                                    ++ (kind_bytes q.kind
                                        ++ (marker_bytes minor q.icon_item_id
                                            ++ marker_bytes minor q.marker_label))))))))))
frame_body minor (delete q) =
    id_bytes q.operation_id ++ (id_bytes q.id ++ i64_bytes q.expected_revision)
frame_body minor (lock q) =
    id_bytes q.operation_id
    ++ (id_bytes q.id ++ (i64_bytes q.expected_revision ++ bool_bytes q.locked))

unfoldable pub type_byte : Inbound → ℕ
type_byte (hello _ _) = 0x01
type_byte subscribe = 0x03
type_byte (create _) = 0x04
type_byte (update _) = 0x0b
type_byte (delete _) = 0x05
type_byte (lock _) = 0x06

unfoldable pub frame : ℤ → Inbound → List ℕ
unfolding type_byte frame_body
frame minor m = type_byte m ∷ frame_body minor m

-- What the fields of a message may hold on the wire.
abbrev pub FitsUtf : Str → Type 0
FitsUtf s = IsUtf8 s × (length s ≤ 256)

abbrev pub IsFinite : ℕ → Type 0
IsFinite v = IsF64 v × (Float.is_finite v ≡ true)

-- A marker field that is not on the wire is empty.
abbrev pub FitsMarker : ℤ → Str → Type 0
FitsMarker minor s = if ltb_ℤ minor (pos 3) then s ≡ [] else FitsUtf s

abbrev pub Fits : ℤ → Inbound → Type 0
Fits minor (hello major own) = IsI32 major × IsI32 own
Fits minor subscribe = Unit {0}
Fits minor (create q) =
    IsId q.operation_id
    × IsI64 q.expected_revision
    × FitsUtf q.name
    × FitsUtf q.dimension_id
    × IsFinite q.x
    × IsFinite q.y
    × IsFinite q.z
    × IsI32 q.color
    × FitsMarker minor q.icon_item_id
    × FitsMarker minor q.marker_label
Fits minor (update q) =
    IsId q.operation_id
    × IsId q.id
    × IsI64 q.expected_revision
    × FitsUtf q.name
    × FitsUtf q.dimension_id
    × IsFinite q.x
    × IsFinite q.y
    × IsFinite q.z
    × IsI32 q.color
    × FitsMarker minor q.icon_item_id
    × FitsMarker minor q.marker_label
Fits minor (delete q) = IsId q.operation_id × IsId q.id × IsI64 q.expected_revision
Fits minor (lock q) = IsId q.operation_id × IsId q.id × IsI64 q.expected_revision
