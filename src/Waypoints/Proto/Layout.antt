-- ===== src/Waypoints/Proto/Layout.antt =====
-- What `encode` writes, field by field, and when it refuses.
use confluxmap_pumpkin.Base.{
  ℕ, ◌≤◌, ◌≡◌, refl, sym, ap, ◌∙◌, Bool, true, false, List, [], ◌∷◌, ◌++◌, append_assoc, append-nil,
  arith, length, if◌then◌else◌, ltb, ◌↔◌, All, Bool-cases, inl, inr,
}
use confluxmap_pumpkin.Base.Int.{ℤ, pos, ltb_ℤ}
use confluxmap_pumpkin.Identity.{IsId}
use confluxmap_pumpkin.Float
use confluxmap_pumpkin.Wire.Bytes.{to_be}
use confluxmap_pumpkin.Wire.Encoding.{
  i32_bytes, i64_bytes, bool_bytes, id_bytes, utf_bytes, uuid_appends, utf_appends,
}
use confluxmap_pumpkin.Wire.Writer
use confluxmap_pumpkin.Waypoints.Proto.Messages.{
  Str, Waypoint, snapshot, Field, EncodeError, Result, ok, err, kind_wire,
}
use confluxmap_pumpkin.Waypoints.Proto.Encode.{
  ◌>>=◌, put_utf, put_coordinate, put_marker, put_waypoint, put_waypoints, encode,
}

abbrev marker_bytes : ℤ → Waypoint → List ℕ
marker_bytes minor w =
    if ltb_ℤ minor (pos 3) then [] else utf_bytes w.icon_item_id ++ utf_bytes w.marker_label

-- One entry of a snapshot.
pub waypoint_bytes : ℤ → Waypoint → List ℕ
waypoint_bytes minor w =
    id_bytes w.id
    ++ (id_bytes w.publisher_id
        ++ (utf_bytes w.publisher_name
            ++ (utf_bytes w.name
                ++ (utf_bytes w.dimension_id
                    ++ (to_be 8 w.x
                        ++ (to_be 8 w.y
                            ++ (to_be 8 w.z
                                ++ (i32_bytes w.color_argb
                                    ++ (kind_wire w.kind ∷ 0 ∷ []
                                        ++ (i64_bytes w.created_at_ms
                                            ++ (i64_bytes w.revision
                                                ++ marker_bytes minor w)))))))))))

pub entries_bytes : ℤ → List Waypoint → List ℕ
entries_bytes minor [] = []
entries_bytes minor (w ∷ ws) = waypoint_bytes minor w ++ entries_bytes minor ws

-- Marker fields count only where they are written.
abbrev pub MarkersFit : ℤ → Waypoint → Type 0
MarkersFit minor w =
    if ltb_ℤ minor (pos 3)
    then Unit {0}
    else (length w.icon_item_id ≤ 256) × (length w.marker_label ≤ 256)

pub record Encodable (minor : ℤ) (w : Waypoint) : Type 0 where
  pub publisher_name : length w.publisher_name ≤ 256
  pub name : length w.name ≤ 256
  pub dimension_id : length w.dimension_id ≤ 256
  pub x : Float.is_finite w.x ≡ true
  pub y : Float.is_finite w.y ≡ true
  pub z : Float.is_finite w.z ≡ true
  pub markers : MarkersFit minor w

abbrev pub HasIds : Waypoint → Type 0
HasIds w = IsId w.id × IsId w.publisher_id

put_utf-eq :
    (out : List ℕ) (s : Str) (f : Field)
    → length s ≤ 256
    → put_utf out s f ≡ ok (out ++ utf_bytes s)
unfolding put_utf
put_utf-eq out s f h = rw (utf_appends out s 256 h)

put_coordinate-eq :
    (out : List ℕ) (v : ℕ) (f : Field)
    → Float.is_finite v ≡ true
    → put_coordinate out v f ≡ ok (out ++ to_be 8 v)
unfolding put_coordinate Writer.f64
put_coordinate-eq out v f h = rw h

put_marker-eq :
    (out : List ℕ) (w : Waypoint) (minor : ℤ)
    → MarkersFit minor w
    → put_marker out w minor ≡ ok (out ++ marker_bytes minor w)
unfolding put_marker
put_marker-eq out w minor h = elim (Bool-cases (ltb_ℤ minor (pos 3))) [
  | inl e ↦ rw (e, append-nil)
  | inr e ↦
      let (a, b) : (length w.icon_item_id ≤ 256) × (length w.marker_label ≤ 256) = (rw e at h) in
      rw (
        e,
        put_utf-eq out w.icon_item_id Field.icon_item_id a,
        put_utf-eq _ w.marker_label Field.marker_label b,
        append_assoc,
      )
]

-- An entry that fits is appended in its layout.
put_waypoint-eq :
    (out : List ℕ) (w : Waypoint) (minor : ℤ)
    → HasIds w
    → Encodable minor w
    → put_waypoint out w minor ≡ ok (out ++ waypoint_bytes minor w)
unfolding put_waypoint waypoint_bytes Writer.i32 Writer.u8 Writer.bool Writer.i64
put_waypoint-eq out w minor ids h =
    rw
      (
        uuid_appends _ w.id ids.0,
        uuid_appends _ w.publisher_id ids.1,
        put_utf-eq _ w.publisher_name _ h.publisher_name,
        put_utf-eq _ w.name _ h.name,
        put_utf-eq _ w.dimension_id _ h.dimension_id,
        put_coordinate-eq _ w.x _ h.x,
        put_coordinate-eq _ w.y _ h.y,
        put_coordinate-eq _ w.z _ h.z,
        put_marker-eq _ w minor h.markers,
      )
      (simp append_assoc)

put_waypoints-eq :
    (out : List ℕ) (ws : List Waypoint) (minor : ℤ)
    → All HasIds ws
    → All (Encodable minor) ws
    → put_waypoints out ws minor ≡ ok (out ++ entries_bytes minor ws)
unfolding put_waypoints entries_bytes
put_waypoints-eq out [] minor ids h = rw append-nil
put_waypoints-eq out (w ∷ ws) minor ids h = rw (put_waypoint-eq out w minor ids.0 h.0) (
    put_waypoints-eq (out ++ waypoint_bytes minor w) ws minor ids.1 h.1
    ∙ ap ok (append_assoc out (waypoint_bytes minor w) (entries_bytes minor ws)))

-- A chain that ends well had a good first step.
first_step {ℓ κ} :
    {A : Type ℓ} {B : Type κ} (r : Result EncodeError A) (k : A → Result EncodeError B) {out : B}
    → (r >>= k) ≡ ok out
    → (v : A) × (r ≡ ok v) × (k v ≡ ok out)
first_step (err e) k done = cc
first_step (ok v) k done = (v, refl, done)

put_utf_fits :
    (out : List ℕ) (s : Str) (f : Field) (out' : List ℕ)
    → put_utf out s f ≡ ok out'
    → length s ≤ 256
unfolding put_utf Writer.utf
put_utf_fits out s f out' h = ground arith

put_coordinate_fits :
    (out : List ℕ) (v : ℕ) (f : Field) (out' : List ℕ)
    → put_coordinate out v f ≡ ok out'
    → Float.is_finite v ≡ true
unfolding put_coordinate
put_coordinate_fits out v f out' h = ground arith

put_marker_fits :
    (out : List ℕ) (w : Waypoint) (minor : ℤ) (out' : List ℕ)
    → put_marker out w minor ≡ ok out'
    → MarkersFit minor w
unfolding put_marker
put_marker_fits out w minor out' h = elim (Bool-cases (ltb_ℤ minor (pos 3))) [
  | inl e ↦ rw e tt
  | inr e ↦
      let (a, p, q) =
        first_step (put_utf out w.icon_item_id Field.icon_item_id)
          (λ o. put_utf o w.marker_label Field.marker_label) {out = out'} (rw e at h) in
      rw e (put_utf_fits out w.icon_item_id _ a p, put_utf_fits a w.marker_label _ out' q)
]

-- An entry that is written fits.
put_waypoint-Encodable :
    (out : List ℕ) (w : Waypoint) (minor : ℤ) (out' : List ℕ)
    → put_waypoint out w minor ≡ ok out'
    → Encodable minor w
unfolding put_waypoint
put_waypoint-Encodable out w minor out' h =
    let (a, ha, ka) = first_step (put_utf _ w.publisher_name Field.publisher_name) _ h in
    let (b, hb, kb) = first_step (put_utf _ w.name Field.name) _ ka in
    let (c, hc, kc) = first_step (put_utf _ w.dimension_id Field.dimension_id) _ kb in
    let (d, hd, kd) = first_step (put_coordinate _ w.x Field.x) _ kc in
    let (e, he, ke) = first_step (put_coordinate _ w.y Field.y) _ kd in
    let (f, hf, kf) = first_step (put_coordinate _ w.z Field.z) _ ke in
    record {
      publisher_name = put_utf_fits _ w.publisher_name _ a ha;
      name = put_utf_fits _ w.name _ b hb;
      dimension_id = put_utf_fits _ w.dimension_id _ c hc;
      x = put_coordinate_fits _ w.x _ d hd;
      y = put_coordinate_fits _ w.y _ e he;
      z = put_coordinate_fits _ w.z _ f hf;
      markers = put_marker_fits _ w minor out' kf;
    }

-- The frame of a snapshot of at most 512 entries.
pub snapshot_bytes : ℤ → ℤ → Bool → List Waypoint → List ℕ
snapshot_bytes minor revision operator ws =
    0x07
    ∷ (i64_bytes revision
        ++ (bool_bytes operator ++ (to_be 2 (length ws) ++ entries_bytes minor ws)))

put_waypoints-Encodable :
    (out : List ℕ) (ws : List Waypoint) (minor : ℤ) (out' : List ℕ)
    → put_waypoints out ws minor ≡ ok out'
    → All (Encodable minor) ws
unfolding put_waypoints
put_waypoints-Encodable out [] minor out' h = tt
put_waypoints-Encodable out (w ∷ ws) minor out' h =
    let (a, ha, ka) = first_step (put_waypoint out w minor) (λ o. put_waypoints o ws minor) h in
    (put_waypoint-Encodable out w minor a ha, put_waypoints-Encodable a ws minor out' ka)

not_over : (n : ℕ) → n ≤ 512 → ltb 512 n ≡ false
not_over n h = ground arith

entries_iff :
    (out : List ℕ) (ws : List Waypoint) (minor : ℤ) (out' : List ℕ)
    → All HasIds ws
    → (put_waypoints out ws minor ≡ ok out')
      ↔ (All (Encodable minor) ws × (out' ≡ out ++ entries_bytes minor ws))
entries_iff out ws minor out' ids = (
  λ h.
      let fits = put_waypoints-Encodable out ws minor out' h in
      let e = put_waypoints-eq out ws minor ids fits in (fits, cc),
  λ h. put_waypoints-eq out ws minor ids h.0 ∙ ap ok (sym h.1),
)

-- A snapshot is encoded exactly when it has at most 512 entries and each of them fits the
-- negotiated shape; the frame is then the type byte, the revision, the operator flag, the count
-- and the entries in order.
pub encode-snapshot :
    (minor revision : ℤ) (operator : Bool) (ws : List Waypoint) (out : List ℕ)
    → All HasIds ws
    → (encode (snapshot revision operator ws) minor ≡ ok out) ↔ (
        (length ws ≤ 512)
        × All (Encodable minor) ws
        × (out ≡ snapshot_bytes minor revision operator ws))
unfolding encode snapshot_bytes Writer.u8 Writer.i64 Writer.bool Writer.u16
encode-snapshot minor revision operator ws out ids =
    let header : List ℕ =
      0x07 ∷ (i64_bytes revision ++ bool_bytes operator ++ to_be 2 (length ws)) in
    let layout : header ++ entries_bytes minor ws ≡ snapshot_bytes minor revision operator ws =
      simp append_assoc in
    (
      λ h. elim (Bool-cases (ltb 512 (length ws))) [
        | inl e ↦ absurd (ground arith)
        | inr e ↦
            let (fits, eq) = (entries_iff header ws minor out ids).0 (rw e at h) in
            (ground arith, fits, eq ∙ layout)
      ],
      λ (small, fits, eq).
          rw (not_over (length ws) small)
            ((entries_iff header ws minor out ids).1 (fits, eq ∙ sym layout)),
    )
