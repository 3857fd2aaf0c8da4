-- ===== src/Waypoints/Proto/RoundTrip.antt =====
-- `decode` against the frames that a client writes.
use confluxmap_pumpkin.Base.{
  ℕ, suc, ◌≤◌, ◌≡◌, refl, sym, ap, ◌∙◌, Bool, true, false, List, [], ◌++◌, append_assoc, arith,
  length, length-append, if◌then◌else◌, ltb, ◌==◌,
}
use mathlib.Core.Path.{subst}
use confluxmap_pumpkin.Base.Int.{ℤ, pos, ltb_ℤ, IsI32, IsI64}
use confluxmap_pumpkin.Identity.{Uid, IsId}
use confluxmap_pumpkin.Wire.Bytes.{to_be}
use confluxmap_pumpkin.Wire.Encoding.{i32_bytes, i64_bytes, bool_bytes, id_bytes, utf_bytes}
use confluxmap_pumpkin.Wire.Bounds.{InBounds}
use confluxmap_pumpkin.Wire.Reader
use confluxmap_pumpkin.Wire.Reader.{Reader, Read, advance, new}
use confluxmap_pumpkin.Wire.RoundTrip.{
  ahead, ahead-advance, inside-advance, positions, Reads, u8-Reads, i32-Reads, i64-Reads, f64-Reads,
  bool-Reads, utf-Reads, uuid-Reads,
}
use confluxmap_pumpkin.Waypoints.Proto.Messages.{
  WaypointKind, normal, death, Str, Inbound, hello, subscribe, create, update, delete, lock,
  CreateRequest, UpdateRequest, Field, DecodeError, invalid, trailing, max_utf8_bytes, ok, err,
  kind_wire, kind_from_wire,
}
use confluxmap_pumpkin.Waypoints.Proto.Decode.{
  Parse, ◌>>=◌, pure, ◌or_else◌, finite, kind, marker_utf, decode_hello, decode_create,
  decode_update, decode_delete, decode_lock, decode_body, is_known, is_serverbound, finish, decode,
}
use confluxmap_pumpkin.Waypoints.Proto.Frames.{
  kind_bytes, marker_bytes, frame_body, type_byte, frame, FitsUtf, IsFinite, FitsMarker, Fits,
}

-- `m` turns the bytes `bs`, whatever follows them, into `a`, and consumes just them.
pub record Parses {ℓ} {A : Type ℓ} (m : Parse A) (bs : List ℕ) (a : A) : Type ℓ where
  pub at :
      (r : Reader) (rest : List ℕ)
      → InBounds r
      → ahead r ≡ bs ++ rest
      → m r ≡ (ok a, advance (length bs) r)

Parses-pure {ℓ} : {A : Type ℓ} (a : A) → Parses (pure a) [] a
Parses-pure a = record { at = λ r rest i e. ap (λ k. (ok a, record r { pos = k })) (omega arith) }

Parses-or_else {ℓ} :
    {A : Type ℓ} (m : Read A) (e : DecodeError) (bs : List ℕ) (a : A)
    → Reads m bs a
    → Parses (m or_else e) bs a
Parses-or_else m e bs a p = record { at = λ r rest i h. rw (p.at r rest i h) }

module _ {ℓ κ} {A : Type ℓ} {B : Type κ} where
  Parses-bind :
      {m : Parse A} {bs cs : List ℕ} {a : A} {b : B} (f : A → Parse B)
      → Parses m bs a
      → Parses (f a) cs b
      → Parses (m >>= f) (bs ++ cs) b
  Parses-bind {bs} {cs} {a} {b} f p q = record {
    at = λ r rest i e.
        let e' : ahead r ≡ bs ++ (cs ++ rest) = e ∙ append_assoc bs cs rest in
        rw
          (
            p.at r (cs ++ rest) i e',
            q.at (advance (length bs) r) rest (inside-advance r bs _ i e')
                (ahead-advance r bs _ e'),
          )
          (ap (λ k. (ok b, record r { pos = k })) (positions r.pos bs cs));
  }

  -- The last field of a message.
  Parses-map :
      {m : Parse A} {bs : List ℕ} {a : A} (f : A → B)
      → Parses m bs a
      → Parses (m >>= λ x. pure (f x)) bs (f a)
  Parses-map f p = record { at = λ r rest i e. rw (p.at r rest i e) }

finite-Parses : (field : Field) (v : ℕ) → IsFinite v → Parses (finite field) (to_be 8 v) v
unfolding finite
finite-Parses field v h = record { at = λ r rest i e. rw ((f64-Reads v h.0).at r rest i e, h.1) }

kind-Parses : (k : WaypointKind) → Parses kind (kind_bytes k) k
unfolding kind kind_wire kind_from_wire
kind-Parses normal = record { at = λ r rest i e. rw ((u8-Reads 0).at r rest i e) }
kind-Parses death = record { at = λ r rest i e. rw ((u8-Reads 1).at r rest i e) }

utf-Parses :
    (e : DecodeError) (s : Str)
    → FitsUtf s
    → Parses (Reader.utf max_utf8_bytes or_else e) (utf_bytes s) s
utf-Parses e s h =
    Parses-or_else (Reader.utf max_utf8_bytes) e (utf_bytes s) s
      (utf-Reads max_utf8_bytes s h.0 h.1 (omega arith))

gated-Parses :
    (b : Bool) (e : DecodeError) (s : Str)
    → (if b then s ≡ [] else FitsUtf s)
    → Parses
        (if b then pure [] else (Reader.utf max_utf8_bytes or_else e))
        (if b then [] else utf_bytes s)
        s
gated-Parses true e s h = subst (λ t. Parses (pure []) [] t) (sym h) (Parses-pure [])
gated-Parses false e s h = utf-Parses e s h

marker-Parses :
    (minor : ℤ) (field : Field) (s : Str)
    → FitsMarker minor s
    → Parses (marker_utf minor field) (marker_bytes minor s) s
unfolding marker_utf
marker-Parses minor field s h = gated-Parses (ltb_ℤ minor (pos 3)) (invalid field) s h

module _ (e : DecodeError) where
  id-Parses : (a : Uid) → IsId a → Parses (Reader.uuid or_else e) (id_bytes a) a
  id-Parses a h = Parses-or_else Reader.uuid e (id_bytes a) a (uuid-Reads a h)

  i32-Parses : (v : ℤ) → IsI32 v → Parses (Reader.i32 or_else e) (i32_bytes v) v
  i32-Parses v h = Parses-or_else Reader.i32 e (i32_bytes v) v (i32-Reads v h)

  i64-Parses : (v : ℤ) → IsI64 v → Parses (Reader.i64 or_else e) (i64_bytes v) v
  i64-Parses v h = Parses-or_else Reader.i64 e (i64_bytes v) v (i64-Reads v h)

hello-Parses :
    (major own : ℤ)
    → IsI32 major
    → IsI32 own
    → Parses decode_hello (i32_bytes major ++ i32_bytes own) (hello major own)
unfolding decode_hello
hello-Parses major own h k =
    Parses-bind _ (i32-Parses _ major h) (Parses-map (hello major) (i32-Parses _ own k))

create-Parses :
    (minor : ℤ) (q : CreateRequest)
    → Fits minor (create q)
    → Parses (decode_create minor) (frame_body minor (create q)) (create q)
unfolding decode_create frame_body
create-Parses minor q (op, rev, name, dim, x, y, z, color, icon, label) =
    Parses-bind _ (id-Parses _ q.operation_id op) (
      Parses-bind _ (i64-Parses _ q.expected_revision rev) (
        Parses-bind _ (utf-Parses _ q.name name) (
          Parses-bind _ (utf-Parses _ q.dimension_id dim) (
            Parses-bind _ (finite-Parses _ q.x x) (
              Parses-bind _ (finite-Parses _ q.y y) (
                Parses-bind _ (finite-Parses _ q.z z) (
                  Parses-bind _ (i32-Parses _ q.color color) (
                    Parses-bind _ (kind-Parses q.kind) (
                      Parses-bind _ (marker-Parses minor _ q.icon_item_id icon)
                        (Parses-map _ (marker-Parses minor _ q.marker_label label)))))))))))

update-Parses :
    (minor : ℤ) (q : UpdateRequest)
    → Fits minor (update q)
    → Parses (decode_update minor) (frame_body minor (update q)) (update q)
unfolding decode_update frame_body
update-Parses minor q (op, id, rev, name, dim, x, y, z, color, icon, label) =
    Parses-bind _ (id-Parses _ q.operation_id op) (
      Parses-bind _ (id-Parses _ q.id id) (
        Parses-bind _ (i64-Parses _ q.expected_revision rev) (
          Parses-bind _ (utf-Parses _ q.name name) (
            Parses-bind _ (utf-Parses _ q.dimension_id dim) (
              Parses-bind _ (finite-Parses _ q.x x) (
                Parses-bind _ (finite-Parses _ q.y y) (
                  Parses-bind _ (finite-Parses _ q.z z) (
                    Parses-bind _ (i32-Parses _ q.color color) (
                      Parses-bind _ (kind-Parses q.kind) (
                        Parses-bind _ (marker-Parses minor _ q.icon_item_id icon)
                          (Parses-map _ (marker-Parses minor _ q.marker_label label))))))))))))

body-Parses :
    (minor : ℤ) (m : Inbound)
    → Fits minor m
    → Parses (decode_body (type_byte m) minor) (frame_body minor m) m
unfolding decode_body type_byte frame_body decode_delete decode_lock
body-Parses minor (hello major own) (h, k) = hello-Parses major own h k
body-Parses minor subscribe h = Parses-pure subscribe
body-Parses minor (create q) h = create-Parses minor q h
body-Parses minor (update q) h = update-Parses minor q h
body-Parses minor (delete q) (op, id, rev) =
    Parses-bind _ (id-Parses _ q.operation_id op)
      (Parses-bind _ (id-Parses _ q.id id) (Parses-map _ (i64-Parses _ q.expected_revision rev)))
body-Parses minor (lock q) (op, id, rev) = Parses-bind _ (id-Parses _ q.operation_id op) (
    Parses-bind _ (id-Parses _ q.id id) (
      Parses-bind _ (i64-Parses _ q.expected_revision rev) (
        Parses-map _
          (Parses-or_else Reader.bool _ (bool_bytes q.locked) q.locked (bool-Reads q.locked)))))

c2s_type : (m : Inbound) → (is_known (type_byte m) ≡ true) × (is_serverbound (type_byte m) ≡ false)
unfolding is_known is_serverbound type_byte
c2s_type (hello _ _) = (refl, refl)
c2s_type subscribe = (refl, refl)
c2s_type (create _) = (refl, refl)
c2s_type (update _) = (refl, refl)
c2s_type (delete _) = (refl, refl)
c2s_type (lock _) = (refl, refl)

not_over : (n : ℕ) → suc n ≤ 8192 → ltb 8192 (suc n) ≡ false
not_over n h = ground arith

remaining-advance :
    (bs extra : List ℕ) → Reader.remaining (advance (length bs) (new (bs ++ extra))) ≡ length extra
unfolding Reader.remaining
remaining-advance bs extra = omega (arith, length-append bs extra)

-- A frame of at most 8192 bytes that a client wrote, with `extra` bytes behind it, decodes to its
-- message if `extra` is empty, and is refused for the number of trailing bytes if it is not.
pub decode-frame :
    (minor : ℤ) (m : Inbound) (extra : List ℕ)
    → Fits minor m
    → length (frame minor m ++ extra) ≤ 8192
    → decode (frame minor m ++ extra) minor
      ≡ (if length extra == 0 then ok m else err (trailing (length extra)))
unfolding decode frame finish
decode-frame minor m extra h small = rw (
  not_over (length (frame_body minor m ++ extra)) small,
  (c2s_type m).0,
  (c2s_type m).1,
  (body-Parses minor m h).at (new (frame_body minor m ++ extra)) extra (omega arith) refl,
  remaining-advance (frame_body minor m) extra,
)
