-- ===== src/Waypoints/Proto/Safety.antt =====
-- `decode` on any payload: the cursor stays inside, and no message type falls through the `match`.
use confluxmap_pumpkin.Base.{
  ℕ, ◌≤◌, ◌≡◌, ◌≢◌, ap, Bool, true, false, Option, none, some, List, [], ◌∷◌, arith, length,
  if◌then◌else◌, ltb, ◌==◌, Bool-cases, inl, inr,
}
use confluxmap_pumpkin.Base.Int.{ℤ}
use confluxmap_pumpkin.Wire.Reader.{Reader, Read, new}
use confluxmap_pumpkin.Wire.Bounds.{
  Within, Within-refl, Within-trans, Moves, Moves-lift, u8-Moves, i32-Moves, i64-Moves, f64-Moves,
  bool-Moves, utf-Moves, uuid-Moves,
}
use confluxmap_pumpkin.Waypoints.Proto.Messages.{
  Inbound, subscribe, Field, DecodeError, unhandled, truncated, invalid, not_finite, unknown_kind,
  bad_locked, Result, ok, err,
}
use confluxmap_pumpkin.Waypoints.Proto.Decode.{
  Parse, continue, or_err, ◌>>=◌, pure, fail, ◌or_else◌, finite, kind, marker_utf, decode_hello,
  decode_create, decode_update, decode_delete, decode_lock, decode_body, is_known, is_serverbound,
  finish, decode,
}

-- An error that some step of a message may report.
abbrev pub Handled : DecodeError → Type 0
Handled e = (t : ℕ) → e ≢ unhandled t

abbrev Answers {ℓ} : {A : Type ℓ} → Result DecodeError A → Type 0
Answers (ok a) = Unit {0}
Answers (err e) = Handled e

pub record Safe {ℓ} {A : Type ℓ} (m : Parse A) : Type ℓ where
  pub moves : (r : Reader) → Within r (m r).1
  pub answers : (r : Reader) → Answers (m r).0

module _ {ℓ} {A : Type ℓ} where
  Safe-pure : (a : A) → Safe (pure a)
  Safe-pure a = record { moves = Within-refl; answers = λ r. tt }

  Safe-fail : (e : DecodeError) → Handled e → Safe (fail {A = A} e)
  Safe-fail e h = record { moves = Within-refl; answers = λ r. h }

  or_err-Answers : (e : DecodeError) (o : Option A) → Handled e → Answers (or_err e o)
  or_err-Answers e none h = h
  or_err-Answers e (some a) h = tt

  Safe-or_else : (m : Read A) (e : DecodeError) → Moves m → Handled e → Safe (m or_else e)
  Safe-or_else m e p h = record { moves = p.at; answers = λ r. or_err-Answers e (m r).0 h }

  Safe-if : (b : Bool) (m n : Parse A) → Safe m → Safe n → Safe (if b then m else n)
  Safe-if true m n p q = p
  Safe-if false m n p q = q

module _ {ℓ κ} {A : Type ℓ} {B : Type κ} where
  Within-continue :
      (o : Result DecodeError A) (f : A → Parse B) (r : Reader)
      → ((a : A) → Safe (f a))
      → Within r (continue o f r).1
  Within-continue (ok a) f r h = (h a).moves r
  Within-continue (err e) f r h = Within-refl r

  continue-Answers :
      (o : Result DecodeError A) (f : A → Parse B) (r : Reader)
      → Answers o
      → ((a : A) → Safe (f a))
      → Answers (continue o f r).0
  continue-Answers (ok a) f r p h = (h a).answers r
  continue-Answers (err e) f r p h = p

  Safe-bind : (m : Parse A) (f : A → Parse B) → Safe m → ((a : A) → Safe (f a)) → Safe (m >>= f)
  Safe-bind m f p h = record {
    moves = λ r. Within-trans (p.moves r) (Within-continue (m r).0 f (m r).1 h);
    answers = λ r. continue-Answers (m r).0 f (m r).1 (p.answers r) h;
  }

truncated-Handled : (field : Field) → Handled (truncated field)
truncated-Handled field t e = cc

invalid-Handled : (field : Field) → Handled (invalid field)
invalid-Handled field t e = cc

not_finite-Handled : (field : Field) → Handled (not_finite field)
not_finite-Handled field t e = cc

unknown_kind-Handled : (v : ℕ) → Handled (unknown_kind v)
unknown_kind-Handled v t e = cc

bad_locked-Handled : Handled bad_locked
bad_locked-Handled t e = cc

ruleset safe_rules = (
  Safe-pure, Safe-fail, Safe-or_else, Safe-if, Safe-bind, truncated-Handled, invalid-Handled,
  not_finite-Handled, unknown_kind-Handled, bad_locked-Handled, Moves-lift, u8-Moves, i32-Moves,
  i64-Moves, f64-Moves, bool-Moves, utf-Moves, uuid-Moves,
)

finite-Safe : (field : Field) → Safe (finite field)
unfolding finite
finite-Safe field = search safe_rules

kind-Safe : Safe kind
unfolding kind
kind-Safe = search safe_rules

marker_utf-Safe : (minor : ℤ) (field : Field) → Safe (marker_utf minor field)
unfolding marker_utf
marker_utf-Safe minor field = search safe_rules

ruleset field_rules = (safe_rules, finite-Safe, kind-Safe, marker_utf-Safe)

hello-Safe : Safe decode_hello
unfolding decode_hello
hello-Safe = search field_rules depth 12

lock-Safe : Safe decode_lock
unfolding decode_lock
lock-Safe = search field_rules depth 20

delete-Safe : Safe decode_delete
unfolding decode_delete
delete-Safe = search field_rules depth 20

create-Safe : (minor : ℤ) → Safe (decode_create minor)
unfolding decode_create
create-Safe minor = search field_rules depth 40

update-Safe : (minor : ℤ) → Safe (decode_update minor)
unfolding decode_update
update-Safe minor = search field_rules depth 40

body-Safe :
    (t : ℕ) (minor : ℤ) → is_known t ≡ true → is_serverbound t ≡ false → Safe (decode_body t minor)
unfolding decode_body is_known is_serverbound
body-Safe t minor h k = elim (Bool-cases (t == 0x01)) [
  | inl e ↦ rw e hello-Safe
  | inr a ↦ rw a (elim (Bool-cases (t == 0x03)) [
    | inl e ↦ rw e (Safe-pure subscribe)
    | inr b ↦ rw b (elim (Bool-cases (t == 0x04)) [
      | inl e ↦ rw e (create-Safe minor)
      | inr c ↦ rw c (elim (Bool-cases (t == 0x0b)) [
        | inl e ↦ rw e (update-Safe minor)
        | inr d ↦ rw d (elim (Bool-cases (t == 0x05)) [
          | inl e ↦ rw e delete-Safe
          | inr f ↦ rw f (elim (Bool-cases (t == 0x06)) [
            | inl e ↦ rw e lock-Safe
            | inr g ↦ absurd (ground arith)
          ])
        ])
      ])
    ])
  ])
]

finish-Handled :
    (o : Result DecodeError Inbound) (r : Reader) (t : ℕ)
    → Answers o
    → finish (o, r) ≢ err (unhandled t)
unfolding finish
finish-Handled (ok m) r t h = ground arith
finish-Handled (err e) r t h = λ p. h t (ground arith)

-- On no payload does `decode` reach the arm of its `match` for a type that no arm handles.
pub decode-ne-unhandled :
    (payload : List ℕ) (minor : ℤ) (t : ℕ) → decode payload minor ≢ err (unhandled t)
unfolding decode
decode-ne-unhandled [] minor t = ground arith
decode-ne-unhandled (b ∷ body) minor t = elim (Bool-cases (ltb 8192 (length (b ∷ body)))) [
  | inl e ↦ rw e (ground arith)
  | inr e ↦ rw e (elim (Bool-cases (is_known b)) [
    | inr k ↦ rw k (ground arith)
    | inl k ↦ rw k (elim (Bool-cases (is_serverbound b)) [
      | inl s ↦ rw s (ground arith)
      | inr s ↦ rw s (
          finish-Handled (decode_body b minor (new body)).0 (decode_body b minor (new body)).1 t
            ((body-Safe b minor k s).answers (new body)))
    ])
  ])
]

-- On a body of any bytes, for each message that a client may send, `decode` leaves the cursor inside
-- the body, at or behind where it was.
pub decode_body-InBounds :
    (t : ℕ) (minor : ℤ) (body : List ℕ) (from : ℕ)
    → is_known t ≡ true
    → is_serverbound t ≡ false
    → from ≤ length body
    → (from ≤ (decode_body t minor (record { buf = body; pos = from })).1.pos)
      × ((decode_body t minor (record { buf = body; pos = from })).1.pos ≤ length body)
decode_body-InBounds t minor body from k s h =
    let moved = (body-Safe t minor k s).moves (record { buf = body; pos = from }) in
    (moved.forward, omega (arith, moved.inside h, ap length moved.same))
