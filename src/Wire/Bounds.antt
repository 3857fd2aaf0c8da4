-- ===== src/Wire/Bounds.antt =====
-- The cursor never passes the end of the buffer, whatever the bytes are.
use confluxmap_pumpkin.Base.{
  ℕ, zero, suc, ◌≤◌, ◌≡◌, refl, ◌∙◌, Bool, true, false, Option, none, some, List, [], ◌∷◌, arith,
  length, get_elem?, if◌then◌else◌,
}
use confluxmap_pumpkin.Wire.Reader
use confluxmap_pumpkin.Wire.Reader.{Reader, Read, continue, pure, fail, lift, ◌>>=◌}

-- The buffer is kept, and the cursor moves forward within it.
pub record Within (r r' : Reader) : Type 0 where
  pub same : r'.buf ≡ r.buf
  pub forward : r.pos ≤ r'.pos
  pub inside : r.pos ≤ length r.buf → r'.pos ≤ length r'.buf

pub record Moves {ℓ} {A : Type ℓ} (m : Read A) : Type ℓ where
  pub at : (r : Reader) → Within r (m r).1

abbrev pub InBounds : Reader → Type 0
InBounds r = r.pos ≤ length r.buf

pub Within-refl : (r : Reader) → Within r r
Within-refl r = ground arith

pub Within-trans : {a b c : Reader} → Within a b → Within b c → Within a c
Within-trans {a} {b} {c} p q = record {
  same = q.same ∙ p.same;
  forward = omega arith;
  inside = λ h. q.inside (p.inside h);
}

module _ {ℓ} {A : Type ℓ} where
  pub Moves-pure : (a : A) → Moves (pure a)
  Moves-pure a = record { at = Within-refl }

  pub Moves-fail : Moves (fail {A = A})
  Moves-fail = record { at = Within-refl }

  pub Moves-lift : (o : Option A) → Moves (lift o)
  Moves-lift o = record { at = Within-refl }

  pub Moves-if : (b : Bool) (m n : Read A) → Moves m → Moves n → Moves (if b then m else n)
  Moves-if true m n p q = p
  Moves-if false m n p q = q

module _ {ℓ κ} {A : Type ℓ} {B : Type κ} where
  Within-continue :
      (o : Option A) (f : A → Read B) (r : Reader)
      → ((a : A) → Moves (f a))
      → Within r (continue o f r).1
  Within-continue none f r h = Within-refl r
  Within-continue (some a) f r h = (h a).at r

  pub Moves-bind :
      (m : Read A) (f : A → Read B) → Moves m → ((a : A) → Moves (f a)) → Moves (m >>= f)
  Moves-bind m f p h = record {
    at = λ r. Within-trans (p.at r) (Within-continue (m r).0 f (m r).1 h);
  }

pub ruleset moves_rules = (Moves-pure, Moves-fail, Moves-lift, Moves-if, Moves-bind)

elem-lt : {A : Type 0} (xs : List A) (i : ℕ) (a : A) → get_elem? xs i ≡ some a → suc i ≤ length xs
elem-lt [] i a h = cc
elem-lt (x ∷ xs) zero a h = omega arith
elem-lt (x ∷ xs) (suc i) a h = omega (arith, elem-lt xs i a h)

Within-byte_at :
    (o : Option ℕ) (r : Reader) → get_elem? r.buf r.pos ≡ o → Within r (Reader.byte_at o r).1
unfolding Reader.byte_at
Within-byte_at none r e = Within-refl r
Within-byte_at (some b) r e = record {
  same = refl;
  forward = omega arith;
  inside = λ h. omega (arith, elem-lt r.buf r.pos b e);
}

pub u8-Moves : Moves Reader.u8
unfolding Reader.u8
u8-Moves = record { at = λ r. Within-byte_at (get_elem? r.buf r.pos) r refl }

pub u16-Moves : Moves Reader.u16
unfolding Reader.u16
u16-Moves = search (moves_rules, u8-Moves)

pub bytes-Moves : (n : ℕ) → Moves (Reader.bytes n)
unfolding Reader.bytes
bytes-Moves zero = Moves-pure []
bytes-Moves (suc n) =
    Moves-bind _ _ u8-Moves (λ b. Moves-bind _ _ (bytes-Moves n) (λ bs. Moves-pure (b ∷ bs)))

pub i32-Moves : Moves Reader.i32
unfolding Reader.i32
i32-Moves = Moves-bind _ _ (bytes-Moves 4) (λ bs. Moves-pure _)

pub i64-Moves : Moves Reader.i64
unfolding Reader.i64
i64-Moves = Moves-bind _ _ (bytes-Moves 8) (λ bs. Moves-pure _)

pub f64-Moves : Moves Reader.f64
unfolding Reader.f64
f64-Moves = Moves-bind _ _ (bytes-Moves 8) (λ bs. Moves-pure _)

pub bool-Moves : Moves Reader.bool
unfolding Reader.bool
bool-Moves = Moves-bind _ _ u8-Moves (λ b. Moves-lift _)

pub slice-Moves : (len : ℕ) → Moves (Reader.slice len)
unfolding Reader.slice
slice-Moves len = record { at = λ r. ground arith }

pub utf-Moves : (max : ℕ) → Moves (Reader.utf max)
unfolding Reader.utf
utf-Moves max =
    Moves-bind _ _ u16-Moves
      λ len. Moves-if _ _ _ Moves-fail (Moves-bind _ _ (slice-Moves len) (λ bs. Moves-lift _))

pub uuid-Moves : Moves Reader.uuid
unfolding Reader.uuid
uuid-Moves = Moves-bind _ _ i64-Moves (λ h. Moves-bind _ _ i64-Moves (λ l. Moves-pure _))

pub ruleset reader_moves = (
  moves_rules, u8-Moves, u16-Moves, i32-Moves, i64-Moves, f64-Moves, bool-Moves, utf-Moves,
  uuid-Moves,
)
