-- ===== src/Correction/Patch/Ends.antt =====
-- The end of a decoder, and the tests on its way.

use confluxmap_pumpkin.Base.{
  ℕ, ◌+◌, ◌≤◌, ◌<◌, ◌≡◌, refl, sym, ap, ◌∙◌, false, not, ◌||◌, some, List, [], arith, ltb, leb,
  ◌==◌, length, Bool-cases, inl, inr,
}
use confluxmap_pumpkin.Wire.Reader
use confluxmap_pumpkin.Wire.Reader.{Reader, Read, advance, pure, fail, new, ◌>>=◌}
use confluxmap_pumpkin.Wire.RoundTrip.{ahead}
use confluxmap_pumpkin.Wire.Exact.{value_of, fail_never}
use confluxmap_pumpkin.Wire.Whole.{Whole, Ends, remaining-ahead, none_left}
use confluxmap_pumpkin.Correction.Patch.{finish, result}
use confluxmap_pumpkin.Correction.Patch.Frames.{}

module _ {A : Type 0} where
  pub finish-Whole : (a : A) → Whole (finish a) [] a
  unfolding finish
  finish-Whole a = record {
    at = λ r i e.
        let done : Reader.remaining r ≡ 0 = remaining-ahead r ∙ ap length e in
        let stay : r.pos + 0 ≡ r.pos = omega arith in rw (done, stay);
  }

  pub finish-Ends : (a : A) → Ends (finish a) (λ b bs. (a ≡ b) × (bs ≡ []))
  unfolding finish
  finish-Ends a = record {
    at = λ r r' b h e. elim (Bool-cases (Reader.remaining r == 0)) [
      | inl q ↦
          let done : Reader.remaining r ≡ 0 = ground arith in
          ((value_of r r' a b (rw q at e)).0, none_left (ahead r) (sym (remaining-ahead r) ∙ done))
      | inr q ↦ absurd (cc (fail_never r r' b (rw q at e)))
    ];
  }

  -- A decoder that reads a payload from its start.
  pub accepted :
      (m : Read A) (p : List ℕ) (a : A)
      → result (m (new p)) ≡ some a
      → m (new p) ≡ (some a, (m (new p)).1)
  accepted m p a e = ap (λ o. (o, (m (new p)).1)) e

  pub accepts : (m : Read A) (p : List ℕ) (a : A) → Whole m p a → result (m (new p)) ≡ some a
  accepts m p a w = ap result (w.at (new p) (omega arith) refl)

pub dimension_ok : (d l : ℕ) → leb 8 d || ltb 4 l ≡ false → (d < 8) × (l ≤ 4)
dimension_ok d l h = ground arith

pub dimension_fits : (d l : ℕ) → d < 8 → l ≤ 4 → leb 8 d || ltb 4 l ≡ false
dimension_fits d l h k = ground arith

pub type_is : (b c : ℕ) → not (b == c) ≡ false → b ≡ c
type_is b c h = ground arith

pub count_ok : (n max : ℕ) → ltb max n ≡ false → n ≤ max
count_ok n max h = ground arith

pub count_fits : (n max : ℕ) → n ≤ max → ltb max n ≡ false
count_fits n max h = ground arith
