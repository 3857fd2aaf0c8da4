-- ===== src/Wire/Whole.antt =====
-- Readers that take all that is left.
use mathlib.Core.Path.{subst}
use confluxmap_pumpkin.Base.{
  ℕ, ◌+◌, ◌≡◌, refl, sym, ap, ◌∙◌, Bool, true, false, some, List, [], ◌∷◌, ◌++◌, arith, length,
  length-drop, All, if◌then◌else◌,
}
use confluxmap_pumpkin.Wire.Bytes.{IsByte}
use confluxmap_pumpkin.Wire.Bounds.{InBounds}
use confluxmap_pumpkin.Wire.Reader
use confluxmap_pumpkin.Wire.Reader.{Reader, Read, advance, continue, pure, fail, new, ◌>>=◌}
use confluxmap_pumpkin.Wire.RoundTrip.{ahead, ahead-advance, inside-advance, positions, Reads}
use confluxmap_pumpkin.Wire.Exact.{Exact, Both, first_value, fail_never}

-- `m` turns the bytes `bs`, with nothing behind them, into `a`.
pub record Whole {A : Type 0} (m : Read A) (bs : List ℕ) (a : A) : Type 0 where
  pub at : (r : Reader) → InBounds r → ahead r ≡ bs → m r ≡ (some a, advance (length bs) r)

-- What is left when `m` succeeds is what `S` describes.
pub record Ends {A : Type 0} (m : Read A) (S : A → List ℕ → Type 0) : Type 0 where
  pub at : (r r' : Reader) (a : A) → All IsByte r.buf → m r ≡ (some a, r') → S a (ahead r)

module _ {A B : Type 0} where
  pub Whole-bind :
      (m : Read A) (f : A → Read B) (bs cs : List ℕ) (a : A) (b : B)
      → Reads m bs a
      → Whole (f a) cs b
      → Whole (m >>= f) (bs ++ cs) b
  Whole-bind m f bs cs a b p q = record {
    at = λ r i e.
        rw
          (
            p.at r cs i e,
            q.at (advance (length bs) r) (inside-advance r bs cs i e) (ahead-advance r bs cs e),
          )
          (ap (λ k. (some b, record r { pos = k })) (positions r.pos bs cs));
  }

  pub Ends-bind :
      {S : A → List ℕ → Type 0} {T : A → B → List ℕ → Type 0} (m : Read A) (f : A → Read B)
      → Exact m S
      → ((a : A) → Ends (f a) (T a))
      → Ends (m >>= f) (Both S T)
  Ends-bind m f p q = record {
    at = λ r r' b h e.
        let (a, e1, e2) = first_value m f (m r).0 (m r).1 r' b e in
        let one = p.at r (m r).1 a h (ap (λ o. (o, (m r).1)) e1) in
        let two = (q a).at (m r).1 r' b (subst (All IsByte) (sym one.same) h) e2 in
        record {
          first = a;
          bs = one.bs;
          cs = ahead (m r).1;
          left = one.spelled;
          right = two;
          split = one.from;
        };
  }

module _ {A : Type 0} where
  pub Whole-unless :
      (b : Bool) (m : Read A) (bs : List ℕ) (a : A)
      → b ≡ false
      → Whole m bs a
      → Whole (if b then fail else m) bs a
  Whole-unless true m bs a h p = cc
  Whole-unless false m bs a h p = p

  pub Ends-unless :
      (b : Bool) (m : Read A) {S : A → List ℕ → Type 0}
      → Ends m S
      → Ends (if b then fail else m) (λ a bs. (b ≡ false) × S a bs)
  Ends-unless true m p = record { at = λ r r' a h e. absurd (cc (fail_never r r' a e)) }
  Ends-unless false m p = record { at = λ r r' a h e. (refl, p.at r r' a h e) }

  pub Ends-map :
      {m : Read A} {S T : A → List ℕ → Type 0}
      → Ends m S
      → ((a : A) (bs : List ℕ) → S a bs → T a bs)
      → Ends m T
  Ends-map p k = record { at = λ r r' a h e. k a (ahead r) (p.at r r' a h e) }

-- The cursor is at the end exactly where nothing is left.
pub remaining-ahead : (r : Reader) → Reader.remaining r ≡ length (ahead r)
unfolding Reader.remaining
remaining-ahead r = sym (length-drop r.pos r.buf)

pub none_left : (bs : List ℕ) → length bs ≡ 0 → bs ≡ []
none_left [] h = refl
none_left (b ∷ bs) h = absurd (omega arith)

module _ {A : Type 0} where
  pub at_end-Whole : (a : A) → Whole (Reader.at_end a) [] a
  unfolding Reader.at_end
  at_end-Whole a = record {
    at = λ r i e.
        let done : Reader.remaining r ≡ 0 = remaining-ahead r ∙ ap length e in
        let stay : r.pos + 0 ≡ r.pos = omega arith in rw (done, stay);
  }

  -- A payload that is read from its start.
  pub Whole-payload : (m : Read A) (p : List ℕ) (a : A) → Whole m p a → (m (new p)).0 ≡ some a
  Whole-payload m p a w = ap (λ r. r.0) (w.at (new p) (omega arith) refl)
