-- ===== src/Wire/RoundTrip.antt =====
-- Every reader gives back what its writer wrote, and leaves what follows.
use confluxmap_pumpkin.Base.{
  ℕ, zero, suc, ◌+◌, ◌*◌, ◌/◌, ◌%◌, ◌^◌, ◌≤◌, ◌<◌, ◌≡◌, refl, sym, ap, ◌∙◌, Bool, true, false,
  Option, some, List, [], ◌∷◌, ◌++◌, append_assoc, arith, length, length-append, get_elem?, take,
  drop, drop-drop, drop-append, take-append, ltb, le→leb, length-drop,
}
use mathlib.Core.Path.{subst}
use confluxmap_pumpkin.Base.Int.{
  ℤ, IsI32, IsI64, of_word, to_word, of_word-to_word_i32, of_word-to_word_i64, to_word-lt,
  of_word-IsI64, to_word-of_word,
}
use confluxmap_pumpkin.Identity.{Uid, IsId}
use confluxmap_pumpkin.Wire.Bytes.{to_be, of_be, of_be-to_be, length-to_be}
use confluxmap_pumpkin.Wire.Utf8.{IsUtf8, from_utf8}
use confluxmap_pumpkin.Wire.Encoding.{i32_bytes, i64_bytes, bool_bytes, id_bytes, utf_bytes}
use confluxmap_pumpkin.Wire.Bounds.{InBounds}
use confluxmap_pumpkin.Wire.Reader
use confluxmap_pumpkin.Wire.Reader.{Reader, Read, advance, continue, pure, lift, ◌>>=◌}

-- What the cursor has not reached.
abbrev pub ahead : Reader → List ℕ
ahead r = drop r.pos r.buf

-- `m` turns the bytes `bs`, whatever follows them, into `a`, and consumes just them.
pub record Reads {ℓ} {A : Type ℓ} (m : Read A) (bs : List ℕ) (a : A) : Type ℓ where
  pub at :
      (r : Reader) (rest : List ℕ)
      → InBounds r
      → ahead r ≡ bs ++ rest
      → m r ≡ (some a, advance (length bs) r)

pub ahead-advance :
    (r : Reader) (bs rest : List ℕ) → ahead r ≡ bs ++ rest → ahead (advance (length bs) r) ≡ rest
ahead-advance r bs rest e =
    sym (drop-drop (length bs) r.pos r.buf) ∙ ap (drop (length bs)) e ∙ drop-append bs rest

pub inside-advance :
    (r : Reader) (bs rest : List ℕ)
    → InBounds r
    → ahead r ≡ bs ++ rest
    → InBounds (advance (length bs) r)
inside-advance r bs rest i e =
    omega (arith, length-drop r.pos r.buf, ap length e, length-append bs rest)

pub positions : (p : ℕ) (bs cs : List ℕ) → p + length bs + length cs ≡ p + length (bs ++ cs)
positions p bs cs = omega (arith, length-append bs cs)

module _ {ℓ κ} {A : Type ℓ} {B : Type κ} where
  pub Reads-bind :
      (m : Read A) (f : A → Read B) (bs cs : List ℕ) (a : A) (b : B)
      → Reads m bs a
      → Reads (f a) cs b
      → Reads (m >>= f) (bs ++ cs) b
  Reads-bind m f bs cs a b p q = record {
    at = λ r rest i e.
        let e' : ahead r ≡ bs ++ (cs ++ rest) = e ∙ append_assoc bs cs rest in
        rw
          (
            p.at r (cs ++ rest) i e',
            q.at (advance (length bs) r) rest (inside-advance r bs _ i e')
                (ahead-advance r bs _ e'),
          )
          (ap (λ k. (some b, record r { pos = k })) (positions r.pos bs cs));
  }

pub Reads-pure {ℓ} : {A : Type ℓ} (a : A) → Reads (pure a) [] a
Reads-pure a = record { at = λ r rest i e. ap (λ k. (some a, record r { pos = k })) (omega arith) }

module _ {ℓ κ} {A : Type ℓ} {B : Type κ} {m : Read A} {bs : List ℕ} {a : A} (p : Reads m bs a) where
  -- A pure end of the block reads nothing more.
  pub Reads-map : (f : A → B) → Reads (m >>= λ x. pure (f x)) bs (f a)
  Reads-map f = record { at = λ r rest i e. rw (p.at r rest i e) }

  pub Reads-map-lift :
      (f : A → Option B) {b : B} → f a ≡ some b → Reads (m >>= λ x. lift (f x)) bs b
  Reads-map-lift f e = record { at = λ r rest i h. rw (p.at r rest i h, e) }

elem-drop :
    {A : Type 0} (xs : List A) (i : ℕ) (a : A) (ys : List A)
    → drop i xs ≡ a ∷ ys
    → get_elem? xs i ≡ some a
elem-drop [] zero a ys e = cc
elem-drop [] (suc i) a ys e = cc
elem-drop (x ∷ xs) zero a ys e = cc
elem-drop (x ∷ xs) (suc i) a ys e = elem-drop xs i a ys e

pub u8-Reads : (b : ℕ) → Reads Reader.u8 (b ∷ []) b
unfolding Reader.u8 Reader.byte_at
u8-Reads b = record { at = λ r rest i e. rw (elem-drop r.buf r.pos b rest e) }

pub bytes-Reads : (bs : List ℕ) → Reads (Reader.bytes (length bs)) bs bs
unfolding Reader.bytes
bytes-Reads [] = Reads-pure []
bytes-Reads (b ∷ bs) =
    Reads-bind _ _ (b ∷ []) bs b (b ∷ bs) (u8-Reads b) (Reads-map (bytes-Reads bs) (λ bs. b ∷ bs))

word_bytes : (k n : ℕ) → Reads (Reader.bytes k) (to_be k n) (to_be k n)
word_bytes k n =
    subst (λ l. Reads (Reader.bytes l) (to_be k n) (to_be k n)) (length-to_be k n)
      (bytes-Reads (to_be k n))

pub u16-Reads : (v : ℕ) → v < 2 ^ 16 → Reads Reader.u16 (to_be 2 v) v
unfolding Reader.u16 to_be
u16-Reads v h =
    subst (λ w. Reads Reader.u16 (to_be 2 v) w) (omega arith)
      (Reads-bind _ _ (v / 256 % 256 ∷ []) (v % 256 ∷ []) _ _ (u8-Reads (v / 256 % 256))
        (Reads-map (u8-Reads (v % 256)) (λ lo. v / 256 % 256 * 256 + lo)))

pub i32-Reads : (v : ℤ) → IsI32 v → Reads Reader.i32 (i32_bytes v) v
unfolding Reader.i32
i32-Reads v h =
    subst (λ w. Reads Reader.i32 (i32_bytes v) w)
      (ap (of_word (2 ^ 31)) (of_be-to_be 4 _ (to_word-lt (2 ^ 32) v (omega arith)))
        ∙ of_word-to_word_i32 v h)
      (Reads-map (word_bytes 4 _) (λ bs. of_word (2 ^ 31) (of_be bs)))

pub i64-Reads : (v : ℤ) → IsI64 v → Reads Reader.i64 (i64_bytes v) v
unfolding Reader.i64
i64-Reads v h =
    subst (λ w. Reads Reader.i64 (i64_bytes v) w)
      (ap (of_word (2 ^ 63)) (of_be-to_be 8 _ (to_word-lt (2 ^ 64) v (omega arith)))
        ∙ of_word-to_word_i64 v h)
      (Reads-map (word_bytes 8 _) (λ bs. of_word (2 ^ 63) (of_be bs)))

pub f64-Reads : (v : ℕ) → v < 2 ^ 64 → Reads Reader.f64 (to_be 8 v) v
unfolding Reader.f64
f64-Reads v h =
    subst (λ w. Reads Reader.f64 (to_be 8 v) w) (of_be-to_be 8 v h)
      (Reads-map (word_bytes 8 v) of_be)

pub bool-Reads : (v : Bool) → Reads Reader.bool (bool_bytes v) v
unfolding Reader.bool Reader.bool_of
bool-Reads true = Reads-map-lift (u8-Reads 1) Reader.bool_of refl
bool-Reads false = Reads-map-lift (u8-Reads 0) Reader.bool_of refl

not_over : (n max : ℕ) → n ≤ max → ltb max n ≡ false
not_over n max h = ground arith

slice-Reads : (bs : List ℕ) → Reads (Reader.slice (length bs)) bs bs
unfolding Reader.slice
slice-Reads bs = record {
  at = λ r rest i e.
      rw (le→leb _ _ (inside-advance r bs rest i e), ap (take (length bs)) e ∙ take-append bs rest);
}

pub utf-Reads :
    (max : ℕ) (s : List ℕ)
    → IsUtf8 s
    → length s ≤ max
    → length s < 2 ^ 16
    → Reads (Reader.utf max) (utf_bytes s) s
unfolding Reader.utf from_utf8
utf-Reads max s h fits small =
    Reads-bind _ _ (to_be 2 (length s)) s (length s) s (u16-Reads (length s) small)
      (rw (not_over (length s) max fits) (Reads-map-lift (slice-Reads s) from_utf8 (rw h)))

word-Reads : (w : ℕ) → w < 2 ^ 64 → Reads Reader.i64 (to_be 8 w) (of_word (2 ^ 63) w)
word-Reads w h =
    subst (λ v. Reads Reader.i64 (to_be 8 v) (of_word (2 ^ 63) w)) (to_word-of_word w h)
      (i64-Reads (of_word (2 ^ 63) w) (of_word-IsI64 w h))

halves :
    (a : Uid)
    → IsId a
    → ◌≡◌ {A = Uid}
        (record {
          high = to_word (2 ^ 64) (of_word (2 ^ 63) a.high);
          low = to_word (2 ^ 64) (of_word (2 ^ 63) a.low);
        })
        a
halves a h = rw (to_word-of_word a.high h.0, to_word-of_word a.low h.1)

pub uuid-Reads : (a : Uid) → IsId a → Reads Reader.uuid (id_bytes a) a
unfolding Reader.uuid
uuid-Reads a h =
    subst (λ b. Reads Reader.uuid (id_bytes a) b) (halves a h)
      (Reads-bind _ _ (to_be 8 a.high) (to_be 8 a.low) _ _ (word-Reads a.high h.0)
        (Reads-map (word-Reads a.low h.1) _))
