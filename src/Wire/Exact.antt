-- ===== src/Wire/Exact.antt =====
-- What a reader has read is just what its writer writes of it.
use mathlib.Core.Path.{subst}
use native.Mathlib.Nat.{pow-suc, mul_comm, mul_assoc, mul-le-mul_right}
use confluxmap_pumpkin.Base.{
  ℕ, zero, suc, ◌+◌, ◌*◌, ◌/◌, ◌%◌, ◌^◌, ◌≤◌, ◌<◌, ◌≡◌, refl, sym, ap, ◌∙◌, Bool, true, false,
  Option, none, some, List, [], ◌∷◌, ◌++◌, append_assoc, append-nil, arith, length, get_elem?, drop,
  All, if◌then◌else◌,
}
use confluxmap_pumpkin.Base.Int.{
  ℤ, IsI32, IsI64, of_word, to_word, of_word-IsI32, of_word-IsI64, to_word-of_word,
}
use confluxmap_pumpkin.Wire.Bytes.{IsByte, to_be, of_be, of_be_from}
use confluxmap_pumpkin.Wire.Encoding.{i32_bytes, i64_bytes}
use confluxmap_pumpkin.Wire.Reader
use confluxmap_pumpkin.Wire.Reader.{Reader, Read, advance, continue, pure, fail, lift, ◌>>=◌}
use confluxmap_pumpkin.Wire.RoundTrip.{ahead}

-- From `r` to `r'`, bytes were read that `S` describes.
pub record Taken (S : List ℕ → Type 0) (r r' : Reader) : Type 0 where
  pub bs : List ℕ
  pub spelled : S bs
  pub same : r'.buf ≡ r.buf
  pub from : ahead r ≡ bs ++ ahead r'

pub record Exact {A : Type 0} (m : Read A) (S : A → List ℕ → Type 0) : Type 0 where
  pub at : (r r' : Reader) (a : A) → All IsByte r.buf → m r ≡ (some a, r') → Taken (S a) r r'

-- `b` of a value that was read first, and then of one that depends on it.
pub record Both {A B : Type 0} (S : A → List ℕ → Type 0) (T : A → B → List ℕ → Type 0) (b : B)
    (ds : List ℕ) : Type 0 where
  pub first : A
  pub bs : List ℕ
  pub cs : List ℕ
  pub left : S first bs
  pub right : T first b cs
  pub split : ds ≡ bs ++ cs

module _ {A : Type 0} where
  pub value_of : (r r' : Reader) (a b : A) → pure a r ≡ (some b, r') → (a ≡ b) × (r ≡ r')
  value_of r r' a b e =
      let s : r ≡ r' = ap (λ (x : Option A × Reader). x.1) e in
      let o : some a ≡ some b = ap (λ (x : Option A × Reader). x.0) e in (cc, s)

  pub Exact-pure : (a : A) → Exact (pure a) (λ b bs. (a ≡ b) × (bs ≡ []))
  Exact-pure a = record {
    at = λ r r' b h e.
        let (v, s) = value_of r r' a b e in
        subst (λ q. Taken (λ bs. (a ≡ b) × (bs ≡ [])) r q) s
          (record { bs = []; spelled = (v, refl); same = refl; from = refl });
  }

  pub Exact-lift : (o : Option A) → Exact (lift o) (λ b bs. (o ≡ some b) × (bs ≡ []))
  Exact-lift o = record {
    at = λ r r' b h e.
        let s : r ≡ r' = ap (λ (x : Option A × Reader). x.1) e in
        let v : o ≡ some b = ap (λ (x : Option A × Reader). x.0) e in
        subst (λ q. Taken (λ bs. (o ≡ some b) × (bs ≡ [])) r q) s
          (record { bs = []; spelled = (v, refl); same = refl; from = refl });
  }

  pub fail_never : (r r' : Reader) (a : A) → fail r ≡ (some a, r') → none ≡ some a
  fail_never r r' a e = ap (λ (x : Option A × Reader). x.0) e

  pub Exact-fail : (S : A → List ℕ → Type 0) → Exact fail S
  Exact-fail S = record { at = λ r r' a h e. absurd (cc (fail_never r r' a e)) }

  -- A test that is passed.
  pub Exact-unless :
      (b : Bool) (m : Read A) {S : A → List ℕ → Type 0}
      → Exact m S
      → Exact (if b then fail else m) (λ a bs. (b ≡ false) × S a bs)
  Exact-unless true m {S} p = Exact-fail (λ a bs. (true ≡ false) × S a bs)
  Exact-unless false m p = record {
    at = λ r r' a h e.
        let t = p.at r r' a h e in
        record { bs = t.bs; spelled = (refl, t.spelled); same = t.same; from = t.from };
  }

module _ {A B : Type 0} (m : Read A) (f : A → Read B) where
  pub first_value :
      (o : Option A) (r r' : Reader) (b : B)
      → continue o f r ≡ (some b, r')
      → (a : A) × (o ≡ some a) × (f a r ≡ (some b, r'))
  first_value none r r' b e = absurd (cc (ap (λ (x : Option B × Reader). x.0) e))
  first_value (some a) r r' b e = (a, refl, e)

  pub Exact-bind :
      {S : A → List ℕ → Type 0} {T : A → B → List ℕ → Type 0}
      → Exact m S
      → ((a : A) → Exact (f a) (T a))
      → Exact (m >>= f) (Both S T)
  Exact-bind p q = record {
    at = λ r r' b h e.
        let (a, e1, e2) = first_value (m r).0 (m r).1 r' b e in
        let one = p.at r (m r).1 a h (ap (λ o. (o, (m r).1)) e1) in
        let two = (q a).at (m r).1 r' b (subst (All IsByte) (sym one.same) h) e2 in
        record {
          bs = one.bs ++ two.bs;
          spelled = record {
            first = a;
            bs = one.bs;
            cs = two.bs;
            left = one.spelled;
            right = two.spelled;
            split = refl;
          };
          same = two.same ∙ one.same;
          from =
              one.from
              ∙ ap (λ t. one.bs ++ t) two.from
              ∙ sym (append_assoc one.bs two.bs (ahead r'));
        };
  }

pub Exact-map :
    {A : Type 0} {m : Read A} {S T : A → List ℕ → Type 0}
    → Exact m S
    → ((a : A) (bs : List ℕ) → S a bs → T a bs)
    → Exact m T
Exact-map p k = record {
  at = λ r r' a h e.
      let t = p.at r r' a h e in
      record { bs = t.bs; spelled = k a t.bs t.spelled; same = t.same; from = t.from };
}

-- The byte at an index in range.
elem-split :
    (xs : List ℕ) (i b : ℕ)
    → All IsByte xs
    → get_elem? xs i ≡ some b
    → (b < 256) × (drop i xs ≡ b ∷ drop (i + 1) xs)
elem-split [] i b h e = absurd cc
elem-split (x ∷ xs) zero b (h, hs) e =
    let same : some x ≡ some b = e in let v : x ≡ b = cc in (rw (← v) h, rw v)
elem-split (x ∷ xs) (suc i) b (h, hs) e =
    let next : suc i + 1 ≡ suc (i + 1) = omega arith in rw next (elem-split xs i b hs e)

abbrev pub ByteSpelled : ℕ → List ℕ → Type 0
ByteSpelled b bs = (b < 256) × (bs ≡ b ∷ [])

byte_at-Taken :
    (o : Option ℕ) (r r' : Reader) (b : ℕ)
    → All IsByte r.buf
    → get_elem? r.buf r.pos ≡ o
    → Reader.byte_at o r ≡ (some b, r')
    → Taken (ByteSpelled b) r r'
unfolding Reader.byte_at
byte_at-Taken none r r' b h q e = absurd (cc (fail_never r r' b e))
byte_at-Taken (some c) r r' b h q e =
    let (v, s) = value_of (advance 1 r) r' c b e in
    let (small, shape) = elem-split r.buf r.pos b h (q ∙ ap some v) in
    subst (λ t. Taken (ByteSpelled b) r t) s
      (record { bs = b ∷ []; spelled = (small, refl); same = refl; from = shape })

pub u8-Exact : Exact Reader.u8 ByteSpelled
unfolding Reader.u8
u8-Exact = record { at = λ r r' b h e. byte_at-Taken (get_elem? r.buf r.pos) r r' b h refl e }

abbrev pub BytesSpelled : ℕ → List ℕ → List ℕ → Type 0
BytesSpelled n v bs = (bs ≡ v) × All IsByte v × (length v ≡ n)

bytes_cons :
    (n b : ℕ) (v bs ds : List ℕ)
    → ByteSpelled b ds
    → Both (BytesSpelled n) (λ t u cs. (b ∷ t ≡ u) × (cs ≡ [])) v bs
    → BytesSpelled (suc n) v (ds ++ bs)
bytes_cons n b v bs ds (small, one) t =
    let (here, bytes, size) = t.left in
    let (shape, none_left) = t.right in
    subst (λ v. BytesSpelled (suc n) v (ds ++ bs)) shape
      (rw (one, t.split, here, none_left, append-nil t.first), (small, bytes), ap suc size)

pub bytes-Exact : (n : ℕ) → Exact (Reader.bytes n) (BytesSpelled n)
unfolding Reader.bytes
bytes-Exact zero =
    Exact-map (Exact-pure []) λ v bs (e, q). (q ∙ e, subst (All IsByte) e tt, ap length (sym e))
bytes-Exact (suc n) =
    Exact-map
      (Exact-bind _ _ u8-Exact λ b. Exact-bind _ _ (bytes-Exact n) λ bs. Exact-pure (b ∷ bs))
      λ v bs t. rw t.split (bytes_cons n t.first v t.cs t.bs t.left t.right)

-- A byte sequence is the bytes of its number.
to_be-of_be_from :
    (acc j : ℕ) (bs : List ℕ)
    → All IsByte bs
    → to_be (length bs + j) (of_be_from acc bs) ≡ to_be j acc ++ bs
unfolding of_be_from to_be
to_be-of_be_from acc j [] h = let e : 0 + j ≡ j = omega arith in rw (e, append-nil (to_be j acc))
to_be-of_be_from acc j (b ∷ bs) (h, hs) =
    let e : suc (length bs) + j ≡ length bs + suc j = omega arith in
    let high : (acc * 256 + b) / 256 ≡ acc = omega arith in
    let low : (acc * 256 + b) % 256 ≡ b = omega arith in
    ap (λ m. to_be m (of_be_from (acc * 256 + b) bs)) e
    ∙ to_be-of_be_from (acc * 256 + b) (suc j) bs hs
    ∙ rw (high, low, append_assoc (to_be j acc) (b ∷ []) bs)

to_be-of_be : (bs : List ℕ) → All IsByte bs → to_be (length bs) (of_be bs) ≡ bs
unfolding of_be to_be
to_be-of_be bs h =
    let e : length bs ≡ length bs + 0 = omega arith in
    ap (λ m. to_be m (of_be_from 0 bs)) e ∙ to_be-of_be_from 0 0 bs h

of_be_from-lt :
    (acc : ℕ) (bs : List ℕ) → All IsByte bs → of_be_from acc bs < (acc + 1) * 256 ^ length bs
unfolding of_be_from
of_be_from-lt acc [] h = omega arith
of_be_from-lt acc (b ∷ bs) (h, hs) =
    let ih = of_be_from-lt (acc * 256 + b) bs hs in
    let grown : (acc * 256 + b + 1) * 256 ^ length bs ≤ ((acc + 1) * 256) * 256 ^ length bs =
      mul-le-mul_right (256 ^ length bs) (omega arith) in
    let shape : (acc + 1) * 256 ^ suc (length bs) ≡ ((acc + 1) * 256) * 256 ^ length bs =
      ap (λ p. (acc + 1) * p) (pow-suc 256 (length bs) ∙ mul_comm (256 ^ length bs) 256)
      ∙ sym (mul_assoc (acc + 1) 256 (256 ^ length bs)) in
    omega arith

of_be-lt : (bs : List ℕ) → All IsByte bs → of_be bs < 256 ^ length bs
unfolding of_be
of_be-lt bs h = omega (arith, of_be_from-lt 0 bs h)

to_word-of_word_i32 : (w : ℕ) → w < 2 ^ 32 → to_word (2 ^ 32) (of_word (2 ^ 31) w) ≡ w
unfolding of_word to_word
to_word-of_word_i32 w h = ground arith

IsI32-of_bytes :
    (bs : List ℕ)
    → All IsByte bs
    → length bs ≡ 4
    → IsI32 (of_word (2 ^ 31) (of_be bs)) × (bs ≡ i32_bytes (of_word (2 ^ 31) (of_be bs)))
IsI32-of_bytes bs h e =
    let small : of_be bs < 2 ^ 32 = subst (λ n. of_be bs < 256 ^ n) e (of_be-lt bs h) in
    (
      of_word-IsI32 (of_be bs) small,
      sym (
          ap (to_be 4) (to_word-of_word_i32 (of_be bs) small)
          ∙ ap (λ n. to_be n (of_be bs)) (sym e)
          ∙ to_be-of_be bs h),
    )

IsI64-of_bytes :
    (bs : List ℕ)
    → All IsByte bs
    → length bs ≡ 8
    → IsI64 (of_word (2 ^ 63) (of_be bs)) × (bs ≡ i64_bytes (of_word (2 ^ 63) (of_be bs)))
IsI64-of_bytes bs h e =
    let small : of_be bs < 2 ^ 64 = subst (λ n. of_be bs < 256 ^ n) e (of_be-lt bs h) in
    (
      of_word-IsI64 (of_be bs) small,
      sym (
          ap (to_be 8) (to_word-of_word (of_be bs) small)
          ∙ ap (λ n. to_be n (of_be bs)) (sym e)
          ∙ to_be-of_be bs h),
    )

abbrev pub I32Spelled : ℤ → List ℕ → Type 0
I32Spelled v bs = IsI32 v × (bs ≡ i32_bytes v)

abbrev pub I64Spelled : ℤ → List ℕ → Type 0
I64Spelled v bs = IsI64 v × (bs ≡ i64_bytes v)

-- A pure function of what was read.
mapped :
    {A B : Type 0} (f : A → B) (S : A → List ℕ → Type 0) (T : B → List ℕ → Type 0)
    → ((a : A) (bs : List ℕ) → S a bs → T (f a) bs)
    → (b : B) (bs : List ℕ) → Both S (λ a c cs. (f a ≡ c) × (cs ≡ [])) b bs
    → T b bs
mapped f S T k b bs t =
    let (v, none_left) = t.right in
    let whole : bs ≡ t.bs = t.split ∙ ap (λ c. t.bs ++ c) none_left ∙ append-nil t.bs in
    subst (λ c. T c bs) v (subst (T (f t.first)) (sym whole) (k t.first t.bs t.left))

pub i32-Exact : Exact Reader.i32 I32Spelled
unfolding Reader.i32
i32-Exact =
    Exact-map (Exact-bind _ _ (bytes-Exact 4) λ bs. Exact-pure (of_word (2 ^ 31) (of_be bs))) (
      mapped (λ bs. of_word (2 ^ 31) (of_be bs)) (BytesSpelled 4) I32Spelled
        λ v bs (same, bytes, size).
          let (fits, spelled) = IsI32-of_bytes v bytes size in (fits, same ∙ spelled))

pub i64-Exact : Exact Reader.i64 I64Spelled
unfolding Reader.i64
i64-Exact =
    Exact-map (Exact-bind _ _ (bytes-Exact 8) λ bs. Exact-pure (of_word (2 ^ 63) (of_be bs))) (
      mapped (λ bs. of_word (2 ^ 63) (of_be bs)) (BytesSpelled 8) I64Spelled
        λ v bs (same, bytes, size).
          let (fits, spelled) = IsI64-of_bytes v bytes size in (fits, same ∙ spelled))
