-- ===== src/Wire/Utf8/Sequences.antt =====
-- A well-formed text that is not empty is one sequence and a well-formed text.
use confluxmap_pumpkin.Base.{
  ℕ, zero, suc, ◌≤◌, ◌<◌, ◌≡◌, refl, sym, ap, ◌∙◌, true, false, ◌&&◌, none, some, List, [], ◌∷◌,
  ◌++◌, arith, ltb, leb, length, All, Bool-cases, Option-cases, inl, inr,
}
use confluxmap_pumpkin.Wire.Utf8.{
  Utf8State, expect, boundary, lead_step, utf8_step, utf8_from, is_utf8, IsUtf8,
}

abbrev pub IsHigh : ℕ → Type 0
IsHigh b = 0x80 ≤ b

-- `bs` has `n` bytes that a state expects, and a well-formed text behind them.
pub record Continued (s : Utf8State) (bs : List ℕ) : Type 0 where
  pub tail : List ℕ
  pub rest : List ℕ
  pub split : bs ≡ tail ++ rest
  pub size : length tail ≡ s.need
  pub high : All IsHigh tail
  pub whole : utf8_from s tail ≡ true
  pub after : utf8_from boundary rest ≡ true

any_range : (l h : ℕ) (bs : List ℕ) → utf8_from (expect 0 l h) bs ≡ utf8_from boundary bs
unfolding utf8_from utf8_step
any_range l h [] = refl
any_range l h (b ∷ bs) = refl

pub utf8_from-some :
    (s t : Utf8State) (b : ℕ) (bs : List ℕ)
    → utf8_step s.need s.low s.high b ≡ some t
    → utf8_from s (b ∷ bs) ≡ utf8_from t bs
unfolding utf8_from
utf8_from-some s t b bs q = rw (q, utf8_from)

pub utf8_from-none :
    (s : Utf8State) (b : ℕ) (bs : List ℕ)
    → utf8_step s.need s.low s.high b ≡ none
    → utf8_from s (b ∷ bs) ≡ false
unfolding utf8_from
utf8_from-none s b bs q = rw (q, utf8_from)

pub continued_step :
    (n l h b : ℕ) (bs : List ℕ)
    → utf8_from (expect (suc n) l h) (b ∷ bs) ≡ true
    → (leb l b && leb b h ≡ true) × (utf8_from (expect n 0x80 0xbf) bs ≡ true)
unfolding utf8_step
continued_step n l h b bs e = elim (Bool-cases (leb l b && leb b h)) [
  | inl q ↦ (q, sym (utf8_from-some (expect (suc n) l h) _ b bs (rw q)) ∙ e)
  | inr q ↦ absurd (cc (utf8_from-none (expect (suc n) l h) b bs (rw q), e))
]

continue_with :
    (n l h b : ℕ) (bs : List ℕ)
    → leb l b && leb b h ≡ true
    → utf8_from (expect n 0x80 0xbf) bs ≡ true
    → utf8_from (expect (suc n) l h) (b ∷ bs) ≡ true
unfolding utf8_step
continue_with n l h b bs q e = utf8_from-some (expect (suc n) l h) _ b bs (rw q) ∙ e

pub utf8_from-Continued :
    (n l h : ℕ) (bs : List ℕ)
    → 0x80 ≤ l
    → utf8_from (expect n l h) bs ≡ true
    → Continued (expect n l h) bs
unfolding utf8_from
utf8_from-Continued zero l h bs lo e = record {
  tail = [];
  rest = bs;
  split = refl;
  size = refl;
  high = tt;
  whole = refl;
  after = sym (any_range l h bs) ∙ e;
}
utf8_from-Continued (suc n) l h [] lo e = absurd (ground arith)
utf8_from-Continued (suc n) l h (b ∷ bs) lo e =
    let (q, e') = continued_step n l h b bs e in
    let k = utf8_from-Continued n 0x80 0xbf bs (omega arith) e' in
    record {
      tail = b ∷ k.tail;
      rest = k.rest;
      split = ap (λ t. b ∷ t) k.split;
      size = omega (arith, k.size);
      high = (ground arith, k.high);
      whole = continue_with n l h b k.tail q k.whole;
      after = k.after;
    }

lead_low : (b : ℕ) (t : Utf8State) → lead_step b ≡ some t → 0x80 ≤ t.low
unfolding lead_step
lead_low b t e = ground arith

led :
    (b : ℕ) (bs : List ℕ)
    → IsUtf8 (b ∷ bs)
    → (t : Utf8State) × (lead_step b ≡ some t) × (utf8_from t bs ≡ true)
unfolding is_utf8 utf8_step
led b bs h = elim (Option-cases (lead_step b)) [
  | inl q ↦ absurd (cc (utf8_from-none boundary b bs q, h))
  | inr (t, q) ↦ (t, q, sym (utf8_from-some boundary t b bs q) ∙ h)
]

-- An ASCII byte, and what follows it.
pub IsUtf8-ascii : (b : ℕ) (bs : List ℕ) → b < 0x80 → IsUtf8 (b ∷ bs) → IsUtf8 bs
unfolding is_utf8 lead_step
IsUtf8-ascii b bs small h =
    let (t, q, e) = led b bs h in
    let first : ltb b 0x80 ≡ true = ground arith in
    let same : boundary ≡ t = ground arith in rw (← same) at e

pub record Sequence (b : ℕ) (bs : List ℕ) : Type 0 where
  pub state : Utf8State
  pub lead : lead_step b ≡ some state
  pub tail : List ℕ
  pub rest : List ℕ
  pub split : bs ≡ tail ++ rest
  pub size : length tail ≡ state.need
  pub high : All IsHigh tail
  pub whole : IsUtf8 (b ∷ tail)
  pub after : IsUtf8 rest

lead_with :
    (b : ℕ) (bs : List ℕ) (t : Utf8State)
    → lead_step b ≡ some t
    → utf8_from t bs ≡ true
    → IsUtf8 (b ∷ bs)
unfolding is_utf8 utf8_step
lead_with b bs t q e = utf8_from-some boundary t b bs q ∙ e

pub IsUtf8-Sequence : (b : ℕ) (bs : List ℕ) → IsUtf8 (b ∷ bs) → Sequence b bs
unfolding is_utf8
IsUtf8-Sequence b bs h =
    let (t, q, e) = led b bs h in
    let k = utf8_from-Continued t.need t.low t.high bs (lead_low b t q) e in
    record {
      state = t;
      lead = q;
      tail = k.tail;
      rest = k.rest;
      split = k.split;
      size = k.size;
      high = k.high;
      whole = lead_with b k.tail t q k.whole;
      after = k.after;
    }
