-- ===== src/Wire/Utf8/Cuts.antt =====
-- A well-formed text is cut at the boundary of a character into well-formed texts.
use mathlib.Core.Path.{subst}
use confluxmap_pumpkin.Base.{
  ℕ, zero, suc, ◌≤◌, ◌≡◌, refl, sym, ◌∙◌, true, not, some, List, [], ◌∷◌, arith, take, Option-cases,
  inl, inr, Holds,
}
use confluxmap_pumpkin.Text.{is_continuation, is_char_boundary}
use confluxmap_pumpkin.Wire.Utf8.{
  Utf8State, expect, boundary, lead_step, utf8_step, utf8_from, is_utf8, IsUtf8,
}
use confluxmap_pumpkin.Wire.Utf8.Sequences.{utf8_from-some, utf8_from-none, continued_step}

-- Only continuation bytes are in the range of the next one.
abbrev IsNarrow : Utf8State → Type 0
IsNarrow s = (0x80 ≤ s.low) × (s.high ≤ 0xbf)

utf8_step-IsNarrow : (n l h b : ℕ) → Holds IsNarrow (utf8_step n l h b)
unfolding utf8_step lead_step
utf8_step-IsNarrow zero l h b = ground arith
utf8_step-IsNarrow (suc n) l h b = ground arith

after_char :
    (n l h c : ℕ) (bs : List ℕ)
    → IsNarrow (expect n l h)
    → not (is_continuation c) ≡ true
    → utf8_from (expect n l h) (c ∷ bs) ≡ true
    → utf8_from (expect n l h) [] ≡ true
unfolding utf8_from is_continuation
after_char zero l h c bs narrow starts whole = refl
after_char (suc n) l h c bs narrow starts whole =
    let within = (continued_step n l h c bs whole).0 in ground arith

cut :
    (n : ℕ) (s : Utf8State) (bs : List ℕ)
    → is_char_boundary (suc n) bs ≡ true
    → utf8_from s bs ≡ true
    → utf8_from s (take (suc n) bs) ≡ true
unfolding is_char_boundary
cut n s [] at whole = absurd (cc at)
cut zero s (b ∷ []) at whole = whole
cut (suc n) s (b ∷ []) at whole = absurd (cc at)
cut zero s (b ∷ c ∷ bs) at whole = elim (Option-cases (utf8_step s.need s.low s.high b)) [
  | inl q ↦ absurd (cc (utf8_from-none s b (c ∷ bs) q, whole))
  | inr (t, q) ↦
      let narrow : Holds IsNarrow (some t) =
        subst (Holds IsNarrow) q (utf8_step-IsNarrow s.need s.low s.high b) in
      utf8_from-some s t b [] q
      ∙ after_char t.need t.low t.high c bs narrow at
          (sym (utf8_from-some s t b (c ∷ bs) q) ∙ whole)
]
cut (suc n) s (b ∷ c ∷ bs) at whole = elim (Option-cases (utf8_step s.need s.low s.high b)) [
  | inl q ↦ absurd (cc (utf8_from-none s b (c ∷ bs) q, whole))
  | inr (t, q) ↦
      utf8_from-some s t b (take (suc n) (c ∷ bs)) q
      ∙ cut n t (c ∷ bs) at (sym (utf8_from-some s t b (c ∷ bs) q) ∙ whole)
]

pub IsUtf8-take : (n : ℕ) (s : List ℕ) → is_char_boundary n s ≡ true → IsUtf8 s → IsUtf8 (take n s)
unfolding is_utf8 utf8_from
IsUtf8-take zero s at whole = refl
IsUtf8-take (suc n) s at whole = cut n boundary s at whole
