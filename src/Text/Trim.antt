-- ===== src/Text/Trim.antt =====
-- `str::trim` trims once and for all.
use confluxmap_pumpkin.Base.{
  ℕ, ◌≤◌, ◌≡◌, refl, sym, ap, ◌∙◌, true, List, [], ◌∷◌, ◌++◌, arith, length, All, Bool-cases, inl,
  inr,
}
use mathlib.Core.List.{reverse, flatten, reverse-append, reverse-reverse}
use confluxmap_pumpkin.Text.{chars, join, starts_char, is_continuation, is_blank, drop_blank, trim}

-- A group of bytes that belong to one character.
abbrev IsGroup : List ℕ → Type 0
IsGroup [] = ⊥
IsGroup (b ∷ bs) = All (λ c. is_continuation c ≡ true) bs

-- The groups of a string: only the first may lack its first byte.
abbrev AllStart : List (List ℕ) → Type 0
AllStart [] = Unit {0}
AllStart (g ∷ gs) = IsGroup g × (starts_char g ≡ true) × AllStart gs

abbrev IsSplit : List (List ℕ) → Type 0
IsSplit [] = Unit {0}
IsSplit (g ∷ gs) = IsGroup g × AllStart gs

join-IsSplit : (b : ℕ) (gs : List (List ℕ)) → IsSplit gs → IsSplit (join b gs)
unfolding is_continuation
join-IsSplit b [] h = (tt, tt)
join-IsSplit b ([] ∷ gs) (bad, _) = absurd bad
join-IsSplit b ((c ∷ cs) ∷ gs) (g, s) = elim (Bool-cases (is_continuation c)) [
  | inl e ↦ rw e ((e, g), s)
  | inr e ↦ rw e (tt, (g, rw e, s))
]

chars-IsSplit : (s : List ℕ) → IsSplit (chars s)
unfolding chars
chars-IsSplit [] = tt
chars-IsSplit (b ∷ s) = join-IsSplit b (chars s) (chars-IsSplit s)

AllStart-IsSplit : (gs : List (List ℕ)) → AllStart gs → IsSplit gs
AllStart-IsSplit [] h = tt
AllStart-IsSplit (g ∷ gs) (a, _, b) = (a, b)

chars-group :
    (b : ℕ) (cs s : List ℕ) (gs : List (List ℕ))
    → All (λ c. is_continuation c ≡ true) cs
    → AllStart gs
    → chars s ≡ gs
    → chars ((b ∷ cs) ++ s) ≡ (b ∷ cs) ∷ gs
unfolding chars
chars-group b [] s [] h a e = rw e
chars-group b [] s (g ∷ gs) h (_, start, _) e = rw (e, start)
chars-group b (c ∷ cs) s gs (h, hs) a e = rw (chars-group c cs s gs hs a e, h)

-- The characters of the groups, put together, are the groups.
chars-flatten : (gs : List (List ℕ)) → IsSplit gs → chars (flatten gs) ≡ gs
unfolding chars flatten
chars-flatten [] h = refl
chars-flatten ([] ∷ gs) (bad, _) = absurd bad
chars-flatten ((b ∷ cs) ∷ gs) (g, s) =
    chars-group b cs (flatten gs) gs g s (chars-flatten gs (AllStart-IsSplit gs s))

AllStart-prefix : (xs ys : List (List ℕ)) → AllStart (xs ++ ys) → AllStart xs
AllStart-prefix [] ys h = tt
AllStart-prefix (x ∷ xs) ys (a, b, c) = (a, b, AllStart-prefix xs ys c)

IsSplit-prefix : (xs ys : List (List ℕ)) → IsSplit (xs ++ ys) → IsSplit xs
IsSplit-prefix [] ys h = tt
IsSplit-prefix (x ∷ xs) ys (a, b) = (a, AllStart-prefix xs ys b)

AllStart-drop_blank : (gs : List (List ℕ)) → AllStart gs → AllStart (drop_blank gs)
unfolding drop_blank
AllStart-drop_blank [] h = tt
AllStart-drop_blank (g ∷ gs) (a, b, c) = elim (Bool-cases (is_blank g)) [
  | inl e ↦ rw e (AllStart-drop_blank gs c)
  | inr e ↦ rw e (a, b, c)
]

IsSplit-drop_blank : (gs : List (List ℕ)) → IsSplit gs → IsSplit (drop_blank gs)
unfolding drop_blank
IsSplit-drop_blank [] h = tt
IsSplit-drop_blank (g ∷ gs) (a, b) = elim (Bool-cases (is_blank g)) [
  | inl e ↦ rw e (AllStart-IsSplit (drop_blank gs) (AllStart-drop_blank gs b))
  | inr e ↦ rw e (a, b)
]

-- What is dropped stands in front.
dropped : (gs : List (List ℕ)) → (bs : List (List ℕ)) × (bs ++ drop_blank gs ≡ gs)
unfolding drop_blank
dropped [] = ([], refl)
dropped (g ∷ gs) = elim (Bool-cases (is_blank g)) [
  | inl e ↦ let (bs, q) = dropped gs in (g ∷ bs, rw e (ap (λ (r : List (List ℕ)). g ∷ r) q))
  | inr e ↦ ([], rw e)
]

drop_blank-drop_blank : (gs : List (List ℕ)) → drop_blank (drop_blank gs) ≡ drop_blank gs
unfolding drop_blank
drop_blank-drop_blank [] = refl
drop_blank-drop_blank (g ∷ gs) = elim (Bool-cases (is_blank g)) [
  | inl e ↦ rw e (drop_blank-drop_blank gs)
  | inr e ↦ rw (e, e)
]

drop_blank-le : (gs : List (List ℕ)) → length (drop_blank gs) ≤ length gs
unfolding drop_blank
drop_blank-le [] = omega arith
drop_blank-le (g ∷ gs) = ground (arith, drop_blank-le gs)

-- A prefix of what starts with no blank starts with no blank.
drop_blank-prefix : (xs ys : List (List ℕ)) → drop_blank (xs ++ ys) ≡ xs ++ ys → drop_blank xs ≡ xs
unfolding drop_blank
drop_blank-prefix [] ys h = refl
drop_blank-prefix (x ∷ xs) ys h = elim (Bool-cases (is_blank x)) [
  | inr e ↦ rw e
  | inl e ↦
      let shorter : drop_blank (xs ++ ys) ≡ x ∷ (xs ++ ys) = (rw e at h) in
      absurd (omega (arith, drop_blank-le (xs ++ ys), ap length shorter))
]

abbrev trim_end : List (List ℕ) → List (List ℕ)
trim_end gs = reverse (drop_blank (reverse gs))

trim_end_prefix : (gs : List (List ℕ)) → (bs : List (List ℕ)) × (trim_end gs ++ bs ≡ gs)
trim_end_prefix gs =
    let (bs, q) = dropped (reverse gs) in
    (
      reverse bs,
      sym (reverse-append bs (drop_blank (reverse gs))) ∙ ap reverse q ∙ reverse-reverse gs,
    )

trim_end-drop_blank :
    (gs : List (List ℕ)) → drop_blank gs ≡ gs → drop_blank (trim_end gs) ≡ trim_end gs
trim_end-drop_blank gs h =
    let (bs, q) = trim_end_prefix gs in drop_blank-prefix (trim_end gs) bs (rw q h)

trim_end-trim_end : (gs : List (List ℕ)) → trim_end (trim_end gs) ≡ trim_end gs
trim_end-trim_end gs =
    ap (λ (r : List (List ℕ)). reverse (drop_blank r)) (reverse-reverse (drop_blank (reverse gs)))
    ∙ ap reverse (drop_blank-drop_blank (reverse gs))

-- A trimmed string is trimmed.
pub trim-trim : (s : List ℕ) → trim (trim s) ≡ trim s
unfolding trim
trim-trim s =
    let gs = drop_blank (chars s) in
    let (bs, q) = trim_end_prefix gs in
    let split =
      IsSplit-prefix (trim_end gs) bs (rw q (IsSplit-drop_blank (chars s) (chars-IsSplit s))) in
    ap (λ (r : List (List ℕ)). flatten (trim_end (drop_blank r)))
      (chars-flatten (trim_end gs) split)
    ∙ ap (λ (r : List (List ℕ)). flatten (trim_end r))
        (trim_end-drop_blank gs (drop_blank-drop_blank (chars s)))
    ∙ ap flatten (trim_end-trim_end gs)
