-- ===== src/Protocol/Clamp.antt =====
-- `write_utf` and the reader of wire.rs.

use confluxmap_pumpkin.Base.{
  ℕ, zero, suc, ◌≤◌, ◌<◌, ◌≡◌, ◌⊎◌, inl, inr, refl, sym, ap, ◌∙◌, Bool, true, false, some, List, [],
  ◌∷◌, ◌++◌, append_assoc, append-nil, length-take, take-append, take-drop, arith, ltb, length,
  take, drop, min, Bool-cases, if◌then◌else◌,
}
use confluxmap_pumpkin.Text.{is_char_boundary}
use confluxmap_pumpkin.Wire.Utf8.{IsUtf8}
use confluxmap_pumpkin.Wire.Utf8.Cuts.{IsUtf8-take}
use confluxmap_pumpkin.Wire.Bytes.{to_be}
use confluxmap_pumpkin.Wire.Encoding.{utf_bytes}
use confluxmap_pumpkin.Wire.RoundTrip.{utf-Reads}
use confluxmap_pumpkin.Wire.Fields.{behind, Reads-behind}
use confluxmap_pumpkin.Wire.Reader
use confluxmap_pumpkin.Wire.Writer
use confluxmap_pumpkin.Protocol.{Str, char_end, clamped, write_utf}

-- The end is that of a character, and not behind the place from which it is searched.
record IsEnd (n : ℕ) (s : Str) (end : ℕ) : Type 0 where
  boundary : is_char_boundary end s ≡ true
  bound : end ≤ n

either-IsEnd :
    (n : ℕ) (s : Str) (b : Bool) (lower : ℕ)
    → is_char_boundary n s ≡ b
    → IsEnd n s lower
    → IsEnd n s (if b then n else lower)
either-IsEnd n s true lower at h = record { boundary = at; bound = omega arith }
either-IsEnd n s false lower at h = h

char_end-IsEnd : (n : ℕ) (s : Str) → IsEnd n s (char_end n s)
unfolding char_end is_char_boundary
char_end-IsEnd zero s = record { boundary = refl; bound = omega arith }
char_end-IsEnd (suc n) s =
    let below = char_end-IsEnd n s in
    either-IsEnd (suc n) s (is_char_boundary (suc n) s) (char_end n s) refl
      (record { boundary = below.boundary; bound = omega (arith, below.bound) })

char_end_at : (n : ℕ) (s : Str) → is_char_boundary n s ≡ true → char_end n s ≡ n
unfolding char_end
char_end_at zero s at = refl
char_end_at (suc n) s at = rw at

whole_boundary : (s : Str) → is_char_boundary (length s) s ≡ true
unfolding is_char_boundary
whole_boundary [] = refl
whole_boundary (b ∷ []) = refl
whole_boundary (b ∷ c ∷ s) = whole_boundary (c ∷ s)

pub clamped-IsUtf8 : (s : Str) → IsUtf8 s → IsUtf8 (clamped s)
unfolding clamped
clamped-IsUtf8 s h =
    let end = char_end-IsEnd (min (length s) 256) s in IsUtf8-take _ s end.boundary h

pub clamped-fits : (s : Str) → length (clamped s) ≤ 256
unfolding clamped
clamped-fits s =
    let end = char_end-IsEnd (min (length s) 256) s in
    omega (arith, end.bound, length-take (char_end (min (length s) 256) s) s)

pub take_all {ℓ} : {A : Type ℓ} (s : List A) → take (length s) s ≡ s
take_all s = ap (take (length s)) (sym (append-nil s)) ∙ take-append s []

-- A text of at most 256 bytes is kept.
clamped_whole : (s : Str) → length s ≤ 256 → clamped s ≡ s
unfolding clamped
clamped_whole s h =
    let size : min (length s) 256 ≡ length s = omega arith in
    rw (size, char_end_at (length s) s (whole_boundary s)) (take_all s)

kept_or_longer : (s : Str) → (clamped s ≡ s) ⊎ (256 < length s)
kept_or_longer s = elim (Bool-cases (ltb 256 (length s))) [
  | inl q ↦ inr (ground arith)
  | inr q ↦ inl (clamped_whole s (ground arith))
]

-- What `write_utf` writes of a string behind `out` is read back as a string by the reader with the
-- same limit of 256 bytes, whatever follows: the whole string if it has at most 256 bytes, and else a
-- prefix of it that ends with a character.
pub write_utf-utf :
    (out s rest : List ℕ)
    → IsUtf8 s
    → (kept : List ℕ) × (dropped : List ℕ) × (s ≡ kept ++ dropped)
      × ((kept ≡ s) ⊎ (256 < length s))
      × IsUtf8 kept
      × (Reader.utf 256 (behind out (write_utf out s ++ rest))
          ≡ (some kept, behind (write_utf out s) (write_utf out s ++ rest)))
unfolding write_utf Writer.u16
write_utf-utf out s rest h =
    let kept = clamped s in
    let written : write_utf out s ≡ out ++ utf_bytes kept =
      append_assoc out (to_be 2 (length kept)) kept in
    let read =
      Reads-behind out rest (
        utf-Reads 256 kept (clamped-IsUtf8 s h) (clamped-fits s) (omega (arith, clamped-fits s))) in
    (
      kept,
      drop (char_end (min (length s) 256) s) s,
      sym (take-drop (char_end (min (length s) 256) s) s),
      kept_or_longer s,
      clamped-IsUtf8 s h,
      rw written read,
    )
