-- ===== src/Wire/Fields.antt =====
-- A field of wire.rs behind other bytes: what a writer appends, its reader reads back.
use confluxmap_pumpkin.Base.{
  ℕ, ◌^◌, ◌≤◌, ◌<◌, ◌≡◌, sym, ap, ◌∙◌, some, List, ◌++◌, append_assoc, arith, length, length-append,
  drop, drop-append,
}
use confluxmap_pumpkin.Identity.{Uid, IsId}
use confluxmap_pumpkin.Wire.Utf8.{IsUtf8}
use confluxmap_pumpkin.Wire.Encoding.{utf_bytes, uuid_appends, utf_appends}
use confluxmap_pumpkin.Wire.Reader
use confluxmap_pumpkin.Wire.Reader.{Reader, Read}
use confluxmap_pumpkin.Wire.Writer
use confluxmap_pumpkin.Wire.RoundTrip.{Reads, utf-Reads, uuid-Reads}

-- The cursor behind the bytes `out`.
abbrev pub behind : List ℕ → List ℕ → Reader
behind out buf = record { buf = buf; pos = length out }

pub Reads-behind :
    {A : Type 0} {m : Read A} {bs : List ℕ} {a : A} (out rest : List ℕ)
    → Reads m bs a
    → m (behind out ((out ++ bs) ++ rest)) ≡ (some a, behind (out ++ bs) ((out ++ bs) ++ rest))
Reads-behind {bs} {a} out rest p =
    p.at (behind out ((out ++ bs) ++ rest)) rest
      (omega (arith, length-append (out ++ bs) rest, length-append out bs))
      (ap (λ (l : List ℕ). drop (length out) l) (append_assoc out bs rest)
        ∙ drop-append out (bs ++ rest))
    ∙ ap (λ k. (some a, record { buf = (out ++ bs) ++ rest; pos = k })) (sym (length-append out bs))

-- A string of at most `max` bytes, below 2^16, is written behind `out`, and is read back from there;
-- the cursor is then behind the string, whatever follows.
utf-utf :
    (out s rest : List ℕ) (max : ℕ)
    → IsUtf8 s
    → length s ≤ max
    → max < 2 ^ 16
    → (sent : List ℕ) × (Writer.utf out s max ≡ Writer.ok sent)
      × (Reader.utf max (behind out (sent ++ rest)) ≡ (some s, behind sent (sent ++ rest)))
utf-utf out s rest max h fits small = (
  out ++ utf_bytes s,
  utf_appends out s max fits,
  Reads-behind out rest (utf-Reads max s h fits (omega arith)),
)

-- An identity of two words is written behind `out` and read back from there, whatever follows.
uuid-uuid :
    (out rest : List ℕ) (a : Uid)
    → IsId a
    → Reader.uuid (behind out (Writer.uuid out a ++ rest))
      ≡ (some a, behind (Writer.uuid out a) (Writer.uuid out a ++ rest))
uuid-uuid out rest a h = rw (uuid_appends out a h) (Reads-behind out rest (uuid-Reads a h))
