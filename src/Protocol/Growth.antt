-- ===== src/Protocol/Growth.antt =====
-- The builders of the frames append to what was written before.
use confluxmap_pumpkin.Base.{
  ℕ, ◌^◌, ◌≡◌, refl, sym, ap, ◌∙◌, List, [], ◌∷◌, ◌++◌, append_assoc, append-nil, length, take, min,
}
use confluxmap_pumpkin.Base.Int.{to_word}
use confluxmap_pumpkin.Wire.Bytes.{to_be}
use confluxmap_pumpkin.Wire.Writer
use confluxmap_pumpkin.Protocol.{
  Str, Dim, Budgets, bits, clamped, put_dims, write_utf, build_hello_policy, max_dim_entries,
  msg_hello_policy,
}

pub record Extends (out out' : List ℕ) : Type 0 where
  pub rest : List ℕ
  pub whole : out' ≡ out ++ rest

infixl 5 ◌andthen◌
abbrev pub ◌andthen◌ : {a b c : List ℕ} → Extends a b → Extends b c → Extends a c
◌andthen◌ {a} first second = record {
  rest = first.rest ++ second.rest;
  whole =
      second.whole
      ∙ ap (λ bs. bs ++ second.rest) first.whole
      ∙ append_assoc a first.rest second.rest;
}

abbrev pub appended : (out bs : List ℕ) → Extends out (out ++ bs)
appended out bs = record { rest = bs; whole = refl }

pub write_utf-Extends : (out s : List ℕ) → Extends out (write_utf out s)
unfolding write_utf Writer.u16
write_utf-Extends out s =
    let size = to_be 2 (length (clamped s)) in
    appended out size andthen appended (out ++ size) (clamped s)

pub put_dims-Extends : (dims : List Dim) (out : List ℕ) → Extends out (put_dims out dims)
unfolding put_dims Writer.u8 Writer.i64
put_dims-Extends [] out = record { rest = []; whole = sym (append-nil out) }
put_dims-Extends (d ∷ dims) out =
    let named = write_utf out d.id in
    let typed = write_utf named d.kind in
    let flagged = typed ++ bits d ∷ [] in
    let seed = to_be 8 (to_word (2 ^ 64) d.seed) in
    write_utf-Extends out d.id
    andthen write_utf-Extends named d.kind
    andthen appended typed (bits d ∷ [])
    andthen appended flagged seed
    andthen put_dims-Extends dims (flagged ++ seed)

-- The policy begins with its type, its flags and the world's id.
pub build_hello_policy-Extends :
    (flags : ℕ) (id version : Str) (b : Budgets) (dims : List Dim)
    → Extends
        (write_utf (msg_hello_policy ∷ flags ∷ []) id)
        (build_hello_policy flags id version b dims)
unfolding build_hello_policy Writer.u8 Writer.u16 Writer.i32
build_hello_policy-Extends flags id version b dims =
    let versioned = write_utf (write_utf (msg_hello_policy ∷ flags ∷ []) id) version in
    let rate = to_be 4 (to_word (2 ^ 32) b.max_bytes_per_sec) in
    let tiles = to_be 2 b.max_tiles_per_req in
    let interval = to_be 2 b.min_req_interval_ms in
    let kept = take (min (length dims) max_dim_entries) dims in
    write_utf-Extends (write_utf (msg_hello_policy ∷ flags ∷ []) id) version
    andthen appended versioned rate
    andthen appended (versioned ++ rate) tiles
    andthen appended (versioned ++ rate ++ tiles) interval
    andthen appended _ (b.max_patch_lod ∷ [])
    andthen appended _ (length kept ∷ [])
    andthen put_dims-Extends kept _
