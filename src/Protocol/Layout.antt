-- ===== src/Protocol/Layout.antt =====
-- The frames that answer a hello, field by field, as docs/protocol.md lays them out.

use confluxmap_pumpkin.Base.{
  ℕ, zero, suc, ◌≤◌, ◌^◌, ◌≡◌, refl, sym, ◌∙◌, List, [], ◌∷◌, ◌++◌, append_assoc, append-nil, arith,
  length, take, min,
}
use confluxmap_pumpkin.Base.Int.{to_word}
use confluxmap_pumpkin.Wire.Bytes.{to_be}
use confluxmap_pumpkin.Wire.Encoding.{utf_bytes}
use confluxmap_pumpkin.Wire.Writer
use confluxmap_pumpkin.Protocol.{
  Str, Dim, Budgets, bits, clamped, put_capabilities, put_dims, build_map_capabilities,
  build_hello_policy, write_utf,
}
use confluxmap_pumpkin.Protocol.Clamp.{take_all}

abbrev pub pair_bytes : List (ℕ × ℕ) → List ℕ
pair_bytes [] = []
pair_bytes ((id, version) ∷ pairs) = id ∷ version ∷ pair_bytes pairs

put_capabilities-append :
    (pairs : List (ℕ × ℕ)) (out : List ℕ) → put_capabilities out pairs ≡ out ++ pair_bytes pairs
unfolding put_capabilities Writer.u8
put_capabilities-append [] out = sym (append-nil out)
put_capabilities-append ((id, version) ∷ pairs) out =
    put_capabilities-append pairs ((out ++ id ∷ []) ++ version ∷ []) ∙ simp append_assoc

-- The frame of a selection, in the order of its fields.
abbrev pub selection_frame : Str → List (ℕ × ℕ) → List ℕ
selection_frame version pairs =
    (0x12 ∷ [])
    ++ ((2 ∷ [])
        ++ (utf_bytes version
            ++ (utf_bytes []
                ++ ((2 ∷ [])
                    ++ ((2 ∷ []) ++ ((2 ∷ []) ++ ((length pairs ∷ []) ++ pair_bytes pairs)))))))

pub build_map_capabilities-frame :
    (version : Str) (pairs : List (ℕ × ℕ))
    → length pairs ≤ 32
    → build_map_capabilities version pairs ≡ selection_frame (clamped version) pairs
unfolding build_map_capabilities write_utf Writer.u8 Writer.u16
build_map_capabilities-frame version pairs few =
    let size : min (length pairs) 32 ≡ length pairs = omega arith in
    let all : take (min (length pairs) 32) pairs ≡ pairs = rw size (take_all pairs) in
    rw (all, put_capabilities-append) (simp append_assoc)

abbrev dim_bytes : List Dim → List ℕ
dim_bytes [] = []
dim_bytes (d ∷ dims) =
    utf_bytes (clamped d.id)
    ++ (utf_bytes (clamped d.kind)
        ++ (bits d ∷ (to_be 8 (to_word (2 ^ 64) d.seed) ++ dim_bytes dims)))

-- The frame of a policy, in the order of its fields.
abbrev pub policy_frame : ℕ → Str → Str → Budgets → List Dim → List ℕ
policy_frame flags world_id worldgen b dims =
    0x02
    ∷ flags
    ∷ (utf_bytes (clamped world_id)
        ++ (utf_bytes (clamped worldgen)
            ++ (to_be 4 (to_word (2 ^ 32) b.max_bytes_per_sec)
                ++ (to_be 2 b.max_tiles_per_req
                    ++ (to_be 2 b.min_req_interval_ms
                        ++ (b.max_patch_lod ∷ length dims ∷ dim_bytes dims))))))

write_utf-append : (out s : List ℕ) → write_utf out s ≡ out ++ utf_bytes (clamped s)
unfolding write_utf Writer.u16
write_utf-append out s = simp append_assoc

put_dims-append : (dims : List Dim) (out : List ℕ) → put_dims out dims ≡ out ++ dim_bytes dims
unfolding put_dims Writer.u8 Writer.i64
put_dims-append [] out = sym (append-nil out)
put_dims-append (d ∷ dims) out =
    put_dims-append dims _
    ∙ rw (write_utf-append (write_utf out d.id) d.kind, write_utf-append out d.id)
        (simp append_assoc)

take-min : (n : ℕ) (dims : List Dim) → take (min (length dims) n) dims ≡ take n dims
take-min zero dims = let none_kept : min (length dims) 0 ≡ 0 = omega arith in rw none_kept refl
take-min (suc n) [] = let none_there : min 0 (suc n) ≡ 0 = omega arith in rw none_there refl
take-min (suc n) (d ∷ dims) =
    let one_more : min (length (d ∷ dims)) (suc n) ≡ suc (min (length dims) n) = omega arith in
    rw (one_more, take-min n dims) refl

pub build_hello_policy-frame :
    (flags : ℕ) (world_id worldgen : Str) (b : Budgets) (dims : List Dim)
    → build_hello_policy flags world_id worldgen b dims
      ≡ policy_frame flags world_id worldgen b (take 8 dims)
unfolding build_hello_policy Writer.u8 Writer.u16 Writer.i32
build_hello_policy-frame flags world_id worldgen b dims =
    rw (take-min 8 dims, put_dims-append (take 8 dims) _) (simp append_assoc)
