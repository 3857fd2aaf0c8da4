-- ===== src/Correction/Patch/Tests.antt =====
-- Requests and patches on concrete data.
use confluxmap_pumpkin.Base.{◌≡◌, ◌↔◌, ℕ, refl, arith, none, some, List, [], ◌∷◌, ◌++◌, All}
use confluxmap_pumpkin.Base.Int.{pos, negsuc, of_word}
use confluxmap_pumpkin.Wire.Bytes.{IsByte, of_be, of_be_from}
use confluxmap_pumpkin.Wire.Reader
use confluxmap_pumpkin.Correction.Patch.{
  MapViewReq, MapRegionViewReq, decode_map_view_req_c2s, decode_map_region_view_req_c2s,
}
use confluxmap_pumpkin.Correction.Patch.Frames.{view_frame, region_frame, FitsView, FitsRegions}
use confluxmap_pumpkin.Correction.Patch.Decodes.{decode-frames}

-- One tile of dimension 1, at (2, -1).
abbrev one_tile : List ℕ
one_tile =
    3 ∷ 0 ∷ 0 ∷ 0 ∷ 7 ∷ 1 ∷ 4 ∷ 1 ∷ 0 ∷ 0 ∷ 0 ∷ 2 ∷ 255 ∷ 255 ∷ 255 ∷ 255 ∷ 0 ∷ 0 ∷ 0 ∷ 0 ∷ 0 ∷ 0
    ∷ 0 ∷ 9 ∷ []

one_tile-IsByte : All IsByte one_tile
one_tile-IsByte = ground arith

decode-frames_example :
    ((m : MapViewReq)
      → (decode_map_view_req_c2s one_tile ≡ some m) ↔ (FitsView m × (one_tile ≡ view_frame m)))
    × ((m : MapRegionViewReq)
        → (decode_map_region_view_req_c2s one_tile ≡ some m)
          ↔ (FitsRegions m × (one_tile ≡ region_frame m)))
decode-frames_example = decode-frames one_tile one_tile-IsByte

reads_tile :
    decode_map_view_req_c2s one_tile
    ≡ some (record {
      req_id = pos 7;
      dim_index = 1;
      lod = 4;
      tiles = record { tile_x = pos 2; tile_z = negsuc 0; since_revision = pos 9 } ∷ [];
    })
unfolding decode_map_view_req_c2s Reader.u8 Reader.i32 Reader.bytes Reader.i64 Reader.remaining
    of_word of_be of_be_from
reads_tile = refl

refuses_longer : decode_map_view_req_c2s (one_tile ++ 0 ∷ []) ≡ none
unfolding decode_map_view_req_c2s Reader.u8 Reader.i32 Reader.bytes Reader.i64 Reader.remaining
refuses_longer = refl
