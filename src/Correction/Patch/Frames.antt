-- ===== src/Correction/Patch/Frames.antt =====
-- The frames of the requests, and what their fields may hold.
use confluxmap_pumpkin.Base.{ℕ, ◌≤◌, ◌<◌, List, [], ◌∷◌, ◌++◌, length, All}
use confluxmap_pumpkin.Base.Int.{IsI32, IsI64}
use confluxmap_pumpkin.Wire.Encoding.{i32_bytes, i64_bytes}
use confluxmap_pumpkin.Correction.Patch.{TileReq, MapViewReq, RegionReq, MapRegionViewReq}

abbrev pub tile_bytes : TileReq → List ℕ
tile_bytes t = i32_bytes t.tile_x ++ (i32_bytes t.tile_z ++ i64_bytes t.since_revision)

unfoldable pub tiles_bytes : List TileReq → List ℕ
tiles_bytes [] = []
tiles_bytes (t ∷ ts) = tile_bytes t ++ tiles_bytes ts

unfoldable pub view_frame : MapViewReq → List ℕ
unfolding tiles_bytes
view_frame m =
    (0x03 ∷ [])
    ++ (i32_bytes m.req_id
        ++ ((m.dim_index ∷ []) ++ ((m.lod ∷ []) ++ ((length m.tiles ∷ []) ++ tiles_bytes m.tiles))))

abbrev pub FitsTile : TileReq → Type 0
FitsTile t = IsI32 t.tile_x × IsI32 t.tile_z × IsI64 t.since_revision

-- A dimension below 8, a level up to 4 and at most 8 tiles.
unfoldable pub FitsView : MapViewReq → Type 0
FitsView m =
    IsI32 m.req_id × (m.dim_index < 8) × (m.lod ≤ 4) × (length m.tiles ≤ 8) × All FitsTile m.tiles

abbrev pub region_bytes : RegionReq → List ℕ
region_bytes q =
    i32_bytes q.region_x
    ++ (i32_bytes q.region_z
        ++ ((q.min_local_chunk_x ∷ [])
            ++ ((q.min_local_chunk_z ∷ [])
                ++ ((q.max_local_chunk_x ∷ [])
                    ++ ((q.max_local_chunk_z ∷ []) ++ i64_bytes q.since_revision)))))

unfoldable pub regions_bytes : List RegionReq → List ℕ
regions_bytes [] = []
regions_bytes (q ∷ qs) = region_bytes q ++ regions_bytes qs

unfoldable pub region_frame : MapRegionViewReq → List ℕ
unfolding regions_bytes
region_frame m =
    (0x0c ∷ [])
    ++ (i32_bytes m.req_id
        ++ ((m.dim_index ∷ [])
            ++ ((m.lod ∷ []) ++ ((length m.regions ∷ []) ++ regions_bytes m.regions))))

-- A crop of the 16 by 16 chunks of a region page.
abbrev pub FitsRegion : RegionReq → Type 0
FitsRegion q =
    IsI32 q.region_x
    × IsI32 q.region_z
    × IsI64 q.since_revision
    × (q.min_local_chunk_x ≤ q.max_local_chunk_x)
    × (q.min_local_chunk_z ≤ q.max_local_chunk_z)
    × (q.max_local_chunk_x < 16)
    × (q.max_local_chunk_z < 16)

-- A dimension below 8, a level up to 4 and from 1 to 32 regions.
unfoldable pub FitsRegions : MapRegionViewReq → Type 0
FitsRegions m =
    IsI32 m.req_id
    × (m.dim_index < 8)
    × (m.lod ≤ 4)
    × (1 ≤ length m.regions)
    × (length m.regions ≤ 32)
    × All FitsRegion m.regions
