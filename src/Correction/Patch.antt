-- ===== src/Correction/Patch.antt =====
-- correction/patch.rs: the requests for map patches, and the frames that answer them.
pub mod Frames
mod Ends
mod Views
mod Regions
pub mod Decodes
mod Tests
use confluxmap_pumpkin.Base.{
  ℕ, zero, suc, ◌%◌, ◌^◌, Bool, ◌||◌, not, Option, none, some, List, [], ◌∷◌, ◌++◌, ltb, leb, ◌==◌,
  if◌then◌else◌, length, take, min,
}
use confluxmap_pumpkin.Base.Int.{ℤ, pos, of_word}
use confluxmap_pumpkin.Wire.Reader
use confluxmap_pumpkin.Wire.Reader.{Reader, Read, ◌>>=◌, pure, fail, new}
use confluxmap_pumpkin.Wire.Writer

abbrev pub msg_map_view_req : ℕ
msg_map_view_req = 0x03

abbrev pub msg_map_patch : ℕ
msg_map_patch = 0x04

abbrev pub msg_map_region_view_req : ℕ
msg_map_region_view_req = 0x0c

abbrev pub msg_map_region_patch : ℕ
msg_map_region_patch = 0x0d

abbrev pub max_tiles_per_req : ℕ
max_tiles_per_req = 8

abbrev pub max_region_pages_per_req : ℕ
max_region_pages_per_req = 32

abbrev pub max_dim_entries : ℕ
max_dim_entries = 8

abbrev pub max_lod : ℕ
max_lod = 4

pub record TileReq : Type 0 where
  pub tile_x : ℤ
  pub tile_z : ℤ
  pub since_revision : ℤ

pub record MapViewReq : Type 0 where
  pub req_id : ℤ
  pub dim_index : ℕ
  pub lod : ℕ
  pub tiles : List TileReq

pub record RegionReq : Type 0 where
  pub region_x : ℤ
  pub region_z : ℤ
  pub min_local_chunk_x : ℕ
  pub min_local_chunk_z : ℕ
  pub max_local_chunk_x : ℕ
  pub max_local_chunk_z : ℕ
  pub since_revision : ℤ

pub record MapRegionViewReq : Type 0 where
  pub req_id : ℤ
  pub dim_index : ℕ
  pub lod : ℕ
  pub regions : List RegionReq

pub record StructureEntry : Type 0 where
  pub struct_type : ℕ
  pub block_x : ℤ
  pub block_z : ℤ
  pub state : ℕ

-- `if r.remaining() != 0 { return None; }`, and the message.
unfoldable pub finish {ℓ} : {A : Type ℓ} → A → Read A
finish a r = if not (Reader.remaining r == 0) then (none, r) else (some a, r)

abbrev pub result {ℓ} : {A : Type ℓ} → Option A × Reader → Option A
result (o, r) = o

unfoldable pub read_tile : Read TileReq
read_tile = do
  tile_x ← Reader.i32
  tile_z ← Reader.i32
  since_revision ← Reader.i64
  pure (record { tile_x = tile_x; tile_z = tile_z; since_revision = since_revision })

-- `for _ in 0..tile_count`
unfoldable pub read_tiles : ℕ → Read (List TileReq)
unfolding read_tile
read_tiles zero = pure []
read_tiles (suc n) = do tile ← read_tile; tiles ← read_tiles n; pure (tile ∷ tiles)

unfoldable pub view_req : Read MapViewReq
unfolding read_tiles finish
view_req = do
  type_id ← Reader.u8
  if not (type_id == msg_map_view_req) then fail else do
    req_id ← Reader.i32
    dim_index ← Reader.u8
    lod ← Reader.u8
    if leb max_dim_entries dim_index || ltb max_lod lod then fail else do
      tile_count ← Reader.u8
      if ltb max_tiles_per_req tile_count then fail else do
        tiles ← read_tiles tile_count
        finish (record { req_id = req_id; dim_index = dim_index; lod = lod; tiles = tiles })

unfoldable pub decode_map_view_req_c2s : List ℕ → Option MapViewReq
unfolding view_req
decode_map_view_req_c2s payload = result (view_req (new payload))

-- The body of the loop over the regions.
unfoldable pub read_region : Read RegionReq
read_region = do
  region_x ← Reader.i32
  region_z ← Reader.i32
  min_x ← Reader.u8
  min_z ← Reader.u8
  max_x ← Reader.u8
  max_z ← Reader.u8
  since_revision ← Reader.i64
  if ltb max_x min_x || ltb max_z min_z || leb 16 max_x || leb 16 max_z
      then fail
      else pure (record {
        region_x = region_x;
        region_z = region_z;
        min_local_chunk_x = min_x;
        min_local_chunk_z = min_z;
        max_local_chunk_x = max_x;
        max_local_chunk_z = max_z;
        since_revision = since_revision;
      })

unfoldable pub read_regions : ℕ → Read (List RegionReq)
unfolding read_region
read_regions zero = pure []
read_regions (suc n) = do region ← read_region; regions ← read_regions n; pure (region ∷ regions)

unfoldable pub region_view_req : Read MapRegionViewReq
unfolding read_regions finish
region_view_req = do
  type_id ← Reader.u8
  if not (type_id == msg_map_region_view_req) then fail else do
    req_id ← Reader.i32
    dim_index ← Reader.u8
    lod ← Reader.u8
    if leb max_dim_entries dim_index || ltb max_lod lod then fail else do
      region_count ← Reader.u8
      if region_count == 0 || ltb max_region_pages_per_req region_count then fail else do
        regions ← read_regions region_count
        finish (record { req_id = req_id; dim_index = dim_index; lod = lod; regions = regions })

unfoldable pub decode_map_region_view_req_c2s : List ℕ → Option MapRegionViewReq
unfolding region_view_req
decode_map_region_view_req_c2s payload = result (region_view_req (new payload))

-- The arguments of `encode_map_region_patch_s2c`.
pub record RegionPatch : Type 0 where
  pub req_id : ℤ
  pub dim_index : ℕ
  pub lod : ℕ
  pub region_x : ℤ
  pub region_z : ℤ
  pub min_local_chunk_x : ℕ
  pub min_local_chunk_z : ℕ
  pub max_local_chunk_x : ℕ
  pub max_local_chunk_z : ℕ
  pub mode : ℕ
  pub region_revision : ℤ
  pub body : List ℕ

-- `body.len() as i32`, and the body.
unfoldable pub bounded_bytes : List ℕ → List ℕ → List ℕ
bounded_bytes out body = Writer.i32 out (of_word (2 ^ 31) (length body % 2 ^ 32)) ++ body

unfoldable pub encode_map_region_patch_s2c : RegionPatch → List ℕ
unfolding bounded_bytes
encode_map_region_patch_s2c p =
    let out = Writer.u8 [] msg_map_region_patch in
    let out = Writer.i32 out p.req_id in
    let out = Writer.u8 out p.dim_index in
    let out = Writer.u8 out p.lod in
    let out = Writer.i32 out p.region_x in
    let out = Writer.i32 out p.region_z in
    let out = Writer.u8 out p.min_local_chunk_x in
    let out = Writer.u8 out p.min_local_chunk_z in
    let out = Writer.u8 out p.max_local_chunk_x in
    let out = Writer.u8 out p.max_local_chunk_z in
    let out = Writer.u8 out p.mode in
    let out = Writer.i64 out p.region_revision in bounded_bytes out p.body

-- The arguments of `encode_map_patch_s2c_with_structures`.
pub record TilePatch : Type 0 where
  pub req_id : ℤ
  pub dim_index : ℕ
  pub lod : ℕ
  pub tile_x : ℤ
  pub tile_z : ℤ
  pub mode : ℕ
  pub tile_revision : ℤ
  pub presence : List ℕ
  pub structures : List StructureEntry
  pub body : List ℕ

unfoldable pub put_structures : List ℕ → List StructureEntry → List ℕ
put_structures out [] = out
put_structures out (s ∷ structures) =
    let out = Writer.u8 out s.struct_type in
    let out = Writer.i32 out s.block_x in
    let out = Writer.i32 out s.block_z in put_structures (Writer.u8 out s.state) structures

unfoldable pub encode_map_patch_s2c_with_structures : TilePatch → List ℕ
unfolding put_structures bounded_bytes
encode_map_patch_s2c_with_structures p =
    let struct_count = min (length p.structures) 255 in
    let out = Writer.u8 [] msg_map_patch in
    let out = Writer.i32 out p.req_id in
    let out = Writer.u8 out p.dim_index in
    let out = Writer.u8 out p.lod in
    let out = Writer.i32 out p.tile_x in
    let out = Writer.i32 out p.tile_z in
    let out = Writer.u8 out p.mode in
    let out = Writer.i64 out p.tile_revision in
    let out = out ++ p.presence in
    let out = Writer.u8 out struct_count in
    bounded_bytes (put_structures out (take struct_count p.structures)) p.body

unfoldable pub encode_map_patch_s2c : TilePatch → List ℕ
unfolding encode_map_patch_s2c_with_structures
encode_map_patch_s2c p = encode_map_patch_s2c_with_structures (record p { structures = [] })
