-- ===== src/Correction/Patch/Views.antt =====
-- The decoder of the requests for tiles, on the frames of the valid ones and on any payload.
use mathlib.Core.Path.{subst}
use confluxmap_pumpkin.Base.{
  ℕ, zero, suc, ◌≤◌, ◌≡◌, refl, sym, ap, List, [], ◌∷◌, append-nil, length, All,
}
use confluxmap_pumpkin.Wire.Encoding.{i32_bytes, i64_bytes}
use confluxmap_pumpkin.Wire.Reader.{◌>>=◌}
use confluxmap_pumpkin.Wire.RoundTrip.{
  Reads, Reads-bind, Reads-pure, Reads-map, u8-Reads, i32-Reads, i64-Reads,
}
use confluxmap_pumpkin.Wire.Exact.{
  Exact, Exact-bind, Exact-map, Exact-pure, u8-Exact, i32-Exact, i64-Exact,
}
use confluxmap_pumpkin.Wire.Whole.{
  Whole, Ends, Whole-bind, Whole-unless, Ends-bind, Ends-unless, Ends-map,
}
use confluxmap_pumpkin.Correction.Patch.{
  TileReq, MapViewReq, finish, read_tile, read_tiles, view_req,
}
use confluxmap_pumpkin.Correction.Patch.Frames.{
  tile_bytes, tiles_bytes, view_frame, FitsTile, FitsView,
}
use confluxmap_pumpkin.Correction.Patch.Ends.{
  finish-Whole, finish-Ends, dimension_ok, dimension_fits, type_is, count_ok, count_fits,
}

tile-Reads : (t : TileReq) → FitsTile t → Reads read_tile (tile_bytes t) t
unfolding read_tile
tile-Reads t (x, z, s) = Reads-bind _ _ (i32_bytes t.tile_x) _ _ _ (i32-Reads t.tile_x x) (
    Reads-bind _ _ (i32_bytes t.tile_z) _ _ _ (i32-Reads t.tile_z z) (
      Reads-map (i64-Reads t.since_revision s)
        λ v. record { tile_x = t.tile_x; tile_z = t.tile_z; since_revision = v }))

tiles-Reads :
    (ts : List TileReq) → All FitsTile ts → Reads (read_tiles (length ts)) (tiles_bytes ts) ts
unfolding read_tiles tiles_bytes
tiles-Reads [] h = Reads-pure []
tiles-Reads (t ∷ ts) (h, hs) =
    Reads-bind _ _ (tile_bytes t) (tiles_bytes ts) t (t ∷ ts) (tile-Reads t h)
      (Reads-map (tiles-Reads ts hs) λ ts. t ∷ ts)

abbrev TileSpelled : TileReq → List ℕ → Type 0
TileSpelled t bs = FitsTile t × (bs ≡ tile_bytes t)

tile-Exact : Exact read_tile TileSpelled
unfolding read_tile
tile-Exact =
    Exact-map
      (Exact-bind _ _ i32-Exact λ x. Exact-bind _ _ i32-Exact λ z.
        Exact-bind _ _ i64-Exact
          λ s. Exact-pure (record { tile_x = x; tile_z = z; since_revision = s }))
      λ t bs a.
        let b = a.right in
        let c = b.right in
        let (same, done) = c.right in
        subst (λ t. TileSpelled t bs) same
          (
            (a.left.0, b.left.0, c.left.0),
            rw (
              a.split,
              a.left.1,
              b.split,
              b.left.1,
              c.split,
              c.left.1,
              done,
              append-nil (i64_bytes c.first),
            ),
          )

abbrev TilesSpelled : ℕ → List TileReq → List ℕ → Type 0
TilesSpelled n ts bs = All FitsTile ts × (bs ≡ tiles_bytes ts) × (length ts ≡ n)

tiles-Exact : (n : ℕ) → Exact (read_tiles n) (TilesSpelled n)
unfolding read_tiles tiles_bytes
tiles-Exact zero =
    Exact-map (Exact-pure [])
      λ ts bs (same, done). subst (λ ts. TilesSpelled 0 ts bs) same (tt, done, refl)
tiles-Exact (suc n) =
    Exact-map
      (Exact-bind _ _ tile-Exact λ t. Exact-bind _ _ (tiles-Exact n) λ ts. Exact-pure (t ∷ ts))
      λ ts bs a.
        let b = a.right in
        let (same, done) = b.right in
        let (fits, spelled, size) = b.left in
        subst (λ ts. TilesSpelled (suc n) ts bs) same
          (
            (a.left.0, fits),
            rw (a.split, a.left.1, b.split, spelled, done, append-nil (tiles_bytes b.first)),
            ap suc size,
          )

view_tail :
    (m : MapViewReq)
    → All FitsTile m.tiles
    → Whole
        (read_tiles (length m.tiles) >>= λ ts. finish (record m { tiles = ts }))
        (tiles_bytes m.tiles)
        m
view_tail m ts =
    subst
      (λ bs. Whole (read_tiles (length m.tiles) >>= λ ts. finish (record m { tiles = ts })) bs m)
      (append-nil (tiles_bytes m.tiles))
      (Whole-bind _ _ (tiles_bytes m.tiles) [] m.tiles m (tiles-Reads m.tiles ts) (finish-Whole m))

pub view-Whole : (m : MapViewReq) → FitsView m → Whole view_req (view_frame m) m
unfolding view_req view_frame FitsView
view-Whole m (q, d, l, c, ts) = Whole-bind _ _ (0x03 ∷ []) _ 0x03 _ (u8-Reads 0x03) (
    Whole-bind _ _ (i32_bytes m.req_id) _ _ _ (i32-Reads m.req_id q) (
      Whole-bind _ _ (m.dim_index ∷ []) _ _ _ (u8-Reads m.dim_index) (
        Whole-bind _ _ (m.lod ∷ []) _ _ _ (u8-Reads m.lod) (
          Whole-unless _ _ _ _ (dimension_fits m.dim_index m.lod d l) (
            Whole-bind _ _ (length m.tiles ∷ []) _ _ _ (u8-Reads (length m.tiles))
              (Whole-unless _ _ _ _ (count_fits (length m.tiles) 8 c) (view_tail m ts)))))))

abbrev pub ViewSpelled : MapViewReq → List ℕ → Type 0
ViewSpelled m bs = FitsView m × (bs ≡ view_frame m)

pub view-Ends : Ends view_req ViewSpelled
unfolding view_req view_frame FitsView
view-Ends =
    Ends-map
      (Ends-bind _ _ u8-Exact λ type_id. Ends-unless _ _ (
        Ends-bind _ _ i32-Exact λ q. Ends-bind _ _ u8-Exact λ d. Ends-bind _ _ u8-Exact λ l.
          Ends-unless _ _ (
            Ends-bind _ _ u8-Exact λ n. Ends-unless _ _ (
              Ends-bind _ _ (tiles-Exact n)
                λ ts. finish-Ends (record { req_id = q; dim_index = d; lod = l; tiles = ts })))))
      λ m bs a.
        let (c1, b) = a.right in
        let c = b.right in
        let d = c.right in
        let (c2, e) = d.right in
        let (c3, f) = e.right in
        let (same, done) = f.right in
        let (fits, spelled, size) = f.left in
        let (small, level) = dimension_ok c.first d.first c2 in
        let kind : a.first ≡ 3 = type_is a.first 3 c1 in
        subst (λ m. ViewSpelled m bs) same
          (
            (b.left.0, small, level, subst (λ n. n ≤ 8) (sym size) (count_ok e.first 8 c3), fits),
            rw (
              a.split,
              a.left.1,
              kind,
              b.split,
              b.left.1,
              c.split,
              c.left.1,
              d.split,
              d.left.1,
              e.split,
              e.left.1,
              f.split,
              spelled,
              done,
              size,
              append-nil (tiles_bytes f.first),
            ),
          )
