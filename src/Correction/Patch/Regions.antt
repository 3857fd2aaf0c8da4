-- ===== src/Correction/Patch/Regions.antt =====
-- The decoder of the requests for region pages, on the frames of the valid ones and on any payload.
use mathlib.Core.Path.{subst}
use confluxmap_pumpkin.Base.{
  ℕ, zero, suc, ◌≤◌, ◌<◌, ◌≡◌, refl, sym, ap, Bool, false, ◌||◌, List, [], ◌∷◌, append-nil, arith,
  ltb, leb, ◌==◌, if◌then◌else◌, length, All,
}
use confluxmap_pumpkin.Wire.Encoding.{i32_bytes, i64_bytes}
use confluxmap_pumpkin.Wire.Reader.{Read, pure, fail, ◌>>=◌}
use confluxmap_pumpkin.Wire.RoundTrip.{
  Reads, Reads-bind, Reads-pure, Reads-map, u8-Reads, i32-Reads, i64-Reads,
}
use confluxmap_pumpkin.Wire.Exact.{
  Exact, Exact-bind, Exact-map, Exact-pure, Exact-unless, u8-Exact, i32-Exact, i64-Exact,
}
use confluxmap_pumpkin.Wire.Whole.{
  Whole, Ends, Whole-bind, Whole-unless, Ends-bind, Ends-unless, Ends-map,
}
use confluxmap_pumpkin.Correction.Patch.{
  RegionReq, MapRegionViewReq, finish, read_region, read_regions, region_view_req,
}
use confluxmap_pumpkin.Correction.Patch.Frames.{
  region_bytes, regions_bytes, region_frame, FitsRegion, FitsRegions,
}
use confluxmap_pumpkin.Correction.Patch.Ends.{
  finish-Whole, finish-Ends, dimension_ok, dimension_fits, type_is,
}

crop_ok :
    (a b c d : ℕ)
    → ltb c a || ltb d b || leb 16 c || leb 16 d ≡ false
    → (a ≤ c) × (b ≤ d) × (c < 16) × (d < 16)
crop_ok a b c d h = ground arith

crop_fits :
    (q : RegionReq)
    → q.min_local_chunk_x ≤ q.max_local_chunk_x
    → q.min_local_chunk_z ≤ q.max_local_chunk_z
    → q.max_local_chunk_x < 16
    → q.max_local_chunk_z < 16
    → ltb q.max_local_chunk_x q.min_local_chunk_x
        || ltb q.max_local_chunk_z q.min_local_chunk_z
        || leb 16 q.max_local_chunk_x
        || leb 16 q.max_local_chunk_z
      ≡ false
crop_fits q a b c d = ground arith

pages_ok : (n : ℕ) → n == 0 || ltb 32 n ≡ false → (1 ≤ n) × (n ≤ 32)
pages_ok n h = ground arith

pages_fit : (n : ℕ) → 1 ≤ n → n ≤ 32 → n == 0 || ltb 32 n ≡ false
pages_fit n h k = ground arith

-- A last field behind which a test is passed.
Reads-checked :
    {A B : Type 0} (m : Read A) (t : A → Bool) (f : A → B) (bs : List ℕ) (a : A)
    → t a ≡ false
    → Reads m bs a
    → Reads (m >>= λ x. if t x then fail else pure (f x)) bs (f a)
Reads-checked m t f bs a h p = record { at = λ r rest i e. rw (p.at r rest i e, h) }

region-Reads : (q : RegionReq) → FitsRegion q → Reads read_region (region_bytes q) q
unfolding read_region
region-Reads q (x, z, s, a, b, c, d) =
    Reads-bind _ _ (i32_bytes q.region_x) _ _ _ (i32-Reads q.region_x x) (
      Reads-bind _ _ (i32_bytes q.region_z) _ _ _ (i32-Reads q.region_z z) (
        Reads-bind _ _ (q.min_local_chunk_x ∷ []) _ _ _ (u8-Reads q.min_local_chunk_x) (
          Reads-bind _ _ (q.min_local_chunk_z ∷ []) _ _ _ (u8-Reads q.min_local_chunk_z) (
            Reads-bind _ _ (q.max_local_chunk_x ∷ []) _ _ _ (u8-Reads q.max_local_chunk_x) (
              Reads-bind _ _ (q.max_local_chunk_z ∷ []) _ _ _ (u8-Reads q.max_local_chunk_z) (
                Reads-checked _ _ _ (i64_bytes q.since_revision) _ (crop_fits q a b c d)
                  (i64-Reads q.since_revision s)))))))

abbrev RegionSpelled : RegionReq → List ℕ → Type 0
RegionSpelled q bs = FitsRegion q × (bs ≡ region_bytes q)

region-Exact : Exact read_region RegionSpelled
unfolding read_region
region-Exact =
    Exact-map
      (Exact-bind _ _ i32-Exact λ x. Exact-bind _ _ i32-Exact λ z. Exact-bind _ _ u8-Exact λ a.
        Exact-bind _ _ u8-Exact λ b. Exact-bind _ _ u8-Exact λ c. Exact-bind _ _ u8-Exact λ d.
          Exact-bind _ _ i64-Exact λ s. Exact-unless _ _ (
            Exact-pure (record {
              region_x = x;
              region_z = z;
              min_local_chunk_x = a;
              min_local_chunk_z = b;
              max_local_chunk_x = c;
              max_local_chunk_z = d;
              since_revision = s;
            })))
      λ q bs a.
        let b = a.right in
        let c = b.right in
        let d = c.right in
        let e = d.right in
        let f = e.right in
        let g = f.right in
        let (inside, end) = g.right in
        let (same, done) = end in
        let (i1, i2, i3, i4) = crop_ok c.first d.first e.first f.first inside in
        subst (λ q. RegionSpelled q bs) same
          (
            (a.left.0, b.left.0, g.left.0, i1, i2, i3, i4),
            rw (
              a.split,
              a.left.1,
              b.split,
              b.left.1,
              c.split,
              c.left.1,
              d.split,
              d.left.1,
              e.split,
              e.left.1,
              f.split,
              f.left.1,
              g.split,
              g.left.1,
              done,
              append-nil (i64_bytes g.first),
            ),
          )

regions-Reads :
    (qs : List RegionReq)
    → All FitsRegion qs
    → Reads (read_regions (length qs)) (regions_bytes qs) qs
unfolding read_regions regions_bytes
regions-Reads [] h = Reads-pure []
regions-Reads (q ∷ qs) (h, hs) =
    Reads-bind _ _ (region_bytes q) (regions_bytes qs) q (q ∷ qs) (region-Reads q h)
      (Reads-map (regions-Reads qs hs) λ qs. q ∷ qs)

abbrev RegionsSpelled : ℕ → List RegionReq → List ℕ → Type 0
RegionsSpelled n qs bs = All FitsRegion qs × (bs ≡ regions_bytes qs) × (length qs ≡ n)

regions-Exact : (n : ℕ) → Exact (read_regions n) (RegionsSpelled n)
unfolding read_regions regions_bytes
regions-Exact zero =
    Exact-map (Exact-pure [])
      λ qs bs (same, done). subst (λ qs. RegionsSpelled 0 qs bs) same (tt, done, refl)
regions-Exact (suc n) =
    Exact-map
      (Exact-bind _ _ region-Exact λ q. Exact-bind _ _ (regions-Exact n) λ qs. Exact-pure (q ∷ qs))
      λ qs bs a.
        let b = a.right in
        let (same, done) = b.right in
        let (fits, spelled, size) = b.left in
        subst (λ qs. RegionsSpelled (suc n) qs bs) same
          (
            (a.left.0, fits),
            rw (a.split, a.left.1, b.split, spelled, done, append-nil (regions_bytes b.first)),
            ap suc size,
          )

region_tail :
    (m : MapRegionViewReq)
    → All FitsRegion m.regions
    → Whole
        (read_regions (length m.regions) >>= λ qs. finish (record m { regions = qs }))
        (regions_bytes m.regions)
        m
region_tail m qs =
    subst
      (λ bs.
        Whole (read_regions (length m.regions) >>= λ qs. finish (record m { regions = qs })) bs m)
      (append-nil (regions_bytes m.regions))
      (Whole-bind _ _ (regions_bytes m.regions) [] m.regions m (regions-Reads m.regions qs)
        (finish-Whole m))

pub regions-Whole :
    (m : MapRegionViewReq) → FitsRegions m → Whole region_view_req (region_frame m) m
unfolding region_view_req region_frame FitsRegions
regions-Whole m (q, d, l, some_there, c, qs) = Whole-bind _ _ (0x0c ∷ []) _ 0x0c _ (u8-Reads 0x0c) (
    Whole-bind _ _ (i32_bytes m.req_id) _ _ _ (i32-Reads m.req_id q) (
      Whole-bind _ _ (m.dim_index ∷ []) _ _ _ (u8-Reads m.dim_index) (
        Whole-bind _ _ (m.lod ∷ []) _ _ _ (u8-Reads m.lod) (
          Whole-unless _ _ _ _ (dimension_fits m.dim_index m.lod d l) (
            Whole-bind _ _ (length m.regions ∷ []) _ _ _ (u8-Reads (length m.regions)) (
              Whole-unless _ _ _ _ (pages_fit (length m.regions) some_there c)
                (region_tail m qs)))))))

abbrev pub RegionViewSpelled : MapRegionViewReq → List ℕ → Type 0
RegionViewSpelled m bs = FitsRegions m × (bs ≡ region_frame m)

pub regions-Ends : Ends region_view_req RegionViewSpelled
unfolding region_view_req region_frame FitsRegions
regions-Ends =
    Ends-map
      (Ends-bind _ _ u8-Exact λ type_id. Ends-unless _ _ (
        Ends-bind _ _ i32-Exact λ q. Ends-bind _ _ u8-Exact λ d. Ends-bind _ _ u8-Exact λ l.
          Ends-unless _ _ (
            Ends-bind _ _ u8-Exact λ n. Ends-unless _ _ (
              Ends-bind _ _ (regions-Exact n)
                λ qs. finish-Ends (record { req_id = q; dim_index = d; lod = l; regions = qs })))))
      λ m bs a.
        let (c1, b) = a.right in
        let c = b.right in
        let d = c.right in
        let (c2, e) = d.right in
        let (c3, f) = e.right in
        let (same, done) = f.right in
        let (fits, spelled, size) = f.left in
        let (small, level) = dimension_ok c.first d.first c2 in
        let (one, most) = pages_ok e.first c3 in
        let kind : a.first ≡ 0x0c = type_is a.first 0x0c c1 in
        subst (λ m. RegionViewSpelled m bs) same
          (
            (
              b.left.0,
              small,
              level,
              subst (λ n. 1 ≤ n) (sym size) one,
              subst (λ n. n ≤ 32) (sym size) most,
              fits,
            ),
            rw (
              a.split,
              a.left.1,
              kind,
              b.split,
              b.left.1,
              c.split,
              c.left.1,
              d.split,
              d.left.1,
              e.split,
              e.left.1,
              f.split,
              spelled,
              done,
              size,
              append-nil (regions_bytes f.first),
            ),
          )
