-- ===== src/Correction/Patch/Decodes.antt =====
-- The decoders of the requests accept the frames of the valid requests and nothing else.
use mathlib.Core.Path.{subst}
use confluxmap_pumpkin.Base.{ℕ, ◌≡◌, ◌↔◌, sym, some, List, All}
use confluxmap_pumpkin.Wire.Bytes.{IsByte}
use confluxmap_pumpkin.Wire.Reader.{new}
use confluxmap_pumpkin.Wire.RoundTrip.{}
use confluxmap_pumpkin.Wire.Exact.{}
use confluxmap_pumpkin.Wire.Whole.{Whole}
use confluxmap_pumpkin.Correction.Patch.{
  MapViewReq, MapRegionViewReq, view_req, decode_map_view_req_c2s, region_view_req,
  decode_map_region_view_req_c2s,
}
use confluxmap_pumpkin.Correction.Patch.Frames.{view_frame, FitsView, region_frame, FitsRegions}
use confluxmap_pumpkin.Correction.Patch.Ends.{accepted, accepts}
use confluxmap_pumpkin.Correction.Patch.Views.{view-Whole, view-Ends}
use confluxmap_pumpkin.Correction.Patch.Regions.{regions-Whole, regions-Ends}

-- On a payload of bytes, each of the two decoders returns a request exactly where the payload is the
-- frame of that request and the request is valid: a dimension below 8, a level up to 4, at most 8
-- tiles, or from 1 to 32 crops that lie within their region page.
pub decode-frames :
    (p : List ℕ)
    → All IsByte p
    → ((m : MapViewReq) → (decode_map_view_req_c2s p ≡ some m) ↔ (FitsView m × (p ≡ view_frame m)))
      × ((m : MapRegionViewReq)
          → (decode_map_region_view_req_c2s p ≡ some m) ↔ (FitsRegions m × (p ≡ region_frame m)))
unfolding decode_map_view_req_c2s decode_map_region_view_req_c2s
decode-frames p h = (
  λ m. (
    λ e. view-Ends.at (new p) (view_req (new p)).1 m h (accepted view_req p m e),
    λ (fits, same).
        accepts view_req p m (subst (λ bs. Whole view_req bs m) (sym same) (view-Whole m fits)),
  ),
  λ m. (
    λ e. regions-Ends.at (new p) (region_view_req (new p)).1 m h (accepted region_view_req p m e),
    λ (fits, same).
        accepts region_view_req p m
          (subst (λ bs. Whole region_view_req bs m) (sym same) (regions-Whole m fits)),
  ),
)
