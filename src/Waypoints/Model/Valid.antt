-- ===== src/Waypoints/Model/Valid.antt =====
-- What a body that passes `validate` satisfies.
use confluxmap_pumpkin.Base.{
  ℕ, ◌-◌, ◌^◌, ◌≤◌, ◌<◌, ◌≡◌, refl, leb, Bool, true, false, not, ◌&&◌, ◌||◌, Option, none, some,
  arith, if◌then◌else◌,
}
use native.Mathlib.Nat.{div-le_self}
use confluxmap_pumpkin.Base.Int.{ℤ, pos, negsuc, ltb_ℤ, ◌==ℤ◌}
use confluxmap_pumpkin.Float
use confluxmap_pumpkin.Waypoints.Proto.Messages.{Str}
use confluxmap_pumpkin.Text.{trim}
use confluxmap_pumpkin.Waypoints.Model.{
  Draft, Validated, validate, in_range, opaque, max_absolute_coordinate, max_horizontal_coordinate,
  floor_to_i64, location_of, LocationKey, ◌>>=◌, normalize_icon_item_id, normalize_marker_label,
  valid_display_text, valid_dimension_id, max_name_code_points,
}

pub guarded {ℓ} :
    {P : Type ℓ} (b : Bool) (o : Option Validated) {v : Validated}
    → (if b then none else o) ≡ some v
    → (b ≡ false → o ≡ some v → P)
    → P
guarded true o e k = cc
guarded false o e k = k refl e

-- Only finite coordinates are valid.
pub validate_finite :
    (d : Draft) (v : Validated)
    → validate d ≡ some v
    → (Float.is_finite d.x ≡ true) × (Float.is_finite d.y ≡ true) × (Float.is_finite d.z ≡ true)
unfolding validate
validate_finite d v e =
    guarded (not (valid_display_text (trim d.name) max_name_code_points)) _ e λ _ e1.
      guarded (not (valid_dimension_id (trim d.dimension_id))) _ e1 λ _ e2.
        guarded (not (in_range d.x && in_range d.y && in_range d.z)) _ e2 λ c _. ground (arith, c)

-- The numbers that pass are below 2^53, so their blocks are words of 64 bits.
exponent_small : (m : ℕ) → m ≤ max_absolute_coordinate → leb 1075 (Float.exponent m) ≡ false
unfolding Float.exponent
exponent_small m h = ground arith

significand-lt : (m : ℕ) → Float.significand m < 2 ^ 53
unfolding Float.significand
significand-lt m = ground arith

whole-lt : (m : ℕ) → m ≤ max_absolute_coordinate → Float.whole m < 2 ^ 53
unfolding Float.whole
whole-lt m h = rw (exponent_small m h) (
    omega
      (arith, significand-lt m, div-le_self (Float.significand m) (2 ^ (1075 - Float.exponent m))))

abs-le : (b : ℕ) → in_range b ≡ true → Float.abs b ≤ max_absolute_coordinate
unfolding Float.is_finite Float.abs_gt
abs-le b h = ground arith

floor_fits :
    (b : ℕ)
    → Float.whole (Float.abs b) < 2 ^ 53
    → (ltb_ℤ (Float.floor b) (negsuc (2 ^ 63 - 1)) || ltb_ℤ (pos (2 ^ 63)) (Float.floor b)) ≡ false
unfolding Float.floor
floor_fits b h = ground arith

finite_of : (b : ℕ) → in_range b ≡ true → Float.is_finite b ≡ true
finite_of b h = ground arith

block_of : (b : ℕ) → in_range b ≡ true → (z : ℤ) × (floor_to_i64 b ≡ some z)
unfolding floor_to_i64
block_of b h = (
  if Float.floor b ==ℤ pos (2 ^ 63) then pos (2 ^ 63 - 1) else Float.floor b,
  rw (finite_of b h, floor_fits b (whole-lt (Float.abs b) (abs-le b h))),
)

record Kept (d : Draft) (v : Validated) : Type 0 where
  x : v.x ≡ d.x
  y : v.y ≡ d.y
  z : v.z ≡ d.z
  range : (in_range d.x && in_range d.y && in_range d.z) ≡ true

ended :
    (d : Draft) (i l : Option Str) (v : Validated)
    → (i >>= λ icon. l >>= λ label. some (record {
      name = trim d.name;
      dimension_id = trim d.dimension_id;
      x = d.x;
      y = d.y;
      z = d.z;
      color = d.color;
      kind = d.kind;
      icon_item_id = icon;
      marker_label = label;
    }))
      ≡ some v
    → (v.x ≡ d.x) × (v.y ≡ d.y) × (v.z ≡ d.z)
ended d none l v e = cc
ended d (some i) none v e = cc
ended d (some i) (some l) v e = ground arith

validate-Kept : (d : Draft) (v : Validated) → validate d ≡ some v → Kept d v
unfolding validate
validate-Kept d v e =
    guarded (not (valid_display_text (trim d.name) max_name_code_points)) _ e λ _ e1.
      guarded (not (valid_dimension_id (trim d.dimension_id))) _ e1 λ _ e2.
        guarded (not (in_range d.x && in_range d.y && in_range d.z)) _ e2 λ c e3.
          guarded
            (Float.abs_gt d.x max_horizontal_coordinate
              || Float.abs_gt d.z max_horizontal_coordinate)
            _ e3
            λ _ e4. guarded (not (opaque d.color)) _ e4 λ _ e5.
              let (x, y, z) =
                ended d (normalize_icon_item_id d.icon_item_id)
                  (normalize_marker_label d.marker_label) v e5 in
              record { x = x; y = y; z = z; range = ground (arith, c) }

-- A body that is valid has a block: after `validate`, `LocationKey::of` never fails.
pub validate-location_of :
    (d : Draft) (v : Validated)
    → validate d ≡ some v
    → (l : LocationKey) × (location_of v.dimension_id v.x v.y v.z ≡ some l)
unfolding location_of
validate-location_of d v e =
    let k = validate-Kept d v e in
    let (bx, ex) = block_of d.x (ground (arith, k.range)) in
    let (by, ey) = block_of d.y (ground (arith, k.range)) in
    let (bz, ez) = block_of d.z (ground (arith, k.range)) in
    (
      record { dimension_id = v.dimension_id; block_x = bx; block_y = by; block_z = bz },
      rw (k.x, k.y, k.z, ex, ey, ez),
    )
