-- ===== src/Waypoints/Model/Again.antt =====
-- A valid body stays valid: `validate` accepts what it has returned, and returns it again.
use confluxmap_pumpkin.Base.{
  ◌≡◌, refl, sym, ap, ◌∙◌, true, false, not, ◌&&◌, ◌||◌, Option, none, some, [], ◌∷◌, arith,
  Bool-cases, inl, inr,
}
use mathlib.Core.Path.{subst}
use confluxmap_pumpkin.Float
use confluxmap_pumpkin.Text.{trim, is_empty}
use confluxmap_pumpkin.Text.Trim.{trim-trim}
use confluxmap_pumpkin.Waypoints.Proto.Messages.{Str}
use confluxmap_pumpkin.Waypoints.Model.{
  Draft, Validated, validate, in_range, opaque, max_horizontal_coordinate, normalize_icon_item_id,
  normalize_marker_label, valid_display_text, valid_dimension_id, max_name_code_points, ◌>>=◌,
  vanilla_path,
}
use confluxmap_pumpkin.Waypoints.Model.Valid.{guarded}

-- The body that a validated one is.
abbrev pub draft_again : Validated → Draft
draft_again v = record {
  name = v.name;
  dimension_id = v.dimension_id;
  x = v.x;
  y = v.y;
  z = v.z;
  color = v.color;
  kind = v.kind;
  icon_item_id = v.icon_item_id;
  marker_label = v.marker_label;
}

empty_of : (s : Str) → is_empty s ≡ true → s ≡ []
empty_of [] h = refl
empty_of (b ∷ s) h = cc

vanilla_trimmed : (s t : Str) (path : Option Str) → vanilla_path s path ≡ some t → t ≡ s
vanilla_trimmed s t none h = cc
vanilla_trimmed s t (some path) h = ground arith

icon-trim : (s t : Str) → normalize_icon_item_id s ≡ some t → t ≡ trim s
unfolding normalize_icon_item_id
icon-trim s t h = elim (Bool-cases (is_empty (trim s))) [
  | inl e ↦ let none_left : some [] ≡ some t = (rw e at h) in cc (empty_of (trim s) e)
  | inr e ↦ vanilla_trimmed (trim s) t _ (rw e at h)
]

label-trim : (s t : Str) → normalize_marker_label s ≡ some t → t ≡ trim s
unfolding normalize_marker_label
label-trim s t h = ground arith

icon_of_trim : (s : Str) → normalize_icon_item_id (trim s) ≡ normalize_icon_item_id s
unfolding normalize_icon_item_id
icon_of_trim s = rw (trim-trim s)

label_of_trim : (s : Str) → normalize_marker_label (trim s) ≡ normalize_marker_label s
unfolding normalize_marker_label
label_of_trim s = rw (trim-trim s)

icon_again : (s t : Str) → normalize_icon_item_id s ≡ some t → normalize_icon_item_id t ≡ some t
icon_again s t h = ap normalize_icon_item_id (icon-trim s t h) ∙ icon_of_trim s ∙ h

label_again : (s t : Str) → normalize_marker_label s ≡ some t → normalize_marker_label t ≡ some t
label_again s t h = ap normalize_marker_label (label-trim s t h) ∙ label_of_trim s ∙ h

abbrev result : Draft → Str → Str → Validated
result d icon label = record {
  name = trim d.name;
  dimension_id = trim d.dimension_id;
  x = d.x;
  y = d.y;
  z = d.z;
  color = d.color;
  kind = d.kind;
  icon_item_id = icon;
  marker_label = label;
}

-- What `validate` has tested when it succeeds.
record Passed (d : Draft) (v : Validated) : Type 0 where
  icon : Str
  label : Str
  named : not (valid_display_text (trim d.name) max_name_code_points) ≡ false
  dimension : not (valid_dimension_id (trim d.dimension_id)) ≡ false
  range : not (in_range d.x && in_range d.y && in_range d.z) ≡ false
  horizontal :
      (Float.abs_gt d.x max_horizontal_coordinate || Float.abs_gt d.z max_horizontal_coordinate)
      ≡ false
  solid : not (opaque d.color) ≡ false
  icon_is : normalize_icon_item_id d.icon_item_id ≡ some icon
  label_is : normalize_marker_label d.marker_label ≡ some label
  is : v ≡ result d icon label

both :
    {P : Type 0} (i l : Option Str) (d : Draft) (v : Validated)
    → (i >>= λ icon. l >>= λ label. some (result d icon label)) ≡ some v
    → ((icon label : Str) → i ≡ some icon → l ≡ some label → v ≡ result d icon label → P)
    → P
both none l d v e k = cc
both (some i) none d v e k = cc
both (some i) (some l) d v e k = k i l refl refl (same v (result d i l) e)
  where
    same : (a b : Validated) → some b ≡ some a → a ≡ b
    same a b q = cc

validate-Passed : (d : Draft) (v : Validated) → validate d ≡ some v → Passed d v
unfolding validate
validate-Passed d v e =
    guarded (not (valid_display_text (trim d.name) max_name_code_points)) _ e λ c1 e1.
      guarded (not (valid_dimension_id (trim d.dimension_id))) _ e1 λ c2 e2.
        guarded (not (in_range d.x && in_range d.y && in_range d.z)) _ e2 λ c3 e3.
          guarded
            (Float.abs_gt d.x max_horizontal_coordinate
              || Float.abs_gt d.z max_horizontal_coordinate)
            _ e3
            λ c4 e4. guarded (not (opaque d.color)) _ e4 λ c5 e5.
              both (normalize_icon_item_id d.icon_item_id) (normalize_marker_label d.marker_label) d
                v e5
                λ icon label i l s. record {
                  icon = icon;
                  label = label;
                  named = c1;
                  dimension = c2;
                  range = c3;
                  horizontal = c4;
                  solid = c5;
                  icon_is = i;
                  label_is = l;
                  is = s;
                }

result_again :
    (d : Draft) (v : Validated)
    → Passed d v
    → (icon label : Str) → normalize_icon_item_id icon ≡ some icon
    → normalize_marker_label label ≡ some label
    → validate (draft_again (result d icon label)) ≡ some (result d icon label)
unfolding validate
result_again d v p icon label i l = rw (
  trim-trim d.name,
  trim-trim d.dimension_id,
  p.named,
  p.dimension,
  p.range,
  p.horizontal,
  p.solid,
  i,
  l,
)

-- What `validate` returns, it accepts and returns unchanged.
pub validate-draft_again :
    (d : Draft) (v : Validated) → validate d ≡ some v → validate (draft_again v) ≡ some v
validate-draft_again d v e =
    let p = validate-Passed d v e in
    subst (λ w. validate (draft_again w) ≡ some w) (sym p.is)
      (result_again d v p p.icon p.label (icon_again d.icon_item_id p.icon p.icon_is)
        (label_again d.marker_label p.label p.label_is))
