-- ===== src/Waypoints/Store/Positions.antt =====
-- Where the points of a catalog stand in its list, and what the operations on the list do to that.
use confluxmap_pumpkin.Base.{
  ℕ, zero, suc, ◌<◌, ◌≡◌, ◌≢◌, refl, ◌∙◌, Bool, false, Option, none, some, List, [], ◌∷◌, ◌++◌,
  arith, if◌then◌else◌, length, get_elem?, set, remove_at, Bool-cases, inl, inr,
}
use confluxmap_pumpkin.Identity.{Uid, id_beq, id_beq_iff}
use confluxmap_pumpkin.Waypoints.Proto.Messages.{Waypoint}
use confluxmap_pumpkin.Waypoints.Model.{LocationKey, location_from, location_beq}
use confluxmap_pumpkin.Waypoints.Store.{first_with_id}

abbrev pub step_on : Option ℕ → Option ℕ
step_on none = none
step_on (some i) = some (suc i)

-- The position of the first point with this id.
unfoldable pub position : Uid → List Waypoint → Option ℕ
position id [] = none
position id (w ∷ ws) = if id_beq w.id id then some 0 else step_on (position id ws)

-- The id of the first point at this block, and the point itself.
unfoldable pub first_at : LocationKey → List Waypoint → Option Waypoint
first_at l [] = none
first_at l (w ∷ ws) = if location_beq (location_from w) l then some w else first_at l ws

abbrev pub id_of : Option Waypoint → Option Uid
id_of none = none
id_of (some w) = some w.id

-- No id stands twice.
abbrev pub Distinct : List Waypoint → Type 0
Distinct [] = Unit {0}
Distinct (w ∷ ws) = (position w.id ws ≡ none) × Distinct ws

abbrev pub or_last : Option ℕ → Bool → ℕ → Option ℕ
or_last (some i) b n = some i
or_last none b n = if b then some n else none

pub position-append :
    (id : Uid) (xs : List Waypoint) (w : Waypoint)
    → position id (xs ++ w ∷ []) ≡ or_last (position id xs) (id_beq w.id id) (length xs)
unfolding position
position-append id [] w = ground arith
position-append id (x ∷ xs) w = ground (arith, position-append id xs w)

abbrev pub or_point : Option Waypoint → Bool → Waypoint → Option Waypoint
or_point (some v) b w = some v
or_point none b w = if b then some w else none

pub first_at-append :
    (l : LocationKey) (xs : List Waypoint) (w : Waypoint)
    → first_at l (xs ++ w ∷ []) ≡ or_point (first_at l xs) (location_beq (location_from w) l) w
unfolding first_at
first_at-append l [] w = ground arith
first_at-append l (x ∷ xs) w = ground (arith, first_at-append l xs w)

pub position-lt : (id : Uid) (xs : List Waypoint) (i : ℕ) → position id xs ≡ some i → i < length xs
unfolding position
position-lt id [] i h = cc
position-lt id (x ∷ xs) zero h = omega arith
position-lt id (x ∷ xs) (suc i) h = ground (arith, position-lt id xs i)

-- The list's own search agrees with the position.
pub get_elem?-position :
    (id : Uid) (xs : List Waypoint) (i : ℕ)
    → position id xs ≡ some i
    → get_elem? xs i ≡ first_with_id id xs
unfolding position first_with_id
get_elem?-position id [] i h = cc
get_elem?-position id (x ∷ xs) zero h = ground arith
get_elem?-position id (x ∷ xs) (suc i) h = ground (arith, get_elem?-position id xs i)

pub first_with_id-none :
    (id : Uid) (xs : List Waypoint) → position id xs ≡ none → first_with_id id xs ≡ none
unfolding position first_with_id
first_with_id-none id [] h = refl
first_with_id-none id (x ∷ xs) h = ground (arith, first_with_id-none id xs)

pub first_with_id-some :
    (id : Uid) (xs : List Waypoint) (i : ℕ)
    → position id xs ≡ some i
    → (w : Waypoint) × (first_with_id id xs ≡ some w) × (w.id ≡ id)
unfolding position first_with_id
first_with_id-some id [] i h = cc
first_with_id-some id (x ∷ xs) zero h = elim (Bool-cases (id_beq x.id id)) [
  | inl e ↦ (x, rw e, (id_beq_iff x.id id).0 e)
  | inr e ↦ absurd (ground arith)
]
first_with_id-some id (x ∷ xs) (suc i) h = elim (Bool-cases (id_beq x.id id)) [
  | inl e ↦ (x, rw e, (id_beq_iff x.id id).0 e)
  | inr e ↦ let (w, p, q) = first_with_id-some id xs i (ground arith) in (w, rw e p, q)
]

-- With distinct ids, a point found by its block is the one that its id finds.
pub first_at-mem :
    (l : LocationKey) (xs : List Waypoint) (w : Waypoint)
    → first_at l xs ≡ some w
    → position w.id xs ≢ none
unfolding first_at position
first_at-mem l [] w h = cc
first_at-mem l (x ∷ xs) w h = ground (arith, first_at-mem l xs w, id_beq_iff x.id w.id)

pub first_with_id-first_at :
    (l : LocationKey) (xs : List Waypoint) (w : Waypoint)
    → Distinct xs
    → first_at l xs ≡ some w
    → first_with_id w.id xs ≡ some w
unfolding first_at first_with_id
first_with_id-first_at l [] w d h = cc
first_with_id-first_at l (x ∷ xs) w (fresh, d) h =
    elim (Bool-cases (location_beq (location_from x) l)) [
      | inl e ↦ ground (arith, id_beq_iff x.id w.id)
      | inr e ↦
          let there : first_at l xs ≡ some w = (rw e at h) in
          elim (Bool-cases (id_beq x.id w.id)) [
            | inl same ↦
                absurd (first_at-mem l xs w there (rw ((id_beq_iff x.id w.id).0 same) at fresh))
            | inr other ↦ rw other (first_with_id-first_at l xs w d there)
          ]
    ]

pub Distinct-append :
    (xs : List Waypoint) (w : Waypoint)
    → Distinct xs
    → position w.id xs ≡ none
    → Distinct (xs ++ w ∷ [])
unfolding position
Distinct-append [] w d h = (refl, tt)
Distinct-append (x ∷ xs) w (fresh, d) h = (
  ground (arith, position-append x.id xs w, id_beq_iff w.id x.id, id_beq_iff x.id w.id),
  Distinct-append xs w d (ground arith),
)

absent_tail :
    (id : Uid) (xs : List Waypoint) (w : Waypoint) (ys : List Waypoint)
    → position id (xs ++ w ∷ ys) ≡ none
    → id_beq w.id id ≡ false
unfolding position
absent_tail id [] w ys h = ground arith
absent_tail id (x ∷ xs) w ys h = ground (arith, absent_tail id xs w ys)

id_beq_comm : (a b : Uid) → id_beq a b ≡ false → id_beq b a ≡ false
id_beq_comm a b h = ground arith

pub fresh_of_Distinct :
    (xs : List Waypoint) (w : Waypoint) (ys : List Waypoint)
    → Distinct (xs ++ w ∷ ys)
    → position w.id xs ≡ none
unfolding position
fresh_of_Distinct [] w ys d = refl
fresh_of_Distinct (x ∷ xs) w ys (fresh, d) =
    rw (id_beq_comm w.id x.id (absent_tail x.id xs w ys fresh), fresh_of_Distinct xs w ys d)

absent-remove_at :
    (id : Uid) (xs : List Waypoint) (i : ℕ)
    → position id xs ≡ none
    → position id (remove_at xs i) ≡ none
unfolding position
absent-remove_at id [] i h = refl
absent-remove_at id (x ∷ xs) zero h = ground arith
absent-remove_at id (x ∷ xs) (suc i) h = ground (arith, absent-remove_at id xs i)

pub Distinct-remove_at : (xs : List Waypoint) (i : ℕ) → Distinct xs → Distinct (remove_at xs i)
Distinct-remove_at [] i d = tt
Distinct-remove_at (x ∷ xs) zero d = d.1
Distinct-remove_at (x ∷ xs) (suc i) d =
    (absent-remove_at x.id xs i d.0, Distinct-remove_at xs i d.1)

-- After the removal of the point with this id every other id finds what it found.
pub first_with_id-remove_at :
    (id j : Uid) (xs : List Waypoint) (i : ℕ)
    → Distinct xs
    → position id xs ≡ some i
    → first_with_id j (remove_at xs i) ≡ (if id_beq id j then none else first_with_id j xs)
unfolding position first_with_id
first_with_id-remove_at id j [] i d h = cc
first_with_id-remove_at id j (x ∷ xs) zero d h =
    ground (arith, id_beq_iff x.id id, id_beq_iff id j, first_with_id-none j xs)
first_with_id-remove_at id j (x ∷ xs) (suc i) d h = ground (
  arith,
  first_with_id-remove_at id j xs i,
  id_beq_iff x.id id,
  id_beq_iff id j,
  id_beq_iff x.id j,
)

pub position-set :
    (id : Uid) (xs : List Waypoint) (i : ℕ) (w : Waypoint)
    → position w.id xs ≡ some i
    → position id (set xs i w) ≡ position id xs
unfolding position
position-set id [] i w h = refl
position-set id (x ∷ xs) zero w h = ground (arith, id_beq_iff x.id w.id, id_beq_iff w.id id)
position-set id (x ∷ xs) (suc i) w h = ground (arith, position-set id xs i w)

pub Distinct-set :
    (xs : List Waypoint) (i : ℕ) (w : Waypoint)
    → Distinct xs
    → position w.id xs ≡ some i
    → Distinct (set xs i w)
unfolding position
Distinct-set [] i w d h = d
Distinct-set (x ∷ xs) zero w d h = ground (arith, id_beq_iff x.id w.id)
Distinct-set (x ∷ xs) (suc i) w d h =
    (position-set x.id xs i w (ground arith) ∙ d.0, Distinct-set xs i w d.1 (ground arith))

pub first_with_id-set :
    (j : Uid) (xs : List Waypoint) (i : ℕ) (w : Waypoint)
    → position w.id xs ≡ some i
    → first_with_id j (set xs i w) ≡ (if id_beq w.id j then some w else first_with_id j xs)
unfolding position first_with_id
first_with_id-set j [] i w h = cc
first_with_id-set j (x ∷ xs) zero w h = ground (arith, id_beq_iff x.id w.id, id_beq_iff w.id j)
first_with_id-set j (x ∷ xs) (suc i) w h =
    ground (
      arith,
      first_with_id-set j xs i w,
      id_beq_iff x.id w.id,
      id_beq_iff w.id j,
      id_beq_iff x.id j,
    )

pub first_with_id-append :
    (j : Uid) (xs : List Waypoint) (w : Waypoint)
    → position w.id xs ≡ none
    → first_with_id j (xs ++ w ∷ []) ≡ (if id_beq w.id j then some w else first_with_id j xs)
unfolding position first_with_id
first_with_id-append j [] w h = refl
first_with_id-append j (x ∷ xs) w h =
    ground (
      arith,
      first_with_id-append j xs w,
      id_beq_iff x.id w.id,
      id_beq_iff w.id j,
      id_beq_iff x.id j,
    )
