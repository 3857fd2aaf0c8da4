-- ===== src/Waypoints/Store/Blocks.antt =====
-- One block holds one point.
use confluxmap_pumpkin.Base.{
  ℕ, zero, suc, ◌≡◌, refl, sym, ◌∙◌, false, none, some, List, [], ◌∷◌, ◌++◌, arith, get_elem?, set,
  remove_at, Bool-cases, Option-cases, inl, inr,
}
use confluxmap_pumpkin.Identity.{Uid, id_beq, id_beq_iff}
use confluxmap_pumpkin.Waypoints.Proto.Messages.{Waypoint}
use confluxmap_pumpkin.Waypoints.Model.{LocationKey, location_from, location_beq, location_beq_iff}
use confluxmap_pumpkin.Waypoints.Store.Positions.{get_elem?-position, first_with_id-some}
use confluxmap_pumpkin.Waypoints.Store.Positions.{
  position, first_at, first_at-append, first_at-mem, Distinct,
}

-- No block stands twice.
abbrev pub DistinctBlocks : List Waypoint → Type 0
DistinctBlocks [] = Unit {0}
DistinctBlocks (w ∷ ws) = (first_at (location_from w) ws ≡ none) × DistinctBlocks ws

apart : (a b : LocationKey) → location_beq a b ≡ false → location_beq b a ≡ false
apart a b h = elim (Bool-cases (location_beq b a)) [
  | inl e ↦ absurd (ground (arith, location_beq_iff b a, location_beq_iff a b))
  | inr e ↦ e
]

pub DistinctBlocks-append :
    (xs : List Waypoint) (w : Waypoint)
    → DistinctBlocks xs
    → first_at (location_from w) xs ≡ none
    → DistinctBlocks (xs ++ w ∷ [])
unfolding first_at
DistinctBlocks-append [] w d h = (refl, tt)
DistinctBlocks-append (x ∷ xs) w (fresh, d) h =
    elim (Bool-cases (location_beq (location_from x) (location_from w))) [
      | inl e ↦ absurd (ground arith)
      | inr e ↦ (
        rw (
          first_at-append (location_from x) xs w,
          fresh,
          apart (location_from x) (location_from w) e,
        ),
        DistinctBlocks-append xs w d (rw e at h),
      )
    ]

free-remove_at :
    (l : LocationKey) (xs : List Waypoint) (i : ℕ)
    → first_at l xs ≡ none
    → first_at l (remove_at xs i) ≡ none
unfolding first_at
free-remove_at l [] i h = refl
free-remove_at l (x ∷ xs) zero h = ground arith
free-remove_at l (x ∷ xs) (suc i) h = ground (arith, free-remove_at l xs i)

pub DistinctBlocks-remove_at :
    (xs : List Waypoint) (i : ℕ) → DistinctBlocks xs → DistinctBlocks (remove_at xs i)
DistinctBlocks-remove_at [] i d = tt
DistinctBlocks-remove_at (x ∷ xs) zero d = d.1
DistinctBlocks-remove_at (x ∷ xs) (suc i) d =
    (free-remove_at (location_from x) xs i d.0, DistinctBlocks-remove_at xs i d.1)

free-set :
    (l : LocationKey) (xs : List Waypoint) (i : ℕ) (w : Waypoint)
    → first_at l xs ≡ none
    → location_beq (location_from w) l ≡ false
    → first_at l (set xs i w) ≡ none
unfolding first_at
free-set l [] i w h k = refl
free-set l (x ∷ xs) zero w h k = ground arith
free-set l (x ∷ xs) (suc i) w h k = ground (arith, free-set l xs i w)

-- Whoever stands in the block of `w` is the point that `w` replaces.
abbrev pub OnlyMine : List Waypoint → Waypoint → Type 0
OnlyMine xs w = (o : Waypoint) → first_at (location_from w) xs ≡ some o → o.id ≡ w.id

head_id : (id : Uid) (x : Waypoint) (xs : List Waypoint) → position id (x ∷ xs) ≡ some 0 → x.id ≡ id
unfolding position
head_id id x xs h = ground (arith, id_beq_iff x.id id)

later_id :
    (id : Uid) (x : Waypoint) (xs : List Waypoint) (i : ℕ)
    → position id (x ∷ xs) ≡ some (suc i)
    → (id_beq x.id id ≡ false) × (position id xs ≡ some i)
unfolding position
later_id id x xs i h = ground arith

pub DistinctBlocks-set :
    (xs : List Waypoint) (i : ℕ) (w : Waypoint)
    → DistinctBlocks xs
    → Distinct xs
    → position w.id xs ≡ some i
    → OnlyMine xs w
    → DistinctBlocks (set xs i w)
unfolding position first_at
DistinctBlocks-set [] i w d u h mine = tt
DistinctBlocks-set (x ∷ xs) zero w d u h mine =
    elim (Bool-cases (location_beq (location_from x) (location_from w))) [
      | inl e ↦ (rw (← (location_beq_iff (location_from x) (location_from w)).0 e) d.0, d.1)
      | inr e ↦ elim (Option-cases (first_at (location_from w) xs)) [
        | inl free ↦ (free, d.1)
        | inr (o, there) ↦ absurd (
            first_at-mem (location_from w) xs o there
              (rw (mine o (rw e there)) (rw (head_id w.id x xs h) at u.0)))
      ]
    ]
DistinctBlocks-set (x ∷ xs) (suc i) w d u h mine =
    let (other, later) = later_id w.id x xs i h in
    elim (Bool-cases (location_beq (location_from x) (location_from w))) [
      | inl e ↦ absurd (cc (other, (id_beq_iff x.id w.id).1 (mine x (rw e))))
      | inr e ↦ (
        free-set (location_from x) xs i w d.0 (apart (location_from x) (location_from w) e),
        DistinctBlocks-set xs i w d.1 u.1 later (λ o there. mine o (rw e there)),
      )
    ]

elem_block :
    (l : LocationKey) (xs : List Waypoint) (i : ℕ) (c : Waypoint)
    → get_elem? xs i ≡ some c
    → first_at l xs ≡ none
    → location_beq (location_from c) l ≡ false
unfolding first_at
elem_block l [] i c e h = cc
elem_block l (x ∷ xs) zero c e h = ground arith
elem_block l (x ∷ xs) (suc i) c e h = ground (arith, elem_block l xs i c)

-- A point of the list is the one that its block finds.
pub first_at-elem :
    (xs : List Waypoint) (i : ℕ) (c : Waypoint)
    → DistinctBlocks xs
    → get_elem? xs i ≡ some c
    → first_at (location_from c) xs ≡ some c
unfolding first_at
first_at-elem [] i c d e = cc
first_at-elem (x ∷ xs) zero c d e =
    ground (arith, location_beq_iff (location_from x) (location_from c))
first_at-elem (x ∷ xs) (suc i) c d e = rw (
  apart (location_from c) (location_from x) (elem_block (location_from x) xs i c e d.0),
  first_at-elem xs i c d.1 e,
)

pub id-elem :
    (id : Uid) (xs : List Waypoint) (i : ℕ) (c : Waypoint)
    → position id xs ≡ some i
    → get_elem? xs i ≡ some c
    → c.id ≡ id
id-elem id xs i c at e =
    let (x, there, q) = first_with_id-some id xs i at in
    let same : some c ≡ some x = sym e ∙ get_elem?-position id xs i at ∙ there in cc
