-- ===== src/Waypoints/Store/Mutations.antt =====
-- What the mutations do to the catalog.
use confluxmap_pumpkin.Base.{
  ℕ, zero, suc, ◌≡◌, refl, sym, ap, ◌∙◌, Bool, true, false, Option, none, some, List, [], ◌∷◌,
  arith, set, remove_at, All,
}
use confluxmap_pumpkin.Base.{is_some}
use confluxmap_pumpkin.Base.Int.{ℤ, pos, negsuc, ◌≤ℤ◌, ==ℤ_refl, suc_ℤ}
use confluxmap_pumpkin.Base.Maps
use confluxmap_pumpkin.Base.Maps.{contains_key-lookup}
use confluxmap_pumpkin.Identity.{Uid, id_eq}
use confluxmap_pumpkin.Waypoints.Proto.Messages.{Waypoint, ok}
use confluxmap_pumpkin.Waypoints.Model.{LocationKey, location_eq}
use confluxmap_pumpkin.Waypoints.Store.{
  Store, Prepared, at_revision, push_all, snapshot, find, find_at, first_with_id, commit,
}
use confluxmap_pumpkin.Waypoints.Store.Positions.{position, first_at, id_of}
use confluxmap_pumpkin.Waypoints.Store.Index.{find-first_with_id, find_at-first_at}
use confluxmap_pumpkin.Waypoints.Store.Loading.{InRevision, IsConsistent, IsValid, rebuilt-IsValid}

-- A mutation that was prepared against `s`, and what it leads to.
pub record PreparedFor (s : Store) (p : Prepared) : Type 0 where
  pub base : p.base_revision ≡ s.revision
  pub next : p.snapshot.revision ≡ suc_ℤ s.revision
  pub consistent : IsConsistent p.snapshot

-- Committing a mutation on the catalog that it was prepared against installs its snapshot.
pub commit-PreparedFor :
    (s : Store) (p : Prepared)
    → PreparedFor s p
    → (t : Store) × (commit s p ≡ ok t) × IsValid t × (snapshot t ≡ p.snapshot)
unfolding commit
commit-PreparedFor s p h =
    let (valid, same) = rebuilt-IsValid p.snapshot h.consistent in
    (
      push_all (at_revision p.snapshot.revision) p.snapshot.waypoints,
      rw (h.base, ==ℤ_refl s.revision),
      valid,
      same,
    )

-- The next revision lies above every revision of the catalog.
pub InRevision-suc : (r : ℤ) (w : Waypoint) → pos 0 ≤ℤ r → InRevision r w → InRevision (suc_ℤ r) w
InRevision-suc (pos n) w h r = ground arith
InRevision-suc (negsuc n) w h r = absurd (omega arith)

pub All-suc :
    (r : ℤ) (ws : List Waypoint)
    → pos 0 ≤ℤ r
    → All (InRevision r) ws
    → All (InRevision (suc_ℤ r)) ws
All-suc r [] h a = tt
All-suc r (w ∷ ws) h a = (InRevision-suc r w h a.0, All-suc r ws h a.1)

pub InRevision-next :
    (r : ℤ) (w : Waypoint) → pos 0 ≤ℤ r → w.revision ≡ suc_ℤ r → InRevision (suc_ℤ r) w
InRevision-next (pos n) w h e = rw e (omega arith)
InRevision-next (negsuc n) w h e = absurd (omega arith)

pub positive-suc : (r : ℤ) → pos 0 ≤ℤ r → pos 0 ≤ℤ suc_ℤ r
positive-suc (pos n) h = omega arith
positive-suc (negsuc n) h = absurd (omega arith)

pub All-remove_at {κ} :
    (P : Waypoint → Type κ) (ws : List Waypoint) (i : ℕ) → All P ws → All P (remove_at ws i)
All-remove_at P [] i a = a
All-remove_at P (w ∷ ws) zero a = a.1
All-remove_at P (w ∷ ws) (suc i) a = (a.0, All-remove_at P ws i a.1)

pub All-set {κ} :
    (P : Waypoint → Type κ) (ws : List Waypoint) (i : ℕ) (v : Waypoint)
    → All P ws
    → P v
    → All P (set ws i v)
All-set P [] i v a p = a
All-set P (w ∷ ws) zero v a p = (p, a.1)
All-set P (w ∷ ws) (suc i) v a p = (a.0, All-set P ws i v a.1 p)

abbrev is_some' {ℓ} : {A : Type ℓ} → Option A → Bool
is_some' o = elim o [ none ↦ false | some v ↦ true ]

is_some_lem {ℓ} : {A : Type ℓ} (o : Option A) → is_some' o ≡ is_some o
is_some_lem none = refl
is_some_lem (some a) = refl

is_some-id_of : (o : Option Waypoint) → is_some' (id_of o) ≡ is_some o
is_some-id_of none = refl
is_some-id_of (some w) = refl

none_of_is_some {ℓ} : {A : Type ℓ} (o : Option A) → is_some o ≡ false → o ≡ none
none_of_is_some none h = refl
none_of_is_some (some a) h = cc

position_found :
    (id : Uid) (ws : List Waypoint) → is_some (position id ws) ≡ is_some (first_with_id id ws)
unfolding position first_with_id
position_found id [] = refl
position_found id (w ∷ ws) = ground (arith, position_found id ws)

module _ {s : Store} (v : IsValid s) where
  pub known_id : (id : Uid) → Maps.contains_key id s.index ≡ is_some (find s id)
  known_id id =
      rw (contains_key-lookup, v.indexed.by_id id, find-first_with_id v.indexed id)
        (is_some_lem (position id s.waypoints) ∙ position_found id s.waypoints)

  pub taken_block : (l : LocationKey) → Maps.contains_key l s.occupancy ≡ is_some (find_at s l)
  taken_block l =
      rw (contains_key-lookup, v.indexed.by_location l, find_at-first_at v.indexed l)
        (is_some-id_of (first_at l s.waypoints))

  -- A new id is in no position.
  pub fresh_position : (id : Uid) → find s id ≡ none → position id s.waypoints ≡ none
  fresh_position id h =
      none_of_is_some (position id s.waypoints)
        (position_found id s.waypoints ∙ ap is_some (sym (find-first_with_id v.indexed id) ∙ h))
