-- ===== src/Waypoints/Store/Index.antt =====
-- The two indexes of the catalog say what a search of its list would.
use confluxmap_pumpkin.Base.{
  ◌≡◌, refl, sym, ◌∙◌, none, List, [], ◌∷◌, ◌++◌, append_assoc, append-nil, arith, length,
  Option-cases, inl, inr,
}
use confluxmap_pumpkin.Base.Int.{ℤ}
use confluxmap_pumpkin.Base.Maps
use confluxmap_pumpkin.Base.Maps.{lookup-insert, lookup-insert_new, contains_key-lookup, beq}
use confluxmap_pumpkin.Identity.{Uid, id_eq, id_beq_iff}
use confluxmap_pumpkin.Waypoints.Proto.Messages.{Waypoint}
use confluxmap_pumpkin.Waypoints.Model.{LocationKey, location_from, location_eq, location_beq_iff}
use confluxmap_pumpkin.Waypoints.Store.{
  Store, at_revision, push, push_all, find, find_at, first_with_id,
}
use confluxmap_pumpkin.Waypoints.Store.Positions.{
  position, first_at, id_of, Distinct, position-append, first_at-append, get_elem?-position,
  first_with_id-none, first_with_id-first_at, fresh_of_Distinct,
}

pub record IsIndexed (s : Store) : Type 0 where
  pub distinct : Distinct s.waypoints
  pub by_id : (id : Uid) → Maps.lookup id s.index ≡ position id s.waypoints
  pub by_location : (l : LocationKey) → Maps.lookup l s.occupancy ≡ id_of (first_at l s.waypoints)

pub record Indexes (s : Store) : Type 0 where
  pub by_id : (id : Uid) → Maps.lookup id s.index ≡ position id s.waypoints
  pub by_location : (l : LocationKey) → Maps.lookup l s.occupancy ≡ id_of (first_at l s.waypoints)

pub push-Indexes :
    (s : Store) (w : Waypoint) → Indexes s → position w.id s.waypoints ≡ none → Indexes (push s w)
unfolding push
push-Indexes s w h fresh = record {
  by_id = λ id. ground (
    arith,
    lookup-insert w.id id (length s.waypoints) s.index,
    position-append id s.waypoints w,
    h.by_id id,
    id_beq_iff w.id id,
  );
  by_location = λ l. ground (
    arith,
    lookup-insert_new (location_from w) l w.id s.occupancy,
    contains_key-lookup (location_from w) s.occupancy,
    first_at-append l s.waypoints w,
    h.by_location l,
    h.by_location (location_from w),
    location_beq_iff (location_from w) l,
  );
}

push_all-Indexes :
    (s : Store) (ws : List Waypoint)
    → Indexes s
    → Distinct (s.waypoints ++ ws)
    → Indexes (push_all s ws)
unfolding push_all
push_all-Indexes s [] h d = h
push_all-Indexes s (w ∷ ws) h d =
    push_all-Indexes (push s w) ws (push-Indexes s w h (fresh_of_Distinct s.waypoints w ws d))
      (rw append_assoc d)

pub waypoints-push_all :
    (s : Store) (ws : List Waypoint) → (push_all s ws).waypoints ≡ s.waypoints ++ ws
unfolding push_all
waypoints-push_all s [] = rw append-nil
waypoints-push_all s (w ∷ ws) =
    waypoints-push_all (push s w) ws ∙ append_assoc s.waypoints (w ∷ []) ws

pub revision-push_all : (s : Store) (ws : List Waypoint) → (push_all s ws).revision ≡ s.revision
unfolding push_all
revision-push_all s [] = refl
revision-push_all s (w ∷ ws) = revision-push_all (push s w) ws

pub at_revision-Indexes : (r : ℤ) → Indexes (at_revision r)
unfolding Maps.lookup position first_at
at_revision-Indexes r = record { by_id = λ id. refl; by_location = λ l. refl }

-- The loop over distinct points builds both indexes of just these points.
pub push_all-IsIndexed :
    (r : ℤ) (ws : List Waypoint) → Distinct ws → IsIndexed (push_all (at_revision r) ws)
push_all-IsIndexed r ws d =
    let h = push_all-Indexes (at_revision r) ws (at_revision-Indexes r) d in
    record {
      distinct = rw (waypoints-push_all (at_revision r) ws) d;
      by_id = h.by_id;
      by_location = h.by_location;
    }

module _ {s : Store} (h : IsIndexed s) where
  -- Looking a point up by its id is searching the list for it.
  pub find-first_with_id : (id : Uid) → find s id ≡ first_with_id id s.waypoints
  unfolding find
  find-first_with_id id = elim (Option-cases (position id s.waypoints)) [
    | inl e ↦ rw (h.by_id id, e) (sym (first_with_id-none id s.waypoints e))
    | inr (i, e) ↦ rw (h.by_id id, e) (get_elem?-position id s.waypoints i e)
  ]

  -- Looking a block up is searching the list for the first point in it.
  pub find_at-first_at : (l : LocationKey) → find_at s l ≡ first_at l s.waypoints
  unfolding find_at
  find_at-first_at l = elim (Option-cases (first_at l s.waypoints)) [
    | inl e ↦ rw (h.by_location l, e)
    | inr (w, e) ↦ rw (h.by_location l, e) (first_with_id-first_at l s.waypoints w h.distinct e)
  ]
