-- ===== src/Waypoints/Store/Updates.antt =====
-- `prepare_update`, and its commit.
use confluxmap_pumpkin.Base.{
  ℕ, ◌≡◌, ◌≢◌, refl, ap, ◌∙◌, false, none, some, if◌then◌else◌, length, Bool-cases, Option-cases,
  inl, inr,
}
use confluxmap_pumpkin.Base.Int.{==ℤ_iff, suc_ℤ}
use confluxmap_pumpkin.Base.Maps
use confluxmap_pumpkin.Identity.{Uid, id_eq, id_beq}
use confluxmap_pumpkin.Waypoints.Proto.Messages.{Waypoint, ok, err}
use confluxmap_pumpkin.Waypoints.Model.{LocationKey, location_from, location_eq, location_beq}
use confluxmap_pumpkin.Waypoints.Model.{location_beq_iff}
use confluxmap_pumpkin.Waypoints.Store.{
  Store, Snapshot, Prepared, malformed, duplicate_location, revision_exhausted, snapshot, find,
  find_at, first_with_id, commit, ◌>>=◌, upsert,
}
use confluxmap_pumpkin.Waypoints.Store.Positions.{position}
use confluxmap_pumpkin.Waypoints.Store.Index.{find-first_with_id, find_at-first_at}
use confluxmap_pumpkin.Waypoints.Store.Loading.{InRevision, IsValid}
use confluxmap_pumpkin.Waypoints.Store.Mutations.{
  PreparedFor, commit-PreparedFor, All-suc, InRevision-next, positive-suc,
}
use confluxmap_pumpkin.Base.{length-set, set, get_elem?}
use confluxmap_pumpkin.Waypoints.Store.{len, missing, prepare_update, conflicts}
use confluxmap_pumpkin.Waypoints.Store.Positions.{Distinct-set, first_with_id-set}
use confluxmap_pumpkin.Waypoints.Store.Mutations.{All-set}
use confluxmap_pumpkin.Waypoints.Store.Creates.{max_revision, not_equal}
use confluxmap_pumpkin.Identity.{id_beq_iff}
use confluxmap_pumpkin.Waypoints.Model.{location_beq_iff}
use confluxmap_pumpkin.Waypoints.Store.Positions.{id_of}
use confluxmap_pumpkin.Waypoints.Store.Deletes.{found_of_ne, found_position, missing_position}

-- What a replacement must meet: it names a point of the catalog, carries the next revision, and
-- either stays in its block or moves to one that no other point holds.
pub record CanUpdate (s : Store) (w : Waypoint) : Type 0 where
  pub current : Waypoint
  pub known : find s w.id ≡ some current
  pub room : s.revision ≢ max_revision
  pub numbered : w.revision ≡ suc_ℤ s.revision
  pub free_block :
      location_from w ≢ location_from current
      → (o : Waypoint) → find_at s (location_from w) ≡ some o
      → o.id ≡ w.id

pub updated : Store → Waypoint → ℕ → Prepared
updated s w i = record {
  base_revision = s.revision;
  snapshot = record { revision = suc_ℤ s.revision; waypoints = set s.waypoints i w };
  delta = upsert w (suc_ℤ s.revision);
}

updated-PreparedFor :
    (s : Store) (w : Waypoint) (i : ℕ)
    → IsValid s
    → w.revision ≡ suc_ℤ s.revision
    → position w.id s.waypoints ≡ some i
    → PreparedFor s (updated s w i)
unfolding updated
updated-PreparedFor s w i v e at = record {
  base = refl;
  next = refl;
  consistent = record {
    positive = positive-suc s.revision v.positive;
    revisions =
        All-set (InRevision (suc_ℤ s.revision)) s.waypoints i w
          (All-suc s.revision s.waypoints v.positive v.revisions)
          (InRevision-next s.revision w v.positive e);
    distinct = Distinct-set s.waypoints i w v.indexed.distinct at;
  };
}

-- The holder of a block by the occupancy index is the point that `find_at` finds there.
holder : (s : Store) (l : LocationKey) → IsValid s → Maps.lookup l s.occupancy ≡ id_of (find_at s l)
holder s l v = rw (find_at-first_at v.indexed l) (v.indexed.by_location l)

no_conflict :
    (s : Store) (w c : Waypoint)
    → IsValid s
    → (location_from w ≢ location_from c
        → (o : Waypoint) → find_at s (location_from w) ≡ some o
        → o.id ≡ w.id)
    → conflicts s w (some c) ≡ false
no_conflict s w c v h = elim (Bool-cases (location_beq (location_from w) (location_from c))) [
  | inl same ↦ rw same
  | inr moved ↦ rw moved (elim (Option-cases (find_at s (location_from w))) [
    | inl e ↦ rw (holder s (location_from w) v, e)
    | inr (o, e) ↦
        let mine = h (λ p. differs moved p) o e in
        rw (holder s (location_from w) v, e, (id_beq_iff o.id w.id).1 mine)
  ])
]
  where
    differs :
        location_beq (location_from w) (location_from c) ≡ false
        → location_from w ≡ location_from c
        → ⊥
    differs f p = cc (f, (location_beq_iff (location_from w) (location_from c)).1 p)

prepare_update-updated :
    (s : Store) (w : Waypoint) (i : ℕ) (c : Waypoint)
    → IsValid s
    → Maps.lookup w.id s.index ≡ some i
    → get_elem? s.waypoints i ≡ some c
    → s.revision ≢ max_revision
    → w.revision ≡ suc_ℤ s.revision
    → conflicts s w (some c) ≡ false
    → prepare_update s w ≡ ok (updated s w i)
unfolding prepare_update updated
prepare_update-updated s w i c v known at room e free = rw (
  known,
  not_equal s.revision max_revision room,
  (==ℤ_iff w.revision (suc_ℤ s.revision)).1 e,
  at,
  free,
)

find-updated :
    (s t : Store) (w : Waypoint) (i : ℕ)
    → IsValid s
    → IsValid t
    → position w.id s.waypoints ≡ some i
    → snapshot t ≡ (updated s w i).snapshot
    → (j : Uid) → find t j ≡ (if id_beq w.id j then some w else find s j)
unfolding snapshot updated
find-updated s t w i v v' h e j =
    rw
      (
        find-first_with_id v'.indexed j,
        find-first_with_id v.indexed j,
        ap (λ (k : Snapshot). first_with_id j k.waypoints) e,
      )
      (first_with_id-set j s.waypoints i w h)

pub shape-updated :
    (s t : Store) (w : Waypoint) (i : ℕ)
    → snapshot t ≡ (updated s w i).snapshot
    → (t.revision ≡ suc_ℤ s.revision) × (len t ≡ len s)
unfolding snapshot updated len
shape-updated s t w i e = (
  ap (λ (k : Snapshot). k.revision) e,
  ap (λ (k : Snapshot). length k.waypoints) e ∙ length-set s.waypoints i w,
)

pub update_run :
    (s : Store) (w : Waypoint)
    → IsValid s
    → CanUpdate s w
    → (t : Store) × ((prepare_update s w >>= commit s) ≡ ok t)
      × IsValid t
      × (i : ℕ) × (position w.id s.waypoints ≡ some i)
      × (snapshot t ≡ (updated s w i).snapshot)
update_run s w v h =
    let (i, at, known, there) = found_position s w.id h.current v h.known in
    let (t, done, v', same) =
      commit-PreparedFor s (updated s w i) (updated-PreparedFor s w i v h.numbered at) in
    let ready =
      prepare_update-updated s w i h.current v known there h.room h.numbered
        (no_conflict s w h.current v h.free_block) in
    (t, rw ready done, v', i, at, same)

pub waypoints-updated :
    (s t : Store) (w : Waypoint) (i : ℕ)
    → snapshot t ≡ (updated s w i).snapshot
    → t.waypoints ≡ set s.waypoints i w
unfolding snapshot updated
waypoints-updated s t w i e = ap (λ (k : Snapshot). k.waypoints) e

-- On a valid catalog, a replacement that meets `CanUpdate` is prepared and committed: the catalog is
-- valid again at the next revision with as many points, the point's id finds the new point, and
-- every other id finds what it found before.
pub update-commit :
    (s : Store) (w : Waypoint)
    → IsValid s
    → CanUpdate s w
    → (t : Store) × ((prepare_update s w >>= commit s) ≡ ok t)
      × IsValid t
      × (t.revision ≡ suc_ℤ s.revision)
      × (len t ≡ len s)
      × ((j : Uid) → find t j ≡ (if id_beq w.id j then some w else find s j))
update-commit s w v h =
    let (t, done, v', i, at, same) = update_run s w v h in
    let (rev, size) = shape-updated s t w i same in
    (t, done, v', rev, size, find-updated s t w i v v' at same)

not_same : (a b : LocationKey) → a ≢ b → location_beq a b ≡ false
not_same a b h = elim (Bool-cases (location_beq a b)) [
  | inl e ↦ absurd (h ((location_beq_iff a b).0 e))
  | inr e ↦ e
]

pub not_same_id : (a b : Uid) → a ≢ b → id_beq a b ≡ false
not_same_id a b h = elim (Bool-cases (id_beq a b)) [
  | inl e ↦ absurd (h ((id_beq_iff a b).0 e))
  | inr e ↦ e
]

-- A replacement of a point that is not there is refused as `missing`; one at the last revision as
-- exhausted; one that carries another revision than the next as malformed; and one that moves to a
-- block where another point stands as a duplicate location.
pub prepare_update_refusals :
    (s : Store) (w : Waypoint)
    → IsValid s
    → (find s w.id ≡ none → prepare_update s w ≡ err missing)
      × (find s w.id ≢ none
          → s.revision ≡ max_revision
          → prepare_update s w ≡ err revision_exhausted)
      × (find s w.id ≢ none
          → s.revision ≢ max_revision
          → w.revision ≢ suc_ℤ s.revision
          → prepare_update s w ≡ err malformed)
      × ((c o : Waypoint)
          → find s w.id ≡ some c
          → s.revision ≢ max_revision
          → w.revision ≡ suc_ℤ s.revision
          → location_from w ≢ location_from c
          → find_at s (location_from w) ≡ some o
          → o.id ≢ w.id
          → prepare_update s w ≡ err duplicate_location)
unfolding prepare_update
prepare_update_refusals s w v = (
  λ h. rw (missing_position s w.id v h),
  λ h last.
      let (c, there) = found_of_ne (find s w.id) h in
      let (i, _, known, _) = found_position s w.id c v there in
      rw (known, (==ℤ_iff s.revision max_revision).1 last),
  λ h room other.
      let (c, there) = found_of_ne (find s w.id) h in
      let (i, _, known, _) = found_position s w.id c v there in
      rw (
        known,
        not_equal s.revision max_revision room,
        not_equal w.revision (suc_ℤ s.revision) other,
      ),
  λ c o h room e moved held other.
      let (i, _, known, at) = found_position s w.id c v h in
      rw (
        known,
        not_equal s.revision max_revision room,
        (==ℤ_iff w.revision (suc_ℤ s.revision)).1 e,
        at,
        not_same (location_from w) (location_from c) moved,
        holder s (location_from w) v,
        held,
        not_same_id o.id w.id other,
      ),
)
