-- ===== src/Waypoints/Store/Deletes.antt =====
-- `prepare_delete`, and its commit.
use confluxmap_pumpkin.Base.{
  ℕ, ◌+◌, ◌≡◌, ◌≢◌, refl, sym, ap, ◌∙◌, Option, none, some, arith, if◌then◌else◌, length,
  Option-cases, inl, inr,
}
use confluxmap_pumpkin.Base.Int.{==ℤ_iff, suc_ℤ}
use confluxmap_pumpkin.Base.Maps
use confluxmap_pumpkin.Identity.{Uid, id_eq, id_beq}
use confluxmap_pumpkin.Waypoints.Proto.Messages.{Waypoint, ok, err}
use confluxmap_pumpkin.Waypoints.Model.{location_eq}
use confluxmap_pumpkin.Waypoints.Store.{
  Store, Snapshot, Prepared, revision_exhausted, snapshot, find, first_with_id, commit, ◌>>=◌,
}
use confluxmap_pumpkin.Waypoints.Store.Positions.{position}
use confluxmap_pumpkin.Waypoints.Store.Index.{find-first_with_id}
use confluxmap_pumpkin.Waypoints.Store.Loading.{InRevision, IsValid}
use confluxmap_pumpkin.Waypoints.Store.Mutations.{
  PreparedFor, commit-PreparedFor, All-suc, positive-suc, fresh_position,
}
use confluxmap_pumpkin.Base.{length-remove_at, remove_at, get_elem?}
use confluxmap_pumpkin.Waypoints.Store.{len, missing, prepare_delete, remove}
use confluxmap_pumpkin.Waypoints.Store.Positions.{
  position-lt, Distinct-remove_at, first_with_id-remove_at,
}
use confluxmap_pumpkin.Waypoints.Store.Mutations.{All-remove_at}
use confluxmap_pumpkin.Waypoints.Store.Creates.{max_revision, not_equal}

-- What `find` found stands at the position that the index holds.
pub found_position :
    (s : Store) (id : Uid) (w : Waypoint)
    → IsValid s
    → find s id ≡ some w
    → (i : ℕ) × (position id s.waypoints ≡ some i)
      × (Maps.lookup id s.index ≡ some i)
      × (get_elem? s.waypoints i ≡ some w)
unfolding find
found_position s id w v h = elim (Option-cases (Maps.lookup id s.index)) [
  | inl e ↦ absurd (ground arith)
  | inr (i, e) ↦ (i, sym (v.indexed.by_id id) ∙ e, e, ground arith)
]

pub missing_position :
    (s : Store) (id : Uid) → IsValid s → find s id ≡ none → Maps.lookup id s.index ≡ none
missing_position s id v h = v.indexed.by_id id ∙ fresh_position v id h

pub deleted : Store → Uid → ℕ → Prepared
deleted s id i = record {
  base_revision = s.revision;
  snapshot = record { revision = suc_ℤ s.revision; waypoints = remove_at s.waypoints i };
  delta = remove id (suc_ℤ s.revision);
}

deleted-PreparedFor : (s : Store) (id : Uid) (i : ℕ) → IsValid s → PreparedFor s (deleted s id i)
unfolding deleted
deleted-PreparedFor s id i v = record {
  base = refl;
  next = refl;
  consistent = record {
    positive = positive-suc s.revision v.positive;
    revisions =
        All-remove_at (InRevision (suc_ℤ s.revision)) s.waypoints i
          (All-suc s.revision s.waypoints v.positive v.revisions);
    distinct = Distinct-remove_at s.waypoints i v.indexed.distinct;
  };
}

find-deleted :
    (s t : Store) (id : Uid) (i : ℕ)
    → IsValid s
    → IsValid t
    → position id s.waypoints ≡ some i
    → snapshot t ≡ (deleted s id i).snapshot
    → (j : Uid) → find t j ≡ (if id_beq id j then none else find s j)
unfolding snapshot deleted
find-deleted s t id i v v' h e j =
    rw
      (
        find-first_with_id v'.indexed j,
        find-first_with_id v.indexed j,
        ap (λ (k : Snapshot). first_with_id j k.waypoints) e,
      )
      (first_with_id-remove_at id j s.waypoints i v.indexed.distinct h)

len-deleted :
    (s t : Store) (id : Uid) (i : ℕ)
    → position id s.waypoints ≡ some i
    → snapshot t ≡ (deleted s id i).snapshot
    → len t + 1 ≡ len s
unfolding snapshot deleted len
len-deleted s t id i h e = omega (
  arith,
  ap (λ (k : Snapshot). length k.waypoints) e,
  length-remove_at s.waypoints i (position-lt id s.waypoints i h),
)

pub revision-deleted :
    (s t : Store) (id : Uid) (i : ℕ)
    → snapshot t ≡ (deleted s id i).snapshot
    → t.revision ≡ suc_ℤ s.revision
unfolding snapshot deleted
revision-deleted s t id i e = ap (λ (k : Snapshot). k.revision) e

pub delete_run :
    (s : Store) (id : Uid) (w : Waypoint)
    → IsValid s
    → find s id ≡ some w
    → s.revision ≢ max_revision
    → (t : Store) × ((prepare_delete s id >>= commit s) ≡ ok t)
      × IsValid t
      × (i : ℕ) × (position id s.waypoints ≡ some i)
      × (snapshot t ≡ (deleted s id i).snapshot)
unfolding prepare_delete
delete_run s id w v h room =
    let (i, at, known, _) = found_position s id w v h in
    let (t, done, v', same) =
      commit-PreparedFor s (deleted s id i) (deleted-PreparedFor s id i v) in
    (
      t,
      rw (known, not_equal s.revision max_revision room) (unfold deleted in done),
      v',
      i,
      at,
      same,
    )

pub waypoints-deleted :
    (s t : Store) (id : Uid) (i : ℕ)
    → snapshot t ≡ (deleted s id i).snapshot
    → t.waypoints ≡ remove_at s.waypoints i
unfolding snapshot deleted
waypoints-deleted s t id i e = ap (λ (k : Snapshot). k.waypoints) e

-- On a valid catalog below the last revision, a point that is there is removed: the catalog is valid
-- again at the next revision and has one point less, its id finds nothing, and every other id finds
-- what it found before.
pub delete-commit :
    (s : Store) (id : Uid) (w : Waypoint)
    → IsValid s
    → find s id ≡ some w
    → s.revision ≢ max_revision
    → (t : Store) × ((prepare_delete s id >>= commit s) ≡ ok t)
      × IsValid t
      × (t.revision ≡ suc_ℤ s.revision)
      × (len t + 1 ≡ len s)
      × ((j : Uid) → find t j ≡ (if id_beq id j then none else find s j))
delete-commit s id w v h room =
    let (t, done, v', i, at, same) = delete_run s id w v h room in
    (
      t,
      done,
      v',
      revision-deleted s t id i same,
      len-deleted s t id i at same,
      find-deleted s t id i v v' at same,
    )

pub found_of_ne {ℓ} : {A : Type ℓ} (o : Option A) → o ≢ none → (a : A) × (o ≡ some a)
found_of_ne none h = absurd (h refl)
found_of_ne (some a) h = (a, refl)

-- Every other removal is refused: as `missing` if the catalog has no such point, and as exhausted if
-- it has the point and its revision is the last one.
pub prepare_delete_refusals :
    (s : Store) (id : Uid)
    → IsValid s
    → (find s id ≡ none → prepare_delete s id ≡ err missing)
      × (find s id ≢ none
          → s.revision ≡ max_revision
          → prepare_delete s id ≡ err revision_exhausted)
unfolding prepare_delete
prepare_delete_refusals s id v = (
  λ h. rw (missing_position s id v h),
  λ h last.
      let (w, there) = found_of_ne (find s id) h in
      let (i, _, known, _) = found_position s id w v there in
      rw (known, (==ℤ_iff s.revision max_revision).1 last),
)
