-- ===== src/Waypoints/Store/Pending.antt =====
-- Mutations that are prepared and not yet committed.
use confluxmap_pumpkin.Base.{zero, suc, ◌≡◌, ◌≢◌, sym, ◌∙◌, arith}
use confluxmap_pumpkin.Base.Int.{ℤ, pos, negsuc, suc_ℤ, ==ℤ_refl}
use confluxmap_pumpkin.Identity.{Uid}
use confluxmap_pumpkin.Waypoints.Proto.Messages.{Waypoint, ok, err}
use confluxmap_pumpkin.Waypoints.Store.{
  Store, at_revision, push_all, snapshot, prepare_create, prepare_delete, prepare_update, commit,
  Prepared, stale, next_revision, upsert, remove,
}
use confluxmap_pumpkin.Waypoints.Store.Index.{revision-push_all, waypoints-push_all}
use confluxmap_pumpkin.Waypoints.Store.Creates.{not_equal}
use confluxmap_pumpkin.Waypoints.Store.History.{Commits, create, delete, update}

-- What was prepared on the catalog `s`.
pub data PreparedOn (s : Store) (p : Prepared) : Type 0 where
  a_create : (w : Waypoint) → prepare_create s w ≡ ok p → PreparedOn s p
  a_delete : (id : Uid) → prepare_delete s id ≡ ok p → PreparedOn s p
  an_update : (w : Waypoint) → prepare_update s w ≡ ok p → PreparedOn s p

pub record Based (s : Store) (p : Prepared) : Type 0 where
  pub base : p.base_revision ≡ s.revision
  pub next : p.snapshot.revision ≡ suc_ℤ s.revision
  pub told : p.delta.revision ≡ suc_ℤ s.revision

create-Based : (s : Store) (w : Waypoint) (p : Prepared) → prepare_create s w ≡ ok p → Based s p
unfolding prepare_create next_revision upsert
create-Based s w p e = record { base = ground arith; next = ground arith; told = ground arith }

delete-Based : (s : Store) (id : Uid) (p : Prepared) → prepare_delete s id ≡ ok p → Based s p
unfolding prepare_delete next_revision remove
delete-Based s id p e = record { base = ground arith; next = ground arith; told = ground arith }

update-Based : (s : Store) (w : Waypoint) (p : Prepared) → prepare_update s w ≡ ok p → Based s p
unfolding prepare_update next_revision upsert
update-Based s w p e = record { base = ground arith; next = ground arith; told = ground arith }

pub PreparedOn-Based : (s : Store) (p : Prepared) → PreparedOn s p → Based s p
PreparedOn-Based s p (a_create w e) = create-Based s w p e
PreparedOn-Based s p (a_delete id e) = delete-Based s id p e
PreparedOn-Based s p (an_update w e) = update-Based s w p e

revision-commit :
    (s t : Store) (p : Prepared) → commit s p ≡ ok t → t.revision ≡ p.snapshot.revision
unfolding commit
revision-commit s t p e =
    ground (arith, revision-push_all (at_revision p.snapshot.revision) p.snapshot.waypoints)

moved_on : (r : ℤ) → r ≢ suc_ℤ r
moved_on (pos n) e = ground arith
moved_on (negsuc zero) e = ground arith
moved_on (negsuc (suc n)) e = ground arith

-- Of two mutations that were prepared on one catalog, each a create, a delete or an update, only one
-- can be committed: the other is then stale.
pub commit-stale :
    (s t : Store) (p q : Prepared)
    → PreparedOn s p
    → PreparedOn s q
    → commit s p ≡ ok t
    → commit t q ≡ err stale
unfolding commit
commit-stale s t p q hp hq done =
    let P = PreparedOn-Based s p hp in
    let Q = PreparedOn-Based s q hq in
    let rev = revision-commit s t p done ∙ P.next in
    rw (not_equal q.base_revision t.revision (λ p'. moved_on s.revision (sym Q.base ∙ p' ∙ rev)))

pub prepared_commits :
    (s t : Store) (p : Prepared) → PreparedOn s p → commit s p ≡ ok t → Commits s t
prepared_commits s t p (a_create w e) done = create w (rw (e, done))
prepared_commits s t p (a_delete id e) done = delete id (rw (e, done))
prepared_commits s t p (an_update w e) done = update w (rw (e, done))

-- What was prepared on a catalog is committed on it, whatever the catalog holds.
pub commit-PreparedOn :
    (s : Store) (p : Prepared)
    → PreparedOn s p
    → (t : Store) × (commit s p ≡ ok t) × (snapshot t ≡ p.snapshot) × Commits s t
unfolding snapshot
commit-PreparedOn s p h =
    let b = PreparedOn-Based s p h in
    let t : Store = push_all (at_revision p.snapshot.revision) p.snapshot.waypoints in
    let done : commit s p ≡ ok t = unfold commit in rw (b.base, ==ℤ_refl s.revision) in
    (
      t,
      done,
      rw (
        revision-push_all (at_revision p.snapshot.revision) p.snapshot.waypoints,
        waypoints-push_all (at_revision p.snapshot.revision) p.snapshot.waypoints,
      ),
      prepared_commits s t p h done,
    )
