-- ===== src/Waypoints/Hub/Follow.antt =====
-- A subscriber that applies the deltas of the hub keeps a copy of the catalog.
use mathlib.Core.Path.{subst}
use confluxmap_pumpkin.Base.{◌≡◌, sym, Option, none, some, if◌then◌else◌, arith}
use confluxmap_pumpkin.Base.Int.{ℤ, suc_ℤ}
use confluxmap_pumpkin.Identity.{Uid, id_beq}
use confluxmap_pumpkin.Waypoints.Proto.Messages.{Waypoint, Outbound, ok}
use confluxmap_pumpkin.Waypoints.Store.{
  Store, Prepared, ◌>>=◌, find, prepare_create, prepare_delete, prepare_update, commit, upsert,
  remove, next_revision,
}
use confluxmap_pumpkin.Waypoints.Store.Loading.{IsValid, snapshot_parts}
use confluxmap_pumpkin.Waypoints.Store.Creates.{create-commit}
use confluxmap_pumpkin.Waypoints.Store.Deletes.{delete-commit}
use confluxmap_pumpkin.Waypoints.Store.Updates.{update-commit}
use confluxmap_pumpkin.Waypoints.Store.History.{create_met, delete_met, update_met, unique}
use confluxmap_pumpkin.Waypoints.Store.Pending.{PreparedOn, a_create, a_delete, an_update}
use confluxmap_pumpkin.Waypoints.Hub.{delta_to_outbound}

-- The copy: its revision, and the point of each id.
pub record Replica : Type 0 where
  pub revision : ℤ
  pub points : Uid → Option Waypoint

unfoldable pub follow : Replica → Option Outbound → Replica
follow x (some (Outbound.upsert revision w)) = record {
  revision = revision;
  points = λ j. if id_beq w.id j then some w else x.points j;
}
follow x (some (Outbound.remove revision id)) = record {
  revision = revision;
  points = λ j. if id_beq id j then none else x.points j;
}
follow x _ = x

pub record Mirrors (x : Replica) (s : Store) : Type 0 where
  pub revision : x.revision ≡ s.revision
  pub points : (j : Uid) → x.points j ≡ find s j

create_delta :
    (s : Store) (w : Waypoint) (p : Prepared)
    → prepare_create s w ≡ ok p
    → p.delta ≡ upsert w (suc_ℤ s.revision)
unfolding prepare_create next_revision upsert
create_delta s w p e = ground arith

delete_delta :
    (s : Store) (id : Uid) (p : Prepared)
    → prepare_delete s id ≡ ok p
    → p.delta ≡ remove id (suc_ℤ s.revision)
unfolding prepare_delete next_revision remove
delete_delta s id p e = ground arith

update_delta :
    (s : Store) (w : Waypoint) (p : Prepared)
    → prepare_update s w ≡ ok p
    → p.delta ≡ upsert w (suc_ℤ s.revision)
unfolding prepare_update next_revision upsert
update_delta s w p e = ground arith

-- The copy follows a mutation that is committed, by its delta.
pub commit-Mirrors :
    (x : Replica) (s t : Store) (p : Prepared)
    → IsValid s
    → PreparedOn s p
    → commit s p ≡ ok t
    → Mirrors x s
    → IsValid t × Mirrors (follow x (delta_to_outbound p.delta)) t
unfolding follow delta_to_outbound upsert remove
commit-Mirrors x s t p v (a_create w e) done m =
    let ran : (prepare_create s w >>= commit s) ≡ ok t = rw e done in
    let (u, done', v', shape, points, _) = create-commit s w v (create_met v w ran) in
    let same : u ≡ t = unique done' ran in
    let revision : u.revision ≡ suc_ℤ s.revision = (snapshot_parts u _ shape).1 in
    subst (λ y. IsValid y × Mirrors (follow x (delta_to_outbound p.delta)) y) same
      (
        v',
        rw (create_delta s w p e)
            (record { revision = sym revision; points = λ j. rw (m.points j) (sym (points j)) }),
      )
commit-Mirrors x s t p v (a_delete id e) done m =
    let ran : (prepare_delete s id >>= commit s) ≡ ok t = rw e done in
    let (w, there, room) = delete_met v id ran in
    let (u, done', v', revision, _, points) = delete-commit s id w v there room in
    let same : u ≡ t = unique done' ran in
    subst (λ y. IsValid y × Mirrors (follow x (delta_to_outbound p.delta)) y) same
      (
        v',
        rw (delete_delta s id p e)
            (record { revision = sym revision; points = λ j. rw (m.points j) (sym (points j)) }),
      )
commit-Mirrors x s t p v (an_update w e) done m =
    let ran : (prepare_update s w >>= commit s) ≡ ok t = rw e done in
    let (u, done', v', revision, _, points) = update-commit s w v (update_met v w ran) in
    let same : u ≡ t = unique done' ran in
    subst (λ y. IsValid y × Mirrors (follow x (delta_to_outbound p.delta)) y) same
      (
        v',
        rw (update_delta s w p e)
            (record { revision = sym revision; points = λ j. rw (m.points j) (sym (points j)) }),
      )
