-- ===== src/Waypoints/Hub/Restart.antt =====
-- The file of a service against its catalog, from one start to the next.

use confluxmap_pumpkin.Base.{◌≡◌, refl, ap, ◌∙◌, inl, inr, List, [], ◌∷◌, All, Bool-cases}
use confluxmap_pumpkin.Waypoints.Proto.Messages.{Waypoint}
use confluxmap_pumpkin.Waypoints.Store.{Store, Snapshot, snapshot, new, empty}
use confluxmap_pumpkin.Waypoints.Store.Loading.{IsValid, new_outcome}
use confluxmap_pumpkin.Waypoints.Store.History.{Reach-IsSound, here, Commits-IsValid}
use confluxmap_pumpkin.Waypoints.Store.Pending.{prepared_commits}
use confluxmap_pumpkin.Waypoints.Service.Players.{MutationResult}
use confluxmap_pumpkin.Waypoints.Service.{
  Service, Limits, AccessPolicy, kept, sanitize_loaded, valid_for_active_world,
}
use confluxmap_pumpkin.Waypoints.Service.Outcome.{Outcome, moved, unmoved}
use confluxmap_pumpkin.Waypoints.Service.Durable.{Serving, idle, served, snapshot-IsConsistent}
use confluxmap_pumpkin.Waypoints.Service.Lasting.{Lasts, Brings, Serves-Brings, sanitize_snapshot}
use confluxmap_pumpkin.Waypoints.Service.Rights.{waypoints-commit}
use confluxmap_pumpkin.Waypoints.Hub.Start.{or_empty, start, start_service}

-- A valid catalog of valid points, which a start makes of the file again.
record Restarts (store : Store) (disk : Snapshot) : Type 0 where
  valid : IsValid store
  lasts : All Lasts store.waypoints
  again : snapshot (start disk) ≡ snapshot store

kept-Lasts : (ws : List Waypoint) → All Lasts (kept ws)
kept-Lasts [] = tt
kept-Lasts (w ∷ ws) = elim (Bool-cases (valid_for_active_world w)) [
  | inl good ↦ rw good (good, kept-Lasts ws)
  | inr bad ↦ rw bad (kept-Lasts ws)
]

sanitized-Lasts :
    (u : Store) (d : Snapshot) → snapshot u ≡ sanitize_loaded d → All Lasts u.waypoints
unfolding snapshot sanitize_loaded
sanitized-Lasts u d e = rw (ap (λ (i : Snapshot). i.waypoints) e) (kept-Lasts d.waypoints)

start-Restarts : (d : Snapshot) → Restarts (start d) d
unfolding start empty
start-Restarts d = elim (new_outcome (sanitize_loaded d)) [
  | inl (_, u, loaded, valid, same) ↦
      rw loaded (record { valid = valid; lasts = sanitized-Lasts u d same; again = rw loaded refl })
  | inr (_, refused) ↦
      rw refused
        (record { valid = (Reach-IsSound here).0.valid; lasts = tt; again = rw refused refl })
]

-- A start finds in the file of a valid catalog just that catalog.
start-snapshot :
    (s : Store) → IsValid s → All Lasts s.waypoints → snapshot (start (snapshot s)) ≡ snapshot s
unfolding start
start-snapshot s v h = elim (new_outcome (snapshot s)) [
  | inl (_, u, loaded, _, same) ↦
      ap (λ (d : Snapshot). snapshot (or_empty (new d))) (sanitize_snapshot s h) ∙ rw loaded same
  | inr (bad, _) ↦ absurd (bad (snapshot-IsConsistent s v))
]

Outcome-Restarts :
    {s s' : Store} {d d' : Snapshot} {r : MutationResult}
    → Outcome (Brings s) s d r s' d'
    → Restarts s d
    → Restarts s' d'
Outcome-Restarts {s} {s'} (moved p b done wrote good fresh delta told) h =
    let v = Commits-IsValid h.valid (prepared_commits s s' p b.on done) in
    let l : All Lasts s'.waypoints = rw (waypoints-commit s s' p b.on done) (b.lasts h.lasts) in
    record { valid = v; lasts = l; again = rw wrote (start-snapshot s' v l) }
Outcome-Restarts (unmoved same kept _) h = rw (same, kept) h

Serving-Restarts : {s t : Service} → Serving s t → Restarts s.store s.disk → Restarts t.store t.disk
Serving-Restarts idle h = h
Serving-Restarts (served run call) h =
    Outcome-Restarts (Serves-Brings call) (Serving-Restarts run h)

-- Whatever catalog the file holds, where a hub starts a service from it, then after any requests, and
-- whatever writes fail, the catalog is valid, and the next start from the file, which again drops
-- what is not valid and would fall back to an empty catalog, has just its points and its revision.
pub Serving-restart :
    {t : Service} (loaded : Snapshot) (limits : Limits) (access : AccessPolicy)
    → Serving (start_service loaded limits access) t
    → IsValid t.store × (snapshot (start t.disk) ≡ snapshot t.store)
unfolding start_service
Serving-restart loaded limits access run =
    let h = Serving-Restarts run (start-Restarts loaded) in (h.valid, h.again)
