-- ===== src/Waypoints/Service/Durable.antt =====
-- The file against the catalog, over any run of requests.
use confluxmap_pumpkin.Base.{◌≡◌}
use confluxmap_pumpkin.Waypoints.Store.{Store, Snapshot, snapshot}
use confluxmap_pumpkin.Waypoints.Store.Loading.{IsConsistent, IsValid}
use confluxmap_pumpkin.Waypoints.Store.History.{IsSound, Commits-IsSound}
use confluxmap_pumpkin.Waypoints.Store.Pending.{PreparedOn, prepared_commits}
use confluxmap_pumpkin.Waypoints.Service.Players.{MutationResult}
use confluxmap_pumpkin.Waypoints.Service.{Service}
use confluxmap_pumpkin.Waypoints.Service.Outcome.{Outcome, moved, unmoved, Serves, Serves-Outcome}

-- Any number of requests, one after the other.
pub data Serving (s : Service) : Service → Type 0 where
  idle : Serving s s
  served : {t u : Service} {r : MutationResult} → Serving s t → Serves t r u → Serving s u

-- A sound catalog whose snapshot the file holds.
pub record IsDurable (store : Store) (disk : Snapshot) : Type 0 where
  pub sound : IsSound store
  pub written : disk ≡ snapshot store

Outcome-IsDurable :
    {s s' : Store} {d d' : Snapshot} {r : MutationResult}
    → Outcome (PreparedOn s) s d r s' d'
    → IsDurable s d
    → IsDurable s' d'
Outcome-IsDurable {s} {s'} (moved p on done wrote _ _ _ _) h = record {
  sound = (Commits-IsSound h.sound (prepared_commits s s' p on done)).0;
  written = wrote;
}
Outcome-IsDurable (unmoved same kept _) h = rw (same, kept) h

pub snapshot-IsConsistent : (s : Store) → IsValid s → IsConsistent (snapshot s)
unfolding snapshot
snapshot-IsConsistent s v = record {
  positive = v.positive;
  revisions = v.revisions;
  distinct = v.indexed.distinct;
}

pub Serving-IsDurable :
    {s t : Service} → Serving s t → IsDurable s.store s.disk → IsDurable t.store t.disk
Serving-IsDurable idle h = h
Serving-IsDurable (served run call) h =
    Outcome-IsDurable (Serves-Outcome call) (Serving-IsDurable run h)
