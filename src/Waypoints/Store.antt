-- ===== src/Waypoints/Store.antt =====
-- waypoints/store.rs: the catalog. The proofs are in the modules below.
mod Positions
pub mod Index
pub mod Loading
pub mod Mutations
pub mod Creates
pub mod Deletes
pub mod Updates
pub mod Blocks
pub mod Abstract
pub mod History
pub mod Pending
use confluxmap_pumpkin.Base.{
  ℕ, zero, suc, ◌+◌, ◌-◌, ◌^◌, Bool, true, false, not, ◌&&◌, ◌||◌, Option, none, some, List, [],
  ◌∷◌, ◌++◌, ltb, ◌==◌, if◌then◌else◌, length, get_elem?, set, remove_at, is_some,
}
use confluxmap_pumpkin.Base.Int.{ℤ, pos, ltb_ℤ, ◌==ℤ◌, suc_ℤ}
use confluxmap_pumpkin.Base.Maps
use confluxmap_pumpkin.Base.Maps.{Map, beq}
use confluxmap_pumpkin.Identity.{Uid, id_eq, id_beq}
use confluxmap_pumpkin.Waypoints.Proto.Messages.{Waypoint, Result, ok, err}
use confluxmap_pumpkin.Waypoints.Model.{LocationKey, location_from, location_eq, location_beq}

pub record Snapshot : Type 0 where
  pub revision : ℤ
  pub waypoints : List Waypoint

pub data DeltaKind : Type 0 where
  upserted removed unchanged : DeltaKind

pub record Delta : Type 0 where
  pub kind : DeltaKind
  pub revision : ℤ
  pub waypoint : Option Waypoint
  pub removed_id : Option Uid

unfoldable pub upsert : Waypoint → ℤ → Delta
upsert w revision = record {
  kind = upserted;
  revision = revision;
  waypoint = some w;
  removed_id = none;
}

unfoldable pub remove : Uid → ℤ → Delta
remove id revision = record {
  kind = removed;
  revision = revision;
  waypoint = none;
  removed_id = some id;
}

unfoldable pub noop : ℤ → Delta
noop revision = record { kind = unchanged; revision = revision; waypoint = none; removed_id = none }

pub data StoreError : Type 0 where
  duplicate_id duplicate_location missing revision_exhausted stale malformed : StoreError

pub record Prepared : Type 0 where
  pub base_revision : ℤ
  pub snapshot : Snapshot
  pub delta : Delta

pub record Store : Type 0 where
  pub revision : ℤ
  pub waypoints : List Waypoint
  pub index : Map Uid ℕ
  pub occupancy : Map LocationKey Uid

infixl 5 ◌>>=◌
abbrev pub ◌>>=◌ {ℓ κ} :
    {A : Type ℓ} {B : Type κ}
    → Result StoreError A
    → (A → Result StoreError B)
    → Result StoreError B
ok a >>= f = f a
err e >>= f = err e

unfoldable pub empty : Store
empty = record { revision = pos 0; waypoints = []; index = []; occupancy = [] }

abbrev pub at_revision : ℤ → Store
at_revision revision = record { revision = revision; waypoints = []; index = []; occupancy = [] }

-- A point behind the others, with both indexes: the end of the loops of `new` and `commit`.
unfoldable pub push : Store → Waypoint → Store
push s w = record s {
  waypoints = s.waypoints ++ w ∷ [];
  index = Maps.insert w.id (length s.waypoints) s.index;
  occupancy = Maps.insert_new (location_from w) w.id s.occupancy;
}

-- The loop of `Store::new`.
unfoldable pub load : Store → List Waypoint → Result StoreError Store
unfolding push
load s [] = ok s
load s (w ∷ ws) =
    let rest = load (push s w) ws in
    if ltb_ℤ w.revision (pos 1) || ltb_ℤ s.revision w.revision
    then err malformed
    else if Maps.contains_key w.id s.index
    then err malformed
    else rest

-- `Store::new`
unfoldable pub new : Snapshot → Result StoreError Store
unfolding load
new initial =
    if ltb_ℤ initial.revision (pos 0)
    then err malformed
    else load (at_revision initial.revision) initial.waypoints

unfoldable pub len : Store → ℕ
len s = length s.waypoints

unfoldable pub snapshot : Store → Snapshot
snapshot s = record { revision = s.revision; waypoints = s.waypoints }

abbrev pub at_position : List Waypoint → Option ℕ → Option Waypoint
at_position ws none = none
at_position ws (some i) = get_elem? ws i

unfoldable pub find : Store → Uid → Option Waypoint
find s id = at_position s.waypoints (Maps.lookup id s.index)

-- `iter().find(|waypoint| waypoint.id == id)`
unfoldable pub first_with_id : Uid → List Waypoint → Option Waypoint
first_with_id id [] = none
first_with_id id (w ∷ ws) = if id_beq w.id id then some w else first_with_id id ws

abbrev pub occupant : List Waypoint → Option Uid → Option Waypoint
occupant ws none = none
occupant ws (some id) = first_with_id id ws

unfoldable pub find_at : Store → LocationKey → Option Waypoint
unfolding first_with_id
find_at s location = occupant s.waypoints (Maps.lookup location s.occupancy)

unfoldable pub published_by : Uid → List Waypoint → ℕ
published_by publisher [] = 0
published_by publisher (w ∷ ws) =
    let rest = published_by publisher ws in
    if id_beq w.publisher_id publisher then suc rest else rest

unfoldable pub count_published_by : Store → Uid → ℕ
unfolding published_by
count_published_by s publisher = published_by publisher s.waypoints

-- `checked_add(1)` on an `i64`
unfoldable pub next_revision : Store → Result StoreError ℤ
next_revision s =
    if s.revision ==ℤ pos (2 ^ 63 - 1) then err revision_exhausted else ok (suc_ℤ s.revision)

unfoldable pub prepare_create : Store → Waypoint → Result StoreError Prepared
unfolding next_revision upsert
prepare_create s w =
    if Maps.contains_key w.id s.index
    then err duplicate_id
    else if Maps.contains_key (location_from w) s.occupancy
    then err duplicate_location
    else do
      next ← next_revision s
      if not (w.revision ==ℤ next)
          then err malformed
          else ok (record {
            base_revision = s.revision;
            snapshot = record { revision = next; waypoints = s.waypoints ++ w ∷ [] };
            delta = upsert w next;
          })

abbrev pub ok_or {ℓ} : {A : Type ℓ} → StoreError → Option A → Result StoreError A
ok_or e none = err e
ok_or e (some a) = ok a

unfoldable pub prepare_delete : Store → Uid → Result StoreError Prepared
unfolding next_revision remove
prepare_delete s id = do
  position ← ok_or missing (Maps.lookup id s.index)
  next ← next_revision s
  ok (record {
    base_revision = s.revision;
    snapshot = record { revision = next; waypoints = remove_at s.waypoints position };
    delta = remove id next;
  })

-- Another point than `w` holds the block.
abbrev held_by_other : Uid → Option Uid → Bool
held_by_other id none = false
held_by_other id (some other) = not (id_beq other id)

-- `self.waypoints[position]` panics out of range; the index never holds such a position
-- (Store/Index), and then nothing is in conflict here.
abbrev conflicts : Store → Waypoint → Option Waypoint → Bool
conflicts s w none = false
conflicts s w (some current) =
    not (location_beq (location_from w) (location_from current))
    && held_by_other w.id (Maps.lookup (location_from w) s.occupancy)

unfoldable pub prepare_update : Store → Waypoint → Result StoreError Prepared
unfolding next_revision upsert
prepare_update s w = do
  position ← ok_or missing (Maps.lookup w.id s.index)
  next ← next_revision s
  if not (w.revision ==ℤ next)
      then err malformed
      else if conflicts s w (get_elem? s.waypoints position)
      then err duplicate_location
      else ok (record {
        base_revision = s.revision;
        snapshot = record { revision = next; waypoints = set s.waypoints position w };
        delta = upsert w next;
      })

-- The loop of `commit`.
unfoldable pub push_all : Store → List Waypoint → Store
unfolding push
push_all s [] = s
push_all s (w ∷ ws) = push_all (push s w) ws

unfoldable pub commit : Store → Prepared → Result StoreError Store
unfolding push_all
commit s prepared =
    if not (prepared.base_revision ==ℤ s.revision)
    then err stale
    else ok (push_all (at_revision prepared.snapshot.revision) prepared.snapshot.waypoints)
