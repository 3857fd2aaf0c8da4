-- ===== src/Waypoints/Hub/Start.antt =====
-- waypoints/mod.rs, `configure`: the service of a hub that has none yet. What `Persistence::load` reads
-- of the file is an argument.
use confluxmap_pumpkin.Base.{[]}
use confluxmap_pumpkin.Waypoints.Proto.Messages.{Result, ok, err}
use confluxmap_pumpkin.Waypoints.Store.{Store, Snapshot, StoreError, new, empty}
use confluxmap_pumpkin.Waypoints.Service.{Service, Limits, AccessPolicy, sanitize_loaded}

abbrev pub or_empty : Result StoreError Store → Store
or_empty (ok store) = store
or_empty (err e) = empty

-- The catalog that a start makes of the file.
unfoldable pub start : Snapshot → Store
unfolding sanitize_loaded new
start loaded = or_empty (new (sanitize_loaded loaded))

-- The file is not written by a start.
unfoldable pub start_service : Snapshot → Limits → AccessPolicy → Service
unfolding start
start_service loaded limits access = record {
  store = start loaded;
  disk = loaded;
  limits = limits;
  access = access;
  players = record { order = []; states = [] };
}
