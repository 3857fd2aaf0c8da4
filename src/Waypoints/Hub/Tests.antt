-- ===== src/Waypoints/Hub/Tests.antt =====
-- The hub on a concrete payload.
use confluxmap_pumpkin.Base.{◌+◌, arith, ◌≡◌, refl, true, false, none, some, List, ℕ, [], ◌∷◌}
use confluxmap_pumpkin.Base.Int.{ℤ, pos, negsuc}
use confluxmap_pumpkin.Base.Maps
use confluxmap_pumpkin.Text.{ascii}
use confluxmap_pumpkin.Waypoints.Proto.Messages.{
  err, empty_payload, Waypoint, CreateRequest, Inbound, normal,
}
use confluxmap_pumpkin.Waypoints.Proto.Frames.{frame}
use confluxmap_pumpkin.Waypoints.Proto.Decode.{decode}
use confluxmap_pumpkin.Waypoints.Session.Access
use confluxmap_pumpkin.Waypoints.Session.Access.{opened}
use confluxmap_pumpkin.Waypoints.Session.{Peer, get, Session, new_session, accept_hello}
use confluxmap_pumpkin.Waypoints.Store.{Snapshot, empty, find, snapshot}
use confluxmap_pumpkin.Waypoints.Store.Loading.{IsValid}
use confluxmap_pumpkin.Waypoints.Store.History.{here, Reach-IsSound}
use confluxmap_pumpkin.Waypoints.Service.{Service, Host, owner_managed, create}
use confluxmap_pumpkin.Waypoints.Service.Players.{MutationResult}
use confluxmap_pumpkin.Waypoints.Service.Outcome.{created}
use confluxmap_pumpkin.Waypoints.Service.Durable.{idle, served}
use confluxmap_pumpkin.Waypoints.Hub.{Hub, actor_of, handle}
use confluxmap_pumpkin.Waypoints.Hub.Silent.{
  Handling, begun, malformed, any, IsIgnored, Handling-IsIgnored,
}
use confluxmap_pumpkin.Waypoints.Hub.Start.{start, start_service}
use confluxmap_pumpkin.Waypoints.Hub.Restart.{Serving-restart}
use confluxmap_pumpkin.Waypoints.Hub.Follow.{Replica, Mirrors}
use confluxmap_pumpkin.Waypoints.Hub.Synced.{IsSynced, handle-IsSynced}

abbrev fresh_service : Service
fresh_service = record {
  store = empty;
  disk = record { revision = pos 0; waypoints = [] };
  limits = record { max_per_world = 8; max_per_player = 2; mutations_per_minute = 30 };
  access = owner_managed;
  players = record { order = []; states = [] };
}

abbrev peer : Peer
peer = record { id = record { high = 1; low = 2 }; name = ascii "Alex"; operator = false }

abbrev greeted : Session
greeted = accept_hello (pos 1) (pos 3) false (new_session (pos 0))

abbrev hub : Hub
hub = record {
  sessions = (peer.id, greeted) ∷ [];
  service = some fresh_service;
  settings = record {
    enabled = true;
    world_id = ascii "w";
    limits = fresh_service.limits;
    access = owner_managed;
  };
  counters = record {
    hellos = 1;
    subscribes = 0;
    applied = 0;
    rejected = 0;
    malformed = 0;
    muted = 0;
    broadcasts = 0;
  };
}

abbrev host : Host
host = record { now = pos 1000; draws = λ i. record { high = 0; low = i + 1 }; writes = true }

abbrev home_request : CreateRequest
home_request = record {
  operation_id = record { high = 5; low = 5 };
  expected_revision = pos 0;
  name = ascii "Home";
  dimension_id = ascii "minecraft:overworld";
  x = 0x3ff8_0000_0000_0000;
  y = 0;
  z = 0;
  color = negsuc 0;
  kind = normal;
  icon_item_id = [];
  marker_label = ascii "H";
}

abbrev home_frame : List ℕ
home_frame = frame (pos 3) (Inbound.create home_request)

abbrev nothing_known : Replica
nothing_known = record { revision = pos 0; points = λ j. none }

nothing_known-Mirrors : Mirrors nothing_known empty
unfolding empty find Maps.lookup
nothing_known-Mirrors = record { revision = refl; points = λ j. refl }

empty-IsValid : IsValid empty
empty-IsValid = (Reach-IsSound here).0.valid

handle-IsSynced_example :
    IsSynced nothing_known
      (handle peer home_frame (pos 1000) host hub).0
      (handle peer home_frame (pos 1000) host hub).1
handle-IsSynced_example =
    handle-IsSynced nothing_known fresh_service hub peer home_frame (pos 1000) host refl
      empty-IsValid nothing_known-Mirrors

-- A point that no longer validates: its name is empty.
abbrev nameless : Waypoint
nameless = record {
  id = record { high = 0; low = 9 };
  publisher_id = peer.id;
  publisher_name = ascii "Alex";
  name = [];
  dimension_id = ascii "minecraft:overworld";
  x = 0;
  y = 0;
  z = 0;
  color_argb = negsuc 0;
  kind = normal;
  icon_item_id = [];
  marker_label = ascii "H";
  created_at_ms = pos 1;
  revision = pos 2;
}

abbrev old_file : Snapshot
old_file = record { revision = pos 2; waypoints = nameless ∷ [] }

abbrev restored : Service
restored = start_service old_file fresh_service.limits owner_managed

abbrev next_request : CreateRequest
next_request = record home_request { expected_revision = pos 2 }

abbrev after_create : MutationResult × Service
after_create = create restored host (actor_of peer) next_request

Serving-restart_example :
    IsValid after_create.1.store
    × (snapshot (start after_create.1.disk) ≡ snapshot after_create.1.store)
Serving-restart_example =
    Serving-restart old_file fresh_service.limits owner_managed
      (served idle (created host (actor_of peer) next_request refl))

abbrev other_peer : Peer
other_peer = record { id = record { high = 7; low = 7 }; name = ascii "Sam"; operator = true }

abbrev once : Hub
once = (handle peer [] (pos 1000) host hub).1

abbrev between : Hub
between = (handle other_peer home_frame (pos 1001) host once).1

abbrev twice : Hub
twice = (handle peer [] (pos 1002) host between).1

abbrev thrice : Hub
thrice = (handle peer [] (pos 1003) host twice).1

empty_malformed : (minor : ℤ) → decode [] minor ≡ err empty_payload
unfolding decode
empty_malformed minor = refl

strikes_out : Handling peer.id hub 3 thrice
strikes_out =
    let first : Handling peer.id hub 1 once =
      malformed peer [] (pos 1000) host empty_payload begun refl (empty_malformed _) in
    let second : Handling peer.id hub 2 twice =
      malformed peer [] (pos 1002) host empty_payload
        (any other_peer home_frame (pos 1001) host first) refl (empty_malformed _) in
    malformed peer [] (pos 1003) host empty_payload second refl (empty_malformed _)

has_session : get peer.id hub.sessions ≡ some greeted
unfolding Maps.lookup
has_session = refl

Handling-IsIgnored_example : IsIgnored thrice (handle peer home_frame (pos 1004) host thrice)
Handling-IsIgnored_example =
    Handling-IsIgnored peer greeted home_frame (pos 1004) host has_session
      (Access.greeted (pos 1) (pos 3) false (opened (pos 0))) strikes_out (ground arith)
