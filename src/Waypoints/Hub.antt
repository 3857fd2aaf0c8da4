-- ===== src/Waypoints/Hub.antt =====
-- waypoints/mod.rs: the hub, which gives a decoded payload to the sessions and the service. Log lines
-- are left out. The hub has the data folder and the owner only for a new service.
pub mod Follow
pub mod Synced
pub mod Start
pub mod Restart
pub mod Muted
pub mod Strikes
pub mod Silent
mod Tests
use confluxmap_pumpkin.Base.{
  ℕ, ◌+◌, ◌%◌, ◌^◌, Bool, true, false, not, ◌&&◌, ◌||◌, Option, none, some, List, [], ◌∷◌,
  if◌then◌else◌,
}
use confluxmap_pumpkin.Base.Int.{ℤ, pos, of_word}
use confluxmap_pumpkin.Base.Maps
use confluxmap_pumpkin.Identity.{Uid, id_eq}
use confluxmap_pumpkin.Waypoints.Proto.Messages.{
  Str, Waypoint, Inbound, Outbound, Status, DecodeError, Result, proto_major,
  max_snapshot_waypoints, CreateRequest, UpdateRequest, DeleteRequest, LockRequest,
}
use confluxmap_pumpkin.Waypoints.Proto.Messages
use confluxmap_pumpkin.Waypoints.Proto.Decode.{decode}
use confluxmap_pumpkin.Waypoints.Session.{
  Peer, Session, Sessions, MalformedOutcome, get, effective_minor, is_compatible, charge_control,
  subscribed, hello, set_operator, set_subscribed, record_malformed,
}
use confluxmap_pumpkin.Waypoints.Store
use confluxmap_pumpkin.Waypoints.Store.{
  Snapshot, Delta, DeltaKind, upserted, removed, unchanged, snapshot,
}
use confluxmap_pumpkin.Waypoints.Service
use confluxmap_pumpkin.Waypoints.Service.{
  Service, Limits, AccessPolicy, owner_managed, is_owner_managed, Actor, Host,
}
use confluxmap_pumpkin.Waypoints.Service.Players.{
  MutationResult, is_applied, status_code, error_code,
}

pub record Settings : Type 0 where
  pub enabled : Bool
  pub world_id : Str
  pub limits : Limits
  pub access : AccessPolicy

-- The counters are of 64 bits.
pub record Counters : Type 0 where
  pub hellos : ℕ
  pub subscribes : ℕ
  pub applied : ℕ
  pub rejected : ℕ
  pub malformed : ℕ
  pub muted : ℕ
  pub broadcasts : ℕ

pub record Hub : Type 0 where
  pub sessions : Sessions
  pub service : Option Service
  pub settings : Settings
  pub counters : Counters

pub data Action : Type 0 where
  nothing : Action
  -- frames, minor
  reply : List Outbound → ℤ → Action
  -- the result, its minor, the delta and its recipients
  mutation : Outbound → ℤ → Option Outbound → List (Uid × ℤ) → Action

abbrev pub counted : ℕ → ℕ
counted n = (n + 1) % 2 ^ 64

-- A session that is there is changed.
abbrev pub modify : Uid → (Session → Session) → Sessions → Option Session → Sessions
modify key change sessions none = sessions
modify key change sessions (some s) = Maps.insert key (change s) sessions

unfoldable pub with_session : Uid → (Session → Session) → Hub → Hub
with_session key change h = record h {
  sessions = modify key change h.sessions (get key h.sessions);
}

abbrev minor_of : Option Session → ℤ
minor_of none = pos 0
minor_of (some s) = effective_minor s

unfoldable pub session_minor : Uid → Hub → ℤ
session_minor key h = minor_of (get key h.sessions)

abbrev compatible_in : Option Session → Bool
compatible_in none = false
compatible_in (some s) = is_compatible s

unfoldable pub session_compatible : Uid → Hub → Bool
session_compatible key h = compatible_in (get key h.sessions)

abbrev pub charged : Uid → ℤ → Hub → Option Session → Bool × Hub
charged key now h none = (false, h)
charged key now h (some s) =
    let (paid, s') = charge_control s now in
    (paid, record h { sessions = Maps.insert key s' h.sessions })

unfoldable pub charge : Uid → ℤ → Hub → Bool × Hub
charge key now h = charged key now h (get key h.sessions)

abbrev catalog_of : Option Service → Snapshot
catalog_of none = record { revision = pos 0; waypoints = [] }
catalog_of (some s) = snapshot s.store

abbrev owners_allowed : Option Service → Bool
owners_allowed none = false
owners_allowed (some s) = is_owner_managed s.access

-- `as i32`
abbrev as_i32 : ℕ → ℤ
as_i32 n = of_word (2 ^ 31) (n % 2 ^ 32)

unfoldable pub status : Hub → Bool → ℤ → Bool → Outbound
status h operator minor supported = Outbound.status (record {
  major = proto_major;
  minor = minor;
  supported = supported;
  enabled = supported && h.settings.enabled;
  operator = operator;
  world_id = h.settings.world_id;
  revision = (catalog_of h.service).revision;
  max_world = as_i32 h.settings.limits.max_per_world;
  max_player = as_i32 h.settings.limits.max_per_player;
  owner_management_allowed = owners_allowed h.service;
})

abbrev with_minor : Uid → Option Session → List (Uid × ℤ) → List (Uid × ℤ)
with_minor key none rest = rest
with_minor key (some s) rest = (key, effective_minor s) ∷ rest

abbrev minors : Sessions → List Uid → List (Uid × ℤ)
minors sessions [] = []
minors sessions (key ∷ keys) = with_minor key (get key sessions) (minors sessions keys)

unfoldable pub recipients : Hub → List (Uid × ℤ)
recipients h = minors h.sessions (subscribed h.sessions)

abbrev upsert_of : ℤ → Option Waypoint → Option Outbound
upsert_of revision none = none
upsert_of revision (some w) = some (Outbound.upsert revision w)

abbrev remove_of : ℤ → Option Uid → Option Outbound
remove_of revision none = none
remove_of revision (some id) = some (Outbound.remove revision id)

abbrev outbound_of : DeltaKind → Delta → Option Outbound
outbound_of upserted d = upsert_of d.revision d.waypoint
outbound_of removed d = remove_of d.revision d.removed_id
outbound_of unchanged d = none

unfoldable pub delta_to_outbound : Delta → Option Outbound
delta_to_outbound d = outbound_of d.kind d

-- A fresh mutation that was applied moves the subscribers.
unfoldable pub broadcast_of : MutationResult → Option Outbound
unfolding delta_to_outbound
broadcast_of r = if is_applied r.status && not r.replayed then delta_to_outbound r.delta else none

abbrev pub count_result : Bool → Counters → Counters
count_result true c = record c { applied = counted c.applied }
count_result false c = record c { rejected = counted c.rejected }

abbrev pub announce : Outbound → ℤ → Hub → Option Outbound → Action × Hub
announce answer minor h none = (mutation answer minor none [], h)
announce answer minor h (some delta) =
    let c = h.counters in
    (
      mutation answer minor (some delta) (recipients h),
      record h { counters = record c { broadcasts = counted c.broadcasts } },
    )

unfoldable pub finish_mutation : MutationResult → ℤ → Hub → Action × Hub
unfolding broadcast_of recipients
finish_mutation r minor h =
    let h1 = record h { counters = count_result (is_applied r.status) h.counters } in
    announce (Outbound.result r.operation_id (status_code r) (error_code r minor)) minor h1
      (broadcast_of r)

abbrev pub result_status_rejected : ℤ
result_status_rejected = pos 1

abbrev pub result_error_invalid_request : ℤ
result_error_invalid_request = pos 1

abbrev pub result_error_rate_limited : ℤ
result_error_rate_limited = pos 7

abbrev pub result_error_disabled : ℤ
result_error_disabled = pos 10

-- The answer to a mutation while the feature is off.
unfoldable pub disabled : Peer → Uid → ℤ → ℤ → Hub → Action × Hub
unfolding charge with_session status
disabled peer operation_id minor now h =
    let (paid, h1) = charge peer.id now h in
    let h2 = with_session peer.id (set_operator peer.operator) h1 in
    if paid
    then (
      reply
          (Outbound.result operation_id result_status_rejected result_error_disabled
            ∷ status h2 peer.operator minor true
            ∷ [])
          minor,
      h2,
    )
    else (
      reply (Outbound.result operation_id result_status_rejected result_error_rate_limited ∷ [])
          minor,
      h1,
    )

abbrev pub note_for : Uid → Option Session → Hub → Hub
note_for key none h = h
note_for key (some s) h =
    let (outcome, s') = record_malformed s in
    let c = h.counters in
    record h {
      sessions = Maps.insert key s' h.sessions;
      counters = if outcome.newly_muted then record c { muted = counted c.muted } else c;
    }

unfoldable pub note_malformed : Uid → Hub → Hub
note_malformed key h =
    let c = h.counters in
    note_for key (get key h.sessions)
      (record h { counters = record c { malformed = counted c.malformed } })

abbrev pub actor_of : Peer → Actor
actor_of peer = record { id = peer.id; name = peer.name; operator = peer.operator }

-- A mutation that the service serves.
abbrev pub served_by :
    (Service → MutationResult × Service) → ℤ → Hub → Option Service → Action × Hub
served_by serve minor h none = (nothing, h)
served_by serve minor h (some s) =
    let (r, s') = serve s in finish_mutation r minor (record h { service = some s' })

-- What every mutation passes first.
unfoldable pub guarded :
    Peer → Uid → ℤ → ℤ → (Service → MutationResult × Service) → Hub → Action × Hub
unfolding session_compatible disabled finish_mutation
guarded peer operation_id minor now serve h =
    if not (session_compatible peer.id h)
    then (nothing, h)
    else if not h.settings.enabled
    then disabled peer operation_id minor now h
    else served_by serve minor h h.service

abbrev pub answered : Peer → Hub → Option ℤ → Action × Hub
answered peer h none = (nothing, h)
answered peer h (some negotiated) =
    let c = h.counters in
    let h1 = record h { counters = record c { hellos = counted c.hellos } } in
    (reply (status h1 peer.operator negotiated (session_compatible peer.id h1) ∷ []) negotiated, h1)

unfoldable pub on_hello : Peer → ℤ → ℤ → ℤ → Hub → Action × Hub
unfolding status session_compatible
on_hello peer major minor now h =
    let (negotiated, sessions) = hello peer.id major minor peer.operator now h.sessions in
    answered peer (record h { sessions = sessions }) negotiated

unfoldable pub serve_snapshot : Peer → ℤ → Hub → Action × Hub
unfolding with_session
serve_snapshot peer minor h =
    let h1 = with_session peer.id (set_subscribed true) h in
    let c = h1.counters in
    let catalog = catalog_of h.service in
    (
      reply (Outbound.snapshot catalog.revision peer.operator catalog.waypoints ∷ []) minor,
      record h1 { counters = record c { subscribes = counted c.subscribes } },
    )

unfoldable pub on_subscribe : Peer → ℤ → ℤ → Hub → Action × Hub
unfolding session_compatible charge with_session status serve_snapshot
on_subscribe peer minor now h =
    if not (session_compatible peer.id h)
    then (nothing, h)
    else let (paid, h1) = charge peer.id now h in
      let h2 = with_session peer.id (set_operator peer.operator) h1 in
      let h3 = with_session peer.id (set_subscribed false) h2 in
      if not paid
      then (nothing, h1)
      else if not h.settings.enabled
      then (reply (status h3 peer.operator minor true ∷ []) minor, h3)
      else serve_snapshot peer minor h2

unfoldable pub on_lock : Peer → Uid → ℤ → ℤ → Hub → Action × Hub
unfolding session_compatible disabled
on_lock peer operation_id minor now h =
    if not (session_compatible peer.id h)
    then (nothing, h)
    else if not h.settings.enabled
    then disabled peer operation_id minor now h
    else (
      reply (Outbound.result operation_id result_status_rejected result_error_invalid_request ∷ [])
          minor,
      h,
    )

unfoldable pub on_message : Peer → ℤ → ℤ → Host → Inbound → Hub → Action × Hub
unfolding on_hello on_subscribe guarded on_lock
on_message peer minor now host (Inbound.hello major asked) h = on_hello peer major asked now h
on_message peer minor now host Inbound.subscribe h = on_subscribe peer minor now h
on_message peer minor now host (Inbound.create q) h =
    guarded peer q.operation_id minor now (λ s. Service.create s host (actor_of peer) q) h
on_message peer minor now host (Inbound.update q) h =
    guarded peer q.operation_id minor now (λ s. Service.update s host (actor_of peer) q) h
on_message peer minor now host (Inbound.delete q) h =
    guarded peer q.operation_id minor now (λ s. Service.delete s host (actor_of peer) q) h
on_message peer minor now host (Inbound.lock q) h = on_lock peer q.operation_id minor now h

abbrev pub on_decoded : Peer → ℤ → ℤ → Host → Result DecodeError Inbound → Hub → Action × Hub
on_decoded peer minor now host (Messages.err e) h = (nothing, note_malformed peer.id h)
on_decoded peer minor now host (Messages.ok message) h = on_message peer minor now host message h

-- `Hub::handle`
unfoldable pub handle : Peer → List ℕ → ℤ → Host → Hub → Action × Hub
unfolding session_minor note_malformed on_message decode
handle peer payload now host h =
    let minor = session_minor peer.id h in on_decoded peer minor now host (decode payload minor) h
