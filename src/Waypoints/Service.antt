-- ===== src/Waypoints/Service.antt =====
-- waypoints/service.rs: the mutations of one world's catalog. What the host contributes to a call is
-- an argument: the time, the random ids and whether the file can be written. Log lines are left out.
pub mod Players
pub mod Checks
pub mod Outcome
pub mod Durable
pub mod Rights
pub mod Retained
pub mod Replay
pub mod Queues
pub mod Bounds
pub mod Retention
pub mod Lasting
mod Tests
use confluxmap_pumpkin.Base.{
  ℕ, zero, suc, ◌+◌, ◌^◌, ◌≡◌, Bool, true, false, not, ◌&&◌, ◌||◌, Option, none, some, List, [],
  ◌∷◌, ◌++◌, ltb, leb, ◌==◌, if◌then◌else◌, length, is_some,
}
use confluxmap_pumpkin.Base.Int.{ℤ, pos, ◌==ℤ◌, suc_ℤ, ltb_ℤ}
use confluxmap_pumpkin.Base.Maps
use confluxmap_pumpkin.Base.Maps.{Map}
use confluxmap_pumpkin.Identity.{Uid, id_eq, id_beq}
use confluxmap_pumpkin.Text.{trim}
use confluxmap_pumpkin.Waypoints.Proto.Messages.{
  Str, Waypoint, CreateRequest, UpdateRequest, DeleteRequest, Result, ok, err,
}
use confluxmap_pumpkin.Waypoints.Model.{
  Draft, Validated, LocationKey, location_of, location_from, location_beq, validate,
  valid_publisher_name,
}
use confluxmap_pumpkin.Waypoints.Persist.{save, draft_of}
use confluxmap_pumpkin.Waypoints.Service.Players.{
  MutationError, forbidden, rate_limited, invalid_request, revision_conflict, not_found,
  world_quota_exceeded, player_quota_exceeded, persistence_failed, id_generation_failed, no_error,
  MutationResult, applied, reject, RequestBody, create_body, update_body, delete_body, PlayerState,
  TrackedPlayers, touch, put, remember_for, replay_decision, try_consume,
}
use confluxmap_pumpkin.Waypoints.Store
use confluxmap_pumpkin.Waypoints.Store.{
  Store, Snapshot, Delta, Prepared, StoreError, find, find_at, len, count_published_by,
  prepare_create, prepare_delete, prepare_update, commit,
}

pub record Limits : Type 0 where
  pub max_per_world : ℕ
  pub max_per_player : ℕ
  pub mutations_per_minute : ℕ

pub data AccessPolicy : Type 0 where
  operator_only owner_managed : AccessPolicy

pub record Actor : Type 0 where
  pub id : Uid
  pub name : Str
  pub operator : Bool

-- What the host gives one call: `clock::now_ms`, what `Id::random` draws, and whether the file can
-- be written.
pub record Host : Type 0 where
  pub now : ℤ
  pub draws : ℕ → Uid
  pub writes : Bool

-- `Service`, with the snapshot that its file holds.
pub record Service : Type 0 where
  pub store : Store
  pub disk : Snapshot
  pub limits : Limits
  pub access : AccessPolicy
  pub players : TrackedPlayers

abbrev pub is_owner_managed : AccessPolicy → Bool
is_owner_managed operator_only = false
is_owner_managed owner_managed = true

unfoldable pub can_create : Actor → AccessPolicy → Bool
can_create actor access = actor.operator || is_owner_managed access

unfoldable pub can_manage : Actor → Waypoint → AccessPolicy → Bool
can_manage actor w access =
    actor.operator || (is_owner_managed access && id_beq w.publisher_id actor.id)

-- `attempts` draws, of which the first is the one numbered `i`.
unfoldable pub draw_id : Store → (ℕ → Uid) → ℕ → ℕ → Option Uid
draw_id s draws zero i = none
draw_id s draws (suc attempts) i =
    let rest = draw_id s draws attempts (suc i) in
    if is_some (find s (draws i)) then rest else some (draws i)

unfoldable pub unique_id : Store → (ℕ → Uid) → Option Uid
unfolding draw_id
unique_id s draws = draw_id s draws 16 0

unfoldable pub store_error : StoreError → MutationError
store_error StoreError.duplicate_location = MutationError.duplicate_location
store_error StoreError.missing = not_found
store_error StoreError.duplicate_id = id_generation_failed
store_error StoreError.revision_exhausted = persistence_failed
store_error StoreError.stale = persistence_failed
store_error StoreError.malformed = persistence_failed

-- The early returns of a handler: `err e` ends it with that refusal.
infixl 5 ◌>>=◌
abbrev pub ◌>>=◌ {ℓ κ} :
    {A : Type ℓ} {B : Type κ}
    → Result MutationError A
    → (A → Result MutationError B)
    → Result MutationError B
ok a >>= f = f a
err e >>= f = err e

-- `if refused { return … }`
abbrev pub refuse_if : Bool → MutationError → Result MutationError (Unit {0})
refuse_if true e = err e
refuse_if false e = ok tt

-- `let Some(a) = o else { return … }`
abbrev pub or_refuse {ℓ} : {A : Type ℓ} → MutationError → Option A → Result MutationError A
or_refuse e none = err e
or_refuse e (some a) = ok a

abbrev pub or_store_error : Result StoreError Prepared → Result MutationError Prepared
or_store_error (ok p) = ok p
or_store_error (err e) = err (store_error e)

-- `checked_add(1)` on an `i64`
unfoldable pub checked_suc : ℤ → Option ℤ
checked_suc r = if r ==ℤ pos 9223372036854775807 then none else some (suc_ℤ r)

abbrev pub create_draft : CreateRequest → Draft
create_draft q = record {
  name = q.name;
  dimension_id = q.dimension_id;
  x = q.x;
  y = q.y;
  z = q.z;
  color = q.color;
  kind = q.kind;
  icon_item_id = q.icon_item_id;
  marker_label = q.marker_label;
}

abbrev pub update_draft : UpdateRequest → Draft
update_draft q = record {
  name = q.name;
  dimension_id = q.dimension_id;
  x = q.x;
  y = q.y;
  z = q.z;
  color = q.color;
  kind = q.kind;
  icon_item_id = q.icon_item_id;
  marker_label = q.marker_label;
}

-- The point that a create publishes.
abbrev pub created_point : Actor → Validated → Uid → ℤ → ℤ → Waypoint
created_point actor v id now revision = record {
  id = id;
  publisher_id = actor.id;
  publisher_name = trim actor.name;
  name = v.name;
  dimension_id = v.dimension_id;
  x = v.x;
  y = v.y;
  z = v.z;
  color_argb = v.color;
  kind = v.kind;
  icon_item_id = v.icon_item_id;
  marker_label = v.marker_label;
  created_at_ms = now;
  revision = revision;
}

-- `create` between the rate limit and the write.
unfoldable pub create_checks :
    Service → Host → Actor → CreateRequest → Result MutationError Prepared
unfolding unique_id checked_suc store_error
create_checks s host actor q = do
  _ ← refuse_if (not (q.expected_revision ==ℤ s.store.revision)) revision_conflict
  v ← or_refuse invalid_request (validate (create_draft q))
  _ ← refuse_if (not (valid_publisher_name (trim actor.name))) invalid_request
  location ← or_refuse invalid_request (location_of v.dimension_id v.x v.y v.z)
  _ ← refuse_if (is_some (find_at s.store location)) MutationError.duplicate_location
  _ ← refuse_if (leb s.limits.max_per_world (len s.store)) world_quota_exceeded
  _ ←
      refuse_if (leb s.limits.max_per_player (count_published_by s.store actor.id))
        player_quota_exceeded
  id ← or_refuse id_generation_failed (unique_id s.store host.draws)
  next_revision ← or_refuse persistence_failed (checked_suc s.store.revision)
  or_store_error (prepare_create s.store (created_point actor v id host.now next_revision))

-- `delete` between the rate limit and the write.
unfoldable pub delete_checks : Service → Actor → DeleteRequest → Result MutationError Prepared
unfolding can_manage store_error
delete_checks s actor q = do
  current ← or_refuse not_found (find s.store q.id)
  _ ← refuse_if (not (q.expected_revision ==ℤ current.revision)) revision_conflict
  _ ← refuse_if (not (can_manage actor current s.access)) forbidden
  or_store_error (prepare_delete s.store q.id)

-- The point that an update leaves.
abbrev pub updated_point : Waypoint → Validated → ℤ → Waypoint
updated_point current v revision = record {
  id = current.id;
  publisher_id = current.publisher_id;
  publisher_name = current.publisher_name;
  name = v.name;
  dimension_id = v.dimension_id;
  x = v.x;
  y = v.y;
  z = v.z;
  color_argb = v.color;
  kind = v.kind;
  icon_item_id = v.icon_item_id;
  marker_label = v.marker_label;
  created_at_ms = current.created_at_ms;
  revision = revision;
}

abbrev pub is_other : Uid → Option Waypoint → Bool
is_other id none = false
is_other id (some occupant) = not (id_beq occupant.id id)

-- `update` between the rate limit and the write.
unfoldable pub update_checks : Service → Actor → UpdateRequest → Result MutationError Prepared
unfolding can_manage checked_suc store_error
update_checks s actor q = do
  current ← or_refuse not_found (find s.store q.id)
  _ ← refuse_if (not (can_manage actor current s.access)) forbidden
  _ ← refuse_if (not (q.expected_revision ==ℤ current.revision)) revision_conflict
  v ← or_refuse invalid_request (validate (update_draft q))
  updated_location ← or_refuse invalid_request (location_of v.dimension_id v.x v.y v.z)
  _ ←
      refuse_if
        (not (location_beq updated_location (location_from current))
          && is_other current.id (find_at s.store updated_location))
        MutationError.duplicate_location
  next_revision ← or_refuse persistence_failed (checked_suc s.store.revision)
  or_store_error (prepare_update s.store (updated_point current v next_revision))

-- `finish`: an applied result is retained with the player.
unfoldable pub finish : Service → Uid → RequestBody → MutationResult → MutationResult × Service
finish s key body result = (result, record s { players = remember_for key body result s.players })

-- The commit after a write; it cannot fail, and the file is ahead of the catalog if it does.
abbrev pub committed : Service → Uid → Prepared → Result StoreError Store → MutationResult × Service
committed s operation_id p (ok t) =
    (applied operation_id p.delta, record s { store = t; disk = p.snapshot })
committed s operation_id p (err e) =
    (reject operation_id s.store.revision persistence_failed, record s { disk = p.snapshot })

-- `persist`, with the result that its caller makes of it.
unfoldable pub persist : Service → Host → Uid → Prepared → MutationResult × Service
persist s host operation_id p =
    if save p.snapshot host.writes
    then committed s operation_id p (commit s.store p)
    else (reject operation_id s.store.revision persistence_failed, s)

abbrev pub finish_with : Uid → RequestBody → MutationResult × Service → MutationResult × Service
finish_with key body (result, s) = finish s key body result

-- From the outcome of the checks to the end of a handler.
abbrev pub conclude :
    Service
    → Host
    → Uid
    → Uid
    → RequestBody
    → Result MutationError Prepared
    → MutationResult × Service
conclude s host key operation_id body (err e) =
    finish s key body (reject operation_id s.store.revision e)
conclude s host key operation_id body (ok p) = finish_with key body (persist s host operation_id p)

-- The rate limit, and what follows it.
abbrev pub charge :
    Service
    → Host
    → Uid
    → Uid
    → RequestBody
    → PlayerState
    → (Service → Result MutationError Prepared)
    → MutationResult × Service
charge s host key operation_id body player checks =
    let (paid, bucket) = try_consume player.bucket host.now in
    let s' : Service = record s {
      players = put key (record player { bucket = bucket }) s.players;
    } in
    if paid
    then conclude s' host key operation_id body (checks s')
    else finish s' key body (reject operation_id s.store.revision rate_limited)

abbrev pub with_players : Service → TrackedPlayers → Service
with_players s players = record s { players = players }

-- A replayed result ends a handler; otherwise it goes on as `continue`.
abbrev pub unless_replayed :
    Service
    → Uid
    → Option MutationResult × PlayerState
    → (Service → PlayerState → MutationResult × Service)
    → MutationResult × Service
unless_replayed s key (some replay, player) continue =
    (replay, with_players s (put key player s.players))
unless_replayed s key (none, player) continue = continue s player

abbrev pub touched : Service → Host → Uid → PlayerState × TrackedPlayers
touched s host key = touch s.players key host.now s.limits.mutations_per_minute

unfoldable pub create : Service → Host → Actor → CreateRequest → MutationResult × Service
unfolding can_create persist
create s host actor q =
    let body = create_body q in
    let (player, players) = touched s host actor.id in
    unless_replayed (with_players s players) actor.id
      (replay_decision player body s.store.revision q.operation_id)
      λ s player.
        if not (can_create actor s.access)
        then finish s actor.id body (reject q.operation_id s.store.revision forbidden)
        else charge s host actor.id q.operation_id body player (λ s. create_checks s host actor q)

unfoldable pub delete : Service → Host → Actor → DeleteRequest → MutationResult × Service
unfolding persist
delete s host actor q =
    let body = delete_body q in
    let (player, players) = touched s host actor.id in
    unless_replayed (with_players s players) actor.id
      (replay_decision player body s.store.revision q.operation_id)
      λ s player. charge s host actor.id q.operation_id body player (λ s. delete_checks s actor q)

unfoldable pub update : Service → Host → Actor → UpdateRequest → MutationResult × Service
unfolding persist
update s host actor q =
    let body = update_body q in
    let (player, players) = touched s host actor.id in
    unless_replayed (with_players s players) actor.id
      (replay_decision player body s.store.revision q.operation_id)
      λ s player. charge s host actor.id q.operation_id body player (λ s. update_checks s actor q)

-- `valid_for_active_world`
unfoldable pub valid_for_active_world : Waypoint → Bool
valid_for_active_world w = is_some (validate (draft_of w)) && valid_publisher_name w.publisher_name

abbrev pub kept : List Waypoint → List Waypoint
kept [] = []
kept (w ∷ ws) = let rest = kept ws in if valid_for_active_world w then w ∷ rest else rest

-- `sanitize_loaded`, without its warnings.
unfoldable pub sanitize_loaded : Snapshot → Snapshot
unfolding valid_for_active_world
sanitize_loaded loaded = record { revision = loaded.revision; waypoints = kept loaded.waypoints }
