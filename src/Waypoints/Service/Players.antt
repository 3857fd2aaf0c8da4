-- ===== src/Waypoints/Service/Players.antt =====
-- waypoints/service.rs: what is kept of each player, the retained results and the mutation budget.
use confluxmap_pumpkin.Base.{
  ℕ, Bool, true, false, ◌&&◌, Option, none, some, List, [], ◌∷◌, ◌++◌, leb, if◌then◌else◌, length,
}
use confluxmap_pumpkin.Base.Int.{ℤ, pos, ltb_ℤ, ◌==ℤ◌}
use confluxmap_pumpkin.Base.Maps
use confluxmap_pumpkin.Base.Maps.{Map}
use confluxmap_pumpkin.Identity.{Uid, id_eq, id_beq}
use confluxmap_pumpkin.Float
use confluxmap_pumpkin.Float.Arithmetic.{of_nat}
use confluxmap_pumpkin.Waypoints.Proto.Messages.{
  WaypointKind, normal, death, CreateRequest, UpdateRequest, DeleteRequest,
}
use confluxmap_pumpkin.Waypoints.Model.{str_beq}
use confluxmap_pumpkin.Waypoints.Session
use confluxmap_pumpkin.Waypoints.Session.{TokenBucket}
use confluxmap_pumpkin.Waypoints.Store.{Delta, noop}

pub data MutationStatus : Type 0 where
  applied_status rejected_status : MutationStatus

pub data MutationError : Type 0 where
  no_error invalid_request revision_conflict not_found forbidden : MutationError
  world_quota_exceeded player_quota_exceeded rate_limited duplicate_location : MutationError
  persistence_failed id_generation_failed : MutationError

pub record MutationResult : Type 0 where
  pub operation_id : Uid
  pub status : MutationStatus
  pub error : MutationError
  pub delta : Delta
  pub replayed : Bool

abbrev pub is_applied : MutationStatus → Bool
is_applied applied_status = true
is_applied rejected_status = false

-- `MutationResult::status_code` and `error_code`
unfoldable pub status_code : MutationResult → ℤ
status_code r = if is_applied r.status then pos 0 else pos 1

abbrev pub code_of : MutationError → ℤ → ℤ
code_of no_error minor = pos 0
code_of invalid_request minor = pos 1
code_of revision_conflict minor = pos 2
code_of not_found minor = pos 3
code_of forbidden minor = pos 4
code_of world_quota_exceeded minor = pos 5
code_of player_quota_exceeded minor = pos 6
code_of rate_limited minor = pos 7
code_of persistence_failed minor = pos 8
code_of id_generation_failed minor = pos 9
code_of duplicate_location minor = if ltb_ℤ minor (pos 1) then pos 1 else pos 11

unfoldable pub error_code : MutationResult → ℤ → ℤ
error_code r negotiated_minor = code_of r.error negotiated_minor

unfoldable pub applied : Uid → Delta → MutationResult
applied operation_id delta = record {
  operation_id = operation_id;
  status = applied_status;
  error = no_error;
  delta = delta;
  replayed = false;
}

unfoldable pub reject : Uid → ℤ → MutationError → MutationResult
reject operation_id revision error = record {
  operation_id = operation_id;
  status = rejected_status;
  error = error;
  delta = noop revision;
  replayed = false;
}

pub data RequestBody : Type 0 where
  create_body : CreateRequest → RequestBody
  update_body : UpdateRequest → RequestBody
  delete_body : DeleteRequest → RequestBody

abbrev pub kind_beq : WaypointKind → WaypointKind → Bool
kind_beq normal normal = true
kind_beq death death = true
kind_beq normal death = false
kind_beq death normal = false

-- `RequestBody::matches`: all fields but the operation id.
unfoldable pub matches : RequestBody → RequestBody → Bool
matches (create_body a) (create_body b) =
    a.expected_revision ==ℤ b.expected_revision
    && str_beq a.name b.name
    && str_beq a.dimension_id b.dimension_id
    && Float.eq a.x b.x
    && Float.eq a.y b.y
    && Float.eq a.z b.z
    && a.color ==ℤ b.color
    && kind_beq a.kind b.kind
    && str_beq a.icon_item_id b.icon_item_id
    && str_beq a.marker_label b.marker_label
matches (update_body a) (update_body b) =
    id_beq a.id b.id
    && a.expected_revision ==ℤ b.expected_revision
    && str_beq a.name b.name
    && str_beq a.dimension_id b.dimension_id
    && Float.eq a.x b.x
    && Float.eq a.y b.y
    && Float.eq a.z b.z
    && a.color ==ℤ b.color
    && kind_beq a.kind b.kind
    && str_beq a.icon_item_id b.icon_item_id
    && str_beq a.marker_label b.marker_label
matches (delete_body a) (delete_body b) =
    id_beq a.id b.id && a.expected_revision ==ℤ b.expected_revision
matches _ _ = false

pub record CachedMutation : Type 0 where
  pub body : RequestBody
  pub result : MutationResult
  pub collision_audited : Bool

-- A bucket of its own in the source, with the fields and the code of the session's.
abbrev pub MutationBucket : Type 0
MutationBucket = TokenBucket

abbrev pub try_consume : MutationBucket → ℤ → Bool × MutationBucket
try_consume bucket now_ms = Session.try_consume bucket now_ms

pub record PlayerState : Type 0 where
  pub results : Map Uid CachedMutation
  pub order : List Uid
  pub bucket : MutationBucket

-- The pattern of 10.0.
abbrev pub mutation_burst : ℕ
mutation_burst = 0x4024_0000_0000_0000

-- `MutationBucket::new`
abbrev pub new_mutation_bucket : ℕ → ℕ → ℤ → MutationBucket
new_mutation_bucket capacity refill_per_minute now_ms =
    Session.new_bucket capacity (of_nat refill_per_minute) now_ms

-- `PlayerState::new`
unfoldable pub new_player : ℕ → ℤ → PlayerState
new_player mutations_per_minute now_ms = record {
  results = [];
  order = [];
  bucket = new_mutation_bucket mutation_burst mutations_per_minute now_ms;
}

abbrev pub idempotency_results_per_player : ℕ
idempotency_results_per_player = 128

abbrev pub drop_oldest : PlayerState → PlayerState
drop_oldest p = elim p.order [
  | [] ↦ p
  | oldest ∷ order ↦ record p { order = order; results = Maps.remove oldest p.results }
]

abbrev pub retain : Uid → RequestBody → MutationResult → PlayerState → PlayerState
retain operation_id body result p = record p {
  order = p.order ++ operation_id ∷ [];
  results =
      Maps.insert operation_id (record { body = body; result = result; collision_audited = false })
        p.results;
}

-- `PlayerState::remember`
unfoldable pub remember : Uid → RequestBody → MutationResult → PlayerState → PlayerState
remember operation_id body result p =
    retain operation_id body result
      (if leb idempotency_results_per_player (length p.order) then drop_oldest p else p)

pub record TrackedPlayers : Type 0 where
  pub order : List Uid
  pub states : Map Uid PlayerState

abbrev pub max_tracked_players : ℕ
max_tracked_players = 256

unfoldable pub is_in : Uid → List Uid → Bool
is_in key [] = false
is_in key (k ∷ ks) = if id_beq k key then true else is_in key ks

-- `order.remove(position)` of the first position that holds the key.
unfoldable pub take_out : Uid → List Uid → List Uid
take_out key [] = []
take_out key (k ∷ ks) = let rest = take_out key ks in if id_beq k key then ks else k ∷ rest

abbrev pub evict : TrackedPlayers → TrackedPlayers
evict t = elim t.order [
  | [] ↦ t
  | evicted ∷ order ↦ record { order = order; states = Maps.remove evicted t.states }
]

-- Room for the player at the end of the order.
unfoldable pub make_room : Uid → TrackedPlayers → TrackedPlayers
unfolding is_in take_out
make_room key t =
    if is_in key t.order
    then record t { order = take_out key t.order }
    else if leb max_tracked_players (length t.states)
    then evict t
    else t

abbrev pub or_state : PlayerState → Option PlayerState → PlayerState
or_state fresh none = fresh
or_state fresh (some p) = p

-- `TrackedPlayers::touch`: the player's state beside the players, which hold it too.
unfoldable pub touch : TrackedPlayers → Uid → ℤ → ℕ → PlayerState × TrackedPlayers
unfolding make_room new_player
touch t key now_ms mutations_per_minute =
    let fresh = new_player mutations_per_minute now_ms in
    let t' = make_room key t in
    (
      or_state fresh (Maps.lookup key t'.states),
      record { order = t'.order ++ key ∷ []; states = Maps.insert_new key fresh t'.states },
    )

-- What a write through `&mut PlayerState` leaves.
unfoldable pub put : Uid → PlayerState → TrackedPlayers → TrackedPlayers
put key player t = record t { states = Maps.insert key player t.states }

abbrev pub remember_in :
    Uid → Uid → RequestBody → MutationResult → TrackedPlayers → Option PlayerState → TrackedPlayers
remember_in key operation_id body result t none = t
remember_in key operation_id body result t (some p) =
    put key (remember operation_id body result p) t

-- The retention of `finish`, with `state_mut(key)`.
unfoldable pub remember_for : Uid → RequestBody → MutationResult → TrackedPlayers → TrackedPlayers
unfolding put remember
remember_for key body result t =
    if is_applied result.status
    then remember_in key result.operation_id body result t (Maps.lookup key t.states)
    else t

abbrev pub decide :
    PlayerState
    → RequestBody
    → ℤ
    → Uid
    → Option CachedMutation
    → Option MutationResult × PlayerState
decide p body revision operation_id none = (none, p)
decide p body revision operation_id (some cached) =
    if matches cached.body body then (some (record cached.result { replayed = true }), p) else (
      some (reject operation_id revision invalid_request),
      record p {
        results = Maps.insert operation_id (record cached { collision_audited = true }) p.results;
      },
    )

unfoldable pub replay_decision :
    PlayerState → RequestBody → ℤ → Uid → Option MutationResult × PlayerState
unfolding matches reject
replay_decision p body revision operation_id =
    decide p body revision operation_id (Maps.lookup operation_id p.results)
