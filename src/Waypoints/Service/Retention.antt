-- ===== src/Waypoints/Service/Retention.antt =====
-- Every request keeps the retained state within its bounds.
use confluxmap_pumpkin.Base.{
  ◌≡◌, refl, Bool, true, false, not, Option, none, some, arith, if◌then◌else◌, Bool-cases, inl, inr,
}
use mathlib.Core.Path.{subst}
use confluxmap_pumpkin.Base.Int.{ℤ}
use confluxmap_pumpkin.Base.Maps
use confluxmap_pumpkin.Identity.{Uid, id_eq}
use confluxmap_pumpkin.Waypoints.Proto.Messages.{
  CreateRequest, UpdateRequest, DeleteRequest, Result, ok, err,
}
use confluxmap_pumpkin.Waypoints.Store.{Prepared}
use confluxmap_pumpkin.Waypoints.Service.Players.{
  MutationError, MutationResult, RequestBody, create_body, update_body, delete_body, CachedMutation,
  PlayerState, TrackedPlayers, touch, put, replay_decision, decide, matches, reject, try_consume,
  remember_for,
}
use confluxmap_pumpkin.Waypoints.Service.{
  Service, Host, Actor, finish, persist, conclude, charge, unless_replayed, with_players, create,
  delete, update, can_create, create_checks, delete_checks, update_checks,
}
use confluxmap_pumpkin.Waypoints.Service.Outcome.{
  start, decision, Serves, created, updated, deleted,
}
use confluxmap_pumpkin.Waypoints.Service.Retained.{lookup-own, operation_id-reject, persist-Named}
use confluxmap_pumpkin.Waypoints.Service.Queues.{write}
use confluxmap_pumpkin.Waypoints.Service.Bounds.{
  IsPlayer, IsBounded, Touched, touch-Touched, put-IsBounded, remember_for-IsBounded, known,
}

abbrev Bounded : MutationResult × Service → Type 0
Bounded (r, s) = IsBounded s.players

-- The players hold a state for `key` in which nothing is retained for `op`.
record HasNew (ps : TrackedPlayers) (key op : Uid) : Type 0 where
  bounded : IsBounded ps
  player : PlayerState
  held : Maps.lookup key ps.states ≡ some player
  new : Maps.lookup op player.results ≡ none

finish-Bounded :
    (s : Service) (key op : Uid) (body : RequestBody) (r : MutationResult)
    → HasNew s.players key op
    → r.operation_id ≡ op
    → Bounded (finish s key body r)
unfolding finish
finish-Bounded s key op body r h e =
    remember_for-IsBounded key body r s.players h.player h.bounded h.held (rw e h.new)

conclude-Bounded :
    (s : Service) (host : Host) (key op : Uid) (body : RequestBody)
    (c : Result MutationError Prepared)
    → HasNew s.players key op
    → Bounded (conclude s host key op body c)
conclude-Bounded s host key op body (err e) h =
    finish-Bounded s key op body _ h (operation_id-reject op _ _)
conclude-Bounded s host key op body (ok p) h =
    let n = persist-Named s host op p in
    finish-Bounded (persist s host op p).1 key op body (persist s host op p).0 (rw n.players h)
      n.named

Bounded-if :
    (b : Bool) (x y : MutationResult × Service)
    → Bounded x
    → Bounded y
    → Bounded (if b then x else y)
Bounded-if true x y h k = h
Bounded-if false x y h k = k

charge-Bounded :
    (s : Service) (host : Host) (key op : Uid) (body : RequestBody) (player : PlayerState)
    (checks : Service → Result MutationError Prepared)
    → IsBounded s.players
    → Maps.contains_key key s.players.states ≡ true
    → IsPlayer player
    → Maps.lookup op player.results ≡ none
    → Bounded (charge s host key op body player checks)
unfolding put
charge-Bounded s host key op body player checks h there good new =
    let bucket = (try_consume player.bucket host.now).1 in
    let ps = put key (record player { bucket = bucket }) s.players in
    let n : HasNew ps key op = record {
      bounded =
          put-IsBounded key (record player { bucket = bucket }) s.players h there
            (record { paired = good.paired; small = good.small });
      player = record player { bucket = bucket };
      held = lookup-own key _ s.players.states;
      new = new;
    } in
    Bounded-if (try_consume player.bucket host.now).0 _ _
      (conclude-Bounded (with_players s ps) host key op body (checks (with_players s ps)) n)
      (finish-Bounded (with_players s ps) key op body _ n (operation_id-reject op _ _))

-- What `replay_decision` leaves of the player's state.
record Decided (op : Uid) (x : Option MutationResult × PlayerState) : Type 0 where
  player : IsPlayer x.1
  new : x.0 ≡ none → Maps.lookup op x.1.results ≡ none

decide-Decided :
    (p : PlayerState) (body : RequestBody) (rev : ℤ) (op : Uid) (o : Option CachedMutation)
    → Maps.lookup op p.results ≡ o
    → IsPlayer p
    → Decided op (decide p body rev op o)
decide-Decided p body rev op none e h = record { player = h; new = λ _. e }
decide-Decided p body rev op (some cached) e h = elim (Bool-cases (matches cached.body body)) [
  | inl same ↦ rw same (record { player = h; new = λ q. cc })
  | inr other ↦
      let (paired, length_kept) =
        write op (record cached { collision_audited = true }) p.order p.results h.paired
          (known op p.results cached e) in
      rw other (record {
        player = record { paired = paired; small = omega (arith, length_kept, h.small) };
        new = λ q. cc;
      })
]

unless_replayed-Bounded :
    (s : Service) (key op : Uid) (x : Option MutationResult × PlayerState)
    (continue : Service → PlayerState → MutationResult × Service)
    → IsBounded s.players
    → Maps.contains_key key s.players.states ≡ true
    → Decided op x
    → ((player : PlayerState)
        → IsPlayer player
        → Maps.lookup op player.results ≡ none
        → Bounded (continue s player))
    → Bounded (unless_replayed s key x continue)
unless_replayed-Bounded s key op (some r, player) continue h there d k =
    put-IsBounded key player s.players h there d.player
unless_replayed-Bounded s key op (none, player) continue h there d k =
    k player d.player (d.new refl)

module _ (s : Service) (host : Host) (actor : Actor) (h : IsBounded s.players) where
  met : Touched actor.id (touch s.players actor.id host.now s.limits.mutations_per_minute)
  met = touch-Touched actor.id s.players host.now s.limits.mutations_per_minute h

  there : Maps.contains_key actor.id (start s host actor).players.states ≡ true
  there = known actor.id _ _ met.held

  decision-Decided : (body : RequestBody) (op : Uid) → Decided op (decision s host actor body op)
  unfolding replay_decision
  decision-Decided body op = decide-Decided _ body s.store.revision op _ refl met.player

  create-Bounded : (q : CreateRequest) → Bounded (create s host actor q)
  unfolding create finish remember_for reject
  create-Bounded q =
      unless_replayed-Bounded (start s host actor) actor.id q.operation_id
        (decision s host actor (create_body q) q.operation_id) _ met.bounded there
        (decision-Decided (create_body q) q.operation_id)
        λ player good new. Bounded-if (not (can_create actor s.access)) _ _ met.bounded (
          charge-Bounded (start s host actor) host actor.id q.operation_id (create_body q) player
            (λ t. create_checks t host actor q) met.bounded there good new)

  delete-Bounded : (q : DeleteRequest) → Bounded (delete s host actor q)
  unfolding delete
  delete-Bounded q =
      unless_replayed-Bounded (start s host actor) actor.id q.operation_id
        (decision s host actor (delete_body q) q.operation_id) _ met.bounded there
        (decision-Decided (delete_body q) q.operation_id)
        λ player good new.
          charge-Bounded (start s host actor) host actor.id q.operation_id (delete_body q) player
            (λ t. delete_checks t actor q) met.bounded there good new

  update-Bounded : (q : UpdateRequest) → Bounded (update s host actor q)
  unfolding update
  update-Bounded q =
      unless_replayed-Bounded (start s host actor) actor.id q.operation_id
        (decision s host actor (update_body q) q.operation_id) _ met.bounded there
        (decision-Decided (update_body q) q.operation_id)
        λ player good new.
          charge-Bounded (start s host actor) host actor.id q.operation_id (update_body q) player
            (λ t. update_checks t actor q) met.bounded there good new

-- Whatever requests come: where at most 256 players are tracked, with at most 128 results each, and
-- each queue lists the keys of its map once, this is so after any create, update or delete.
pub Serves-IsBounded :
    {s s' : Service} {r : MutationResult}
    → Serves s r s'
    → IsBounded s.players
    → IsBounded s'.players
Serves-IsBounded (created host actor q e) h = subst Bounded e (create-Bounded _ host actor h q)
Serves-IsBounded (deleted host actor q e) h = subst Bounded e (delete-Bounded _ host actor h q)
Serves-IsBounded (updated host actor q e) h = subst Bounded e (update-Bounded _ host actor h q)
