-- ===== src/Waypoints/Service/Retained.antt =====
-- What a handler answers for good is retained with its player.
use confluxmap_pumpkin.Base.{
  ℕ, ◌≡◌, ◌⊎◌, refl, sym, ap, ◌∙◌, Bool, true, false, not, Option, none, some, List, [], ◌∷◌, ◌++◌,
  arith, if◌then◌else◌, inl, inr,
}
use confluxmap_pumpkin.Base.Int.{ℤ}
use confluxmap_pumpkin.Base.Maps
use confluxmap_pumpkin.Base.Maps.{lookup-insert, beq_refl, contains_key-lookup}
use confluxmap_pumpkin.Identity.{Uid, id_eq}
use confluxmap_pumpkin.Waypoints.Proto.Messages.{
  CreateRequest, UpdateRequest, DeleteRequest, Result, ok, err,
}
use confluxmap_pumpkin.Waypoints.Persist.{save}
use confluxmap_pumpkin.Waypoints.Store.{Store, Prepared, StoreError, commit}
use confluxmap_pumpkin.Waypoints.Service.Players.{
  MutationError, MutationResult, RequestBody, create_body, update_body, delete_body, PlayerState,
  TrackedPlayers, touch, make_room, is_in, put, remember, remember_for, is_applied, applied, reject,
  applied_status, rejected_status, try_consume, forbidden, persistence_failed,
}
use confluxmap_pumpkin.Waypoints.Service.{
  Service, Host, Actor, finish, committed, persist, conclude, charge, unless_replayed, with_players,
  create, delete, update, can_create, create_checks, delete_checks, update_checks,
}
use confluxmap_pumpkin.Waypoints.Service.Rights.{IsFresh}
use confluxmap_pumpkin.Waypoints.Service.Outcome.{start, decision, decided}

-- The players retain `r` for the operation of `key` that has this body.
pub record Retained (ps : TrackedPlayers) (key op : Uid) (body : RequestBody) (r : MutationResult)
    : Type 0 where
  pub tracked : is_in key ps.order ≡ true
  pub player : PlayerState
  pub there : Maps.lookup key ps.states ≡ some player
  pub cached :
      Maps.lookup op player.results
      ≡ some (record { body = body; result = r; collision_audited = false })

-- A player who is tracked, with this state.
record Tracked (ps : TrackedPlayers) (key : Uid) : Type 0 where
  listed : is_in key ps.order ≡ true
  state : PlayerState
  held : Maps.lookup key ps.states ≡ some state

pub lookup-own {κ} :
    {V : Type κ} (k : Uid) (v : V) (m : Maps.Map Uid V) → Maps.lookup k (Maps.insert k v m) ≡ some v
lookup-own k v m = lookup-insert k k v m ∙ rw (beq_refl k)

pub is_in-append : (k : Uid) (ks : List Uid) → is_in k (ks ++ k ∷ []) ≡ true
unfolding is_in
is_in-append k [] = ground arith
is_in-append k (j ∷ ks) = ground (arith, is_in-append k ks)

remember-cached :
    (op : Uid) (body : RequestBody) (r : MutationResult) (p : PlayerState)
    → Maps.lookup op (remember op body r p).results
      ≡ some (record { body = body; result = r; collision_audited = false })
unfolding remember
remember-cached op body r p = lookup-own op _ _

put-Tracked :
    (ps : TrackedPlayers) (key : Uid) (p : PlayerState)
    → is_in key ps.order ≡ true
    → Tracked (put key p ps) key
unfolding put
put-Tracked ps key p h = record { listed = h; state = p; held = lookup-own key p ps.states }

remember_for-Retained :
    (ps : TrackedPlayers) (key : Uid) (body : RequestBody) (r : MutationResult)
    → Tracked ps key
    → r.status ≡ applied_status
    → Retained (remember_for key body r ps) key r.operation_id body r
unfolding remember_for put
remember_for-Retained ps key body r t h =
    rw (ap is_applied h, t.held)
      (record {
        tracked = t.listed;
        player = remember r.operation_id body r t.state;
        there = lookup-own key _ ps.states;
        cached = remember-cached r.operation_id body r t.state;
      })

pub operation_id-reject :
    (op : Uid) (rev : ℤ) (e : MutationError) → (reject op rev e).operation_id ≡ op
unfolding reject
operation_id-reject op rev e = refl

status-reject :
    (op : Uid) (rev : ℤ) (e : MutationError) → (reject op rev e).status ≡ rejected_status
unfolding reject
status-reject op rev e = refl

-- What a handler leaves if its answer is applied and fresh.
abbrev pub Kept : Uid → Uid → RequestBody → MutationResult × Service → Type 0
Kept key op body (r, s) = IsFresh r → Retained s.players key op body r

finish-Kept :
    (s : Service) (key op : Uid) (body : RequestBody) (r : MutationResult)
    → Tracked s.players key
    → r.operation_id ≡ op
    → Kept key op body (finish s key body r)
unfolding finish
finish-Kept s key op body r t e f = rw (← e) (remember_for-Retained s.players key body r t f.done)

-- What `persist` answers names the operation, and it leaves the players alone.
pub record Named (s : Service) (op : Uid) (x : MutationResult × Service) : Type 0 where
  pub named : x.0.operation_id ≡ op
  pub players : x.1.players ≡ s.players

pub persist-Named :
    (s : Service) (host : Host) (op : Uid) (p : Prepared) → Named s op (persist s host op p)
unfolding persist reject applied
persist-Named s host op p = choose (save p.snapshot host.writes) (commit s.store p)
  where
    choose :
        (b : Bool) (o : Result StoreError Store)
        → Named s op
            (if b then committed s op p o else (reject op s.store.revision persistence_failed, s))
    choose true (ok t) = record { named = refl; players = refl }
    choose true (err e) = record { named = refl; players = refl }
    choose false o = record { named = refl; players = refl }

conclude-Kept :
    (s : Service) (host : Host) (key op : Uid) (body : RequestBody)
    (c : Result MutationError Prepared)
    → Tracked s.players key
    → Kept key op body (conclude s host key op body c)
conclude-Kept s host key op body (err e) t =
    finish-Kept s key op body _ t (operation_id-reject op _ _)
conclude-Kept s host key op body (ok p) t =
    let n = persist-Named s host op p in
    finish-Kept (persist s host op p).1 key op body (persist s host op p).0 (rw n.players t) n.named

Kept-if :
    (key op : Uid) (body : RequestBody) (b : Bool) (x y : MutationResult × Service)
    → Kept key op body x
    → Kept key op body y
    → Kept key op body (if b then x else y)
Kept-if key op body true x y h k = h
Kept-if key op body false x y h k = k

charge-Kept :
    (s : Service) (host : Host) (key op : Uid) (body : RequestBody) (player : PlayerState)
    (checks : Service → Result MutationError Prepared)
    → is_in key s.players.order ≡ true
    → Kept key op body (charge s host key op body player checks)
charge-Kept s host key op body player checks h =
    let paid = try_consume player.bucket host.now in
    let ps = put key (record player { bucket = paid.1 }) s.players in
    let t = put-Tracked s.players key (record player { bucket = paid.1 }) h in
    Kept-if key op body paid.0 _ _
      (conclude-Kept (with_players s ps) host key op body (checks (with_players s ps)) t)
      (finish-Kept (with_players s ps) key op body _ t (operation_id-reject op _ _))

-- `touch` lists the player.
pub touch-listed :
    (ps : TrackedPlayers) (key : Uid) (now : ℤ) (rate : ℕ)
    → is_in key (touch ps key now rate).1.order ≡ true
unfolding touch
touch-listed ps key now rate = is_in-append key (make_room key ps).order

rejected_fresh {ℓ} : {A : Type ℓ} (r : MutationResult) → r.status ≡ rejected_status → IsFresh r → A
rejected_fresh r h f = let clash : rejected_status ≡ applied_status = sym h ∙ f.done in cc

replayed_fresh {ℓ} : {A : Type ℓ} (r : MutationResult) → r.replayed ≡ true → IsFresh r → A
replayed_fresh r h f = let clash : true ≡ false = sym h ∙ f.fresh in cc

unless_replayed-Kept :
    (s : Service) (key op : Uid) (body : RequestBody) (o : Option MutationResult × PlayerState)
    (continue : Service → PlayerState → MutationResult × Service)
    → ((r : MutationResult) → o.0 ≡ some r → (r.status ≡ rejected_status) ⊎ (r.replayed ≡ true))
    → ((player : PlayerState) → Kept key op body (continue s player))
    → Kept key op body (unless_replayed s key o continue)
unless_replayed-Kept s key op body (some r, player) continue h k = λ f. elim (h r refl) [
  | inl refused ↦ rejected_fresh r refused f
  | inr replayed ↦ replayed_fresh r replayed f
]
unless_replayed-Kept s key op body (none, player) continue h k = k player

module _ (s : Service) (host : Host) (actor : Actor) where
  pub create-Kept :
      (q : CreateRequest) → Kept actor.id q.operation_id (create_body q) (create s host actor q)
  unfolding create finish
  create-Kept q =
      unless_replayed-Kept (start s host actor) actor.id q.operation_id (create_body q)
        (decision s host actor (create_body q) q.operation_id) _
        (decided s host actor (create_body q) q.operation_id)
        λ player.
          Kept-if actor.id q.operation_id (create_body q) (not (can_create actor s.access)) _ _
            (λ f.
              rejected_fresh (reject q.operation_id s.store.revision forbidden)
                (status-reject q.operation_id s.store.revision forbidden) f)
            (charge-Kept (start s host actor) host actor.id q.operation_id (create_body q) player
              (λ t. create_checks t host actor q)
              (touch-listed s.players actor.id host.now s.limits.mutations_per_minute))

  pub delete-Kept :
      (q : DeleteRequest) → Kept actor.id q.operation_id (delete_body q) (delete s host actor q)
  unfolding delete
  delete-Kept q =
      unless_replayed-Kept (start s host actor) actor.id q.operation_id (delete_body q)
        (decision s host actor (delete_body q) q.operation_id) _
        (decided s host actor (delete_body q) q.operation_id)
        λ player.
          charge-Kept (start s host actor) host actor.id q.operation_id (delete_body q) player
            (λ t. delete_checks t actor q)
            (touch-listed s.players actor.id host.now s.limits.mutations_per_minute)

  pub update-Kept :
      (q : UpdateRequest) → Kept actor.id q.operation_id (update_body q) (update s host actor q)
  unfolding update
  update-Kept q =
      unless_replayed-Kept (start s host actor) actor.id q.operation_id (update_body q)
        (decision s host actor (update_body q) q.operation_id) _
        (decided s host actor (update_body q) q.operation_id)
        λ player.
          charge-Kept (start s host actor) host actor.id q.operation_id (update_body q) player
            (λ t. update_checks t actor q)
            (touch-listed s.players actor.id host.now s.limits.mutations_per_minute)
