-- ===== src/Waypoints/Service/Replay.antt =====
-- A retried request is answered with the retained result and changes nothing.
use confluxmap_pumpkin.Base.{ℕ, ◌≡◌, refl, true, Option, none, some, arith}
use confluxmap_pumpkin.Base.Int.{ℤ, ==ℤ_refl}
use confluxmap_pumpkin.Base.Maps
use confluxmap_pumpkin.Base.Maps.{lookup-insert, beq_refl, contains_key-lookup}
use confluxmap_pumpkin.Identity.{Uid, id_eq, id_beq_iff}
use confluxmap_pumpkin.Float
use confluxmap_pumpkin.Waypoints.Proto.Messages.{
  CreateRequest, UpdateRequest, DeleteRequest, WaypointKind, normal, death,
}
use confluxmap_pumpkin.Waypoints.Model.{str_beq_iff}
use confluxmap_pumpkin.Waypoints.Model.Valid.{validate_finite}
use confluxmap_pumpkin.Waypoints.Service.Players.{
  MutationResult, RequestBody, create_body, update_body, delete_body, PlayerState, TrackedPlayers,
  touch, make_room, is_in, matches, kind_beq, replay_decision,
}
use confluxmap_pumpkin.Waypoints.Service.{
  Service, Host, Actor, unless_replayed, with_players, create, delete, update, create_draft,
  update_draft,
}
use confluxmap_pumpkin.Waypoints.Service.Rights.{IsFresh, fresh_moved}
use confluxmap_pumpkin.Waypoints.Service.Outcome.{answered, create-Between, update-Between}
use mathlib.Core.Path.{subst}
use confluxmap_pumpkin.Waypoints.Service.Retained.{
  Retained, Kept, create-Kept, delete-Kept, update-Kept,
}

-- A tracked player is found again with what is retained.
touched_again :
    (ps : TrackedPlayers) (key : Uid) (now : ℤ) (rate : ℕ) (p : PlayerState)
    → is_in key ps.order ≡ true
    → Maps.lookup key ps.states ≡ some p
    → (touch ps key now rate).0 ≡ p
unfolding touch make_room
touched_again ps key now rate p h e = rw (h, e)

replay_Retained :
    (ps : TrackedPlayers) (key op : Uid) (body : RequestBody) (r : MutationResult) (now : ℤ)
    (rate : ℕ) (rev : ℤ)
    → Retained ps key op body r
    → matches body body ≡ true
    → (replay_decision (touch ps key now rate).0 body rev op).0
      ≡ some (record r { replayed = true })
unfolding replay_decision
replay_Retained ps key op body r now rate rev k same =
    rw (touched_again ps key now rate k.player k.tracked k.there, k.cached, same)

-- An answer that is the replay of `r`, by a service that keeps its catalog and its file.
pub record Replays (s : Service) (r : MutationResult) (x : MutationResult × Service) : Type 0 where
  pub answer : x.0 ≡ record r { replayed = true }
  pub store : x.1.store ≡ s.store
  pub disk : x.1.disk ≡ s.disk

unless_replayed-Replays :
    (s : Service) (key : Uid) (o : Option MutationResult × PlayerState)
    (continue : Service → PlayerState → MutationResult × Service) (r : MutationResult)
    → o.0 ≡ some (record r { replayed = true })
    → Replays s r (unless_replayed s key o continue)
unless_replayed-Replays s key (none, player) continue r e = cc
unless_replayed-Replays s key (some x, player) continue r e =
    let same : x ≡ record r { replayed = true } = cc in
    record { answer = same; store = refl; disk = refl }

kind_refl : (k : WaypointKind) → kind_beq k k ≡ true
kind_refl normal = refl
kind_refl death = refl

same_number : (x : ℕ) → Float.is_finite x ≡ true → Float.eq x x ≡ true
unfolding Float.is_finite Float.eq
same_number x h = ground arith

matches-delete : (q : DeleteRequest) → matches (delete_body q) (delete_body q) ≡ true
unfolding matches
matches-delete q = rw ((id_beq_iff q.id q.id).1 refl, ==ℤ_refl q.expected_revision)

matches-create :
    (q : CreateRequest)
    → Float.is_finite q.x ≡ true
    → Float.is_finite q.y ≡ true
    → Float.is_finite q.z ≡ true
    → matches (create_body q) (create_body q) ≡ true
unfolding matches
matches-create q x y z = rw (
  ==ℤ_refl q.expected_revision,
  (str_beq_iff q.name q.name).1 refl,
  (str_beq_iff q.dimension_id q.dimension_id).1 refl,
  same_number q.x x,
  same_number q.y y,
  same_number q.z z,
  ==ℤ_refl q.color,
  kind_refl q.kind,
  (str_beq_iff q.icon_item_id q.icon_item_id).1 refl,
  (str_beq_iff q.marker_label q.marker_label).1 refl,
)

matches-update :
    (q : UpdateRequest)
    → Float.is_finite q.x ≡ true
    → Float.is_finite q.y ≡ true
    → Float.is_finite q.z ≡ true
    → matches (update_body q) (update_body q) ≡ true
unfolding matches
matches-update q x y z = rw (
  (id_beq_iff q.id q.id).1 refl,
  ==ℤ_refl q.expected_revision,
  (str_beq_iff q.name q.name).1 refl,
  (str_beq_iff q.dimension_id q.dimension_id).1 refl,
  same_number q.x x,
  same_number q.y y,
  same_number q.z z,
  ==ℤ_refl q.color,
  kind_refl q.kind,
  (str_beq_iff q.icon_item_id q.icon_item_id).1 refl,
  (str_beq_iff q.marker_label q.marker_label).1 refl,
)

retry :
    (s : Service) (host : Host) (key op : Uid) (body : RequestBody) (r : MutationResult)
    (continue : Service → PlayerState → MutationResult × Service)
    → Retained s.players key op body r
    → matches body body ≡ true
    → Replays s r (
        unless_replayed
          (with_players s (touch s.players key host.now s.limits.mutations_per_minute).1)
          key
          (replay_decision
            (touch s.players key host.now s.limits.mutations_per_minute).0
            body
            s.store.revision
            op)
          continue)
retry s host key op body r continue k same =
    let again =
      unless_replayed-Replays
        (with_players s (touch s.players key host.now s.limits.mutations_per_minute).1) key _
        continue r
        (replay_Retained s.players key op body r host.now s.limits.mutations_per_minute
          s.store.revision k same) in
    record { answer = again.answer; store = again.store; disk = again.disk }

module _ (s s' : Service) (host later : Host) (actor : Actor) (r : MutationResult) where
  -- If a create is applied and fresh, then the same create, sent again whatever the host gives then,
  -- is answered with the same result, marked as replayed, and moves neither the catalog nor the file.
  pub create-replay :
      (q : CreateRequest)
      → create s host actor q ≡ (r, s')
      → IsFresh r
      → Replays s' r (create s' later actor q)
  unfolding create
  create-replay q e f =
      let kept =
        subst (λ y. Kept actor.id q.operation_id (create_body q) y) e (create-Kept s host actor q)
          f in
      let (p, (_, c), _) = fresh_moved (answered s s' r _ e (create-Between s host actor q)) f in
      let (x, y, z) = validate_finite (create_draft q) c.v c.validated in
      retry s' later actor.id q.operation_id (create_body q) r _ kept (matches-create q x y z)

  -- If an update is applied and fresh, then the same update, sent again whatever the host gives then,
  -- is answered with the same result, marked as replayed, and moves neither the catalog nor the file.
  pub update-replay :
      (q : UpdateRequest)
      → update s host actor q ≡ (r, s')
      → IsFresh r
      → Replays s' r (update s' later actor q)
  unfolding update
  update-replay q e f =
      let kept =
        subst (λ y. Kept actor.id q.operation_id (update_body q) y) e (update-Kept s host actor q)
          f in
      let (p, c, _) = fresh_moved (answered s s' r _ e (update-Between s host actor q)) f in
      let (x, y, z) = validate_finite (update_draft q) c.v c.validated in
      retry s' later actor.id q.operation_id (update_body q) r _ kept (matches-update q x y z)

  -- If a delete is applied and fresh, then the same delete, sent again whatever the host gives then,
  -- is answered with the same result, marked as replayed, and moves neither the catalog nor the file.
  pub delete-replay :
      (q : DeleteRequest)
      → delete s host actor q ≡ (r, s')
      → IsFresh r
      → Replays s' r (delete s' later actor q)
  unfolding delete
  delete-replay q e f =
      let kept =
        subst (λ y. Kept actor.id q.operation_id (delete_body q) y) e (delete-Kept s host actor q)
          f in
      retry s' later actor.id q.operation_id (delete_body q) r _ kept (matches-delete q)
