-- ===== src/Waypoints/Service/Outcome.antt =====
-- A mutation is written and committed, or nothing moves.
use confluxmap_pumpkin.Base.{
  ◌≡◌, ◌⊎◌, refl, sym, Bool, true, false, not, Option, none, some, if◌then◌else◌, inl, inr,
  Bool-cases, arith,
}
use mathlib.Core.Path.{subst}
use confluxmap_pumpkin.Base.Int.{ℤ, suc_ℤ}
use confluxmap_pumpkin.Identity.{Uid}
use confluxmap_pumpkin.Waypoints.Proto.Messages.{
  CreateRequest, UpdateRequest, DeleteRequest, Result, ok, err,
}
use confluxmap_pumpkin.Waypoints.Persist.{save}
use confluxmap_pumpkin.Waypoints.Store.{Store, Snapshot, Prepared, StoreError, snapshot, commit}
use confluxmap_pumpkin.Waypoints.Store.Pending.{
  PreparedOn, a_create, a_delete, an_update, PreparedOn-Based, commit-PreparedOn,
}
use confluxmap_pumpkin.Waypoints.Service.Players.{
  TrackedPlayers, MutationError, MutationResult, RequestBody, create_body, delete_body, update_body,
  PlayerState, applied_status, rejected_status, applied, reject, replay_decision, decide,
  CachedMutation, matches, try_consume,
}
use confluxmap_pumpkin.Waypoints.Service.{
  Service, Host, Actor, finish, committed, persist, conclude, charge, unless_replayed, touched,
  with_players, create, delete, update, can_create, create_checks, delete_checks, update_checks,
}
use confluxmap_pumpkin.Waypoints.Service.Checks.{
  CreateChecked, DeleteChecked, UpdateChecked, was_true, create_checks-CreateChecked,
  delete_checks-DeleteChecked, update_checks-UpdateChecked,
}

-- Of a call on a catalog `s` and a file `d` that answers `r`: a mutation with the property `P` is
-- written and committed, or nothing moves.
pub data Outcome (P : Prepared → Type 0) (s : Store) (d : Snapshot) (r : MutationResult)
    (s' : Store) (d' : Snapshot) : Type 0 where
  moved :
      (p : Prepared)
      → P p
      → commit s p ≡ ok s'
      → d' ≡ snapshot s'
      → r.status ≡ applied_status
      → r.replayed ≡ false
      → r.delta ≡ p.delta
      → r.delta.revision ≡ suc_ℤ s.revision
      → Outcome P s d r s' d'
  unmoved :
      s' ≡ s → d' ≡ d → (r.status ≡ rejected_status) ⊎ (r.replayed ≡ true) → Outcome P s d r s' d'

abbrev pub Between : (Prepared → Type 0) → Service → MutationResult × Service → Type 0
Between P s (r, s') = Outcome P s.store s.disk r s'.store s'.disk

module _ {P : Prepared → Type 0} (s : Service) where
  refused-Between : (op : Uid) (rev : ℤ) (e : MutationError) → Between P s (reject op rev e, s)
  unfolding reject
  refused-Between op rev e = unmoved refl refl (inl refl)

  Between-if :
      (b : Bool) (x y : MutationResult × Service)
      → (b ≡ true → Between P s x)
      → (b ≡ false → Between P s y)
      → Between P s (if b then x else y)
  Between-if true x y h k = h refl
  Between-if false x y h k = k refl

  committed-Between :
      (op : Uid) (p : Prepared) (o : Result StoreError Store)
      → P p
      → PreparedOn s.store p
      → commit s.store p ≡ o
      → Between P s (committed s op p o)
  unfolding applied
  committed-Between op p (ok t) good h e =
      let (u, done, same, step) = commit-PreparedOn s.store p h in
      let b = PreparedOn-Based s.store p h in
      let there : t ≡ u = cc in moved p good e (rw there (sym same)) refl refl refl b.told
  committed-Between op p (err x) good h e =
      let (u, done, same, step) = commit-PreparedOn s.store p h in absurd cc

  module _ (host : Host) (known : (p : Prepared) → P p → PreparedOn s.store p) where
    persist-Between : (op : Uid) (p : Prepared) → P p → Between P s (persist s host op p)
    unfolding persist
    persist-Between op p good =
        Between-if (save p.snapshot host.writes) _ _
          (λ e. committed-Between op p (commit s.store p) good (known p good) refl)
          (λ e. refused-Between op s.store.revision MutationError.persistence_failed)

    conclude-Between :
        (key op : Uid) (body : RequestBody) (c : Result MutationError Prepared)
        → ((p : Prepared) → c ≡ ok p → P p)
        → Between P s (conclude s host key op body c)
    unfolding finish
    conclude-Between key op body (err e) h = refused-Between op s.store.revision e
    conclude-Between key op body (ok p) h = persist-Between op p (h p refl)

charge-Between :
    {P : Prepared → Type 0} (s : Service) (host : Host)
    → ((p : Prepared) → P p → PreparedOn s.store p)
    → (key op : Uid) (body : RequestBody) (player : PlayerState)
      (checks : Service → Result MutationError Prepared)
    → ((players : TrackedPlayers) (p : Prepared) → checks (with_players s players) ≡ ok p → P p)
    → Between P s (charge s host key op body player checks)
unfolding finish
charge-Between s host known key op body player checks h =
    Between-if s (try_consume player.bucket host.now).0 _ _
      (λ e. conclude-Between (with_players s _) host known key op body _ (h _))
      (λ e. refused-Between s op s.store.revision MutationError.rate_limited)

-- A retained result is replayed as such, and a reused id is refused.
replay_rejected :
    (player : PlayerState) (body : RequestBody) (rev : ℤ) (op : Uid) (o : Option CachedMutation)
    (r : MutationResult)
    → (decide player body rev op o).0 ≡ some r
    → (r.status ≡ rejected_status) ⊎ (r.replayed ≡ true)
unfolding reject
replay_rejected player body rev op none r e = cc
replay_rejected player body rev op (some cached) r e =
    elim (Bool-cases (matches cached.body body)) [
      | inl same ↦ inr (ground arith)
      | inr other ↦ inl (ground arith)
    ]

unless_replayed-Between :
    {P : Prepared → Type 0} (s : Service) (key : Uid) (o : Option MutationResult × PlayerState)
    (continue : Service → PlayerState → MutationResult × Service)
    → ((r : MutationResult) → o.0 ≡ some r → (r.status ≡ rejected_status) ⊎ (r.replayed ≡ true))
    → ((player : PlayerState) → Between P s (continue s player))
    → Between P s (unless_replayed s key o continue)
unless_replayed-Between s key (some r, player) continue h k = unmoved refl refl (h r refl)
unless_replayed-Between s key (none, player) continue h k = k player

module _ (s : Service) (host : Host) (actor : Actor) where
  -- The state and the decision with which a handler begins.
  abbrev pub start : Service
  start = with_players s (touched s host actor.id).1

  abbrev pub decision : RequestBody → Uid → Option MutationResult × PlayerState
  decision body op = replay_decision (touched s host actor.id).0 body s.store.revision op

  pub decided :
      (body : RequestBody) (op : Uid) (r : MutationResult)
      → (decision body op).0 ≡ some r
      → (r.status ≡ rejected_status) ⊎ (r.replayed ≡ true)
  unfolding replay_decision
  decided body op = replay_rejected (touched s host actor.id).0 body s.store.revision op _

  abbrev pub Created : CreateRequest → Prepared → Type 0
  Created q p = (can_create actor s.access ≡ true) × CreateChecked s.store s.limits actor q p

  pub create-Between : (q : CreateRequest) → Between (Created q) s (create s host actor q)
  unfolding create finish
  create-Between q =
      unless_replayed-Between start actor.id (decision (create_body q) q.operation_id) _
        (decided (create_body q) q.operation_id)
        λ player.
          Between-if start (not (can_create actor s.access)) _ _
            (λ e. refused-Between start q.operation_id s.store.revision MutationError.forbidden)
            λ e.
              charge-Between start host (λ p c. a_create c.1.point c.1.prepared) actor.id
                q.operation_id (create_body q) player (λ t. create_checks t host actor q)
                λ ps p c. (
                  was_true (can_create actor s.access) e,
                  create_checks-CreateChecked (with_players s ps) host actor q p c,
                )

  pub delete-Between :
      (q : DeleteRequest)
      → Between (DeleteChecked s.store s.access actor q) s (delete s host actor q)
  unfolding delete
  delete-Between q =
      unless_replayed-Between start actor.id (decision (delete_body q) q.operation_id) _
        (decided (delete_body q) q.operation_id)
        λ player.
          charge-Between start host (λ p c. a_delete q.id c.prepared) actor.id q.operation_id
            (delete_body q) player (λ t. delete_checks t actor q)
            λ ps p c. delete_checks-DeleteChecked (with_players s ps) actor q p c

  pub update-Between :
      (q : UpdateRequest)
      → Between (UpdateChecked s.store s.access actor q) s (update s host actor q)
  unfolding update
  update-Between q =
      unless_replayed-Between start actor.id (decision (update_body q) q.operation_id) _
        (decided (update_body q) q.operation_id)
        λ player.
          charge-Between start host (λ p c. an_update c.point c.prepared) actor.id q.operation_id
            (update_body q) player (λ t. update_checks t actor q)
            λ ps p c. update_checks-UpdateChecked (with_players s ps) actor q p c

-- One request, whoever sends it and whatever the host gives.
pub data Serves (s : Service) (r : MutationResult) (s' : Service) : Type 0 where
  created :
      (host : Host) (actor : Actor) (q : CreateRequest)
      → create s host actor q ≡ (r, s')
      → Serves s r s'
  deleted :
      (host : Host) (actor : Actor) (q : DeleteRequest)
      → delete s host actor q ≡ (r, s')
      → Serves s r s'
  updated :
      (host : Host) (actor : Actor) (q : UpdateRequest)
      → update s host actor q ≡ (r, s')
      → Serves s r s'

pub Outcome-map :
    {P Q : Prepared → Type 0} {s s' : Store} {d d' : Snapshot} {r : MutationResult}
    → ((p : Prepared) → P p → Q p)
    → Outcome P s d r s' d'
    → Outcome Q s d r s' d'
Outcome-map f (moved p h done wrote a b c d) = moved p (f p h) done wrote a b c d
Outcome-map f (unmoved same kept why) = unmoved same kept why

pub answered :
    {P : Prepared → Type 0} (s s' : Service) (r : MutationResult) (x : MutationResult × Service)
    → x ≡ (r, s')
    → Between P s x
    → Between P s (r, s')
answered {P} s s' r x e h = subst (λ y. Between P s y) e h

-- A create, an update or a delete, from any player at any time, either is applied: what was prepared
-- on the catalog is committed, the file holds what the catalog then holds, and the answer tells the
-- next revision; or it leaves the catalog and the file as they are, and its answer is a refusal or
-- the replay of a retained result.
pub Serves-Outcome :
    {s s' : Service} {r : MutationResult}
    → Serves s r s'
    → Outcome (PreparedOn s.store) s.store s.disk r s'.store s'.disk
Serves-Outcome {s} {s'} {r} (created host actor q e) =
    answered s s' r _ e
      (Outcome-map (λ p c. a_create c.1.point c.1.prepared) (create-Between s host actor q))
Serves-Outcome {s} {s'} {r} (deleted host actor q e) =
    answered s s' r _ e
      (Outcome-map (λ p c. a_delete q.id c.prepared) (delete-Between s host actor q))
Serves-Outcome {s} {s'} {r} (updated host actor q e) =
    answered s s' r _ e
      (Outcome-map (λ p c. an_update c.point c.prepared) (update-Between s host actor q))
