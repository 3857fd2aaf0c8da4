-- ===== src/Waypoints/Service/Rights.antt =====
-- Who may change what, and the ceilings: what an applied mutation says of the request.
use confluxmap_pumpkin.Base.{
  ◌+◌, ◌≤◌, ◌≡◌, sym, ap, ◌∙◌, true, false, some, List, [], ◌∷◌, ◌++◌, arith, length, length-append,
  inl, inr,
}
use confluxmap_pumpkin.Identity.{Uid}
use confluxmap_pumpkin.Waypoints.Proto.Messages.{
  Waypoint, CreateRequest, UpdateRequest, DeleteRequest, ok,
}
use confluxmap_pumpkin.Waypoints.Store.{
  Store, Snapshot, Prepared, snapshot, find, len, published_by, count_published_by, prepare_create,
  next_revision, commit,
}
use confluxmap_pumpkin.Waypoints.Store.Pending.{PreparedOn, a_create, commit-PreparedOn}
use confluxmap_pumpkin.Waypoints.Service.Players.{MutationResult, applied_status, rejected_status}
use confluxmap_pumpkin.Waypoints.Service.{
  Service, Host, Actor, can_create, can_manage, create, delete, update,
}
use confluxmap_pumpkin.Waypoints.Service.Outcome.{
  Outcome, moved, unmoved, answered, create-Between, delete-Between, update-Between,
}

-- An answer that is applied and fresh.
pub record IsFresh (r : MutationResult) : Type 0 where
  pub done : r.status ≡ applied_status
  pub fresh : r.replayed ≡ false

pub fresh_moved :
    {P : Prepared → Type 0} {s s' : Store} {d d' : Snapshot} {r : MutationResult}
    → Outcome P s d r s' d'
    → IsFresh r
    → (p : Prepared) × P p × (commit s p ≡ ok s')
fresh_moved (moved p h done _ _ _ _ _) f = (p, h, done)
fresh_moved (unmoved _ _ (inl refused)) f = absurd (rejected_ne (sym refused ∙ f.done))
  where
    rejected_ne : rejected_status ≡ applied_status → ⊥
    rejected_ne e = cc
fresh_moved (unmoved _ _ (inr replayed)) f = absurd (true_ne (sym replayed ∙ f.fresh))
  where
    true_ne : true ≡ false → ⊥
    true_ne e = cc

published_by-append :
    (k : Uid) (xs : List Waypoint) (w : Waypoint)
    → published_by k (xs ++ w ∷ []) ≤ published_by k xs + 1
unfolding published_by
published_by-append k [] w = ground arith
published_by-append k (x ∷ xs) w = ground (arith, published_by-append k xs w)

pub waypoints-prepare_create :
    (s : Store) (w : Waypoint) (p : Prepared)
    → prepare_create s w ≡ ok p
    → p.snapshot.waypoints ≡ s.waypoints ++ w ∷ []
unfolding prepare_create next_revision
waypoints-prepare_create s w p e = ground arith

pub waypoints-commit :
    (s t : Store) (p : Prepared)
    → PreparedOn s p
    → commit s p ≡ ok t
    → t.waypoints ≡ p.snapshot.waypoints
unfolding snapshot
waypoints-commit s t p h done =
    let (u, did, same, _) = commit-PreparedOn s p h in
    let there : t ≡ u = cc in rw there (ap (λ (k : Snapshot). k.waypoints) same)

added :
    (s t : Store) (w : Waypoint) (p : Prepared)
    → prepare_create s w ≡ ok p
    → commit s p ≡ ok t
    → t.waypoints ≡ s.waypoints ++ w ∷ []
added s t w p e done = waypoints-commit s t p (a_create w e) done ∙ waypoints-prepare_create s w p e

len-added : (s t : Store) (w : Waypoint) → t.waypoints ≡ s.waypoints ++ w ∷ [] → len t ≡ len s + 1
unfolding len
len-added s t w e = omega (arith, ap length e, length-append s.waypoints (w ∷ []))

count-added :
    (s t : Store) (w : Waypoint) (k : Uid)
    → t.waypoints ≡ s.waypoints ++ w ∷ []
    → count_published_by t k ≤ count_published_by s k + 1
unfolding count_published_by
count-added s t w k e = rw e (published_by-append k s.waypoints w)

module _ (s s' : Service) (host : Host) (actor : Actor) (r : MutationResult) where
  -- An applied and fresh create was allowed to its actor and named the catalog's revision, and the
  -- catalog and the actor's own points are within their ceilings after it.
  pub create-limits :
      (q : CreateRequest)
      → create s host actor q ≡ (r, s')
      → IsFresh r
      → (can_create actor s.access ≡ true)
        × (q.expected_revision ≡ s.store.revision)
        × (len s'.store ≤ s.limits.max_per_world)
        × (count_published_by s'.store actor.id ≤ s.limits.max_per_player)
  create-limits q e f =
      let (p, (can, c), done) =
        fresh_moved (answered s s' r _ e (create-Between s host actor q)) f in
      let grown = added s.store s'.store c.point p c.prepared done in
      (
        can,
        c.expected,
        omega (arith, c.world, len-added s.store s'.store c.point grown),
        omega (arith, c.own, count-added s.store s'.store c.point actor.id grown),
      )

  -- An applied and fresh delete named a point that was there, by its revision, and that its actor
  -- may manage.
  pub delete-can_manage :
      (q : DeleteRequest)
      → delete s host actor q ≡ (r, s')
      → IsFresh r
      → (w : Waypoint) × (find s.store q.id ≡ some w)
        × (can_manage actor w s.access ≡ true)
        × (q.expected_revision ≡ w.revision)
  delete-can_manage q e f =
      let (p, c, done) = fresh_moved (answered s s' r _ e (delete-Between s host actor q)) f in
      (c.current, c.known, c.allowed, c.expected)

  -- An applied and fresh update named a point that was there, by its revision, and that its actor
  -- may manage.
  pub update-can_manage :
      (q : UpdateRequest)
      → update s host actor q ≡ (r, s')
      → IsFresh r
      → (w : Waypoint) × (find s.store q.id ≡ some w)
        × (can_manage actor w s.access ≡ true)
        × (q.expected_revision ≡ w.revision)
  update-can_manage q e f =
      let (p, c, done) = fresh_moved (answered s s' r _ e (update-Between s host actor q)) f in
      (c.current, c.known, c.allowed, c.expected)
