-- ===== src/Waypoints/Service/Lasting.antt =====
-- What the service stores passes the validation of a later start.
use confluxmap_pumpkin.Base.{
  ℕ, zero, suc, ◌≡◌, refl, true, some, List, [], ◌∷◌, arith, get_elem?, set, remove_at, All,
  All-append, Option-cases, inl, inr,
}
use mathlib.Core.Path.{subst}
use confluxmap_pumpkin.Base.Maps
use confluxmap_pumpkin.Identity.{Uid, id_eq}
use confluxmap_pumpkin.Waypoints.Proto.Messages.{Waypoint, UpdateRequest, ok}
use confluxmap_pumpkin.Waypoints.Store.{
  Store, Snapshot, Prepared, snapshot, find, prepare_delete, prepare_update, next_revision,
}
use confluxmap_pumpkin.Waypoints.Store.Mutations.{All-remove_at, All-set}
use confluxmap_pumpkin.Waypoints.Store.Pending.{PreparedOn, a_create, a_delete, an_update}
use confluxmap_pumpkin.Waypoints.Service.Players.{MutationResult}
use confluxmap_pumpkin.Waypoints.Service.{
  Service, AccessPolicy, Actor, valid_for_active_world, kept, sanitize_loaded,
}
use confluxmap_pumpkin.Waypoints.Service.Checks.{UpdateChecked}
use confluxmap_pumpkin.Waypoints.Service.Outcome.{
  Outcome, moved, unmoved, Outcome-map, answered, Serves, created, deleted, updated, create-Between,
  delete-Between, update-Between,
}
use confluxmap_pumpkin.Waypoints.Service.Durable.{
  IsDurable, Serving, idle, served, Serving-IsDurable,
}
use confluxmap_pumpkin.Waypoints.Service.Rights.{waypoints-commit, waypoints-prepare_create}

abbrev pub Lasts : Waypoint → Type 0
Lasts w = valid_for_active_world w ≡ true

All-get_elem? :
    (ws : List Waypoint) (i : ℕ) (w : Waypoint) → All Lasts ws → get_elem? ws i ≡ some w → Lasts w
All-get_elem? [] i w h e = cc
All-get_elem? (v ∷ ws) zero w (h, _) e =
    let same : some v ≡ some w = e in subst Lasts (some_injective v w same) h
  where
    some_injective : (a b : Waypoint) → some a ≡ some b → a ≡ b
    some_injective a b q = cc
All-get_elem? (v ∷ ws) (suc i) w (_, h) e = All-get_elem? ws i w h e

found-Lasts :
    (s : Store) (id : Uid) (w : Waypoint) → All Lasts s.waypoints → find s id ≡ some w → Lasts w
unfolding find
found-Lasts s id w h e = elim (Option-cases (Maps.lookup id s.index)) [
  | inl q ↦ absurd (ground arith)
  | inr (i, q) ↦ All-get_elem? s.waypoints i w h (rw q at e)
]

waypoints-prepare_delete :
    (s : Store) (id : Uid) (p : Prepared)
    → prepare_delete s id ≡ ok p
    → (i : ℕ) × (p.snapshot.waypoints ≡ remove_at s.waypoints i)
unfolding prepare_delete next_revision
waypoints-prepare_delete s id p e = elim (Option-cases (Maps.lookup id s.index)) [
  | inl q ↦ absurd (ground arith)
  | inr (i, q) ↦ (i, ground arith)
]

waypoints-prepare_update :
    (s : Store) (w : Waypoint) (p : Prepared)
    → prepare_update s w ≡ ok p
    → (i : ℕ) × (p.snapshot.waypoints ≡ set s.waypoints i w)
unfolding prepare_update next_revision
waypoints-prepare_update s w p e = elim (Option-cases (Maps.lookup w.id s.index)) [
  | inl q ↦ absurd (ground arith)
  | inr (i, q) ↦ (i, ground arith)
]

-- A mutation that only brings lasting points.
pub record Brings (s : Store) (p : Prepared) : Type 0 where
  pub on : PreparedOn s p
  pub lasts : All Lasts s.waypoints → All Lasts p.snapshot.waypoints

update-Brings :
    (s : Store) (access : AccessPolicy) (actor : Actor) (q : UpdateRequest) (p : Prepared)
    → UpdateChecked s access actor q p
    → Brings s p
update-Brings s access actor q p c = record {
  on = an_update c.point c.prepared;
  lasts = λ h.
      let (i, shape) = waypoints-prepare_update s c.point p c.prepared in
      let before = found-Lasts s q.id c.current h c.known in
      rw shape (All-set Lasts s.waypoints i c.point h (c.lasting before));
}

pub Serves-Brings :
    {s s' : Service} {r : MutationResult}
    → Serves s r s'
    → Outcome (Brings s.store) s.store s.disk r s'.store s'.disk
Serves-Brings {s} {s'} {r} (created host actor q e) = answered s s' r _ e (
    Outcome-map
      (λ p c. record {
        on = a_create c.1.point c.1.prepared;
        lasts = λ h.
            rw (waypoints-prepare_create s.store c.1.point p c.1.prepared)
              (All-append Lasts s.store.waypoints (c.1.point ∷ []) h (c.1.lasting, tt));
      })
      (create-Between s host actor q))
Serves-Brings {s} {s'} {r} (deleted host actor q e) = answered s s' r _ e (
    Outcome-map
      (λ p c. record {
        on = a_delete q.id c.prepared;
        lasts = λ h.
            let (i, shape) = waypoints-prepare_delete s.store q.id p c.prepared in
            rw shape (All-remove_at Lasts s.store.waypoints i h);
      })
      (delete-Between s host actor q))
Serves-Brings {s} {s'} {r} (updated host actor q e) =
    answered s s' r _ e
      (Outcome-map (λ p. update-Brings s.store s.access actor q p) (update-Between s host actor q))

Outcome-Lasts :
    {s s' : Store} {d d' : Snapshot} {r : MutationResult}
    → Outcome (Brings s) s d r s' d'
    → All Lasts s.waypoints
    → All Lasts s'.waypoints
Outcome-Lasts {s} {s'} (moved p b done _ _ _ _ _) h =
    rw (waypoints-commit s s' p b.on done) (b.lasts h)
Outcome-Lasts (unmoved same _ _) h = rw same h

Serving-Lasts :
    {s t : Service} → Serving s t → All Lasts s.store.waypoints → All Lasts t.store.waypoints
Serving-Lasts idle h = h
Serving-Lasts (served run call) h = Outcome-Lasts (Serves-Brings call) (Serving-Lasts run h)

kept-All : (ws : List Waypoint) → All Lasts ws → kept ws ≡ ws
kept-All [] h = refl
kept-All (w ∷ ws) (a, b) = rw (a, kept-All ws b)

pub sanitize_snapshot :
    (s : Store) → All Lasts s.waypoints → sanitize_loaded (snapshot s) ≡ snapshot s
unfolding sanitize_loaded snapshot
sanitize_snapshot s h = rw (kept-All s.waypoints h)

-- Where a service starts with a sound catalog that its file holds and whose points are all valid,
-- then after any requests, and whatever writes fail, the validation that a later start makes of the
-- file drops none of its points.
pub Serving-sanitize_loaded :
    {s t : Service}
    → IsDurable s.store s.disk
    → All Lasts s.store.waypoints
    → Serving s t
    → sanitize_loaded t.disk ≡ t.disk
Serving-sanitize_loaded {t} d h run =
    let written = (Serving-IsDurable run d).written in
    rw written (sanitize_snapshot t.store (Serving-Lasts run h))
