-- ===== src/Waypoints/Service/Checks.antt =====
-- What the checks of each handler have established when they end well.
use confluxmap_pumpkin.Base.{
  ℕ, ◌<◌, ◌≡◌, refl, Bool, true, false, not, ◌&&◌, Option, none, some, arith, leb, is_some,
}
use confluxmap_pumpkin.Base.Int.{==ℤ_iff}
use confluxmap_pumpkin.Text.{trim}
use confluxmap_pumpkin.Waypoints.Proto.Messages.{
  Waypoint, CreateRequest, UpdateRequest, DeleteRequest, Result, ok, err,
}
use confluxmap_pumpkin.Waypoints.Model.{
  Draft, Validated, LocationKey, location_of, location_from, location_beq, validate,
  valid_publisher_name,
}
use confluxmap_pumpkin.Waypoints.Model.Again.{validate-draft_again}
use confluxmap_pumpkin.Waypoints.Store.{
  Store, Prepared, StoreError, find, find_at, len, count_published_by, prepare_create,
  prepare_delete, prepare_update,
}
use confluxmap_pumpkin.Waypoints.Service.Players.{
  MutationError, invalid_request, persistence_failed, id_generation_failed, duplicate_location,
}
use confluxmap_pumpkin.Identity.{Uid}
use confluxmap_pumpkin.Base.Int.{ℤ}
use confluxmap_pumpkin.Waypoints.Service.{valid_for_active_world}
use confluxmap_pumpkin.Waypoints.Service.{
  Service, Host, Actor, Limits, AccessPolicy, ◌>>=◌, refuse_if, or_refuse, or_store_error,
  create_draft, update_draft, created_point, updated_point, create_checks, delete_checks,
  update_checks, can_manage, checked_suc, unique_id, is_other,
}

-- A chain that is not refused was not refused at its first step.
passed_if {ℓ κ} :
    {B : Type κ} {P : Type ℓ} (b : Bool) (e : MutationError)
    (rest : Unit {0} → Result MutationError B) {out : B}
    → (refuse_if b e >>= rest) ≡ ok out
    → (b ≡ false → rest tt ≡ ok out → P)
    → P
passed_if true e rest good k = cc
passed_if false e rest good k = k refl good

passed_some {ℓ κ μ} :
    {A : Type μ} {B : Type κ} {P : Type ℓ} (e : MutationError) (o : Option A)
    (rest : A → Result MutationError B) {out : B}
    → (or_refuse e o >>= rest) ≡ ok out
    → ((a : A) → o ≡ some a → rest a ≡ ok out → P)
    → P
passed_some e none rest good k = cc
passed_some e (some a) rest good k = k a refl good

was_prepared : (r : Result StoreError Prepared) (p : Prepared) → or_store_error r ≡ ok p → r ≡ ok p
was_prepared (ok q) p h = cc
was_prepared (err e) p h = cc

was_none {ℓ} : {A : Type ℓ} (o : Option A) → is_some o ≡ false → o ≡ none
was_none none h = refl
was_none (some a) h = cc

pub was_true : (b : Bool) → not b ≡ false → b ≡ true
was_true true h = refl
was_true false h = cc

below : (m n : ℕ) → leb m n ≡ false → n < m
below m n h = ground arith

created-valid :
    (actor : Actor) (v : Validated) (id : Uid) (now next : ℤ) (d : Draft)
    → validate d ≡ some v
    → valid_publisher_name (trim actor.name) ≡ true
    → valid_for_active_world (created_point actor v id now next) ≡ true
unfolding valid_for_active_world
created-valid actor v id now next d e n = rw (validate-draft_again d v e, n)

updated-valid :
    (w : Waypoint) (v : Validated) (next : ℤ) (d : Draft)
    → validate d ≡ some v
    → valid_for_active_world w ≡ true
    → valid_for_active_world (updated_point w v next) ≡ true
unfolding valid_for_active_world
updated-valid w v next d e h = rw (validate-draft_again d v e) (second _ _ h)
  where
    second : (a b : Bool) → a && b ≡ true → b ≡ true
    second true b q = q
    second false b q = cc

pub record CreateChecked (store : Store) (limits : Limits) (actor : Actor) (q : CreateRequest)
    (p : Prepared) : Type 0 where
  pub point : Waypoint
  pub v : Validated
  pub location : LocationKey
  pub expected : q.expected_revision ≡ store.revision
  pub validated : validate (create_draft q) ≡ some v
  pub named : valid_publisher_name (trim actor.name) ≡ true
  pub located : location_of v.dimension_id v.x v.y v.z ≡ some location
  pub free : find_at store location ≡ none
  pub world : len store < limits.max_per_world
  pub own : count_published_by store actor.id < limits.max_per_player
  pub publisher : point.publisher_id ≡ actor.id
  pub lasting : valid_for_active_world point ≡ true
  pub prepared : prepare_create store point ≡ ok p

pub create_checks-CreateChecked :
    (s : Service) (host : Host) (actor : Actor) (q : CreateRequest) (p : Prepared)
    → create_checks s host actor q ≡ ok p
    → CreateChecked s.store s.limits actor q p
unfolding create_checks
create_checks-CreateChecked s host actor q p e = passed_if _ _ _ e λ c1 e1.
    passed_some _ _ _ e1 λ v c2 e2. passed_if _ _ _ e2 λ c3 e3. passed_some _ _ _ e3 λ l c4 e4.
      passed_if _ _ _ e4 λ c5 e5. passed_if _ _ _ e5 λ c6 e6. passed_if _ _ _ e6 λ c7 e7.
        passed_some id_generation_failed (unique_id s.store host.draws) _ e7 λ id c8 e8.
          passed_some persistence_failed (checked_suc s.store.revision) _ e8 λ next c9 e9. record {
            point = created_point actor v id host.now next;
            v = v;
            location = l;
            expected = (==ℤ_iff q.expected_revision s.store.revision).0 (was_true _ c1);
            validated = c2;
            named = was_true (valid_publisher_name (trim actor.name)) c3;
            located = c4;
            free = was_none (find_at s.store l) c5;
            world = below s.limits.max_per_world (len s.store) c6;
            own = below s.limits.max_per_player (count_published_by s.store actor.id) c7;
            publisher = refl;
            lasting =
                created-valid actor v id host.now next (create_draft q) c2
                  (was_true (valid_publisher_name (trim actor.name)) c3);
            prepared = was_prepared (prepare_create s.store _) p e9;
          }

pub record DeleteChecked (store : Store) (access : AccessPolicy) (actor : Actor) (q : DeleteRequest)
    (p : Prepared) : Type 0 where
  pub current : Waypoint
  pub known : find store q.id ≡ some current
  pub expected : q.expected_revision ≡ current.revision
  pub allowed : can_manage actor current access ≡ true
  pub prepared : prepare_delete store q.id ≡ ok p

pub delete_checks-DeleteChecked :
    (s : Service) (actor : Actor) (q : DeleteRequest) (p : Prepared)
    → delete_checks s actor q ≡ ok p
    → DeleteChecked s.store s.access actor q p
unfolding delete_checks
delete_checks-DeleteChecked s actor q p e = passed_some _ _ _ e λ c c1 e1.
    passed_if _ _ _ e1 λ c2 e2. passed_if _ _ _ e2 λ c3 e3. record {
      current = c;
      known = c1;
      expected = (==ℤ_iff q.expected_revision c.revision).0 (was_true _ c2);
      allowed = was_true (can_manage actor c s.access) c3;
      prepared = was_prepared (prepare_delete s.store q.id) p e3;
    }

pub record UpdateChecked (store : Store) (access : AccessPolicy) (actor : Actor) (q : UpdateRequest)
    (p : Prepared) : Type 0 where
  pub current : Waypoint
  pub point : Waypoint
  pub v : Validated
  pub known : find store q.id ≡ some current
  pub allowed : can_manage actor current access ≡ true
  pub expected : q.expected_revision ≡ current.revision
  pub validated : validate (update_draft q) ≡ some v
  pub same_publisher : point.publisher_id ≡ current.publisher_id
  pub lasting : valid_for_active_world current ≡ true → valid_for_active_world point ≡ true
  pub prepared : prepare_update store point ≡ ok p

pub update_checks-UpdateChecked :
    (s : Service) (actor : Actor) (q : UpdateRequest) (p : Prepared)
    → update_checks s actor q ≡ ok p
    → UpdateChecked s.store s.access actor q p
unfolding update_checks
update_checks-UpdateChecked s actor q p e = passed_some _ _ _ e λ c c1 e1.
    passed_if _ _ _ e1 λ c2 e2. passed_if _ _ _ e2 λ c3 e3. passed_some _ _ _ e3 λ v c4 e4.
      passed_some invalid_request (location_of v.dimension_id v.x v.y v.z) _ e4 λ l c5 e5.
        passed_if (not (location_beq l (location_from c)) && is_other c.id (find_at s.store l))
          duplicate_location _ e5
          λ c6 e6. passed_some persistence_failed (checked_suc s.store.revision) _ e6 λ next c7 e7.
            record {
              current = c;
              point = updated_point c v next;
              v = v;
              known = c1;
              allowed = was_true (can_manage actor c s.access) c2;
              expected = (==ℤ_iff q.expected_revision c.revision).0 (was_true _ c3);
              validated = c4;
              same_publisher = refl;
              lasting = updated-valid c v next (update_draft q) c4;
              prepared = was_prepared (prepare_update s.store _) p e7;
            }
