-- ===== src/Waypoints/Hub/Synced.antt =====
-- Whatever payload the hub handles, a copy that applies what it broadcasts mirrors the catalog.
use mathlib.Core.Path.{subst}
use confluxmap_pumpkin.Base.{
  ℕ, ◌+◌, ◌%◌, ◌^◌, ◌≡◌, ◌⊎◌, inl, inr, refl, sym, ap, ◌∙◌, Bool, true, false, not, ◌&&◌, Option,
  none, some, List, if◌then◌else◌,
}
use confluxmap_pumpkin.Base.Int.{ℤ}
use confluxmap_pumpkin.Identity.{Uid}
use confluxmap_pumpkin.Waypoints.Proto.Messages
use confluxmap_pumpkin.Waypoints.Proto.Messages.{Inbound, Outbound, Result, DecodeError}
use confluxmap_pumpkin.Waypoints.Proto.Decode.{decode}
use confluxmap_pumpkin.Waypoints.Session.{Peer, Session, get, hello, set_operator}
use confluxmap_pumpkin.Waypoints.Store.Loading.{IsValid}
use confluxmap_pumpkin.Waypoints.Store.Pending.{PreparedOn}
use confluxmap_pumpkin.Waypoints.Service.{Service, Host}
use confluxmap_pumpkin.Waypoints.Service.Players.{
  MutationResult, is_applied, applied_status, rejected_status, status_code, error_code,
}
use confluxmap_pumpkin.Waypoints.Service.Outcome.{
  Outcome, moved, unmoved, Serves, created, deleted, updated, Serves-Outcome,
}
use confluxmap_pumpkin.Waypoints.Hub.{
  Hub, Action, nothing, reply, mutation, actor_of, announce, answered, broadcast_of, charge,
  charged, count_result, disabled, finish_mutation, guarded, handle, note_for, note_malformed,
  on_decoded, on_hello, on_lock, on_message, on_subscribe, serve_snapshot, session_compatible,
  session_minor, with_session, delta_to_outbound,
}
use confluxmap_pumpkin.Waypoints.Hub.Follow.{Replica, Mirrors, follow, commit-Mirrors}

-- The delta that an action broadcasts.
abbrev pub delta_of : Action → Option Outbound
delta_of (mutation answer minor delta peers) = delta
delta_of nothing = none
delta_of (reply frames minor) = none

-- The hub has a valid catalog, which the copy mirrors when it has followed the action.
pub record IsSynced (x : Replica) (action : Action) (h : Hub) : Type 0 where
  pub service : Service
  pub there : h.service ≡ some service
  pub valid : IsValid service.store
  pub mirrors : Mirrors (follow x (delta_of action)) service.store

abbrev Synced : Replica → Action × Hub → Type 0
Synced x (action, h) = IsSynced x action h

module _ (x : Replica) (s : Service) (v : IsValid s.store) (m : Mirrors x s.store) where
  quiet :
      (action : Action) (h h' : Hub)
      → h.service ≡ some s
      → h'.service ≡ h.service
      → delta_of action ≡ none
      → IsSynced x action h'
  unfolding follow
  quiet action h h' here same silent = record {
    service = s;
    there = same ∙ here;
    valid = v;
    mirrors = rw silent m;
  }

  either : (b : Bool) (p q : Action × Hub) → Synced x p → Synced x q → Synced x (if b then p else q)
  either true p q hp hq = hp
  either false p q hp hq = hq

service-charge : (key : Uid) (now : ℤ) (h : Hub) → (charge key now h).1.service ≡ h.service
unfolding charge
service-charge key now h = by_session (get key h.sessions)
  where
    by_session : (o : Option Session) → (charged key now h o).1.service ≡ h.service
    by_session none = refl
    by_session (some s) = refl

service-with_session :
    (key : Uid) (change : Session → Session) (h : Hub)
    → (with_session key change h).service ≡ h.service
unfolding with_session
service-with_session key change h = refl

pub service-note_malformed : (key : Uid) (h : Hub) → (note_malformed key h).service ≡ h.service
unfolding note_malformed
service-note_malformed key h = by_session (get key h.sessions)
  where
    by_session :
        (o : Option Session)
        → (note_for key o (record h {
          counters = record h.counters { malformed = (h.counters.malformed + 1) % 2 ^ 64 };
        })).service
          ≡ h.service
    by_session none = refl
    by_session (some s) = refl

announced :
    (answer : Outbound) (minor : ℤ) (h : Hub) (o : Option Outbound)
    → (delta_of (announce answer minor h o).0 ≡ o)
      × ((announce answer minor h o).1.service ≡ h.service)
announced answer minor h none = (refl, refl)
announced answer minor h (some delta) = (refl, refl)

broadcast_fresh :
    (r : MutationResult)
    → r.status ≡ applied_status
    → r.replayed ≡ false
    → broadcast_of r ≡ delta_to_outbound r.delta
unfolding broadcast_of
broadcast_fresh r good fresh = rw (good, fresh)

broadcast_silent :
    (r : MutationResult)
    → (r.status ≡ rejected_status) ⊎ (r.replayed ≡ true)
    → broadcast_of r ≡ none
unfolding broadcast_of
broadcast_silent r (inl refused) = rw refused
broadcast_silent r (inr again) = silent (is_applied r.status)
  where
    silent : (b : Bool) → (if b && not r.replayed then delta_to_outbound r.delta else none) ≡ none
    silent true = rw again
    silent false = refl

finish_mutation-IsSynced :
    (x : Replica) (s s' : Service) (r : MutationResult) (minor : ℤ) (h : Hub)
    → h.service ≡ some s'
    → IsValid s.store
    → Mirrors x s.store
    → Outcome (PreparedOn s.store) s.store s.disk r s'.store s'.disk
    → Synced x (finish_mutation r minor h)
unfolding finish_mutation follow
finish_mutation-IsSynced x s s' r minor h here v m (moved p on done wrote good fresh delta told) =
    let (sent, same) =
      announced (Outbound.result r.operation_id (status_code r) (error_code r minor)) minor
        (record h { counters = count_result (is_applied r.status) h.counters }) (broadcast_of r) in
    let (valid, mirrors) = commit-Mirrors x s.store s'.store p v on done m in
    record {
      service = s';
      there = same ∙ here;
      valid = valid;
      mirrors =
          subst (λ o. Mirrors (follow x o) s'.store)
            (sym (sent ∙ broadcast_fresh r good fresh ∙ ap delta_to_outbound delta)) mirrors;
    }
finish_mutation-IsSynced x s s' r minor h here v m (unmoved kept _ why) =
    let (sent, same) =
      announced (Outbound.result r.operation_id (status_code r) (error_code r minor)) minor
        (record h { counters = count_result (is_applied r.status) h.counters }) (broadcast_of r) in
    record {
      service = s';
      there = same ∙ here;
      valid = subst IsValid (sym kept) v;
      mirrors =
          subst (λ o. Mirrors (follow x o) s'.store) (sym (sent ∙ broadcast_silent r why))
            (subst (Mirrors x) (sym kept) m);
    }

module _ (x : Replica) (s : Service) (v : IsValid s.store) (m : Mirrors x s.store) (h : Hub)
    (here : h.service ≡ some s) where
  disabled-IsSynced :
      (peer : Peer) (op : Uid) (minor now : ℤ) → Synced x (disabled peer op minor now h)
  unfolding disabled
  disabled-IsSynced peer op minor now =
      let h1 = (charge peer.id now h).1 in
      let same = service-charge peer.id now h in
      either x s v m (charge peer.id now h).0 _ _
        (quiet x s v m _ h (with_session peer.id (set_operator peer.operator) h1) here
          (service-with_session peer.id (set_operator peer.operator) h1 ∙ same) refl)
        (quiet x s v m _ h h1 here same refl)

  guarded-IsSynced :
      (peer : Peer) (op : Uid) (minor now : ℤ) (serve : Service → MutationResult × Service)
      → ((t : Service) → Serves t (serve t).0 (serve t).1)
      → Synced x (guarded peer op minor now serve h)
  unfolding guarded
  guarded-IsSynced peer op minor now serve serves =
      either x s v m (not (session_compatible peer.id h)) _ _ (quiet x s v m _ h h here refl refl) (
        either x s v m (not h.settings.enabled) _ _ (disabled-IsSynced peer op minor now) (
          rw here (
            finish_mutation-IsSynced x s (serve s).1 (serve s).0 minor
              (record h { service = some (serve s).1 }) refl v m (Serves-Outcome (serves s)))))

  on_hello-IsSynced :
      (peer : Peer) (major minor now : ℤ) → Synced x (on_hello peer major minor now h)
  unfolding on_hello
  on_hello-IsSynced peer major minor now =
      by_answer (hello peer.id major minor peer.operator now h.sessions).0
        (record h { sessions = (hello peer.id major minor peer.operator now h.sessions).1 }) refl
    where
      by_answer : (o : Option ℤ) (h' : Hub) → h'.service ≡ h.service → Synced x (answered peer h' o)
      by_answer none h' same = quiet x s v m _ h h' here same refl
      by_answer (some negotiated) h' same = quiet x s v m _ h _ here same refl

  on_subscribe-IsSynced : (peer : Peer) (minor now : ℤ) → Synced x (on_subscribe peer minor now h)
  unfolding on_subscribe serve_snapshot with_session
  on_subscribe-IsSynced peer minor now =
      let same = service-charge peer.id now h in
      let leave : (action : Action) (h' : Hub)
          → h'.service ≡ h.service
          → delta_of action ≡ none
          → Synced x (action, h') =
        λ action h' p q. quiet x s v m action h h' here p q in
      either x s v m (not (session_compatible peer.id h)) _ _ (leave _ h refl refl) (
        either x s v m (not (charge peer.id now h).0) _ _ (leave _ _ same refl)
          (either x s v m (not h.settings.enabled) _ _ (leave _ _ same refl) (leave _ _ same refl)))

  on_lock-IsSynced :
      (peer : Peer) (op : Uid) (minor now : ℤ) → Synced x (on_lock peer op minor now h)
  unfolding on_lock
  on_lock-IsSynced peer op minor now =
      either x s v m (not (session_compatible peer.id h)) _ _ (quiet x s v m _ h h here refl refl) (
        either x s v m (not h.settings.enabled) _ _ (disabled-IsSynced peer op minor now)
          (quiet x s v m _ h h here refl refl))

  on_message-IsSynced :
      (peer : Peer) (minor now : ℤ) (host : Host) (message : Inbound)
      → Synced x (on_message peer minor now host message h)
  unfolding on_message
  on_message-IsSynced peer minor now host (Inbound.hello major asked) =
      on_hello-IsSynced peer major asked now
  on_message-IsSynced peer minor now host Inbound.subscribe = on_subscribe-IsSynced peer minor now
  on_message-IsSynced peer minor now host (Inbound.create q) =
      guarded-IsSynced peer q.operation_id minor now _ λ t. created host (actor_of peer) q refl
  on_message-IsSynced peer minor now host (Inbound.update q) =
      guarded-IsSynced peer q.operation_id minor now _ λ t. updated host (actor_of peer) q refl
  on_message-IsSynced peer minor now host (Inbound.delete q) =
      guarded-IsSynced peer q.operation_id minor now _ λ t. deleted host (actor_of peer) q refl
  on_message-IsSynced peer minor now host (Inbound.lock q) =
      on_lock-IsSynced peer q.operation_id minor now

-- Where a copy mirrors the valid catalog of the hub, the points by their ids and the revision, then
-- after any payload of any peer, at any time and whatever the host gives, the catalog is valid and
-- the copy that has followed what is broadcast mirrors it: what is not broadcast changes no point.
pub handle-IsSynced :
    (x : Replica) (s : Service) (h : Hub) (peer : Peer) (payload : List ℕ) (now : ℤ) (host : Host)
    → h.service ≡ some s
    → IsValid s.store
    → Mirrors x s.store
    → IsSynced x (handle peer payload now host h).0 (handle peer payload now host h).1
unfolding handle
handle-IsSynced x s h peer payload now host here v m =
    by_decoded (decode payload (session_minor peer.id h))
  where
    by_decoded :
        (r : Result DecodeError Inbound)
        → Synced x (on_decoded peer (session_minor peer.id h) now host r h)
    by_decoded (Messages.err e) =
        quiet x s v m _ h (note_malformed peer.id h) here (service-note_malformed peer.id h) refl
    by_decoded (Messages.ok message) =
        on_message-IsSynced x s v m h here peer (session_minor peer.id h) now host message
