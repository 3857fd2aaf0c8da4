-- ===== src/Waypoints/Hub/Strikes.antt =====
-- Handling any payload keeps the strikes of every peer.

use confluxmap_pumpkin.Base.{
  ℕ, ◌≡◌, refl, Bool, true, false, not, Option, none, some, List, if◌then◌else◌,
}
use confluxmap_pumpkin.Base.Int.{ℤ}
use confluxmap_pumpkin.Identity.{Uid, id_eq}
use confluxmap_pumpkin.Waypoints.Proto.Messages
use confluxmap_pumpkin.Waypoints.Proto.Messages.{Inbound, Outbound, Result, DecodeError}
use confluxmap_pumpkin.Waypoints.Proto.Decode.{decode}
use confluxmap_pumpkin.Waypoints.Session.{
  Peer, Session, get, hello, set_operator, set_subscribed, charge_control, record_malformed,
}
use confluxmap_pumpkin.Waypoints.Service
use confluxmap_pumpkin.Waypoints.Service.{Service, Host}
use confluxmap_pumpkin.Waypoints.Service.Players.{
  MutationResult, is_applied, status_code, error_code,
}
use confluxmap_pumpkin.Waypoints.Hub.{
  Hub, Action, actor_of, announce, answered, broadcast_of, charge, charged, counted, count_result,
  disabled, finish_mutation, guarded, handle, modify, note_for, note_malformed, on_decoded,
  on_hello, on_lock, on_message, on_subscribe, serve_snapshot, served_by, session_compatible,
  session_minor, with_session,
}
use confluxmap_pumpkin.Waypoints.Hub.Muted.{
  Known, Spares, insert-Known, hello-Known, same-Spares, charge_control-Spares,
  record_malformed-Spares,
}

module _ (id : Uid) (n : ℕ) where
  either :
      (b : Bool) (p q : Action × Hub)
      → Known id n p.1.sessions
      → Known id n q.1.sessions
      → Known id n (if b then p else q).1.sessions
  either true p q hp hq = hp
  either false p q hp hq = hq

  with_session-Known :
      (key : Uid) (change : Session → Session) (h : Hub)
      → ((s : Session) → Spares s (change s))
      → Known id n h.sessions
      → Known id n (with_session key change h).sessions
  unfolding with_session
  with_session-Known key change h spares k = by_session (get key h.sessions) refl
    where
      by_session :
          (o : Option Session)
          → get key h.sessions ≡ o
          → Known id n (modify key change h.sessions o)
      by_session none e = k
      by_session (some s) e = insert-Known id n key s (change s) h.sessions e (spares s) k

  operator-Known :
      (key : Uid) (operator : Bool) (h : Hub)
      → Known id n h.sessions
      → Known id n (with_session key (set_operator operator) h).sessions
  operator-Known key operator h k =
      with_session-Known key (set_operator operator) h (λ s. same-Spares s _ refl refl) k

  subscribed-Known :
      (key : Uid) (on : Bool) (h : Hub)
      → Known id n h.sessions
      → Known id n (with_session key (set_subscribed on) h).sessions
  subscribed-Known key on h k =
      with_session-Known key (set_subscribed on) h (λ s. same-Spares s _ refl refl) k

  charge-Known :
      (key : Uid) (now : ℤ) (h : Hub)
      → Known id n h.sessions
      → Known id n (charge key now h).1.sessions
  unfolding charge
  charge-Known key now h k = by_session (get key h.sessions) refl
    where
      by_session :
          (o : Option Session)
          → get key h.sessions ≡ o
          → Known id n (charged key now h o).1.sessions
      by_session none e = k
      by_session (some s) e =
          insert-Known id n key s (charge_control s now).1 h.sessions e
            (charge_control-Spares s now) k

  note_malformed-Known :
      (key : Uid) (h : Hub) → Known id n h.sessions → Known id n (note_malformed key h).sessions
  unfolding note_malformed
  note_malformed-Known key h k =
      by_session
        (record h { counters = record h.counters { malformed = counted h.counters.malformed } })
        (get key h.sessions) refl k
    where
      by_session :
          (g : Hub) (o : Option Session)
          → get key g.sessions ≡ o
          → Known id n g.sessions
          → Known id n (note_for key o g).sessions
      by_session g none e k = k
      by_session g (some s) e k =
          insert-Known id n key s (record_malformed s).1 g.sessions e (record_malformed-Spares s) k

  announce-Known :
      (answer : Outbound) (minor : ℤ) (h : Hub) (o : Option Outbound)
      → Known id n h.sessions
      → Known id n (announce answer minor h o).1.sessions
  announce-Known answer minor h none k = k
  announce-Known answer minor h (some delta) k = k

  finish_mutation-Known :
      (r : MutationResult) (minor : ℤ) (h : Hub)
      → Known id n h.sessions
      → Known id n (finish_mutation r minor h).1.sessions
  unfolding finish_mutation
  finish_mutation-Known r minor h k =
      announce-Known (Outbound.result r.operation_id (status_code r) (error_code r minor)) minor
        (record h { counters = count_result (is_applied r.status) h.counters }) (broadcast_of r) k

  module _ (h : Hub) (k : Known id n h.sessions) (peer : Peer) (minor now : ℤ) where
    disabled-Known : (op : Uid) → Known id n (disabled peer op minor now h).1.sessions
    unfolding disabled
    disabled-Known op =
        let h1 = (charge peer.id now h).1 in
        let k1 = charge-Known peer.id now h k in
        either (charge peer.id now h).0 _ _ (operator-Known peer.id peer.operator h1 k1) k1

    guarded-Known :
        (op : Uid) (serve : Service → MutationResult × Service)
        → Known id n (guarded peer op minor now serve h).1.sessions
    unfolding guarded
    guarded-Known op serve =
        either (not (session_compatible peer.id h)) _ _ k
          (either (not h.settings.enabled) _ _ (disabled-Known op) (by_service h.service))
      where
        by_service : (o : Option Service) → Known id n (served_by serve minor h o).1.sessions
        by_service none = k
        by_service (some s) =
            finish_mutation-Known (serve s).0 minor (record h { service = some (serve s).1 }) k

    on_hello-Known : (major asked : ℤ) → Known id n (on_hello peer major asked now h).1.sessions
    unfolding on_hello
    on_hello-Known major asked =
        by_answer (hello peer.id major asked peer.operator now h.sessions).0
          (record h { sessions = (hello peer.id major asked peer.operator now h.sessions).1 })
          (hello-Known id n peer.id major asked peer.operator now h.sessions k)
      where
        by_answer :
            (o : Option ℤ) (g : Hub)
            → Known id n g.sessions
            → Known id n (answered peer g o).1.sessions
        by_answer none g k = k
        by_answer (some negotiated) g k = k

    on_subscribe-Known : Known id n (on_subscribe peer minor now h).1.sessions
    unfolding on_subscribe serve_snapshot
    on_subscribe-Known =
        let h1 = (charge peer.id now h).1 in
        let k1 = charge-Known peer.id now h k in
        let h2 = with_session peer.id (set_operator peer.operator) h1 in
        let k2 = operator-Known peer.id peer.operator h1 k1 in
        either (not (session_compatible peer.id h)) _ _ k (
          either (not (charge peer.id now h).0) _ _ k1 (
            either (not h.settings.enabled) _ _ (subscribed-Known peer.id false h2 k2)
              (subscribed-Known peer.id true h2 k2)))

    on_lock-Known : (op : Uid) → Known id n (on_lock peer op minor now h).1.sessions
    unfolding on_lock
    on_lock-Known op =
        either (not (session_compatible peer.id h)) _ _ k
          (either (not h.settings.enabled) _ _ (disabled-Known op) k)

    on_message-Known :
        (host : Host) (message : Inbound)
        → Known id n (on_message peer minor now host message h).1.sessions
    unfolding on_message
    on_message-Known host (Inbound.hello major asked) = on_hello-Known major asked
    on_message-Known host Inbound.subscribe = on_subscribe-Known
    on_message-Known host (Inbound.create q) =
        guarded-Known q.operation_id λ s. Service.create s host (actor_of peer) q
    on_message-Known host (Inbound.update q) =
        guarded-Known q.operation_id λ s. Service.update s host (actor_of peer) q
    on_message-Known host (Inbound.delete q) =
        guarded-Known q.operation_id λ s. Service.delete s host (actor_of peer) q
    on_message-Known host (Inbound.lock q) = on_lock-Known q.operation_id

    on_decoded-Known :
        (host : Host) (r : Result DecodeError Inbound)
        → Known id n (on_decoded peer minor now host r h).1.sessions
    on_decoded-Known host (Messages.err e) = note_malformed-Known peer.id h k
    on_decoded-Known host (Messages.ok message) = on_message-Known host message

  pub handle-Known :
      (h : Hub) (peer : Peer) (payload : List ℕ) (now : ℤ) (host : Host)
      → Known id n h.sessions
      → Known id n (handle peer payload now host h).1.sessions
  unfolding handle
  handle-Known h peer payload now host k =
      on_decoded-Known h k peer (session_minor peer.id h) now host
        (decode payload (session_minor peer.id h))
