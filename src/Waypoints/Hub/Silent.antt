-- ===== src/Waypoints/Hub/Silent.antt =====
-- The hub against a peer that it has muted.

use confluxmap_pumpkin.Base.{
  ℕ, suc, ◌≤◌, ◌≡◌, refl, ◌∙◌, Bool, true, false, ◌&&◌, some, List, leb, min, arith,
}
use confluxmap_pumpkin.Base.Int.{ℤ}
use confluxmap_pumpkin.Base.Maps.{lookup-insert, beq_refl}
use confluxmap_pumpkin.Identity.{Uid, id_eq}
use confluxmap_pumpkin.Waypoints.Proto.Messages
use confluxmap_pumpkin.Waypoints.Proto.Messages.{Inbound, Outbound, Result, DecodeError}
use confluxmap_pumpkin.Waypoints.Proto.Decode.{decode}
use confluxmap_pumpkin.Waypoints.Session.{Peer, Session, get, record_malformed}
use confluxmap_pumpkin.Waypoints.Session.Access.{Lived, Lived-Law, hello-muted}
use confluxmap_pumpkin.Waypoints.Service
use confluxmap_pumpkin.Waypoints.Service.{Service, Host}
use confluxmap_pumpkin.Waypoints.Service.Players.{MutationResult}
use confluxmap_pumpkin.Waypoints.Hub.{
  Hub, Action, actor_of, nothing, guarded, handle, note_malformed, on_decoded, on_hello, on_lock,
  on_message, on_subscribe, session_compatible, session_minor,
}
use confluxmap_pumpkin.Waypoints.Hub.Muted.{Counts, Counts-record_malformed, Known}
use confluxmap_pumpkin.Waypoints.Hub.Strikes.{handle-Known}
use confluxmap_pumpkin.Waypoints.Hub.Synced.{service-note_malformed}

-- The payloads of any peers that the hub handles, at least `n` of them malformed ones of one peer.
pub data Handling (id : Uid) (h : Hub) : ℕ → Hub → Type 0 where
  begun : Handling id h 0 h
  malformed :
      {n : ℕ} {g : Hub} (peer : Peer) (payload : List ℕ) (now : ℤ) (host : Host) (e : DecodeError)
      → Handling id h n g
      → peer.id ≡ id
      → decode payload (session_minor peer.id g) ≡ Messages.err e
      → Handling id h (suc n) (handle peer payload now host g).1
  any :
      {n : ℕ} {g : Hub} (peer : Peer) (payload : List ℕ) (now : ℤ) (host : Host)
      → Handling id h n g
      → Handling id h n (handle peer payload now host g).1

struck :
    (id : Uid) (n : ℕ) (h : Hub)
    → Known id n h.sessions
    → Known id (suc n) (note_malformed id h).sessions
unfolding note_malformed
struck id n h k = rw k.there (record {
  session = (record_malformed k.session).1;
  there = rw (lookup-insert id id (record_malformed k.session).1 h.sessions, beq_refl id) refl;
  counts = Counts-record_malformed n k.session k.counts;
})

malformed-Known :
    (id : Uid) (n : ℕ) (h : Hub) (peer : Peer) (payload : List ℕ) (now : ℤ) (host : Host)
    (e : DecodeError)
    → peer.id ≡ id
    → decode payload (session_minor peer.id h) ≡ Messages.err e
    → Known id n h.sessions
    → Known id (suc n) (handle peer payload now host h).1.sessions
unfolding handle
malformed-Known id n h peer payload now host e same bad k = rw (bad, same) (struck id n h k)

Handling-Known :
    {id : Uid} {h g : Hub} {n : ℕ}
    → Handling id h n g
    → Known id 0 h.sessions
    → Known id n g.sessions
Handling-Known begun k = k
Handling-Known {id} (malformed {n} {g} peer payload now host e run same bad) k =
    malformed-Known id n g peer payload now host e same bad (Handling-Known run k)
Handling-Known {id} {n} (any {g = g} peer payload now host run) k =
    handle-Known id n g peer payload now host (Handling-Known run k)

is_muted_at : (n : ℕ) (s : Session) → 3 ≤ n → Counts n s → s.muted ≡ true
is_muted_at n s three h =
    let low = h.low in let full : leb 3 s.malformed_strikes ≡ true = ground arith in h.muted ∙ full

-- Nothing is answered, and the catalog stays.
abbrev pub IsIgnored : Hub → Action × Hub → Type 0
IsIgnored h (action, h') = (action ≡ nothing) × (h'.service ≡ h.service)

module _ (h : Hub) (peer : Peer) (s : Session) (there : get peer.id h.sessions ≡ some s)
    (muted : s.muted ≡ true) where
  incompatible : session_compatible peer.id h ≡ false
  unfolding session_compatible
  incompatible = rw (there, muted) (both s.compatible)
    where
      both : (b : Bool) → (b && false) ≡ false
      both true = refl
      both false = refl

  guarded-IsIgnored :
      (op : Uid) (minor now : ℤ) (serve : Service → MutationResult × Service)
      → IsIgnored h (guarded peer op minor now serve h)
  unfolding guarded
  guarded-IsIgnored op minor now serve = rw incompatible (refl, refl)

  on_hello-IsIgnored : (major asked now : ℤ) → IsIgnored h (on_hello peer major asked now h)
  unfolding on_hello
  on_hello-IsIgnored major asked now =
      rw (hello-muted peer.id major asked peer.operator now h.sessions s there muted) (refl, refl)

  on_message-IsIgnored :
      (minor now : ℤ) (host : Host) (message : Inbound)
      → IsIgnored h (on_message peer minor now host message h)
  unfolding on_message on_subscribe on_lock
  on_message-IsIgnored minor now host (Inbound.hello major asked) =
      on_hello-IsIgnored major asked now
  on_message-IsIgnored minor now host Inbound.subscribe = rw incompatible (refl, refl)
  on_message-IsIgnored minor now host (Inbound.create q) =
      guarded-IsIgnored q.operation_id minor now λ t. Service.create t host (actor_of peer) q
  on_message-IsIgnored minor now host (Inbound.update q) =
      guarded-IsIgnored q.operation_id minor now λ t. Service.update t host (actor_of peer) q
  on_message-IsIgnored minor now host (Inbound.delete q) =
      guarded-IsIgnored q.operation_id minor now λ t. Service.delete t host (actor_of peer) q
  on_message-IsIgnored minor now host (Inbound.lock q) = rw incompatible (refl, refl)

  handle-IsIgnored :
      (payload : List ℕ) (now : ℤ) (host : Host) → IsIgnored h (handle peer payload now host h)
  unfolding handle
  handle-IsIgnored payload now host = by_decoded (decode payload (session_minor peer.id h))
    where
      by_decoded :
          (r : Result DecodeError Inbound)
          → IsIgnored h (on_decoded peer (session_minor peer.id h) now host r h)
      by_decoded (Messages.err e) = (refl, service-note_malformed peer.id h)
      by_decoded (Messages.ok message) =
          on_message-IsIgnored (session_minor peer.id h) now host message

-- Where a hub has a session of a peer, in any state that the operations of a session lead to, and the
-- peer then sends three malformed payloads or more, among any payloads of any peers, nothing that the
-- peer sends from then on is answered or changes the catalog.
pub Handling-IsIgnored :
    {h g : Hub} {n m : ℕ} (peer : Peer) (s : Session) (payload : List ℕ) (now : ℤ) (host : Host)
    → get peer.id h.sessions ≡ some s
    → Lived m s
    → Handling peer.id h n g
    → 3 ≤ n
    → IsIgnored g (handle peer payload now host g)
Handling-IsIgnored {g} {n} {m} peer s payload now host there lived run three =
    let law = Lived-Law lived in
    let k =
      Handling-Known run
        (record { session = s; there = there; counts = first m s law.strikes law.muted }) in
    handle-IsIgnored g peer k.session k.there (is_muted_at n k.session three k.counts) payload now
      host
  where
    first : (m : ℕ) (s : Session) → s.malformed_strikes ≡ min m 3 → s.muted ≡ leb 3 m → Counts 0 s
    first m s k mute = record { low = ground arith; high = ground arith; muted = ground arith }
