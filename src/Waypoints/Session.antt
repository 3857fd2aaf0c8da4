-- ===== src/Waypoints/Session.antt =====
-- waypoints/session.rs: what the server knows of each connection. A number of tokens is an `f64`.
pub mod Access
mod Tests
use confluxmap_pumpkin.Base.{
  ℕ, zero, suc, ◌+◌, ◌-◌, ◌≡◌, Bool, true, false, not, ◌&&◌, ◌||◌, Option, none, some, List, [],
  ◌∷◌, ltb, leb, ◌==◌, if◌then◌else◌, length, min,
}
use confluxmap_pumpkin.Base.Int.{ℤ, pos, negsuc, pos_part, neg_part, ltb_ℤ, ◌==ℤ◌}
use confluxmap_pumpkin.Base.Maps
use confluxmap_pumpkin.Base.Maps.{Map}
use confluxmap_pumpkin.Identity.{Uid, id_eq}
use confluxmap_pumpkin.Float.Arithmetic.{add, sub, mul, div, of_nat, lesser, less}
use confluxmap_pumpkin.Waypoints.Proto.Messages.{Str, proto_major, proto_minor}

abbrev pub max_tracked_sessions : ℕ
max_tracked_sessions = 2048

abbrev pub max_malformed_strikes : ℕ
max_malformed_strikes = 3

-- The patterns of 8.0 and 60.0.
abbrev pub control_request_burst : ℕ
control_request_burst = 0x4020_0000_0000_0000

abbrev pub control_requests_per_minute : ℕ
control_requests_per_minute = 0x404e_0000_0000_0000

pub record Peer : Type 0 where
  pub id : Uid
  pub name : Str
  pub operator : Bool

-- `Peer::is_operator`
unfoldable pub has_permission : ℕ → Bool
has_permission permission_level = leb 2 permission_level

pub record TokenBucket : Type 0 where
  pub capacity : ℕ
  pub refill_per_ms : ℕ
  pub tokens : ℕ
  pub last_ms : ℤ

-- `TokenBucket::new`
unfoldable pub new_bucket : ℕ → ℕ → ℤ → TokenBucket
new_bucket capacity per_minute now_ms = record {
  capacity = capacity;
  refill_per_ms = div per_minute (of_nat 60000);
  tokens = capacity;
  last_ms = now_ms;
}

-- b - a, where a < b; the clock never brings two times that are 2^63 apart.
abbrev pub elapsed : ℤ → ℤ → ℕ
elapsed a b = pos_part b + neg_part a - (pos_part a + neg_part b)

unfoldable pub refill : TokenBucket → ℤ → TokenBucket
refill b now_ms =
    if ltb_ℤ b.last_ms now_ms
    then record b {
      tokens =
          lesser b.capacity
            (add b.tokens (mul (of_nat (elapsed b.last_ms now_ms)) b.refill_per_ms));
      last_ms = now_ms;
    }
    else b

abbrev pub take_token : TokenBucket → Bool × TokenBucket
take_token b =
    if less b.tokens (of_nat 1)
    then (false, b)
    else (true, record b { tokens = sub b.tokens (of_nat 1) })

-- `TokenBucket::try_consume`
unfoldable pub try_consume : TokenBucket → ℤ → Bool × TokenBucket
unfolding refill
try_consume b now_ms = take_token (refill b now_ms)

pub record Session : Type 0 where
  pub compatible : Bool
  pub negotiated_minor : ℤ
  pub subscribed : Bool
  pub operator : Bool
  pub malformed_strikes : ℕ
  pub muted : Bool
  pub control : TokenBucket

-- `Session::new`
unfoldable pub new_session : ℤ → Session
unfolding new_bucket
new_session now_ms = record {
  compatible = false;
  negotiated_minor = negsuc 0;
  subscribed = false;
  operator = false;
  malformed_strikes = 0;
  muted = false;
  control = new_bucket control_request_burst control_requests_per_minute now_ms;
}

abbrev pub is_compatible : Session → Bool
is_compatible s = s.compatible && not s.muted

abbrev pub is_subscribed : Session → Bool
is_subscribed s = is_compatible s && s.subscribed

abbrev pub is_muted : Session → Bool
is_muted s = s.muted

abbrev pub is_operator : Session → Bool
is_operator s = s.operator

abbrev pub or_zero : ℤ → ℤ
or_zero minor = if ltb_ℤ minor (pos 0) then pos 0 else minor

abbrev pub effective_minor : Session → ℤ
effective_minor s = if is_compatible s then or_zero s.negotiated_minor else pos 0

abbrev pub set_operator : Bool → Session → Session
set_operator operator s = record s { operator = operator }

abbrev pub set_subscribed : Bool → Session → Session
set_subscribed subscribed s = record s { subscribed = subscribed }

unfoldable pub charge_control : Session → ℤ → Bool × Session
charge_control s now_ms =
    let (paid, control) = try_consume s.control now_ms in (paid, record s { control = control })

pub record MalformedOutcome : Type 0 where
  pub strikes : ℕ
  pub newly_muted : Bool

-- A `u8` that saturates.
abbrev pub strike : ℕ → ℕ
strike strikes = min (min (strikes + 1) 255) max_malformed_strikes

unfoldable pub record_malformed : Session → MalformedOutcome × Session
record_malformed s =
    let strikes = strike s.malformed_strikes in
    let muted = leb max_malformed_strikes strikes in
    (
      record { strikes = strikes; newly_muted = not s.muted && muted },
      record s { malformed_strikes = strikes; muted = muted },
    )

abbrev pub capped_minor : ℤ → ℤ
capped_minor minor =
    if ltb_ℤ minor (pos 0)
    then pos 0
    else if ltb_ℤ (pos proto_minor) minor
    then pos proto_minor
    else minor

unfoldable pub accept_hello : ℤ → ℤ → Bool → Session → Session
accept_hello major minor operator s = record s {
  subscribed = false;
  compatible = major ==ℤ proto_major && not (ltb_ℤ minor (pos 0));
  negotiated_minor = capped_minor minor;
  operator = operator;
}

-- `Sessions`
abbrev pub Sessions : Type 0
Sessions = Map Uid Session

-- Either the session of a peer, in sessions that have it, or nothing where there is no room.
unfoldable pub ensure : Uid → ℤ → Sessions → Option Session × Sessions
unfolding new_session Maps.lookup
ensure id now_ms sessions =
    if not (Maps.contains_key id sessions) && leb max_tracked_sessions (length sessions)
    then (none, sessions)
    else let present = Maps.insert_new id (new_session now_ms) sessions in
      (Maps.lookup id present, present)

abbrev pub get : Uid → Sessions → Option Session
get id sessions = Maps.lookup id sessions

abbrev pub remove : Uid → Sessions → Sessions
remove id sessions = Maps.remove id sessions

abbrev pub clear : Sessions → Sessions
clear sessions = []

unfoldable pub clear_subscriptions : Sessions → Sessions
clear_subscriptions [] = []
clear_subscriptions ((id, s) ∷ rest) =
    (id, record s { subscribed = false }) ∷ clear_subscriptions rest

abbrev pub keys_where : (Session → Bool) → Sessions → List Uid
keys_where p [] = []
keys_where p ((id, s) ∷ rest) = let keys = keys_where p rest in if p s then id ∷ keys else keys

-- `Sessions::subscribed` and `Sessions::compatible`
unfoldable pub subscribed : Sessions → List Uid
subscribed sessions = keys_where is_subscribed sessions

unfoldable pub compatible : Sessions → List Uid
compatible sessions = keys_where is_compatible sessions

-- The peer's session is charged in place, also where the `HELLO` is not answered.
abbrev pub answer_hello : Uid → ℤ → ℤ → Bool → Bool × Session → Sessions → Option ℤ × Sessions
answer_hello id major minor operator (false, s) sessions = (none, Maps.insert id s sessions)
answer_hello id major minor operator (true, s) sessions =
    let greeted = accept_hello major minor operator s in
    (some (effective_minor greeted), Maps.insert id greeted sessions)

abbrev pub hello_to : Uid → ℤ → ℤ → Bool → ℤ → Option Session × Sessions → Option ℤ × Sessions
hello_to id major minor operator now_ms (none, sessions) = (none, sessions)
hello_to id major minor operator now_ms (some s, sessions) =
    if s.muted
    then (none, sessions)
    else answer_hello id major minor operator (charge_control s now_ms) sessions

-- `Sessions::hello`
unfoldable pub hello : Uid → ℤ → ℤ → Bool → ℤ → Sessions → Option ℤ × Sessions
unfolding ensure charge_control accept_hello
hello id major minor operator now_ms sessions =
    hello_to id major minor operator now_ms (ensure id now_ms sessions)

abbrev pub refresh_of : Uid → Bool → Option Session → Sessions → Bool × Sessions
refresh_of id operator none sessions = (false, sessions)
refresh_of id operator (some s) sessions =
    if is_compatible s && not (if s.operator then operator else not operator)
    then (true, Maps.insert id (record s { operator = operator }) sessions)
    else (false, sessions)

-- `Sessions::refresh_operator`
unfoldable pub refresh_operator : Uid → Bool → Sessions → Bool × Sessions
refresh_operator id operator sessions = refresh_of id operator (Maps.lookup id sessions) sessions
