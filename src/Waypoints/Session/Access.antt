-- ===== src/Waypoints/Session/Access.antt =====
-- Who is answered: what a connection sends, and what its session then allows.
use confluxmap_pumpkin.Base.{
  ℕ, suc, ◌≤◌, ◌≡◌, refl, ◌∙◌, Bool, true, false, Option, none, some, leb, length, min, arith,
  if◌then◌else◌, Bool-cases, inl, inr,
}
use confluxmap_pumpkin.Base.Int.{ℤ, pos, ◌≤ℤ◌}
use confluxmap_pumpkin.Base.Maps
use confluxmap_pumpkin.Base.Maps.{contains_key-lookup, lookup-insert_new, length-insert}
use confluxmap_pumpkin.Identity.{Uid, id_eq}
use confluxmap_pumpkin.Waypoints.Session.{
  Session, Sessions, new_session, accept_hello, set_operator, set_subscribed, charge_control,
  strike, record_malformed, effective_minor, capped_minor, ensure, hello, hello_to, answer_hello,
}

-- A session that has sent `n` malformed payloads, among whatever else.
pub data Lived : ℕ → Session → Type 0 where
  opened : (now_ms : ℤ) → Lived 0 (new_session now_ms)
  malformed : {n : ℕ} {s : Session} → Lived n s → Lived (suc n) (record_malformed s).1
  greeted :
      {n : ℕ} {s : Session} (major minor : ℤ) (operator : Bool)
      → Lived n s
      → Lived n (accept_hello major minor operator s)
  permitted :
      {n : ℕ} {s : Session} (operator : Bool) → Lived n s → Lived n (set_operator operator s)
  chose : {n : ℕ} {s : Session} (on : Bool) → Lived n s → Lived n (set_subscribed on s)
  charged : {n : ℕ} {s : Session} (now_ms : ℤ) → Lived n s → Lived n (charge_control s now_ms).1

pub record Law (n : ℕ) (s : Session) : Type 0 where
  pub strikes : s.malformed_strikes ≡ min n 3
  pub muted : s.muted ≡ leb 3 n
  pub minor : s.negotiated_minor ≤ℤ pos 3

capped : (minor : ℤ) → capped_minor minor ≤ℤ pos 3
capped minor = ground arith

struck : (n k : ℕ) → k ≡ min n 3 → strike k ≡ min (suc n) 3
struck n k h = ground arith

mutes : (n k : ℕ) → k ≡ min n 3 → leb 3 (strike k) ≡ leb 3 (suc n)
mutes n k h = ground arith

pub Lived-Law : {n : ℕ} {s : Session} → Lived n s → Law n s
unfolding new_session record_malformed accept_hello charge_control
Lived-Law (opened now_ms) = record { strikes = refl; muted = refl; minor = ground arith }
Lived-Law (malformed l) =
    let h = Lived-Law l in
    record { strikes = struck _ _ h.strikes; muted = mutes _ _ h.strikes; minor = h.minor }
Lived-Law (greeted major minor operator l) =
    let h = Lived-Law l in record { strikes = h.strikes; muted = h.muted; minor = capped minor }
Lived-Law (permitted operator l) =
    let h = Lived-Law l in record { strikes = h.strikes; muted = h.muted; minor = h.minor }
Lived-Law (chose on l) =
    let h = Lived-Law l in record { strikes = h.strikes; muted = h.muted; minor = h.minor }
Lived-Law (charged now_ms l) =
    let h = Lived-Law l in record { strikes = h.strikes; muted = h.muted; minor = h.minor }

effective_ge : (s : Session) → pos 0 ≤ℤ effective_minor s
effective_ge s = ground arith

effective_le :
    (n : ℕ) (s : Session)
    → s.muted ≡ leb 3 n
    → s.negotiated_minor ≤ℤ pos 3
    → effective_minor s ≤ℤ pos (if leb 3 n then 0 else 3)
effective_le n s m h = elim (Bool-cases (leb 3 n)) [
  | inl e ↦ rw (m, e) (ground arith)
  | inr e ↦ rw (m, e) (ground arith)
]

-- A session is muted exactly from its third malformed payload on, whatever else it sends, and it is
-- spoken to at a minor from 0 to 3, which is 0 as long as it is muted.
pub Lived-effective_minor :
    {n : ℕ} {s : Session}
    → Lived n s
    → (s.muted ≡ leb 3 n)
      × (pos 0 ≤ℤ effective_minor s)
      × (effective_minor s ≤ℤ pos (if leb 3 n then 0 else 3))
Lived-effective_minor {n} {s} l =
    let h = Lived-Law l in (h.muted, effective_ge s, effective_le n s h.muted h.minor)

-- Room is kept, and a session that is handed out is in the map.
record Ensured (id : Uid) (o : Option Session) (ss : Sessions) : Type 0 where
  room : length ss ≤ 2048
  present : (s : Session) → o ≡ some s → Maps.contains_key id ss ≡ true

found_known :
    (id : Uid) (ss : Sessions) (s : Session)
    → Maps.lookup id ss ≡ some s
    → Maps.contains_key id ss ≡ true
found_known id ss s e = contains_key-lookup id ss ∙ rw e

length-insert_known :
    (id : Uid) (s : Session) (ss : Sessions)
    → Maps.contains_key id ss ≡ true
    → length (Maps.insert id s ss) ≡ length ss
length-insert_known id s ss e = length-insert id s ss ∙ rw e

ensure-Ensured :
    (id : Uid) (now_ms : ℤ) (ss : Sessions)
    → length ss ≤ 2048
    → Ensured id (ensure id now_ms ss).0 (ensure id now_ms ss).1
unfolding ensure Maps.insert_new
ensure-Ensured id now_ms ss h = elim (Bool-cases (Maps.contains_key id ss)) [
  | inl e ↦ rw e (record { room = h; present = found_known id ss })
  | inr e ↦ elim (Bool-cases (leb 2048 (length ss))) [
    | inl full ↦ rw (e, full) (record { room = h; present = λ s p. cc })
    | inr free ↦
        rw (e, free)
          (record {
            room = rw (length-insert id (new_session now_ms) ss, e) (ground arith);
            present = found_known id (Maps.insert id (new_session now_ms) ss);
          })
  ]
]

either_cap :
    (b : Bool) (p q : Option ℤ × Sessions)
    → length p.1 ≤ 2048
    → length q.1 ≤ 2048
    → length (if b then p else q).1 ≤ 2048
either_cap true p q h k = h
either_cap false p q h k = k

module _ (id : Uid) (major minor : ℤ) (operator : Bool) where
  answer-cap :
      (charge : Bool × Session) (ss : Sessions)
      → Maps.contains_key id ss ≡ true
      → length (answer_hello id major minor operator charge ss).1 ≡ length ss
  answer-cap (false, s) ss h = length-insert_known id s ss h
  answer-cap (true, s) ss h = length-insert_known id _ ss h

  hello_to-cap :
      (now_ms : ℤ) (o : Option Session) (ss : Sessions)
      → Ensured id o ss
      → length (hello_to id major minor operator now_ms (o, ss)).1 ≤ 2048
  hello_to-cap now_ms none ss h = h.room
  hello_to-cap now_ms (some s) ss h =
      either_cap s.muted (none, ss)
        (answer_hello id major minor operator (charge_control s now_ms) ss) h.room
        (rw (answer-cap (charge_control s now_ms) ss (h.present s refl)) h.room)

-- No `HELLO` of any peer makes more than 2048 sessions.
pub hello-cap :
    (id : Uid) (major minor : ℤ) (operator : Bool) (now_ms : ℤ) (ss : Sessions)
    → length ss ≤ 2048
    → length (hello id major minor operator now_ms ss).1 ≤ 2048
unfolding hello
hello-cap id major minor operator now_ms ss h =
    hello_to-cap id major minor operator now_ms (ensure id now_ms ss).0 (ensure id now_ms ss).1
      (ensure-Ensured id now_ms ss h)

-- A muted peer's `HELLO` is not answered and changes nothing.
pub hello-muted :
    (id : Uid) (major minor : ℤ) (operator : Bool) (now_ms : ℤ) (ss : Sessions) (s : Session)
    → Maps.lookup id ss ≡ some s
    → s.muted ≡ true
    → hello id major minor operator now_ms ss ≡ (none, ss)
unfolding hello ensure Maps.insert_new
hello-muted id major minor operator now_ms ss s there muted =
    let known : Maps.contains_key id ss ≡ true = contains_key-lookup id ss ∙ rw there in
    rw (known, there, muted)
