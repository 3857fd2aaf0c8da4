-- ===== src/Waypoints/Hub/Muted.antt =====
-- What the hub keeps of a peer that sends malformed payloads.
use mathlib.Core.Path.{subst}
use confluxmap_pumpkin.Base.{
  ℕ, suc, ◌≤◌, ◌≡◌, refl, sym, ◌∙◌, Bool, true, false, not, ◌&&◌, length, Option, none, some, leb,
  min, arith, if◌then◌else◌, Bool-cases, inl, inr,
}
use confluxmap_pumpkin.Base.Int.{ℤ}
use confluxmap_pumpkin.Base.Maps
use confluxmap_pumpkin.Base.Maps.{lookup-insert, lookup-insert_new, contains_key-lookup}
use confluxmap_pumpkin.Identity.{Uid, id_eq, id_beq, id_beq_iff}
use confluxmap_pumpkin.Waypoints.Session.{
  Session, Sessions, new_session, get, record_malformed, accept_hello, charge_control, strike,
  ensure, hello, hello_to, answer_hello,
}

-- A session with at least `n` strikes, up to the three that mute it.
pub record Counts (n : ℕ) (s : Session) : Type 0 where
  pub low : min n 3 ≤ s.malformed_strikes
  pub high : s.malformed_strikes ≤ 3
  pub muted : s.muted ≡ leb 3 s.malformed_strikes

-- The sessions have one of the peer, with at least `n` strikes.
pub record Known (id : Uid) (n : ℕ) (ss : Sessions) : Type 0 where
  pub session : Session
  pub there : get id ss ≡ some session
  pub counts : Counts n session

pub Counts-record_malformed :
    (n : ℕ) (s : Session) → Counts n s → Counts (suc n) (record_malformed s).1
unfolding record_malformed
Counts-record_malformed n s h = record {
  low = raised n s.malformed_strikes h.low h.high;
  high = capped s.malformed_strikes;
  muted = refl;
}
  where
    raised : (n k : ℕ) → min n 3 ≤ k → k ≤ 3 → min (suc n) 3 ≤ strike k
    raised n k l h = ground arith

    capped : (k : ℕ) → strike k ≤ 3
    capped k = ground arith

Counts-weaker : (n : ℕ) (s : Session) → Counts (suc n) s → Counts n s
Counts-weaker n s h = record { low = let l = h.low in ground arith; high = h.high; muted = h.muted }

-- A change that takes no strike away.
abbrev pub Spares : Session → Session → Type 0
Spares s s' = (n : ℕ) → Counts n s → Counts n s'

pub record_malformed-Spares : (s : Session) → Spares s (record_malformed s).1
record_malformed-Spares s n h = Counts-weaker n _ (Counts-record_malformed n s h)

pub same-Spares :
    (s s' : Session) → s'.malformed_strikes ≡ s.malformed_strikes → s'.muted ≡ s.muted → Spares s s'
same-Spares s s' k m n h = record {
  low = rw k h.low;
  high = rw k h.high;
  muted = rw (k, m) h.muted;
}

pub charge_control-Spares : (s : Session) (now : ℤ) → Spares s (charge_control s now).1
unfolding charge_control
charge_control-Spares s now = same-Spares s _ refl refl

accept_hello-Spares :
    (major minor : ℤ) (operator : Bool) (s : Session)
    → Spares s (accept_hello major minor operator s)
unfolding accept_hello
accept_hello-Spares major minor operator s = same-Spares s _ refl refl

same_session : (a b : Session) → some a ≡ some b → a ≡ b
same_session a b e = cc

module _ (id : Uid) (n : ℕ) where
  -- The session of some peer is changed.
  pub insert-Known :
      (key : Uid) (s s' : Session) (ss : Sessions)
      → get key ss ≡ some s
      → Spares s s'
      → Known id n ss
      → Known id n (Maps.insert key s' ss)
  insert-Known key s s' ss there spares h = elim (Bool-cases (id_beq key id)) [
    | inl mine ↦
        let found : get id ss ≡ some s =
          subst (λ j. get j ss ≡ some s) ((id_beq_iff key id).0 mine) there in
        let same = same_session h.session s (sym h.there ∙ found) in
        record {
          session = s';
          there = rw (lookup-insert key id s' ss, mine) refl;
          counts = spares n (subst (Counts n) same h.counts);
        }
    | inr other ↦ record {
      session = h.session;
      there = rw (lookup-insert key id s' ss, other) h.there;
      counts = h.counts;
    }
  ]

  -- A peer without a session gets a new one.
  insert_new-Known :
      (key : Uid) (s : Session) (ss : Sessions)
      → Known id n ss
      → Known id n (Maps.insert_new key s ss)
  insert_new-Known key s ss h = record {
    session = h.session;
    there =
        let known : Maps.contains_key id ss ≡ true = contains_key-lookup id ss ∙ rw h.there refl in
        rw (lookup-insert_new key id s ss) (elim (Bool-cases (Maps.contains_key key ss)) [
          | inl old ↦ rw old h.there
          | inr new ↦ elim (Bool-cases (id_beq key id)) [
            | inl mine ↦ let same = (id_beq_iff key id).0 mine in absurd (cc)
            | inr other ↦ rw (new, other) h.there
          ]
        ]);
    counts = h.counts;
  }

  either_Known :
      (b : Bool) (p q : Option ℤ × Sessions)
      → Known id n p.1
      → Known id n q.1
      → Known id n (if b then p else q).1
  either_Known true p q h k = h
  either_Known false p q h k = k

  module _ (key : Uid) (major minor : ℤ) (operator : Bool) where
    answer_hello-Known :
        (b : Bool) (s s' : Session) (ss : Sessions)
        → get key ss ≡ some s
        → Spares s s'
        → Known id n ss
        → Known id n (answer_hello key major minor operator (b, s') ss).1
    answer_hello-Known false s s' ss there spares h = insert-Known key s s' ss there spares h
    answer_hello-Known true s s' ss there spares h =
        insert-Known key s _ ss there
          (λ m k. accept_hello-Spares major minor operator s' m (spares m k)) h

    hello_to-Known :
        (now : ℤ) (o : Option Session) (ss : Sessions)
        → ((s : Session) → o ≡ some s → get key ss ≡ some s)
        → Known id n ss
        → Known id n (hello_to key major minor operator now (o, ss)).1
    hello_to-Known now none ss there h = h
    hello_to-Known now (some s) ss there h =
        let charge = charge_control s now in
        either_Known s.muted (none, ss) (answer_hello key major minor operator charge ss) h
          (answer_hello-Known charge.0 s charge.1 ss (there s refl) (charge_control-Spares s now) h)

    pub hello-Known :
        (now : ℤ) (ss : Sessions)
        → Known id n ss
        → Known id n (hello key major minor operator now ss).1
    unfolding hello ensure
    hello-Known now ss h =
        elim (Bool-cases (not (Maps.contains_key key ss) && leb 2048 (length ss))) [
          | inl full ↦ rw full (hello_to-Known now none ss (λ s e. absurd (cc e)) h)
          | inr free ↦
              let present = Maps.insert_new key (new_session now) ss in
              rw free (
                hello_to-Known now (get key present) present (λ s e. e)
                  (insert_new-Known key (new_session now) ss h))
        ]
