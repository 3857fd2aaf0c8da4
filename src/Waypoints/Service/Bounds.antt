-- ===== src/Waypoints/Service/Bounds.antt =====
-- What is retained is bounded: 256 players, and 128 results of each.
use confluxmap_pumpkin.Base.{
  ℕ, ◌+◌, ◌≤◌, ◌≡◌, refl, sym, ap, ◌∙◌, Bool, true, false, none, some, List, [], ◌∷◌, ◌++◌, arith,
  leb, if◌then◌else◌, length, Bool-cases, Option-cases, inl, inr,
}
use mathlib.Core.Path.{subst}
use confluxmap_pumpkin.Base.Int.{ℤ}
use confluxmap_pumpkin.Base.Maps
use confluxmap_pumpkin.Base.Maps.{
  Map, contains_key-lookup, lookup-insert, lookup-insert_new, lookup-remove, beq_refl,
}
use confluxmap_pumpkin.Identity.{Uid, id_eq, id_beq}
use confluxmap_pumpkin.Waypoints.Service.Players.{
  MutationResult, RequestBody, PlayerState, TrackedPlayers, new_player, drop_oldest, remember,
  is_applied, or_state, evict, make_room, touch, put, remember_for, is_in,
}
use confluxmap_pumpkin.Waypoints.Service.Queues.{IsPaired, pop, push, move, write}

pub record IsPlayer (p : PlayerState) : Type 0 where
  pub paired : IsPaired p.order p.results
  pub small : length p.results ≤ 128

pub record IsBounded (ps : TrackedPlayers) : Type 0 where
  pub paired : IsPaired ps.order ps.states
  pub small : length ps.states ≤ 256
  pub players : (k : Uid) (p : PlayerState) → Maps.lookup k ps.states ≡ some p → IsPlayer p

new_player-IsPlayer : (rate : ℕ) (now : ℤ) → IsPlayer (new_player rate now)
unfolding new_player is_in Maps.contains_key
new_player-IsPlayer rate now = record {
  paired = record { known = λ k. refl; distinct = tt; fits = ground arith };
  small = ground arith;
}

-- Room for one more.
record HasRoom (p : PlayerState) : Type 0 where
  paired : IsPaired p.order p.results
  room : length p.results + 1 ≤ 128

unknown {κ} :
    {V : Type κ} (k : Uid) (m : Map Uid V) → Maps.lookup k m ≡ none → Maps.contains_key k m ≡ false
unknown k m e = contains_key-lookup k m ∙ rw e

pub known {κ} :
    {V : Type κ} (k : Uid) (m : Map Uid V) (v : V)
    → Maps.lookup k m ≡ some v
    → Maps.contains_key k m ≡ true
known k m v e = contains_key-lookup k m ∙ rw e

drop_oldest-HasRoom :
    (order : List Uid) (p : PlayerState)
    → p.order ≡ order
    → 128 ≤ length order
    → IsPlayer p
    → HasRoom (drop_oldest (record p { order = order }))
drop_oldest-HasRoom [] p e full h = absurd (ground (arith, full))
drop_oldest-HasRoom (oldest ∷ order) p e full h =
    let (paired, less) =
      pop oldest order p.results (subst (λ o. IsPaired o p.results) e h.paired) in
    record { paired = paired; room = omega (arith, less, h.small) }

-- The room that `remember` makes.
room_made :
    (p : PlayerState) → IsPlayer p → HasRoom (if leb 128 (length p.order) then drop_oldest p else p)
room_made p h = elim (Bool-cases (leb 128 (length p.order))) [
  | inl e ↦ rw e (drop_oldest-HasRoom p.order p refl (ground arith) h)
  | inr e ↦ rw e (record { paired = h.paired; room = ground (arith, h.paired.fits) })
]

-- What goes when the oldest goes is no key that was unknown.
still_unknown :
    (op : Uid) (order : List Uid) (p : PlayerState)
    → is_in op order ≡ false
    → is_in op (drop_oldest (record p { order = order })).order ≡ false
unfolding is_in
still_unknown op [] p h = refl
still_unknown op (oldest ∷ order) p h = ground arith

new_there :
    (op : Uid) (p : PlayerState) (b : Bool)
    → is_in op p.order ≡ false
    → is_in op (if b then drop_oldest p else p).order ≡ false
new_there op p true h = still_unknown op p.order p h
new_there op p false h = h

remember-IsPlayer :
    (op : Uid) (body : RequestBody) (r : MutationResult) (p : PlayerState)
    → IsPlayer p
    → Maps.lookup op p.results ≡ none
    → IsPlayer (remember op body r p)
unfolding remember
remember-IsPlayer op body r p h new =
    let q : PlayerState = if leb 128 (length p.order) then drop_oldest p else p in
    let made : HasRoom q = room_made p h in
    let fresh : is_in op p.order ≡ false = sym (h.paired.known op) ∙ unknown op p.results new in
    let (paired, more) =
      push op _ q.order q.results made.paired (new_there op p (leb 128 (length p.order)) fresh) in
    record { paired = paired; small = omega (arith, more, made.room) }

-- The players with room for `key`.
record HasPlace (key : Uid) (ps : TrackedPlayers) : Type 0 where
  ready :
      (fresh : PlayerState) → IsPaired (ps.order ++ key ∷ []) (Maps.insert_new key fresh ps.states)
  small : (fresh : PlayerState) → length (Maps.insert_new key fresh ps.states) ≤ 256
  players : (k : Uid) (p : PlayerState) → Maps.lookup k ps.states ≡ some p → IsPlayer p

push_place :
    (key : Uid) (ps : TrackedPlayers)
    → IsPaired ps.order ps.states
    → length ps.states + 1 ≤ 256
    → is_in key ps.order ≡ false
    → ((k : Uid) (p : PlayerState) → Maps.lookup k ps.states ≡ some p → IsPlayer p)
    → HasPlace key ps
unfolding Maps.insert_new
push_place key ps h room new players =
    let absent : Maps.contains_key key ps.states ≡ false = h.known key ∙ new in
    record {
      ready = λ fresh. rw absent (push key fresh ps.order ps.states h new).0;
      small = λ fresh. rw absent (omega (arith, (push key fresh ps.order ps.states h new).1, room));
      players = players;
    }

evict_place :
    (key : Uid) (order : List Uid) (ps : TrackedPlayers)
    → ps.order ≡ order
    → 256 ≤ length ps.states
    → is_in key ps.order ≡ false
    → IsBounded ps
    → HasPlace key (evict (record ps { order = order }))
evict_place key [] ps e full new h = absurd (omega (arith, full, h.paired.fits, ap length e))
evict_place key (oldest ∷ order) ps e full new h =
    let (paired, less) =
      pop oldest order ps.states (subst (λ o. IsPaired o ps.states) e h.paired) in
    push_place key (record { order = order; states = Maps.remove oldest ps.states }) paired
      (omega (arith, less, h.small)) (tail_new (subst (λ o. is_in key o ≡ false) e new))
      λ k p there. h.players k p (kept k p there)
  where
    tail_new : is_in key (oldest ∷ order) ≡ false → is_in key order ≡ false
    tail_new q = unfold is_in in ground arith

    kept :
        (k : Uid) (p : PlayerState)
        → Maps.lookup k (Maps.remove oldest ps.states) ≡ some p
        → Maps.lookup k ps.states ≡ some p
    kept k p there = ground (arith, lookup-remove oldest k ps.states)

make_room-HasPlace :
    (key : Uid) (ps : TrackedPlayers) → IsBounded ps → HasPlace key (make_room key ps)
unfolding make_room Maps.insert_new
make_room-HasPlace key ps h = elim (Bool-cases (is_in key ps.order)) [
  | inl e ↦ rw e (record {
    ready = λ fresh. rw (h.paired.known key, e) (move key ps.order ps.states h.paired e);
    small = λ fresh. rw (h.paired.known key, e) h.small;
    players = h.players;
  })
  | inr e ↦ elim (Bool-cases (leb 256 (length ps.states))) [
    | inl full ↦ rw (e, full) (evict_place key ps.order ps refl (ground arith) e h)
    | inr free ↦ rw (e, free) (push_place key ps h.paired (ground arith) e h.players)
  ]
]

or_state_new :
    (key : Uid) (fresh : PlayerState) (m : Map Uid PlayerState)
    → Maps.lookup key (Maps.insert_new key fresh m) ≡ some (or_state fresh (Maps.lookup key m))
or_state_new key fresh m = elim (Option-cases (Maps.lookup key m)) [
  | inl e ↦ rw (lookup-insert_new key key fresh m, unknown key m e, beq_refl key, e)
  | inr (p, e) ↦ rw (lookup-insert_new key key fresh m, known key m p e, e)
]

players_new :
    (key : Uid) (fresh : PlayerState) (m : Map Uid PlayerState)
    → IsPlayer fresh
    → ((k : Uid) (p : PlayerState) → Maps.lookup k m ≡ some p → IsPlayer p)
    → (k : Uid) (p : PlayerState) → Maps.lookup k (Maps.insert_new key fresh m) ≡ some p
    → IsPlayer p
players_new key fresh m f h k p e = elim (Bool-cases (Maps.contains_key key m)) [
  | inl c ↦ h k p (
      sym (
        lookup-insert_new key k fresh m
        ∙ ap
            (λ b.
              if b then Maps.lookup k m else if id_beq key k then some fresh else Maps.lookup k m)
            c)
      ∙ e)
  | inr c ↦
      let e' : (if id_beq key k then some fresh else Maps.lookup k m) ≡ some p =
        sym (
          lookup-insert_new key k fresh m
          ∙ ap
              (λ b.
                if b then Maps.lookup k m else if id_beq key k then some fresh else Maps.lookup k m)
              c)
        ∙ e in
      elim (Bool-cases (id_beq key k)) [
        | inl own ↦
            let same : some fresh ≡ some p = (rw own at e') in
            subst IsPlayer (some_injective fresh p same) f
        | inr other ↦ h k p (rw other at e')
      ]
]
  where
    some_injective : (a b : PlayerState) → some a ≡ some b → a ≡ b
    some_injective a b q = cc

-- `touch` hands out a bounded state that the players hold.
pub record Touched (key : Uid) (x : PlayerState × TrackedPlayers) : Type 0 where
  pub bounded : IsBounded x.1
  pub player : IsPlayer x.0
  pub held : Maps.lookup key x.1.states ≡ some x.0

pub touch-Touched :
    (key : Uid) (ps : TrackedPlayers) (now : ℤ) (rate : ℕ)
    → IsBounded ps
    → Touched key (touch ps key now rate)
unfolding touch
touch-Touched key ps now rate h =
    let place = make_room-HasPlace key ps h in
    let fresh = new_player rate now in
    let held = or_state_new key fresh (make_room key ps).states in
    let players =
      players_new key fresh (make_room key ps).states (new_player-IsPlayer rate now)
        place.players in
    record {
      bounded = record { paired = place.ready fresh; small = place.small fresh; players = players };
      player = players key _ held;
      held = held;
    }

pub put-IsBounded :
    (key : Uid) (p : PlayerState) (ps : TrackedPlayers)
    → IsBounded ps
    → Maps.contains_key key ps.states ≡ true
    → IsPlayer p
    → IsBounded (put key p ps)
unfolding put
put-IsBounded key p ps h there good =
    let (paired, same) = write key p ps.order ps.states h.paired there in
    record {
      paired = paired;
      small = omega (arith, same, h.small);
      players = λ k q e. elim (Bool-cases (id_beq key k)) [
        | inl own ↦
            let same' : some p ≡ some q = (rw (lookup-insert key k p ps.states, own) at e) in
            subst IsPlayer (some_injective p q same') good
        | inr other ↦ h.players k q (rw (lookup-insert key k p ps.states, other) at e)
      ];
    }
  where
    some_injective : (a b : PlayerState) → some a ≡ some b → a ≡ b
    some_injective a b q = cc

pub remember_for-IsBounded :
    (key : Uid) (body : RequestBody) (r : MutationResult) (ps : TrackedPlayers) (p : PlayerState)
    → IsBounded ps
    → Maps.lookup key ps.states ≡ some p
    → Maps.lookup r.operation_id p.results ≡ none
    → IsBounded (remember_for key body r ps)
unfolding remember_for
remember_for-IsBounded key body r ps p h there new = elim (Bool-cases (is_applied r.status)) [
  | inr e ↦ rw e h
  | inl e ↦
      rw (e, there)
        (put-IsBounded key (remember r.operation_id body r p) ps h (known key ps.states p there)
          (remember-IsPlayer r.operation_id body r p (h.players key p there) new))
]
