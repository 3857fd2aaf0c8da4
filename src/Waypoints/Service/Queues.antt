-- ===== src/Waypoints/Service/Queues.antt =====
-- A queue of keys beside a map that holds just these keys, as for the players and for the results
-- of each.
use confluxmap_pumpkin.Base.{
  ◌+◌, ◌≤◌, ◌≡◌, refl, ◌∙◌, true, false, List, [], ◌∷◌, ◌++◌, arith, if◌then◌else◌, length,
  length-append, Bool-cases, inl, inr,
}
use confluxmap_pumpkin.Base.Maps
use confluxmap_pumpkin.Base.Maps.{
  Map, contains_key-lookup, lookup-insert, lookup-remove, length-insert, length-remove-le,
}
use confluxmap_pumpkin.Identity.{Uid, id_eq, id_beq, id_beq_iff}
use confluxmap_pumpkin.Waypoints.Service.Players.{is_in, take_out}

abbrev pub Distinct : List Uid → Type 0
Distinct [] = Unit {0}
Distinct (k ∷ ks) = (is_in k ks ≡ false) × Distinct ks

pub record IsPaired {κ} {V : Type κ} (order : List Uid) (m : Map Uid V) : Type 0 where
  pub known : (k : Uid) → Maps.contains_key k m ≡ is_in k order
  pub distinct : Distinct order
  pub fits : length m ≤ length order

pub is_in-append :
    (k : Uid) (ks : List Uid) (j : Uid)
    → is_in k (ks ++ j ∷ []) ≡ (if is_in k ks then true else id_beq j k)
unfolding is_in
is_in-append k [] j = ground arith
is_in-append k (i ∷ ks) j = ground (arith, is_in-append k ks j)

Distinct-append :
    (ks : List Uid) (j : Uid) → Distinct ks → is_in j ks ≡ false → Distinct (ks ++ j ∷ [])
unfolding is_in
Distinct-append [] j d h = (refl, tt)
Distinct-append (k ∷ ks) j (fresh, d) h = (
  ground (arith, is_in-append k ks j, id_beq_iff j k, id_beq_iff k j),
  Distinct-append ks j d (ground arith),
)

-- The key is gone, and the others stay.
is_in-take_out :
    (k j : Uid) (ks : List Uid)
    → Distinct ks
    → is_in j (take_out k ks) ≡ (if id_beq k j then false else is_in j ks)
unfolding is_in take_out
is_in-take_out k j [] d = ground arith
is_in-take_out k j (i ∷ ks) (fresh, d) =
    ground (arith, is_in-take_out k j ks d, id_beq_iff i k, id_beq_iff k j, id_beq_iff i j)

Distinct-take_out : (k : Uid) (ks : List Uid) → Distinct ks → Distinct (take_out k ks)
unfolding take_out
Distinct-take_out k [] d = tt
Distinct-take_out k (i ∷ ks) (fresh, d) = elim (Bool-cases (id_beq i k)) [
  | inl e ↦ rw e d
  | inr e ↦ rw e (is_in-take_out k i ks d ∙ ground (arith, fresh), Distinct-take_out k ks d)
]

length-take_out : (k : Uid) (ks : List Uid) → length ks ≤ length (take_out k ks) + 1
unfolding take_out
length-take_out k [] = omega arith
length-take_out k (i ∷ ks) = ground (arith, length-take_out k ks)

module _ {κ} {V : Type κ} where
  contains_key-insert :
      (k j : Uid) (v : V) (m : Map Uid V)
      → Maps.contains_key j (Maps.insert k v m)
        ≡ (if id_beq k j then true else Maps.contains_key j m)
  contains_key-insert k j v m =
      rw (contains_key-lookup j (Maps.insert k v m), lookup-insert k j v m, contains_key-lookup j m)
        (elim (Bool-cases (id_beq k j)) [ inl e ↦ rw e | inr e ↦ rw e ])

  contains_key-remove :
      (k j : Uid) (m : Map Uid V)
      → Maps.contains_key j (Maps.remove k m)
        ≡ (if id_beq k j then false else Maps.contains_key j m)
  contains_key-remove k j m =
      rw (contains_key-lookup j (Maps.remove k m), lookup-remove k j m, contains_key-lookup j m)
        (elim (Bool-cases (id_beq k j)) [ inl e ↦ rw e | inr e ↦ rw e ])

  -- One key at least is removed.
  length-remove :
      (k : Uid) (m : Map Uid V)
      → Maps.contains_key k m ≡ true
      → length (Maps.remove k m) + 1 ≤ length m
  unfolding Maps.contains_key Maps.remove
  length-remove k [] h = cc
  length-remove k ((j, v) ∷ m) h = ground (arith, length-remove k m, length-remove-le k m)

  -- The oldest key goes.
  pub pop :
      (k : Uid) (order : List Uid) (m : Map Uid V)
      → IsPaired (k ∷ order) m
      → IsPaired order (Maps.remove k m) × (length (Maps.remove k m) + 1 ≤ length m)
  unfolding is_in
  pop k order m h = (
    record {
      known =
          λ j. contains_key-remove k j m ∙ ground (arith, h.known j, h.distinct.0, id_beq_iff k j);
      distinct = h.distinct.1;
      fits = omega (arith, h.fits, length-remove k m (h.known k ∙ ground (arith, id_beq_iff k k)));
    },
    length-remove k m (h.known k ∙ ground (arith, id_beq_iff k k)),
  )

  grown :
      (k : Uid) (v : V) (m : Map Uid V)
      → Maps.contains_key k m ≡ false
      → length (Maps.insert k v m) ≡ length m + 1
  grown k v m h = rw (length-insert k v m, h)

  kept :
      (k : Uid) (v : V) (m : Map Uid V)
      → Maps.contains_key k m ≡ true
      → length (Maps.insert k v m) ≡ length m
  kept k v m h = rw (length-insert k v m, h)

  -- A new key comes.
  pub push :
      (k : Uid) (v : V) (order : List Uid) (m : Map Uid V)
      → IsPaired order m
      → is_in k order ≡ false
      → IsPaired (order ++ k ∷ []) (Maps.insert k v m) × (length (Maps.insert k v m) ≡ length m + 1)
  push k v order m h new = (
    record {
      known = λ j. contains_key-insert k j v m ∙ ground (arith, h.known j, is_in-append j order k);
      distinct = Distinct-append order k h.distinct new;
      fits = omega (arith, h.fits, length-append order (k ∷ []), grown k v m (h.known k ∙ new));
    },
    grown k v m (h.known k ∙ new),
  )

  -- A key is used again.
  pub move :
      (k : Uid) (order : List Uid) (m : Map Uid V)
      → IsPaired order m
      → is_in k order ≡ true
      → IsPaired (take_out k order ++ k ∷ []) m
  move k order m h there = record {
    known = λ j.
        h.known j
        ∙ ground (
          arith,
          is_in-append j (take_out k order) k,
          is_in-take_out k j order h.distinct,
          id_beq_iff k j,
          there,
        );
    distinct =
        Distinct-append (take_out k order) k (Distinct-take_out k order h.distinct)
          (is_in-take_out k k order h.distinct ∙ ground (arith, id_beq_iff k k));
    fits =
        omega (arith, h.fits, length-take_out k order, length-append (take_out k order) (k ∷ []));
  }

  -- A key that is there is written.
  pub write :
      (k : Uid) (v : V) (order : List Uid) (m : Map Uid V)
      → IsPaired order m
      → Maps.contains_key k m ≡ true
      → IsPaired order (Maps.insert k v m) × (length (Maps.insert k v m) ≡ length m)
  write k v order m h there = (
    record {
      known = λ j. contains_key-insert k j v m ∙ ground (arith, h.known j, id_beq_iff k j, there);
      distinct = h.distinct;
      fits = omega (arith, h.fits, kept k v m there);
    },
    kept k v m there,
  )
