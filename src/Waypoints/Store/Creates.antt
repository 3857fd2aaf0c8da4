-- ===== src/Waypoints/Store/Creates.antt =====
-- `prepare_create`, and its commit.
use confluxmap_pumpkin.Base.{
  ◌-◌, ◌^◌, ◌≡◌, ◌≢◌, refl, sym, ap, ◌∙◌, true, false, Option, none, some, [], ◌∷◌, ◌++◌,
  if◌then◌else◌, is_some, All-append, Bool-cases, inl, inr,
}
use confluxmap_pumpkin.Base.Int.{ℤ, pos, ◌==ℤ◌, ==ℤ_iff, suc_ℤ}
use confluxmap_pumpkin.Identity.{Uid, id_eq, id_beq}
use confluxmap_pumpkin.Waypoints.Proto.Messages.{Waypoint, ok, err}
use confluxmap_pumpkin.Waypoints.Model.{LocationKey, location_from, location_eq, location_beq}
use confluxmap_pumpkin.Waypoints.Model.{location_beq_iff}
use confluxmap_pumpkin.Waypoints.Store.{
  Store, Snapshot, Prepared, malformed, duplicate_id, duplicate_location, revision_exhausted,
  snapshot, find, find_at, first_with_id, prepare_create, commit, ◌>>=◌, upsert,
}
use confluxmap_pumpkin.Waypoints.Store.Positions.{
  first_at, or_point, Distinct-append, first_with_id-append, first_at-append,
}
use confluxmap_pumpkin.Waypoints.Store.Index.{find-first_with_id, find_at-first_at}
use confluxmap_pumpkin.Waypoints.Store.Loading.{InRevision, IsValid}
use confluxmap_pumpkin.Waypoints.Store.Mutations.{
  PreparedFor, commit-PreparedFor, All-suc, InRevision-next, positive-suc, known_id, taken_block,
  fresh_position,
}

abbrev pub max_revision : ℤ
max_revision = pos (2 ^ 63 - 1)

-- What a point must meet to be added.
pub record CanCreate (s : Store) (w : Waypoint) : Type 0 where
  pub new_id : find s w.id ≡ none
  pub free_block : find_at s (location_from w) ≡ none
  pub room : s.revision ≢ max_revision
  pub numbered : w.revision ≡ suc_ℤ s.revision

-- The mutation that adds `w` behind the others.
pub created : Store → Waypoint → Prepared
created s w = record {
  base_revision = s.revision;
  snapshot = record { revision = suc_ℤ s.revision; waypoints = s.waypoints ++ w ∷ [] };
  delta = upsert w (suc_ℤ s.revision);
}

pub not_equal : (a b : ℤ) → a ≢ b → (a ==ℤ b) ≡ false
not_equal a b h = elim (Bool-cases (a ==ℤ b)) [ inl e ↦ absurd (h ((==ℤ_iff a b).0 e)) | inr e ↦ e ]

module _ {s : Store} (v : IsValid s) (w : Waypoint) where
  prepare_create-created : CanCreate s w → prepare_create s w ≡ ok (created s w)
  unfolding prepare_create created
  prepare_create-created h = rw (
    known_id v w.id ∙ ap is_some h.new_id,
    taken_block v (location_from w) ∙ ap is_some h.free_block,
    not_equal s.revision max_revision h.room,
    (==ℤ_iff w.revision (suc_ℤ s.revision)).1 h.numbered,
  )

  created-PreparedFor : CanCreate s w → PreparedFor s (created s w)
  unfolding created
  created-PreparedFor h = record {
    base = refl;
    next = refl;
    consistent = record {
      positive = positive-suc s.revision v.positive;
      revisions =
          All-append (InRevision (suc_ℤ s.revision)) s.waypoints (w ∷ [])
            (All-suc s.revision s.waypoints v.positive v.revisions)
            (InRevision-next s.revision w v.positive h.numbered, tt);
      distinct = Distinct-append s.waypoints w v.indexed.distinct (fresh_position v w.id h.new_id);
    };
  }

is_some_of_ne {ℓ} : {A : Type ℓ} (o : Option A) → o ≢ none → is_some o ≡ true
is_some_of_ne none h = absurd (h refl)
is_some_of_ne (some a) h = refl

-- What two catalogs show at an id and at a block.
find-created :
    (s t : Store) (w : Waypoint)
    → IsValid s
    → IsValid t
    → CanCreate s w
    → snapshot t ≡ (created s w).snapshot
    → (j : Uid) → find t j ≡ (if id_beq w.id j then some w else find s j)
unfolding snapshot created
find-created s t w v v' h e j =
    rw
      (
        find-first_with_id v'.indexed j,
        find-first_with_id v.indexed j,
        ap (λ (i : Snapshot). first_with_id j i.waypoints) e,
      )
      (first_with_id-append j s.waypoints w (fresh_position v w.id h.new_id))

or_point-false : (o : Option Waypoint) (w : Waypoint) → or_point o false w ≡ o
or_point-false none w = refl
or_point-false (some a) w = refl

or_point-free :
    (l : LocationKey) (s : Store) (w : Waypoint)
    → IsValid s
    → find_at s (location_from w) ≡ none
    → or_point (find_at s l) (location_beq (location_from w) l) w
      ≡ (if location_beq (location_from w) l then some w else find_at s l)
or_point-free l s w v free = elim (Bool-cases (location_beq (location_from w) l)) [
  | inl here ↦ rw (here, ← (location_beq_iff (location_from w) l).0 here, free)
  | inr apart ↦ rw apart (or_point-false (find_at s l) w)
]

find_at-created :
    (s t : Store) (w : Waypoint)
    → IsValid s
    → IsValid t
    → CanCreate s w
    → snapshot t ≡ (created s w).snapshot
    → (l : LocationKey)
    → find_at t l ≡ (if location_beq (location_from w) l then some w else find_at s l)
unfolding snapshot created
find_at-created s t w v v' h e l =
    find_at-first_at v'.indexed l
    ∙ ap (λ (i : Snapshot). first_at l i.waypoints) e
    ∙ first_at-append l s.waypoints w
    ∙ ap (λ o. or_point o (location_beq (location_from w) l) w) (sym (find_at-first_at v.indexed l))
    ∙ or_point-free l s w v h.free_block

-- On a valid catalog that can take it, a new point is prepared and committed. The catalog is valid
-- again, shows the point behind the others at the next revision, finds it by its id and at its
-- block, and finds at every other id and block what it found before.
pub create-commit :
    (s : Store) (w : Waypoint)
    → IsValid s
    → CanCreate s w
    → (t : Store) × ((prepare_create s w >>= commit s) ≡ ok t)
      × IsValid t
      × (snapshot t ≡ record { revision = suc_ℤ s.revision; waypoints = s.waypoints ++ w ∷ [] })
      × ((j : Uid) → find t j ≡ (if id_beq w.id j then some w else find s j))
      × ((l : LocationKey)
          → find_at t l ≡ (if location_beq (location_from w) l then some w else find_at s l))
create-commit s w v h =
    let (t, done, v', same) = commit-PreparedFor s (created s w) (created-PreparedFor v w h) in
    (
      t,
      rw (prepare_create-created v w h) done,
      v',
      same ∙ unfold created in refl,
      find-created s t w v v' h same,
      find_at-created s t w v v' h same,
    )

-- Every other addition is refused, for the first of these reasons that holds: the id is in the
-- catalog, the block is taken, the revision is the last one, the point carries another revision
-- than the next.
pub prepare_create_refusals :
    (s : Store) (w : Waypoint)
    → IsValid s
    → (find s w.id ≢ none → prepare_create s w ≡ err duplicate_id)
      × (find s w.id ≡ none
          → find_at s (location_from w) ≢ none
          → prepare_create s w ≡ err duplicate_location)
      × (find s w.id ≡ none
          → find_at s (location_from w) ≡ none
          → s.revision ≡ max_revision
          → prepare_create s w ≡ err revision_exhausted)
      × (find s w.id ≡ none
          → find_at s (location_from w) ≡ none
          → s.revision ≢ max_revision
          → w.revision ≢ suc_ℤ s.revision
          → prepare_create s w ≡ err malformed)
unfolding prepare_create
prepare_create_refusals s w v = (
  λ a. rw (known_id v w.id ∙ is_some_of_ne (find s w.id) a),
  λ a b. rw (
    known_id v w.id ∙ ap is_some a,
    taken_block v (location_from w) ∙ is_some_of_ne (find_at s (location_from w)) b,
  ),
  λ a b c. rw (
    known_id v w.id ∙ ap is_some a,
    taken_block v (location_from w) ∙ ap is_some b,
    (==ℤ_iff s.revision max_revision).1 c,
  ),
  λ a b c d. rw (
    known_id v w.id ∙ ap is_some a,
    taken_block v (location_from w) ∙ ap is_some b,
    not_equal s.revision max_revision c,
    not_equal w.revision (suc_ℤ s.revision) d,
  ),
)
