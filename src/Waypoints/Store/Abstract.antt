-- ===== src/Waypoints/Store/Abstract.antt =====
-- What the catalog promises, on its list of points alone, and that the indexed catalog does just that.
use confluxmap_pumpkin.Base.{
  ℕ, zero, suc, ◌≡◌, ◌≢◌, ◌⊎◌, refl, sym, ap, Bool, true, false, not, ◌&&◌, Option, none, some,
  List, [], ◌∷◌, ◌++◌, arith, if◌then◌else◌, is_some, set, remove_at, Bool-cases, Option-cases, inl,
  inr,
}
use confluxmap_pumpkin.Base.Int.{ℤ, ◌==ℤ◌, ==ℤ_iff, suc_ℤ}
use confluxmap_pumpkin.Identity.{Uid, id_beq, id_beq_iff}
use confluxmap_pumpkin.Waypoints.Proto.Messages.{Waypoint, Result, ok, err}
use confluxmap_pumpkin.Waypoints.Model.{location_from, location_beq, location_beq_iff}
use confluxmap_pumpkin.Waypoints.Store.{
  Store, Snapshot, StoreError, duplicate_id, duplicate_location, missing, revision_exhausted,
  malformed, snapshot, find, find_at, first_with_id, prepare_create, prepare_delete, prepare_update,
  commit, ◌>>=◌,
}
use confluxmap_pumpkin.Waypoints.Store.Positions.{position, first_at, Distinct}
use confluxmap_pumpkin.Waypoints.Store.Index.{find-first_with_id, find_at-first_at}
use confluxmap_pumpkin.Waypoints.Store.Loading.{IsValid}
use confluxmap_pumpkin.Waypoints.Store.Creates.{
  max_revision, not_equal, create-commit, prepare_create_refusals,
}
use confluxmap_pumpkin.Waypoints.Store.Deletes.{
  delete_run, prepare_delete_refusals, waypoints-deleted, revision-deleted,
}
use confluxmap_pumpkin.Waypoints.Store.Updates.{
  update_run, prepare_update_refusals, waypoints-updated, shape-updated,
}

abbrev pub map_ok : Result StoreError Store → Result StoreError Snapshot
map_ok (ok s) = ok (snapshot s)
map_ok (err e) = err e

-- All points but those with this id.
unfoldable pub without : Uid → List Waypoint → List Waypoint
without id [] = []
without id (w ∷ ws) = if id_beq w.id id then without id ws else w ∷ without id ws

-- `w` in place of the points with its id.
unfoldable pub with_point : Waypoint → List Waypoint → List Waypoint
with_point w [] = []
with_point w (x ∷ xs) = (if id_beq x.id w.id then w else x) ∷ with_point w xs

unfoldable pub create_spec : Snapshot → Waypoint → Result StoreError Snapshot
create_spec c w =
    if is_some (first_with_id w.id c.waypoints)
    then err duplicate_id
    else if is_some (first_at (location_from w) c.waypoints)
    then err duplicate_location
    else if c.revision ==ℤ max_revision
    then err revision_exhausted
    else if w.revision ==ℤ suc_ℤ c.revision
    then ok (record { revision = suc_ℤ c.revision; waypoints = c.waypoints ++ w ∷ [] })
    else err malformed

unfoldable pub delete_spec : Snapshot → Uid → Result StoreError Snapshot
delete_spec c id =
    if is_some (first_with_id id c.waypoints)
    then if c.revision ==ℤ max_revision
      then err revision_exhausted
      else ok (record { revision = suc_ℤ c.revision; waypoints = without id c.waypoints })
    else err missing

-- A point that leaves its block for one where another point stands first.
abbrev pub blocked : Waypoint → Option Waypoint → Option Waypoint → Bool
blocked w (some current) (some other) =
    not (location_beq (location_from w) (location_from current)) && not (id_beq other.id w.id)
blocked w none o = false
blocked w (some current) none = false

unfoldable pub update_spec : Snapshot → Waypoint → Result StoreError Snapshot
update_spec c w =
    if is_some (first_with_id w.id c.waypoints)
    then if c.revision ==ℤ max_revision
      then err revision_exhausted
      else if w.revision ==ℤ suc_ℤ c.revision
      then if blocked w (first_with_id w.id c.waypoints) (first_at (location_from w) c.waypoints)
        then err duplicate_location
        else ok (record { revision = suc_ℤ c.revision; waypoints = with_point w c.waypoints })
      else err malformed
    else err missing

without-absent : (id : Uid) (ws : List Waypoint) → position id ws ≡ none → without id ws ≡ ws
unfolding without position
without-absent id [] h = refl
without-absent id (w ∷ ws) h = ground (arith, without-absent id ws)

with_point-absent :
    (w : Waypoint) (xs : List Waypoint) → position w.id xs ≡ none → with_point w xs ≡ xs
unfolding with_point position
with_point-absent w [] h = refl
with_point-absent w (x ∷ xs) h = ground (arith, with_point-absent w xs)

-- With distinct ids, the removal by position is the removal by id.
without-remove_at :
    (id : Uid) (ws : List Waypoint) (i : ℕ)
    → Distinct ws
    → position id ws ≡ some i
    → remove_at ws i ≡ without id ws
unfolding without position
without-remove_at id [] i d h = cc
without-remove_at id (w ∷ ws) zero d h = ground (arith, id_beq_iff w.id id, without-absent id ws)
without-remove_at id (w ∷ ws) (suc i) d h = ground (arith, without-remove_at id ws i)

with_point-set :
    (w : Waypoint) (xs : List Waypoint) (i : ℕ)
    → Distinct xs
    → position w.id xs ≡ some i
    → set xs i w ≡ with_point w xs
unfolding with_point position
with_point-set w [] i d h = cc
with_point-set w (x ∷ xs) zero d h = ground (arith, id_beq_iff x.id w.id, with_point-absent w xs)
with_point-set w (x ∷ xs) (suc i) d h = ground (arith, with_point-set w xs i)

pub last_or_room : (r : ℤ) → (r ≡ max_revision) ⊎ (r ≢ max_revision)
last_or_room r = elim (Bool-cases (r ==ℤ max_revision)) [
  | inl e ↦ inl ((==ℤ_iff r max_revision).0 e)
  | inr e ↦ inr (λ p. cc (e, (==ℤ_iff r max_revision).1 p))
]

pub numbered_or_not : (a b : ℤ) → (a ≡ b) ⊎ (a ≢ b)
numbered_or_not a b = elim (Bool-cases (a ==ℤ b)) [
  | inl e ↦ inl ((==ℤ_iff a b).0 e)
  | inr e ↦ inr (λ p. cc (e, (==ℤ_iff a b).1 p))
]

same_snapshot :
    (t : Store) (r : ℤ) (ws : List Waypoint)
    → t.revision ≡ r
    → t.waypoints ≡ ws
    → snapshot t ≡ record { revision = r; waypoints = ws }
unfolding snapshot
same_snapshot t r ws p q = rw (p, q)

-- A valid catalog adds a point, or refuses it, as its list of points alone prescribes.
pub create-create_spec :
    (s : Store) (w : Waypoint)
    → IsValid s
    → map_ok (prepare_create s w >>= commit s) ≡ create_spec (snapshot s) w
unfolding create_spec snapshot
create-create_spec s w v =
    let (known, taken, last, other) = prepare_create_refusals s w v in
    let by_id = sym (find-first_with_id v.indexed w.id) in
    let by_block = sym (find_at-first_at v.indexed (location_from w)) in
    elim (Option-cases (find s w.id)) [
      | inr (x, a) ↦ rw (known (λ n. cc), by_id, a)
      | inl a ↦ elim (Option-cases (find_at s (location_from w))) [
        | inr (x, b) ↦ rw (taken a (λ n. cc), by_id, a, by_block, b)
        | inl b ↦ elim (last_or_room s.revision) [
          | inl c ↦ rw (last a b c, by_id, a, by_block, b, (==ℤ_iff s.revision max_revision).1 c)
          | inr c ↦ elim (numbered_or_not w.revision (suc_ℤ s.revision)) [
            | inr d ↦ rw (
              other a b c d,
              by_id,
              a,
              by_block,
              b,
              not_equal s.revision max_revision c,
              not_equal w.revision (suc_ℤ s.revision) d,
            )
            | inl d ↦
                let (t, done, _, shape, _, _) =
                  create-commit s w v
                    (record { new_id = a; free_block = b; room = c; numbered = d }) in
                rw
                  (
                    done,
                    by_id,
                    a,
                    by_block,
                    b,
                    not_equal s.revision max_revision c,
                    (==ℤ_iff w.revision (suc_ℤ s.revision)).1 d,
                  )
                  (ap ok shape)
          ]
        ]
      ]
    ]

-- A valid catalog removes a point, or refuses to, as its list of points alone prescribes.
pub delete-delete_spec :
    (s : Store) (id : Uid)
    → IsValid s
    → map_ok (prepare_delete s id >>= commit s) ≡ delete_spec (snapshot s) id
unfolding delete_spec snapshot
delete-delete_spec s id v =
    let (known, last) = prepare_delete_refusals s id v in
    let by_id = sym (find-first_with_id v.indexed id) in
    elim (Option-cases (find s id)) [
      | inl a ↦ rw (known a, by_id, a)
      | inr (w, a) ↦ elim (last_or_room s.revision) [
        | inl c ↦ rw (last (λ n. cc) c, by_id, a, (==ℤ_iff s.revision max_revision).1 c)
        | inr c ↦
            let (t, done, _, i, at, shape) = delete_run s id w v a c in
            rw
              (
                done,
                by_id,
                a,
                not_equal s.revision max_revision c,
                ← without-remove_at id s.waypoints i v.indexed.distinct at,
              )
              (ap ok (
                same_snapshot t _ _ (revision-deleted s t id i shape)
                  (waypoints-deleted s t id i shape)))
      ]
    ]

unblocked :
    (w c : Waypoint) (o : Option Waypoint)
    → blocked w (some c) o ≡ false
    → location_from w ≢ location_from c
    → (x : Waypoint) → o ≡ some x
    → x.id ≡ w.id
unblocked w c none h apart x e = cc
unblocked w c (some y) h apart x e =
    let named : y ≡ x = cc in
    rw (← named)
      (ground (arith, id_beq_iff y.id w.id, location_beq_iff (location_from w) (location_from c)))

blocked_by :
    (w c : Waypoint) (o : Option Waypoint)
    → blocked w (some c) o ≡ true
    → (x : Waypoint) × (o ≡ some x) × (location_from w ≢ location_from c) × (x.id ≢ w.id)
blocked_by w c none h = cc
blocked_by w c (some y) h = (
  y,
  refl,
  ground (arith, location_beq_iff (location_from w) (location_from c)),
  ground (arith, id_beq_iff y.id w.id),
)

-- A valid catalog replaces a point, or refuses to, as its list of points alone prescribes.
pub update-update_spec :
    (s : Store) (w : Waypoint)
    → IsValid s
    → map_ok (prepare_update s w >>= commit s) ≡ update_spec (snapshot s) w
unfolding update_spec snapshot
update-update_spec s w v =
    let (known, last, other, taken) = prepare_update_refusals s w v in
    let by_id = sym (find-first_with_id v.indexed w.id) in
    let by_block = sym (find_at-first_at v.indexed (location_from w)) in
    elim (Option-cases (find s w.id)) [
      | inl a ↦ rw (known a, by_id, a)
      | inr (x, a) ↦ elim (last_or_room s.revision) [
        | inl c ↦ rw (last (λ n. cc) c, by_id, a, (==ℤ_iff s.revision max_revision).1 c)
        | inr c ↦ elim (numbered_or_not w.revision (suc_ℤ s.revision)) [
          | inr d ↦ rw (
            other (λ n. cc) c d,
            by_id,
            a,
            not_equal s.revision max_revision c,
            not_equal w.revision (suc_ℤ s.revision) d,
          )
          | inl d ↦ elim (Bool-cases (blocked w (some x) (find_at s (location_from w)))) [
            | inl b ↦
                let (o, there, moved, apart) = blocked_by w x (find_at s (location_from w)) b in
                rw (
                  taken x o a c d moved there apart,
                  by_id,
                  a,
                  not_equal s.revision max_revision c,
                  (==ℤ_iff w.revision (suc_ℤ s.revision)).1 d,
                  by_block,
                  b,
                )
            | inr b ↦
                let (t, done, _, i, at, shape) = update_run s w v (record {
                  current = x;
                  known = a;
                  room = c;
                  numbered = d;
                  free_block = unblocked w x (find_at s (location_from w)) b;
                }) in
                rw
                  (
                    done,
                    by_id,
                    a,
                    not_equal s.revision max_revision c,
                    (==ℤ_iff w.revision (suc_ℤ s.revision)).1 d,
                    by_block,
                    b,
                    ← with_point-set w s.waypoints i v.indexed.distinct at,
                  )
                  (ap ok (
                    same_snapshot t _ _ (shape-updated s t w i shape).0
                      (waypoints-updated s t w i shape)))
          ]
        ]
      ]
    ]
