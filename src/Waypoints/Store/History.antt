-- ===== src/Waypoints/Store/History.antt =====
-- The catalogs that committed mutations lead to.
use confluxmap_pumpkin.Base.{
  ℕ, suc, ◌+◌, ◌≡◌, ◌≢◌, refl, sym, ap, ◌∙◌, some, [], arith, Bool-cases, Option-cases, inl, inr,
}
use mathlib.Core.Path.{subst}
use confluxmap_pumpkin.Base.Int.{ℤ, pos, suc_ℤ}
use confluxmap_pumpkin.Identity.{Uid, id_beq, id_beq_iff}
use confluxmap_pumpkin.Waypoints.Proto.Messages.{Waypoint, Result, ok, err}
use confluxmap_pumpkin.Waypoints.Model.{location_from, location_beq, location_beq_iff}
use confluxmap_pumpkin.Waypoints.Store.{
  Store, empty, push_all, find, find_at, prepare_create, prepare_delete, prepare_update, commit,
  ◌>>=◌,
}
use confluxmap_pumpkin.Waypoints.Store.Index.{find_at-first_at, push_all-IsIndexed}
use confluxmap_pumpkin.Waypoints.Store.Loading.{IsValid, snapshot_parts}
use confluxmap_pumpkin.Waypoints.Store.Creates.{
  CanCreate, max_revision, create-commit, prepare_create_refusals,
}
use confluxmap_pumpkin.Waypoints.Store.Deletes.{
  revision-deleted, delete_run, waypoints-deleted, prepare_delete_refusals, found_position,
}
use confluxmap_pumpkin.Waypoints.Store.Updates.{
  CanUpdate, shape-updated, update_run, waypoints-updated, prepare_update_refusals,
}
use confluxmap_pumpkin.Waypoints.Store.Abstract.{last_or_room, numbered_or_not}
use confluxmap_pumpkin.Waypoints.Store.Blocks.{
  first_at-elem, id-elem, DistinctBlocks, DistinctBlocks-append, DistinctBlocks-remove_at,
  DistinctBlocks-set, OnlyMine,
}

-- One committed mutation.
pub data Commits (s : Store) : Store → Type 0 where
  create : {t : Store} (w : Waypoint) → (prepare_create s w >>= commit s) ≡ ok t → Commits s t
  delete : {t : Store} (id : Uid) → (prepare_delete s id >>= commit s) ≡ ok t → Commits s t
  update : {t : Store} (w : Waypoint) → (prepare_update s w >>= commit s) ≡ ok t → Commits s t

-- `n` mutations, one after the other.
pub data Reach (s : Store) : ℕ → Store → Type 0 where
  here : Reach s 0 s
  next : {t u : Store} {n : ℕ} → Reach s n t → Commits t u → Reach s (suc n) u

pub record IsSound (s : Store) : Type 0 where
  pub valid : IsValid s
  pub blocks : DistinctBlocks s.waypoints

refused {ℓ} : {E : Type 0} {A : Type ℓ} (r : Result E A) (e : E) (a : A) → r ≡ err e → r ≡ ok a → ⊥
refused r e a p q = cc

module _ {s : Store} (v : IsValid s) where
  -- What a committed addition met.
  pub create_met :
      {t : Store} (w : Waypoint) → (prepare_create s w >>= commit s) ≡ ok t → CanCreate s w
  create_met w e =
      let (known, taken, last, other) = prepare_create_refusals s w v in
      elim (Option-cases (find s w.id)) [
        | inr (x, a) ↦ absurd (cc (e, known (λ n. cc)))
        | inl a ↦ elim (Option-cases (find_at s (location_from w))) [
          | inr (x, b) ↦ absurd (cc (e, taken a (λ n. cc)))
          | inl b ↦ elim (last_or_room s.revision) [
            | inl c ↦ absurd (cc (e, last a b c))
            | inr c ↦ elim (numbered_or_not w.revision (suc_ℤ s.revision)) [
              | inr d ↦ absurd (cc (e, other a b c d))
              | inl d ↦ record { new_id = a; free_block = b; room = c; numbered = d }
            ]
          ]
        ]
      ]

  pub delete_met :
      {t : Store} (id : Uid)
      → (prepare_delete s id >>= commit s) ≡ ok t
      → (w : Waypoint) × (find s id ≡ some w) × (s.revision ≢ max_revision)
  delete_met id e =
      let (known, last) = prepare_delete_refusals s id v in
      elim (Option-cases (find s id)) [
        | inl a ↦ absurd (cc (e, known a))
        | inr (w, a) ↦ elim (last_or_room s.revision) [
          | inl c ↦ absurd (cc (e, last (λ n. cc) c))
          | inr c ↦ (w, a, c)
        ]
      ]

  pub update_met :
      {t : Store} (w : Waypoint) → (prepare_update s w >>= commit s) ≡ ok t → CanUpdate s w
  update_met w e =
      let (known, last, other, taken) = prepare_update_refusals s w v in
      elim (Option-cases (find s w.id)) [
        | inl a ↦ absurd (cc (e, known a))
        | inr (x, a) ↦ elim (last_or_room s.revision) [
          | inl c ↦ absurd (cc (e, last (λ n. cc) c))
          | inr c ↦ elim (numbered_or_not w.revision (suc_ℤ s.revision)) [
            | inr d ↦ absurd (cc (e, other (λ n. cc) c d))
            | inl d ↦ record {
              current = x;
              known = a;
              room = c;
              numbered = d;
              free_block = λ moved o held. elim (Bool-cases (id_beq o.id w.id)) [
                | inl same ↦ (id_beq_iff o.id w.id).0 same
                | inr apart ↦ absurd (
                    cc
                      (e, taken x o a c d moved held (λ p. cc (apart, (id_beq_iff o.id w.id).1 p))))
              ];
            }
          ]
        ]
      ]

pub unique {ℓ} : {E : Type 0} {A : Type ℓ} {r : Result E A} {a b : A} → r ≡ ok a → r ≡ ok b → a ≡ b
unique p q = cc

-- One mutation keeps a valid catalog valid.
pub Commits-IsValid : {s t : Store} → IsValid s → Commits s t → IsValid t
Commits-IsValid {s} {t} v (create w e) =
    let (u, done, valid, _, _, _) = create-commit s w v (create_met v w e) in
    subst IsValid (unique done e) valid
Commits-IsValid {s} {t} v (delete id e) =
    let (w, there, room) = delete_met v id e in
    let (u, done, valid, _, _, _) = delete_run s id w v there room in
    subst IsValid (unique done e) valid
Commits-IsValid {s} {t} v (update w e) =
    let (u, done, valid, _, _, _) = update_run s w v (update_met v w e) in
    subst IsValid (unique done e) valid

moved : {r : ℤ} (u t : Store) → u ≡ t → IsSound u × (u.revision ≡ r) → IsSound t × (t.revision ≡ r)
moved {r} u t p h = subst (λ (x : Store). IsSound x × (x.revision ≡ r)) p h

-- The block that a replacement takes holds no other point.
only_mine : {s : Store} {w : Waypoint} → IsSound s → CanUpdate s w → OnlyMine s.waypoints w
only_mine {s} {w} h met o there =
    let (i, place, _, at) = found_position s w.id met.current h.valid met.known in
    let held = find_at-first_at h.valid.indexed (location_from w) ∙ there in
    elim (Bool-cases (location_beq (location_from w) (location_from met.current))) [
      | inr away ↦ met.free_block (λ p. cc (away, (location_beq_iff _ _).1 p)) o held
      | inl home ↦
          let found = first_at-elem s.waypoints i met.current h.blocks at in
          let same : some o ≡ some met.current =
            sym there
            ∙ rw ((location_beq_iff (location_from w) (location_from met.current)).0 home) found in
          let mine = id-elem w.id s.waypoints i met.current place at in cc
    ]

-- One mutation advances the revision by exactly one, and keeps a sound catalog sound.
pub Commits-IsSound :
    {s t : Store} → IsSound s → Commits s t → IsSound t × (t.revision ≡ suc_ℤ s.revision)
Commits-IsSound {s} {t} h (create w e) =
    let met = create_met h.valid w e in
    let (u, done, v, shape, _, _) = create-commit s w h.valid met in
    let (points, rev) = snapshot_parts u _ shape in
    let free = sym (find_at-first_at h.valid.indexed (location_from w)) ∙ met.free_block in
    moved u t (unique done e) (
      record { valid = v; blocks = rw points (DistinctBlocks-append s.waypoints w h.blocks free) },
      rev,
    )
Commits-IsSound {s} {t} h (delete id e) =
    let (w, there, room) = delete_met h.valid id e in
    let (u, done, v, i, _, shape) = delete_run s id w h.valid there room in
    moved u t (unique done e) (
      record {
        valid = v;
        blocks =
            rw (waypoints-deleted s u id i shape) (DistinctBlocks-remove_at s.waypoints i h.blocks);
      },
      revision-deleted s u id i shape,
    )
Commits-IsSound {s} {t} h (update w e) =
    let met = update_met h.valid w e in
    let (u, done, v, i, at, shape) = update_run s w h.valid met in
    moved u t (unique done e) (
      record {
        valid = v;
        blocks = rw (waypoints-updated s u w i shape) (
            DistinctBlocks-set s.waypoints i w h.blocks h.valid.indexed.distinct at
              (only_mine h met));
      },
      (shape-updated s u w i shape).0,
    )

one_more : (n : ℕ) → pos (n + 1) ≡ pos (suc n)
one_more n = ap pos (omega arith)

-- The catalog that `n` committed mutations make of the empty one is valid, holds at most one point in
-- a block, and has the revision `n`.
pub Reach-IsSound : {t : Store} {n : ℕ} → Reach empty n t → IsSound t × (t.revision ≡ pos n)
unfolding empty push_all
Reach-IsSound here = (
  record {
    valid = record {
      positive = ground arith;
      revisions = tt;
      indexed = push_all-IsIndexed (pos 0) [] tt;
    };
    blocks = tt;
  },
  refl,
)
Reach-IsSound {n = suc m} (next r c) =
    let (sound, at) = Reach-IsSound r in
    let (sound', up) = Commits-IsSound sound c in (sound', up ∙ ap suc_ℤ at ∙ one_more m)
