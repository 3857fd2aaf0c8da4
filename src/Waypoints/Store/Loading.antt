-- ===== src/Waypoints/Store/Loading.antt =====
-- `Store::new`: which snapshots are served.
use confluxmap_pumpkin.Base.{
  ◌≡◌, ◌↔◌, ◌⊎◌, refl, ap, ◌∙◌, false, ◌||◌, none, List, [], ◌∷◌, ◌++◌, append_assoc, append-nil,
  arith, All, Bool-cases, inl, inr,
}
use confluxmap_pumpkin.Base.Int.{ℤ, pos, ◌≤ℤ◌, ltb_ℤ}
use confluxmap_pumpkin.Base.Maps
use confluxmap_pumpkin.Base.Maps.{contains_key-lookup}
use confluxmap_pumpkin.Identity.{Uid, id_eq}
use confluxmap_pumpkin.Waypoints.Proto.Messages.{Waypoint, Result, ok, err}
use confluxmap_pumpkin.Waypoints.Store.{
  Store, Snapshot, StoreError, malformed, at_revision, push, push_all, load, new, snapshot,
}
use confluxmap_pumpkin.Waypoints.Store.Positions.{
  position, Distinct, fresh_of_Distinct, Distinct-append,
}
use confluxmap_pumpkin.Waypoints.Store.Index.{
  IsIndexed, Indexes, push-Indexes, at_revision-Indexes, push_all-IsIndexed, waypoints-push_all,
  revision-push_all,
}

-- A point's revision lies between 1 and the catalog's.
abbrev pub InRevision : ℤ → Waypoint → Type 0
InRevision revision w = (pos 1 ≤ℤ w.revision) × (w.revision ≤ℤ revision)

pub record IsConsistent (s : Snapshot) : Type 0 where
  pub positive : pos 0 ≤ℤ s.revision
  pub revisions : All (InRevision s.revision) s.waypoints
  pub distinct : Distinct s.waypoints

-- The catalog between two operations.
pub record IsValid (s : Store) : Type 0 where
  pub positive : pos 0 ≤ℤ s.revision
  pub revisions : All (InRevision s.revision) s.waypoints
  pub indexed : IsIndexed s

unknown_id :
    (s : Store) (id : Uid)
    → Indexes s
    → (Maps.contains_key id s.index ≡ false) ↔ (position id s.waypoints ≡ none)
unknown_id s id h = ground (arith, contains_key-lookup id s.index, h.by_id id)

InRevision-iff :
    (r : ℤ) (w : Waypoint)
    → ((ltb_ℤ w.revision (pos 1) || ltb_ℤ r w.revision) ≡ false) ↔ InRevision r w
InRevision-iff r w = ground arith

load-push_all :
    (s : Store) (ws : List Waypoint)
    → Indexes s
    → All (InRevision s.revision) ws
    → Distinct (s.waypoints ++ ws)
    → load s ws ≡ ok (push_all s ws)
unfolding load push_all push
load-push_all s [] h r d = refl
load-push_all s (w ∷ ws) h r d =
    let fresh = fresh_of_Distinct s.waypoints w ws d in
    rw ((InRevision-iff s.revision w).1 r.0, (unknown_id s w.id h).1 fresh)
      (load-push_all (push s w) ws (push-Indexes s w h fresh) r.1 (rw append_assoc d))

record Loaded (s : Store) (ws : List Waypoint) (t : Store) : Type 0 where
  revisions : All (InRevision s.revision) ws
  distinct : Distinct (s.waypoints ++ ws)
  built : t ≡ push_all s ws

load-Loaded :
    (s : Store) (ws : List Waypoint) (t : Store)
    → Indexes s
    → Distinct s.waypoints
    → load s ws ≡ ok t
    → Loaded s ws t
unfolding load push_all push
load-Loaded s [] t h d e = record {
  revisions = tt;
  distinct = rw append-nil d;
  built = ground arith;
}
load-Loaded s (w ∷ ws) t h d e =
    elim (Bool-cases (ltb_ℤ w.revision (pos 1) || ltb_ℤ s.revision w.revision)) [
      | inl out ↦ absurd (ground arith)
      | inr inside ↦ elim (Bool-cases (Maps.contains_key w.id s.index)) [
        | inl known ↦ absurd (ground arith)
        | inr unknown ↦
            let fresh = (unknown_id s w.id h).0 unknown in
            let rest =
              load-Loaded (push s w) ws t (push-Indexes s w h fresh)
                (Distinct-append s.waypoints w d fresh) (ground arith) in
            record {
              revisions = ((InRevision-iff s.revision w).0 inside, rest.revisions);
              distinct = rw (append_assoc s.waypoints (w ∷ []) ws) at rest.distinct;
              built = rest.built;
            }
      ]
    ]

load_error : (s : Store) (ws : List Waypoint) (x : StoreError) → load s ws ≡ err x → x ≡ malformed
unfolding load
load_error s [] x e = cc
load_error s (w ∷ ws) x e = ground (arith, load_error (push s w) ws x)

nonneg_iff : (r : ℤ) → (ltb_ℤ r (pos 0) ≡ false) ↔ (pos 0 ≤ℤ r)
nonneg_iff r = ground arith

pub snapshot_parts :
    (t : Store) (i : Snapshot)
    → snapshot t ≡ i
    → (t.waypoints ≡ i.waypoints) × (t.revision ≡ i.revision)
unfolding snapshot
snapshot_parts t i e = (ap (λ (k : Snapshot). k.waypoints) e, ap (λ (k : Snapshot). k.revision) e)

-- A catalog that is rebuilt from distinct points is valid, and shows just these points.
pub rebuilt-IsValid :
    (i : Snapshot)
    → IsConsistent i
    → IsValid (push_all (at_revision i.revision) i.waypoints)
      × (snapshot (push_all (at_revision i.revision) i.waypoints) ≡ i)
unfolding snapshot
rebuilt-IsValid i h =
    let t : Store = push_all (at_revision i.revision) i.waypoints in
    let ws : t.waypoints ≡ i.waypoints = waypoints-push_all (at_revision i.revision) i.waypoints in
    let rev : t.revision ≡ i.revision = revision-push_all (at_revision i.revision) i.waypoints in
    (
      record {
        positive = rw rev h.positive;
        revisions = rw (rev, ws) h.revisions;
        indexed = push_all-IsIndexed i.revision i.waypoints h.distinct;
      },
      rw (rev, ws),
    )

new-IsConsistent : (i : Snapshot) (s : Store) → new i ≡ ok s → IsConsistent i
unfolding new
new-IsConsistent i s e = elim (Bool-cases (ltb_ℤ i.revision (pos 0))) [
  | inl bad ↦ absurd (ground arith)
  | inr good ↦
      let h =
        load-Loaded (at_revision i.revision) i.waypoints s (at_revision-Indexes i.revision) tt
          (rw good at e) in
      record {
        positive = (nonneg_iff i.revision).0 good;
        revisions = h.revisions;
        distinct = h.distinct;
      }
]

clash : {r : Result StoreError Store} {s : Store} (x : StoreError) → r ≡ err x → r ≡ ok s → ⊥
clash x p q = cc

new_error : (i : Snapshot) (x : StoreError) → new i ≡ err x → x ≡ malformed
unfolding new
new_error i x e = ground (arith, load_error (at_revision i.revision) i.waypoints x)

-- Either a snapshot is consistent (its revision is not negative, each of its points carries a
-- revision from 1 to the catalog's, and no id stands twice), and then it is served by a valid catalog
-- that shows the same snapshot; or it is not, and then it is refused as malformed.
pub new_outcome :
    (i : Snapshot)
    → (IsConsistent i × (s : Store) × (new i ≡ ok s) × IsValid s × (snapshot s ≡ i))
      ⊎ ((¬ IsConsistent i) × (new i ≡ err malformed))
new_outcome i = outcome (new i) refl
  where
    accepted : IsConsistent i → new i ≡ ok (push_all (at_revision i.revision) i.waypoints)
    accepted h =
        unfold new in
        rw ((nonneg_iff i.revision).1 h.positive) (
          load-push_all (at_revision i.revision) i.waypoints (at_revision-Indexes i.revision)
            h.revisions h.distinct)

    outcome :
        (o : Result StoreError Store)
        → new i ≡ o
        → (IsConsistent i × (s : Store) × (new i ≡ ok s) × IsValid s × (snapshot s ≡ i))
          ⊎ ((¬ IsConsistent i) × (new i ≡ err malformed))
    outcome (ok s) e =
        let h = new-IsConsistent i s e in
        let (valid, same) = rebuilt-IsValid i h in
        inl (h, push_all (at_revision i.revision) i.waypoints, accepted h, valid, same)
    outcome (err x) e = inr (λ h. clash x e (accepted h), e ∙ ap err (new_error i x e))
