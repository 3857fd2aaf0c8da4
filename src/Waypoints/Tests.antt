-- ===== src/Waypoints/Tests.antt =====
-- Runs of the waypoint modules on concrete data.
use confluxmap_pumpkin.Base.{
  ℕ, ◌+◌, ◌≤◌, ◌≡◌, ◌≢◌, ◌↔◌, ◌⊎◌, refl, arith, true, false, none, some, List, [], ◌∷◌, ◌++◌,
  if◌then◌else◌, length, ◌==◌, All,
}
use confluxmap_pumpkin.Base.Int.{pos, suc_ℤ}
use confluxmap_pumpkin.Base.Maps
use confluxmap_pumpkin.Identity.{Uid, id_beq}
use confluxmap_pumpkin.Text.{ascii}
use confluxmap_pumpkin.Waypoints.Proto.Messages.{
  Waypoint, normal, Inbound, delete, trailing, unhandled, snapshot, ok, err,
}
use confluxmap_pumpkin.Waypoints.Proto.Decode.{decode, decode_body, is_known, is_serverbound}
use confluxmap_pumpkin.Waypoints.Proto.Frames.{frame, frame_body, type_byte}
use confluxmap_pumpkin.Waypoints.Proto.RoundTrip.{decode-frame}
use confluxmap_pumpkin.Wire.Bytes.{to_be}
use confluxmap_pumpkin.Waypoints.Proto.Safety.{decode-ne-unhandled, decode_body-InBounds}
use confluxmap_pumpkin.Waypoints.Proto.Encode.{encode}
use confluxmap_pumpkin.Waypoints.Proto.Layout.{Encodable, snapshot_bytes, encode-snapshot}
use confluxmap_pumpkin.Float
use confluxmap_pumpkin.Waypoints.Model
use confluxmap_pumpkin.Waypoints.Model.{LocationKey, location_from, location_beq}
use confluxmap_pumpkin.Waypoints.Store
use confluxmap_pumpkin.Waypoints.Store.{
  Store, Snapshot, StoreError, Prepared, empty, find, find_at, len, stale, missing, prepare_create,
  prepare_delete, prepare_update, commit, new, malformed, ◌>>=◌, upsert, remove, push_all,
  at_revision, push,
}
use confluxmap_pumpkin.Waypoints.Store.Loading.{IsConsistent, IsValid, new_outcome}
use confluxmap_pumpkin.Waypoints.Store.Creates.{max_revision, CanCreate, create-commit}
use confluxmap_pumpkin.Waypoints.Store.Deletes.{delete-commit}
use confluxmap_pumpkin.Waypoints.Store.Updates.{CanUpdate, update-commit}
use confluxmap_pumpkin.Waypoints.Store.Abstract.{
  map_ok, create_spec, create-create_spec, delete_spec, delete-delete_spec, update_spec,
  update-update_spec,
}
use confluxmap_pumpkin.Waypoints.Store.Pending.{a_create, commit-stale}
use confluxmap_pumpkin.Waypoints.Store.History.{Reach, here, next, Commits, IsSound, Reach-IsSound}

abbrev home_id : Uid
home_id = record { high = 7; low = 9 }

abbrev player_id : Uid
player_id = record { high = 1; low = 2 }

abbrev overworld : List ℕ
overworld = ascii "minecraft:overworld"

-- The pattern of 1.5.
abbrev one_and_half : ℕ
one_and_half = 0x3ff8_0000_0000_0000

abbrev home : Waypoint
home = record {
  id = home_id;
  publisher_id = player_id;
  publisher_name = ascii "Alex";
  name = ascii "Home";
  dimension_id = overworld;
  x = one_and_half;
  y = 0;
  z = 0;
  color_argb = pos 5;
  kind = normal;
  icon_item_id = [];
  marker_label = [];
  created_at_ms = pos 100;
  revision = pos 1;
}

abbrev moved_home : Waypoint
moved_home = record home { name = ascii "Camp"; x = 0; revision = pos 2 }

abbrev one_point : Store
one_point = push_all (at_revision (pos 1)) (home ∷ [])

created_home : (prepare_create empty home >>= commit empty) ≡ ok one_point
unfolding prepare_create Store.next_revision commit push_all empty Maps.contains_key
created_home = refl

empty-IsValid : IsValid empty
empty-IsValid = (Reach-IsSound here).0.valid

one_point_reached : Reach empty 1 one_point
one_point_reached = next here (Commits.create home created_home)

one_point-IsValid : IsValid one_point
one_point-IsValid = (Reach-IsSound one_point_reached).0.valid

Reach-IsSound_example : IsSound one_point × (one_point.revision ≡ pos 1)
Reach-IsSound_example = Reach-IsSound one_point_reached

create-create_spec_example :
    map_ok (prepare_create one_point home >>= commit one_point)
    ≡ create_spec (Store.snapshot one_point) home
create-create_spec_example = create-create_spec one_point home one_point-IsValid

update-update_spec_example :
    map_ok (prepare_update one_point moved_home >>= commit one_point)
    ≡ update_spec (Store.snapshot one_point) moved_home
update-update_spec_example = update-update_spec one_point moved_home one_point-IsValid

delete-delete_spec_example :
    map_ok (prepare_delete one_point home_id >>= commit one_point)
    ≡ delete_spec (Store.snapshot one_point) home_id
delete-delete_spec_example = delete-delete_spec one_point home_id one_point-IsValid

home_can : CanCreate empty home
unfolding find find_at empty Maps.lookup
home_can = record { new_id = refl; free_block = refl; room = λ p. ground arith; numbered = refl }

create-commit_example :
    (t : Store) × ((prepare_create empty home >>= commit empty) ≡ ok t)
    × IsValid t
    × (Store.snapshot t
        ≡ record { revision = suc_ℤ empty.revision; waypoints = empty.waypoints ++ home ∷ [] })
    × ((j : Uid) → find t j ≡ (if id_beq home_id j then some home else find empty j))
    × ((l : LocationKey)
        → find_at t l
          ≡ (if location_beq (location_from home) l then some home else find_at empty l))
create-commit_example = create-commit empty home empty-IsValid home_can

home_found : find one_point home_id ≡ some home
unfolding find push_all push Maps.lookup Maps.insert
home_found = refl

moved_block_free : find_at one_point (location_from moved_home) ≡ none
unfolding find_at push_all push Maps.lookup Maps.insert_new Store.first_with_id location_from
    Maps.contains_key Maps.insert Model.location_of Model.floor_to_i64 Float.is_finite Float.floor
moved_block_free = refl

one_point_room : one_point.revision ≢ max_revision
unfolding push_all push
one_point_room p = ground arith

moved_home_can : CanUpdate one_point moved_home
unfolding find find_at push_all push Maps.lookup Maps.insert Maps.insert_new Store.first_with_id
moved_home_can = record {
  current = home;
  known = home_found;
  room = λ p. ground arith;
  numbered = refl;
  free_block = λ apart o there. absurd (cc (there, moved_block_free));
}

update-commit_example :
    (t : Store) × ((prepare_update one_point moved_home >>= commit one_point) ≡ ok t)
    × IsValid t
    × (t.revision ≡ suc_ℤ one_point.revision)
    × (len t ≡ len one_point)
    × ((j : Uid) → find t j ≡ (if id_beq home_id j then some moved_home else find one_point j))
update-commit_example = update-commit one_point moved_home one_point-IsValid moved_home_can

delete-commit_example :
    (t : Store) × ((prepare_delete one_point home_id >>= commit one_point) ≡ ok t)
    × IsValid t
    × (t.revision ≡ suc_ℤ one_point.revision)
    × (len t + 1 ≡ len one_point)
    × ((j : Uid) → find t j ≡ (if id_beq home_id j then none else find one_point j))
delete-commit_example =
    delete-commit one_point home_id home one_point-IsValid home_found one_point_room

new_outcome_example :
    (IsConsistent (Store.snapshot one_point)
      × (s : Store) × (new (Store.snapshot one_point) ≡ ok s)
      × IsValid s
      × (Store.snapshot s ≡ Store.snapshot one_point))
    ⊎ ((¬ IsConsistent (Store.snapshot one_point))
        × (new (Store.snapshot one_point) ≡ err malformed))
new_outcome_example = new_outcome (Store.snapshot one_point)

abbrev adding : Prepared
adding = record {
  base_revision = pos 0;
  snapshot = record { revision = pos 1; waypoints = home ∷ [] };
  delta = upsert home (pos 1);
}

adding_prepared : prepare_create empty home ≡ ok adding
unfolding prepare_create Store.next_revision empty Maps.contains_key
adding_prepared = refl

adding_done : commit empty adding ≡ ok one_point
unfolding commit empty push_all
adding_done = refl

commit-stale_example : commit one_point adding ≡ err stale
commit-stale_example =
    commit-stale empty one_point adding adding (a_create home adding_prepared)
      (a_create home adding_prepared) adding_done

abbrev removal : Inbound
removal = delete (record { operation_id = player_id; id = home_id; expected_revision = pos 1 })

removal_small : length (frame (pos 3) removal ++ 0 ∷ []) ≤ 8192
unfolding frame frame_body type_byte to_be
removal_small = ground arith

decode-frame_example : decode (frame (pos 3) removal ++ 0 ∷ []) (pos 3) ≡ (
    if length {A = ℕ} (0 ∷ []) == 0 then ok removal else err (trailing (length {A = ℕ} (0 ∷ []))))
decode-frame_example =
    decode-frame (pos 3) removal (0 ∷ [])
      ((ground arith, ground arith), (ground arith, ground arith), (ground arith, ground arith))
      removal_small

decode-ne-unhandled_example : decode (0x0c ∷ []) (pos 3) ≢ err (unhandled 0x0c)
decode-ne-unhandled_example = decode-ne-unhandled (0x0c ∷ []) (pos 3) 0x0c

decode_body-InBounds_example :
    (1 ≤ (decode_body 0x05 (pos 3) (record { buf = 0 ∷ 0 ∷ []; pos = 1 })).1.pos)
    × ((decode_body 0x05 (pos 3) (record { buf = 0 ∷ 0 ∷ []; pos = 1 })).1.pos
        ≤ length {A = ℕ} (0 ∷ 0 ∷ []))
decode_body-InBounds_example =
    decode_body-InBounds 0x05 (pos 3) (0 ∷ 0 ∷ []) 1 known_delete client_delete (omega arith)
  where
    known_delete : is_known 0x05 ≡ true
    known_delete = unfold is_known in refl

    client_delete : is_serverbound 0x05 ≡ false
    client_delete = unfold is_serverbound in refl

encode-snapshot_example :
    (encode (snapshot (pos 1) true (home ∷ [])) (pos 3)
      ≡ ok (snapshot_bytes (pos 3) (pos 1) true (home ∷ [])))
    ↔ ((length (home ∷ []) ≤ 512)
        × All (Encodable (pos 3)) (home ∷ [])
        × (snapshot_bytes (pos 3) (pos 1) true (home ∷ [])
            ≡ snapshot_bytes (pos 3) (pos 1) true (home ∷ [])))
encode-snapshot_example =
    encode-snapshot (pos 3) (pos 1) true (home ∷ [])
      (snapshot_bytes (pos 3) (pos 1) true (home ∷ []))
      (((ground arith, ground arith), (ground arith, ground arith)), tt)
