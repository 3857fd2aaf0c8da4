-- ===== src/Handshake/Tests.antt =====
-- Replies and policies on concrete data.
use confluxmap_pumpkin.Base.{ℕ, ◌≡◌, ◌↔◌, refl, ◌^◌, ◌+◌, true, false, none, some, List, [], ◌∷◌}
use confluxmap_pumpkin.Base.Maps
use confluxmap_pumpkin.Base.Int.{pos}
use confluxmap_pumpkin.Text.{ascii}
use confluxmap_pumpkin.Wire.Utf8
use confluxmap_pumpkin.Wire.Utf8.{IsUtf8}
use confluxmap_pumpkin.Wire.Reader
use confluxmap_pumpkin.Protocol.{Str, Hello, parse_offer}
use confluxmap_pumpkin.Config.{default_config}
use confluxmap_pumpkin.Handshake.{build_policy, build_reply}
use confluxmap_pumpkin.Correction.Patch.{MapViewReq}
use confluxmap_pumpkin.Correction.Patch.Frames.{view_frame}
use confluxmap_pumpkin.State
use confluxmap_pumpkin.State.{initial, is_player_muted}
use confluxmap_pumpkin.Handshake.Handle.{Call, send_failed, handle_payload}
use confluxmap_pumpkin.Handshake.Sessions.{
  Event, payload, leave, noted, handle_events, IsSound, initial-IsSound, handle_events-IsSound,
}
use confluxmap_pumpkin.Handshake.Requests.{asked, requests-muted}
use confluxmap_pumpkin.Handshake.Seeds.{withheld, low_48, build_policy-withheld}

build_policy-withheld_example :
    (build_policy (withheld default_config (pos 5)) none
      ≡ build_policy (withheld default_config (pos (2 ^ 48 + 5))) none)
    ↔ (low_48 (pos 5) ≡ low_48 (pos (2 ^ 48 + 5)))
build_policy-withheld_example = build_policy-withheld default_config none (pos 5) (pos (2 ^ 48 + 5))

-- One profile, and version 1 of the capability 7.
abbrev hello : Hello
hello = record {
  mod_version = ascii "0.2.0";
  predictor_version = ascii "probe|sync:4|caps2:AgECAQcB";
}

abbrev instance_name : Str
instance_name = ascii "3f2b"

abbrev plugin_name : Str
plugin_name = ascii "0.4.1"

reads_offer : parse_offer hello.predictor_version ≡ record {
  predictor = ascii "probe";
  caps2 = true;
  server_instance = true;
  server_view_distance = false;
  player_positions = false;
}
unfolding parse_offer Reader.u8 Reader.remaining
reads_offer = refl

abbrev call : Call
call = record {
  player_name = ascii "Ada";
  is_java = true;
  server_version = some (ascii "0.1.0-dev+26.2-26.45");
  instance_id = instance_name;
  plugin_version = plugin_name;
  summary = ascii "hello 1";
  strike_text = λ n. ascii "malformed payload";
  muted_text = ascii "muted";
}

abbrev hello_frame : List ℕ
hello_frame = 0x01 ∷ 0 ∷ 1 ∷ b'2' ∷ 0 ∷ 2 ∷ b'v' ∷ b'0' ∷ []

abbrev events : List Event
events =
    payload call (9 ∷ [])
    ∷ payload call hello_frame
    ∷ noted (ascii "other:channel")
    ∷ leave (ascii "Ada")
    ∷ payload call hello_frame
    ∷ []

handle_events-IsSound_example : IsSound (handle_events events initial)
handle_events-IsSound_example = handle_events-IsSound events initial initial-IsSound

counts_two : (handle_events events initial).policies_sent ≡ 2
unfolding handle_events Maps.contains_key Maps.lookup Maps.remove Maps.insert
    State.clean_player_session State.note_channel initial State.record_malformed_strike Reader.u8
    Reader.utf Reader.u16 Reader.slice Utf8.from_utf8 Utf8.is_utf8 Reader.remaining build_reply
counts_two = refl

abbrev request : MapViewReq
request = record {
  req_id = pos 1;
  dim_index = 0;
  lod = 2;
  tiles = record { tile_x = pos 3; tile_z = pos 4; since_revision = pos 0 } ∷ [];
}

requests-muted_example :
    (is_player_muted
        (ascii "Ada")
        (asked call request (asked call request (asked call request initial)))
      ≡ true)
    × (handle_payload call
          (view_frame request)
          (asked call request (asked call request (asked call request initial)))
        ≡ record {
          outcome = send_failed (ascii "muted");
          sent = [];
          state = asked call request (asked call request (asked call request initial));
        })
requests-muted_example = requests-muted call request request request request initial initial-IsSound
