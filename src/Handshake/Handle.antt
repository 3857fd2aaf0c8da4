-- ===== src/Handshake/Handle.antt =====
-- handshake.rs: `handle_payload`, over the state of the process. The host says whether it is a Java
-- player, to whom alone a payload can be sent; the summary of a handshake is a line of text that the
-- caller gives.
use confluxmap_pumpkin.Base.{
  ℕ, ◌+◌, Bool, true, ◌&&◌, Option, none, some, List, [], ◌∷◌, if◌then◌else◌, length,
}
use confluxmap_pumpkin.Protocol.{Str, Hello, parse_hello_c2s, build_error}
use confluxmap_pumpkin.Handshake.{Reply, build_reply}
use confluxmap_pumpkin.State.{
  State, is_player_muted, record_malformed_strike, count_hello, count_policy_sent,
  count_send_failure, remember_policy, remember_handshake, set_radar_subscriber,
}

-- `protocol::ERR_MALFORMED_REQUEST`
abbrev pub err_malformed_request : ℕ
err_malformed_request = 1

pub data Outcome : Type 0 where
  not_hello : Option ℕ → Outcome
  replied : Str → ℕ → Outcome
  send_failed : Str → Outcome

-- What a call is given beside the payload.
pub record Call : Type 0 where
  pub player_name : Str
  pub is_java : Bool
  pub server_version : Option Str
  pub instance_id : Str
  pub plugin_version : Str
  pub summary : Str
  -- The texts that are formatted with a count of strikes, and with the name of the player.
  pub strike_text : ℕ → Str
  pub muted_text : Str

-- `data.first().copied()`
abbrev first_byte : List ℕ → Option ℕ
first_byte [] = none
first_byte (b ∷ bs) = some b

-- The total of the frames' sizes.
abbrev total : List (List ℕ) → ℕ
total [] = 0
total (frame ∷ frames) = length frame + total frames

-- `frames.last().cloned().unwrap_or_default()`
abbrev last_frame : List (List ℕ) → List ℕ
last_frame [] = []
last_frame (frame ∷ []) = frame
last_frame (frame ∷ next ∷ frames) = last_frame (next ∷ frames)

-- The frames that reach the player: `send` fails on the first one for any but a Java player.
abbrev pub sent_to : Bool → List (List ℕ) → List (List ℕ)
sent_to is_java frames = if is_java then frames else []

pub record Handled : Type 0 where
  pub outcome : Outcome
  pub sent : List (List ℕ)
  pub state : State

unfoldable pub refuse : Call → List ℕ → State → Handled
unfolding build_error
refuse call payload s =
    let ((strikes, newly_muted), s') = record_malformed_strike call.player_name s in
    record {
      outcome = not_hello (first_byte payload);
      sent =
          sent_to call.is_java (build_error err_malformed_request (call.strike_text strikes) ∷ []);
      state = s';
    }

-- The end of a handshake, when the frames were offered to the transport.
unfoldable pub conclude : Call → Reply → State → Handled
conclude call reply s =
    let s' =
      if call.is_java && reply.offer.player_positions && s.config.allow_entity_radar
      then set_radar_subscriber call.player_name true s
      else s in
    if call.is_java
    then record {
      outcome = replied call.summary (total reply.frames);
      sent = reply.frames;
      state = remember_handshake call.summary (count_policy_sent s');
    }
    else record {
      outcome = send_failed call.summary;
      sent = [];
      state = remember_handshake call.summary (count_send_failure s');
    }

unfoldable pub answer : Call → Hello → State → Handled
unfolding conclude
answer call hello s =
    let s1 = count_hello s in
    let reply =
      build_reply s1.config call.server_version call.instance_id call.plugin_version hello in
    conclude call reply (remember_policy (last_frame reply.frames) s1)

abbrev handle_parsed : Option Hello → Call → List ℕ → State → Handled
handle_parsed none call payload s = refuse call payload s
handle_parsed (some hello) call payload s = answer call hello s

unfoldable pub handle_payload : Call → List ℕ → State → Handled
unfolding is_player_muted refuse answer parse_hello_c2s
handle_payload call payload s =
    if is_player_muted call.player_name s
    then record { outcome = send_failed call.muted_text; sent = []; state = s }
    else handle_parsed (parse_hello_c2s payload) call payload s
