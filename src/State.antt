-- ===== src/State.antt =====
-- state.rs: the state of the process. A lock is held within one function only: each function is one
-- step on the state.
use confluxmap_pumpkin.Base.{
  ℕ, ◌+◌, ◌%◌, ◌^◌, Bool, false, not, ◌&&◌, ◌||◌, Option, none, some, List, [], ◌∷◌, ◌++◌, leb,
  ◌==◌, if◌then◌else◌, length, min,
}
use confluxmap_pumpkin.Base.Maps
use confluxmap_pumpkin.Base.Maps.{Map}
use confluxmap_pumpkin.Waypoints.Proto.Messages.{Str}
use confluxmap_pumpkin.Waypoints.Model.{str_beq, str_eq}
use confluxmap_pumpkin.Config.{Config, default_config}

abbrev pub recent_capacity : ℕ
recent_capacity = 16

abbrev pub channel_capacity : ℕ
channel_capacity = 32

-- `HashSet<String>`
abbrev pub Names : Type 0
Names = Map Str (Unit {0})

pub record State : Type 0 where
  pub config : Config
  pub hellos_seen : ℕ
  pub policies_sent : ℕ
  pub send_failures : ℕ
  pub channels_registered : ℕ
  pub last_policy : Option (List ℕ)
  pub recent : List Str
  pub channels_seen : List Str
  pub late_announced : Names
  pub radar_subscribers : Names
  pub strikes : Map Str ℕ
  pub muted : Names

-- The state before the first call.
unfoldable pub initial : State
initial = record {
  config = default_config;
  hellos_seen = 0;
  policies_sent = 0;
  send_failures = 0;
  channels_registered = 0;
  last_policy = none;
  recent = [];
  channels_seen = [];
  late_announced = [];
  radar_subscribers = [];
  strikes = [];
  muted = [];
}

-- `fetch_add(1)` on an `AtomicU64`
abbrev pub counted : ℕ → ℕ
counted n = (n + 1) % 2 ^ 64

-- A queue that is full loses its oldest entry.
unfoldable pub push_bounded : ℕ → Str → List Str → List Str
push_bounded capacity line [] = line ∷ []
push_bounded capacity line (oldest ∷ lines) =
    if length (oldest ∷ lines) == capacity then lines ++ line ∷ [] else oldest ∷ lines ++ line ∷ []

abbrev pub seen_among : Str → List Str → Bool
seen_among channel [] = false
seen_among channel (seen ∷ channels) = str_beq seen channel || seen_among channel channels

unfoldable pub note_channel : Str → State → State
unfolding push_bounded
note_channel channel s =
    if seen_among channel s.channels_seen
    then s
    else record s { channels_seen = push_bounded channel_capacity channel s.channels_seen }

-- Whether the claim is the first, and the state.
unfoldable pub claim_late_announce : Str → State → Bool × State
claim_late_announce player s = (
  not (Maps.contains_key player s.late_announced),
  record s { late_announced = Maps.insert_new player tt s.late_announced },
)

unfoldable pub reset_late_announce : Str → State → State
reset_late_announce player s = record s { late_announced = Maps.remove player s.late_announced }

abbrev pub set_config : Config → State → State
set_config config s = record s { config = config }

abbrev pub count_hello : State → State
count_hello s = record s { hellos_seen = counted s.hellos_seen }

abbrev pub count_policy_sent : State → State
count_policy_sent s = record s { policies_sent = counted s.policies_sent }

abbrev pub count_send_failure : State → State
count_send_failure s = record s { send_failures = counted s.send_failures }

abbrev pub count_channel_registered : State → State
count_channel_registered s = record s { channels_registered = counted s.channels_registered }

abbrev pub remember_policy : List ℕ → State → State
remember_policy bytes s = record s { last_policy = some bytes }

abbrev pub remember_handshake : Str → State → State
remember_handshake line s = record s { recent = push_bounded recent_capacity line s.recent }

abbrev pub set_radar_subscriber : Str → Bool → State → State
set_radar_subscriber name enabled s = record s {
  radar_subscribers =
      if enabled
      then Maps.insert_new name tt s.radar_subscribers
      else Maps.remove name s.radar_subscribers;
}

-- A player leaves.
unfoldable pub clean_player_session : Str → State → State
clean_player_session name s = record s {
  radar_subscribers = Maps.remove name s.radar_subscribers;
  strikes = Maps.remove name s.strikes;
  muted = Maps.remove name s.muted;
}

unfoldable pub is_player_muted : Str → State → Bool
is_player_muted name s = Maps.contains_key name s.muted

abbrev pub count_of : Option ℕ → ℕ
count_of none = 0
count_of (some n) = n

-- The strikes of a player so far; the count is a `u8` that stays at its largest value.
unfoldable pub strikes_of : Str → State → ℕ
strikes_of name s = count_of (Maps.lookup name s.strikes)

-- `(strikes, newly_muted)`, and the state.
unfoldable pub record_malformed_strike : Str → State → (ℕ × Bool) × State
unfolding strikes_of is_player_muted
record_malformed_strike name s =
    let strikes = min (strikes_of name s + 1) 255 in
    let s' = record s { strikes = Maps.insert name strikes s.strikes } in
    let newly_muted = leb 3 strikes && not (is_player_muted name s) in
    (
      (strikes, newly_muted),
      if newly_muted then record s' { muted = Maps.insert name tt s.muted } else s',
    )
