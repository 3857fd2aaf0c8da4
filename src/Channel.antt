-- ===== src/Channel.antt =====
-- channel.rs: the registration payload that names the plugin's channels to a client.
pub mod Split
mod Tests
use confluxmap_pumpkin.Base.{ℕ, List, [], ◌∷◌, ◌++◌}
use confluxmap_pumpkin.Text.{ascii}

-- `CHANNEL_ID` of protocol.rs.
abbrev pub sync_channel_id : List ℕ
sync_channel_id = ascii "confluxmap:map_sync"

-- `CHANNEL_ID` of waypoints.
abbrev pub waypoint_channel_id : List ℕ
waypoint_channel_id = ascii "confluxmap:waypoints_v1"

unfoldable pub declared_channels : List (List ℕ)
declared_channels = sync_channel_id ∷ waypoint_channel_id ∷ []

-- The loop over the channels, on the body written so far.
unfoldable pub push_channels : List ℕ → List (List ℕ) → List ℕ
push_channels body [] = body
push_channels body (channel ∷ channels) = push_channels ((body ++ channel) ++ 0 ∷ []) channels

unfoldable pub register_body : List (List ℕ) → List ℕ
unfolding push_channels
register_body channels = push_channels [] channels
