-- ===== src/Handshake.antt =====
-- handshake.rs: the frames that answer a hello.
pub mod Seeds
pub mod Handle
pub mod Sessions
pub mod Requests
pub mod Gates
mod Tests
use confluxmap_pumpkin.Base.{ℕ, Option, none, some, Bool, ◌&&◌, List, [], ◌∷◌, ◌++◌, if◌then◌else◌}
use confluxmap_pumpkin.Protocol.{
  Str, Hello, Offer, parse_offer, build_map_capabilities, build_server_view_distance,
  build_server_instance, build_hello_policy, seed_granted, cap_server_view_distance,
  cap_server_view_distance_version, cap_server_instance, cap_server_instance_version,
  cap_player_positions, cap_player_positions_version,
}
use confluxmap_pumpkin.Config.{
  Config, grants_seed, world_id, resolve_worldgen, dims_for_policy, unwrap_or,
}

pub record Reply : Type 0 where
  pub frames : List (List ℕ)
  pub offer : Offer

abbrev pub when {ℓ} : {A : Type ℓ} → Bool → A → List A
when b a = if b then a ∷ [] else []

unfoldable pub build_policy : Config → Option Str → List ℕ
unfolding grants_seed world_id resolve_worldgen dims_for_policy build_hello_policy
build_policy c server_version =
    build_hello_policy (if grants_seed c then seed_granted else 0) (world_id c)
      (resolve_worldgen c server_version) c.budgets (dims_for_policy c)

-- What the server selects of an offer.
unfoldable pub selected : Config → Offer → List (ℕ × ℕ)
selected c offer =
    when offer.server_view_distance (cap_server_view_distance, cap_server_view_distance_version)
    ++ (when offer.server_instance (cap_server_instance, cap_server_instance_version)
        ++ when (offer.player_positions && c.allow_entity_radar)
            (cap_player_positions, cap_player_positions_version))

-- The frames in front of the policy.
unfoldable pub negotiation : Config → Str → Str → Offer → List (List ℕ)
unfolding selected build_map_capabilities build_server_view_distance build_server_instance
negotiation c instance_id plugin_version offer =
    if offer.caps2
    then build_map_capabilities plugin_version (selected c offer)
      ∷ (when offer.server_view_distance
            (build_server_view_distance (unwrap_or 16 c.view_distance_override))
          ++ when offer.server_instance (build_server_instance instance_id))
    else []

unfoldable pub build_reply : Config → Option Str → Str → Str → Hello → Reply
unfolding parse_offer negotiation build_policy
build_reply c server_version instance_id plugin_version hello =
    let offer = parse_offer hello.predictor_version in
    record {
      frames = negotiation c instance_id plugin_version offer ++ build_policy c server_version ∷ [];
      offer = offer;
    }
