-- ===== src/Handshake/Gates.antt =====
-- Which frames of a reply go with which capabilities.
use confluxmap_pumpkin.Base.{
  ℕ, ◌≡◌, Bool, true, false, ◌&&◌, Option, List, [], ◌∷◌, ◌++◌, ◌==◌, if◌then◌else◌, take, is_some,
}
use confluxmap_pumpkin.Wire.Bytes.{to_be}
use confluxmap_pumpkin.Wire.Encoding.{utf_bytes}
use confluxmap_pumpkin.Wire.Writer
use confluxmap_pumpkin.Protocol.{Str, Offer, has_capability, clamped}
use confluxmap_pumpkin.Protocol.Layout.{selection_frame, policy_frame}
use confluxmap_pumpkin.Config.{Config, unwrap_or, world_id, resolve_worldgen, dims_for_policy}
use confluxmap_pumpkin.Handshake.{when}

-- The policy of a configuration, for the version of the server.
abbrev pub policy_of : Config → Option Str → List ℕ
policy_of c server_version =
    policy_frame (if c.share_seed && is_some c.seed then 1 else 0) (world_id c)
      (resolve_worldgen c server_version) c.budgets (take 8 (dims_for_policy c))

abbrev selection_of : Bool → Bool → Bool → List (ℕ × ℕ)
selection_of distance instance radar =
    when distance (6, 1) ++ (when instance (7, 1) ++ when radar (8, 1))

-- What the server lets a client that offers `offer` have: the capabilities 6, 7 and 8, the last where
-- the operator allows it.
abbrev pub is_granted : Config → Offer → ℕ → Bool
is_granted c offer id =
    if id == 6
    then offer.server_view_distance
    else if id == 7
    then offer.server_instance
    else if id == 8
    then offer.player_positions && c.allow_entity_radar
    else false

-- The frames that need a capability, for the capabilities that a client was told.
abbrev pub gated : Config → Str → List (ℕ × ℕ) → List (List ℕ)
gated c instance_id granted =
    when (has_capability 6 granted) (0x11 ∷ to_be 2 (unwrap_or 16 c.view_distance_override))
    ++ when (has_capability 7 granted) (0x13 ∷ utf_bytes (clamped instance_id))

pub data IsGated (c : Config) (server_version : Option Str) (instance_id plugin_version : Str)
    (offer : Offer) : List (List ℕ) → Type 0 where
  legacy :
      offer.caps2 ≡ false
      → IsGated c server_version instance_id plugin_version offer (policy_of c server_version ∷ [])
  negotiated :
      (granted : List (ℕ × ℕ))
      → offer.caps2 ≡ true
      → ((id : ℕ) → has_capability id granted ≡ is_granted c offer id)
      → IsGated c server_version instance_id plugin_version offer (
          selection_frame (clamped plugin_version) granted
          ∷ (gated c instance_id granted ++ policy_of c server_version ∷ []))
