-- ===== src/Config/Template.antt =====
-- config.rs: the annotated file that is written where there is none.
use confluxmap_pumpkin.Base.{List, [], ◌∷◌, ◌++◌}
use confluxmap_pumpkin.Text.{ascii}
use confluxmap_pumpkin.Waypoints.Proto.Messages.{Str}

-- Each line with its line feed.
abbrev lines_of : List Str → Str
lines_of [] = []
lines_of (line ∷ lines) = line ++ 10 ∷ lines_of lines

abbrev pub template : Str
template = lines_of (
    ascii "# confluxmap-pumpkin configuration."
    ∷ ascii "#"
    ∷ ascii "# Pumpkin offers a plugin no way to read the world seed: the plugin API has no"
    ∷ ascii "# seed accessor, and this folder is the only directory the plugin can open. The"
    ∷ ascii "# seed therefore has to be written here, and it must match `seed` in pumpkin.toml"
    ∷ ascii "# - clients predict terrain from it, so a wrong value renders a wrong map."
    ∷ ascii "#"
    ∷ ascii "# Run `/cfm reload` after editing, or restart the server."
    ∷ ascii ""
    ∷ ascii "# The world seed. Uncomment and fill in. While the line stays commented out the"
    ∷ ascii "# plugin answers with seedGranted=0 and clients render no map. Accepts a signed"
    ∷ ascii "# decimal integer, or an unsigned one for a seed Minecraft displays above"
    ∷ ascii "# 9223372036854775807."
    ∷ ascii "# seed = 0"
    ∷ ascii ""
    ∷ ascii "# Set to false to answer handshakes without granting the seed. Clients then"
    ∷ ascii "# render no map. Default: true."
    ∷ ascii "# share_seed = true"
    ∷ ascii ""
    ∷ ascii "# Whether to enable server-side authoritative map corrections from Anvil saves."
    ∷ ascii "# Default: true."
    ∷ ascii "# share_corrections = true"
    ∷ ascii ""
    ∷ ascii "# The worldgen version sent to clients, e.g. \"1.21.4\". Leave unset to use the"
    ∷ ascii "# Minecraft version of the running server."
    ∷ ascii "# worldgen = \"\""
    ∷ ascii ""
    ∷ ascii "# The client-side cache namespace. Leave unset to derive it from the seed."
    ∷ ascii "# world_id = \"\""
    ∷ ascii ""
    ∷ ascii "# Dimensions to advertise, comma separated, e.g."
    ∷ ascii "# \"minecraft:overworld,minecraft:the_nether\". Default: minecraft:overworld."
    ∷ ascii "# dims = \"minecraft:overworld\""
    ∷ ascii ""
    ∷ ascii "# Whether the shared-waypoint channel is served. Set to false to answer that"
    ∷ ascii "# channel's handshake with enabled=false and refuse every mutation. Default: true."
    ∷ ascii "# share_waypoints = true"
    ∷ ascii ""
    ∷ ascii "# Whether a non-operator may create, edit, or delete their own waypoints. Set to"
    ∷ ascii "# false to reserve management for operators while everyone still views."
    ∷ ascii "# Default: true."
    ∷ ascii "# allow_non_operator_waypoint_management = true"
    ∷ ascii ""
    ∷ ascii "# Most waypoints kept per world, over all players. Values outside 1-512 are"
    ∷ ascii "# clamped. Default: 512."
    ∷ ascii "# max_waypoints_per_world = 512"
    ∷ ascii ""
    ∷ ascii "# Most waypoints one player may publish, further capped by the per-world limit."
    ∷ ascii "# Values outside 1-64 are clamped. Default: 64."
    ∷ ascii "# max_waypoints_per_player = 64"
    ∷ ascii ""
    ∷ ascii "# Waypoint changes one player may make per minute; excess is throttled. Values"
    ∷ ascii "# outside 1-6000 are clamped. Default: 30."
    ∷ ascii "# waypoint_mutations_per_minute = 30"
    ∷ ascii ""
    ∷ ascii "# Whether to stream player positions to clients for the entity radar. Default: true."
    ∷ ascii "# allow_entity_radar = true"
    ∷ ascii ""
    ∷ ascii "# Optional view distance override in chunks advertised to clients (e.g. 16)."
    ∷ ascii "# Default: unset (queried from server)."
    ∷ ascii "# view_distance = 16"
    ∷ [])
