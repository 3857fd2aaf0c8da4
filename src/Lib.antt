-- ===== src/Lib.antt =====
-- The companion plugin of a map mod for the Pumpkin server: players share waypoints over a custom
-- channel, and on another the plugin tells them how to predict the map. This library models the
-- waypoint channel with the JSON it reads, the handshake of the map channel with the configuration
-- behind it, and the patch frames, and proves them correct.
--
-- The parts, and the files that model them (paths from the repository's root):
--   src/wire.rs                Wire: the cursor that reads a payload, and the writers, with Wire/Bytes
--                              and Wire/Utf8 for the byte orders and the UTF-8 test of the language
--   src/identity.rs            Identity: the 128-bit ids (`Id`, here `Uid`) and `parse_uuid`; the
--                              proofs on it are in Identity/Hex, Halves, Canonical and Strict
--   src/waypoints/proto.rs     Waypoints/Proto: Messages has the types, Decode has `decode`, Encode
--                              has `encode`; the proofs are beside them
--   src/waypoints/model.rs     Waypoints/Model: `LocationKey`, `validate` and what they call
--   src/waypoints/store.rs     Waypoints/Store: the catalog with its two indexes, `prepare_create`,
--                              `prepare_update`, `prepare_delete` and `commit`
--   src/waypoints/session.rs   Waypoints/Session: the token bucket, a session, the sessions
--   src/waypoints/persist.rs   Waypoints/Persist: when `save` accepts a snapshot
--   src/waypoints/service.rs   Waypoints/Service: `create`, `update`, `delete`, `persist`; what is kept
--                              of each player is in Waypoints/Service/Players
--   src/json.rs                Json: the parser of the waypoint file and `escape`; Json/Documents says
--                              what a document is, Json/Layout reads every one of them
--   src/correction/patch.rs    Correction/Patch: the requests for map patches and the frames that
--                              answer them; Frames says which frames are valid
--   src/protocol.rs            Protocol: the hello with its offer, and the builders of the frames;
--                              Protocol/Layout is their layout in docs/protocol.md
--   src/config.rs              Config: the settings; Config/Parse reads the file, Config/Template is
--                              the one that is written first
--   src/handshake.rs           Handshake: the reply to a hello, Handshake/Gates which frames it has;
--                              Handshake/Handle is `handle_payload`, Handshake/Sessions any sequence
--                              of payloads and other events
--   src/state.rs               State: the state of the process that the handshake changes
--   src/waypoints/mod.rs       Waypoints/Hub: `Hub::handle`; Hub/Start is the service that `configure`
--                              starts from a file; Hub/Follow is a subscriber's copy of the catalog;
--                              Hub/Silent is what a muted peer gets
--   src/channel.rs             Channel: the registration payload, and Channel/Split, a client that reads
--                              it
-- A payload of the waypoint channel reaches the hub, which decodes it for the sender's session and
-- gives a mutation to the service; the service checks it, validates its body, prepares it on the
-- catalog, writes the file and then commits. The hub answers the sender and gives the delta to all
-- subscribers; `encode` writes the frames. A payload of the map channel is a hello, which is answered
-- from the configuration, or counts as malformed.
--
-- How the state corresponds. A `Vec` or a `String` is a list (of bytes, for text). A `HashMap` is an
-- association list (Base/Maps). An `f64` is its bit pattern: Float has its comparisons and `floor`,
-- Float/Arithmetic the rounded arithmetic of the token buckets. An `i32` or `i64` is an integer
-- (Base/Int), a `u64` a natural number; both are written to words of their width. A method on
-- `&mut self` returns the new state; the service's state has the snapshot that its file holds. What
-- the host gives a call (the time, the random ids, whether the file can be written) is the record
-- `Host`. Base has the lists, maps and tests that all parts share.
--
-- `&mut self` and the statics of src/state.rs are one state that each call takes and returns: the
-- program holds a lock for the length of such a call.
--
-- Bounds. The loops follow a list or a count; a revision stops at the largest `i64`, where
-- `next_revision` refuses. `Json.parse` has fuel for four calls a byte and two more, its loop over a
-- string one for each byte, which its termination theorem shows to be enough. `Float.Arithmetic.bits`
-- has fuel for 4200 bits, twice what a number has.
--
-- Not modelled: the fields of the waypoint file (a start is given the snapshot that
-- `Persistence::load` reads of it, and a write leaves the snapshot in it), `clear` and the rest of
-- `configure` of src/waypoints/mod.rs, the
-- dispatch in src/lib.rs, the host's calls, the region files (src/correction/anvil.rs), the texts of
-- errors, warnings and logs.
pub mod Base
pub mod Identity
pub mod Float
pub mod Text
pub mod Wire
pub mod Waypoints
pub mod Channel
pub mod Json
pub mod Correction
pub mod Protocol
pub mod Config
pub mod State
pub mod Handshake
