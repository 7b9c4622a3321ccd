-- ===== src/Lib.antt =====
-- Web-SyncPlay: watching together in rooms. A server keeps the state of each room in Redis, changes
-- it message by message, and publishes what changed; clients fold what they get into their own copy.
-- This library models the state of a room, everything that writes it on behalf of a message or a
-- join, the presence beside it, the store's optimistic lock and the connection under it, the client's
-- merge, the place that a player should be at, and the server's guards: limits, duplicates and
-- addresses.
--
-- The parts, with the files of src/ that each models:
--   Room.State, Room.Messages   the records and enumerations of src/contracts (s2c.ts, schemas.ts,
--     types.ts), the limits of src/env.ts, and the calls that a handler makes besides its write
--   Room.Timeline      src/server/realtime/services/timeline.ts: the projection of the playhead, seek,
--     freeze and reset
--   Room.ActionLog     src/server/log.ts: which actions are logged, the limits of age and size
--   Room.Playlist      src/server/realtime/services/playlist-ops.ts: select, reorder and remove
--   Room.Catalog       the same file: rename, errors, durations, titles and the building of items
--   Room.Permissions   src/server/realtime/services/permissions.ts, src/shared/permissions-utils.ts
--   Room.Ownership     src/server/realtime/services/ownership.ts: the transfer of a room
--   Room.Participants  src/server/realtime/services/participants.ts: who is connected, who is pruned
--   Room.Security      src/server/realtime/services/room-security.ts: passwords and admission
--   Room.Repair        src/server/repair.ts: the repair that every write passes
--   Room.Offline       src/server/realtime/services/disconnect.ts: applyUserWentOffline and the write of
--     handleSocketDisconnect
--   Room.Mutate        src/server/realtime/handlers/mutate-room.ts and mutate-controlled.ts: the frame
--     of a message: reconcile, gate, body, repair, marks, revisions, prune keys, publication
--   Room.Handlers      src/server/realtime/handlers: the bodies (Playback, Items, Members, Update) and, in
--     Handlers itself, which gate, hint and further calls each message has
--   Room.Reports       src/server/realtime/services/local-playback-presence.ts: the playback samples of
--     a user's connections and the one that stands for them
--   Room.Presence      handleParticipantUpdate of src/server/realtime/handlers/participant.ts and
--     src/server/realtime/services/local-playback-report-lifecycle.ts: what a sample stores, and when it
--     becomes a message to the room
--   Room.Creation      src/server/realtime/services/room.ts: the seed and the first state of a room
--   Room.Join          src/server/realtime/handlers/join (admit.ts, profile.ts, membership-timing.ts,
--     commit-membership.ts): admission and membership
--   Room.Sweep         src/server/realtime/services/empty-room.ts and the sweep of one room in cleanup.ts
--   Room.History       any sequence of messages, joins, disconnects, prunes and sweeps, as a step
--     relation on rooms
--   Broadcast          src/server/realtime/broadcast/room-broadcast-bus.ts, presence-publisher.ts and
--     snapshot-publisher.ts: the marks, timers and publications of one room; Broadcast.Preview
--     src/server/realtime/handlers/seek-preview.ts
--   Store              src/server/redis/state-store.ts: updateRoom, on the connection of
--     src/server/redis/client.ts that all calls of a process share
--   ConnectionRefs     src/server/redis/presence-ref.ts, the bump script of presence-lua.ts, and the scan
--     of the refs in state-store.ts: who has a socket; ConnectionRefs.Cluster the refs beside the sockets,
--     as a step relation with scans whose writes are still to come
--   Client             src/client/realtime/room-state-merge.ts
--   Limit              src/server/security/rate-limit.ts: the bucket of the process; Limit.Redis the Lua
--     script and the fixed window, Limit.HotEvents the coalescing of frequent events
--   Dedupe             src/server/ws/request-dedupe.ts
--   UrlSafety          src/server/security/url-safety.ts
--   Player.Sync        src/client/player/playback-sync.ts
--   Media              src/shared/local-media/local-media-range.ts and the process-local map of
--     src/server/media/local-media-block-cache.ts
--   Prelude            lists with `splice`, records as association lists, and text
-- A function keeps its name in snake_case: applyPlaylistReorder is apply_playlist_reorder. The children
-- Room.Handlers.Playback, Items, Members and Update, Limit.Redis, Limit.HotEvents, Broadcast.Preview,
-- ConnectionRefs.Cluster and the children of Media hold definitions of their own; every other module
-- below a part proves what its name says of it. Room.Samples holds example rooms, and each Tests module applies the theorems to them.
--
-- How the parts meet: a message is a body (Room.Handlers.*) behind a gate (Room.Permissions), run by
-- the frame (Room.Mutate) on the room that the store reads. The body calls Room.Timeline,
-- Room.Playlist, Room.Catalog, Room.Security and Room.ActionLog; the frame calls Room.Participants
-- and Room.Repair. A join runs a closure of its own over Room.Security, Room.Repair,
-- Room.Participants and Room.Ownership. A playback sample goes to the presence (Room.Presence over
-- Room.Reports) and only with a new name, avatar or error also through the frame. Store says what a
-- run of a closure under WATCH commits to, and when it does not, Client what becomes of the payloads,
-- and Player.Sync where a player should then be. The calls of the bus that the frame answers with are
-- those that Broadcast runs.
--
-- Representation: a state that the source changes in place is a value passed on. A closure that
-- answers `false` is `abort`, one that also sets `denied` is `deny`, and one that answers `true` is
-- `write` with the room. `null` and `false` results are `none`. A JavaScript record is the list of
-- its entries in order of insertion. The clock and new ids are one stamp for each mutation. Times are
-- whole milliseconds, rates hundredths, and places on the timeline hundredths of a millisecond, so
-- that no projection rounds; a duration is in milliseconds where the source has seconds, and a token
-- is a thousand. Player.Sync has a second as a hundred thousand, and the factors of its rates in
-- hundredths. In UrlSafety a text is the list of its code points. A difference that the source clamps
-- at 0 is the truncated one. The numbers are the naturals, which a double holds exactly up to 2 ^ 53.
--
-- Bounds: the only loop with a bound is updateRoom, with its own 12 attempts; all others recurse on a
-- list or a text.
--
-- Outside: the parsing of messages by zod (a message is its parsed value), scrypt and Buffer (the
-- record Crypto), URL parsing, isIP and the lookup of names (the record Net and an argument), Redis
-- but for one key with the watch of one connection, the hash of one bucket and that of the refs
-- (whether it answers, and what INCR answers, are arguments), the stored presence (an argument),
-- sockets, timers and pub/sub (effects are values), the rate limit's answer in the playlist and join
-- handlers, the registration of shared files, and the branches of the repair for values of a wrong
-- type. Not modelled: the identities, tokens and messages around a join, the deletion of a room's
-- keys, SFU and WebRTC relays, media resolving and proxying, the engine that drives the player, and
-- the user interface.
pub mod Prelude
pub mod UrlSafety
pub mod Room
pub mod Client
pub mod Player
pub mod ConnectionRefs
pub mod Store
pub mod Media
pub mod Limit
pub mod Dedupe
pub mod Broadcast
