-- ===== src/Lib.antt =====
-- SyncStudy, shared study rooms: a video that stays in step for everyone in a room.
--
-- The server keeps an anchor per room: a position, the time at which it was right, and a rate. Every
-- viewer works out the current position from it. Controls go through one script in Redis, which
-- decides by the revision and the lock which of two wins. Limiters stand before the web routes and
-- before the socket events, and what is broadcast is written to Postgres behind the broadcast.
--
--   Timeline     packages/shared/src/video.ts: `positionAt`, `applyControl`, `applySetVideo`,
--                `freezeAnchor`, `decideControl`.
--   Permissions  packages/shared/src/permissions.ts, `canControlVideo` of video.ts, and
--                `resolvePermissions` of apps/realtime/src/handlers/context.ts.
--   RoomState    apps/realtime/src/rooms/RoomStore.ts: the anchor as a Redis hash, `getState` and
--                `applyAtomic`; apps/realtime/src/scripts/transactVideo.lua.
--   WebLimit     apps/web/lib/server/rate-limit.ts, the whole file.
--   SocketLimit  apps/realtime/src/ratelimit/tokenBucket.ts and
--                apps/realtime/src/scripts/rateLimit.lua, the whole files.
--   WriteBehind  apps/realtime/src/chat/writeBehind.ts.
--   Guard        `guardRoomEvent` of apps/realtime/src/handlers/context.ts, over SocketLimit and
--                Permissions.
--   VideoHandlers  `video:control` of apps/realtime/src/handlers/video.ts, over Timeline,
--                Permissions and RoomState.
--   WaitForSlow  the wait for slow clients of the same file, over RoomState.
--   ClientStore  apps/web/lib/stores/room-store.ts: the reducers of the browser's store, and
--                `syncStatusEquals` of apps/web/lib/sync/types.ts.
--   Leader       apps/realtime/src/rooms/leader.ts: the scripts, `tick` room by room, `track`,
--                `untrack`, `release`.
--   DriftLoop    apps/web/lib/sync/controller.ts and seek-latency.ts: the loop that keeps a player
--                where the anchor says, over Timeline, with the gate of autoplay.
--   Ids          packages/shared/src/ids.ts: `uuidv7` and its sequence, room codes.
--   NotesStore   apps/realtime/src/notes/store.ts: the blocks of the shared document, an update with
--                its read and its write.
--   ServerClock  apps/web/lib/sync/clock.ts: the estimate of the server's clock, sync after sync.
--   Base         what these share: signed integers, lists, texts and Boolean tests.
--
-- Numbers. The source's numbers are doubles. Positions stand here as integers of 1/100000 of a
-- second, rates as hundredths and times as milliseconds, so that a millisecond at a rate of 0.01 is
-- one unit and products are exact; a bucket's tokens are counted in token times window. The
-- rounding of doubles is not modelled, but for the wait that a refusal of WebLimit names, which is
-- the parameter `JsWait`. The offsets of ServerClock are microseconds, and what a division makes
-- there and of the seek latency is rounded down; the positions of NotesStore are whole numbers of
-- the smallest double, which `JsEngine` adds and halves.
--
-- Time is an argument wherever the source reads the clock. A `Map`, a Redis hash and the keys of
-- Redis are the functions that a lookup computes, so that an iteration over a map becomes a filter
-- of its lookups. Failures are values: `Option`, or the source's own result types. How the engine
-- prints and reads numbers is the parameter `JsNumber` of RoomState, with the two laws that the
-- source relies on; how it trims and upper-cases a text is `JsCase` of Ids. Nothing here runs on
-- fuel: the loops are recursions on lists, and `drain` takes the list of the answers that the
-- database gives.
--
-- Not modelled: pages and components, the database client, WebRTC and player bindings, logs and
-- metrics but for the count of dropped rows, and for now the other socket handlers, presence, note
-- items, the soft locks and the hydration of the shared document, ink, and of the drift loop the
-- seeks that a drag sends, the volume and the telemetry's report. WaitForSlow leaves out a resume
-- that fails with an exception, and a leader that loses its lease during a wait.
pub mod Base
pub mod Timeline
pub mod Permissions
pub mod RoomState
pub mod Ids
pub mod WebLimit
pub mod SocketLimit
pub mod WriteBehind
pub mod VideoHandlers
pub mod Guard
pub mod Leader
pub mod WaitForSlow
pub mod ClientStore
pub mod DriftLoop
pub mod NotesStore
pub mod ServerClock
