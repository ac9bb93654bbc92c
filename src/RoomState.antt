-- ===== src/RoomState.antt =====
-- The live video state of a room: apps/realtime/src/rooms/RoomStore.ts (serialisation, `getState`,
-- `applyAtomic`) and apps/realtime/src/scripts/transactVideo.lua.
mod RedisHash
mod Codec
mod Script
pub mod RoundTrip
pub mod Decision
pub mod SystemWrites
pub mod Commit
pub mod History
pub mod Examples
pub use RedisHash.*
pub use Codec.*
pub use Script.*
