-- ===== src/ClientStore.antt =====
-- apps/web/lib/stores/room-store.ts: what a browser knows of its room, and the reducers on it.
-- A reducer is a function of the state. That a reducer which changes nothing keeps the identity of
-- the lists, so that nothing is drawn again, is not modelled: a `set` of equal values is no change.
pub mod Data
pub mod Merge
pub mod Filing
pub mod Folding
pub mod Transcript
pub mod Lists
pub mod Messages
pub mod Snapshot
pub mod People
pub mod Status
pub mod Notes
pub mod Reachable
pub mod Blocks
pub mod Converge
pub mod Examples
