-- ===== src/DriftLoop.antt =====
-- apps/web/lib/sync/controller.ts and seek-latency.ts: the loop that keeps one browser's player
-- where the room's anchor says. What the player, the clock and the store answer during a tick is a
-- `Reading`; what the loop asks of the player and of the server is a list of `PlayerCall`s.
-- Positions are 1/100000 of a second as in Timeline, and so is the estimate of the seek latency,
-- rounded down; a nudged rate is counted in 1/400000. The promises of the player, the clock and the
-- server settle as events of their own. The seeks that a drag sends, the volume and the
-- telemetry's report are not modelled.
pub mod Loop
pub mod Moves
pub mod Tick
pub mod Quiet
pub mod Bounds
pub mod Gate
pub mod Control
pub mod Intents
pub mod History
pub mod Sound
pub mod Watching
pub mod Calm
pub mod Jumps
pub mod Cooldown
pub mod Examples
pub mod Silence
pub mod Playhead
pub mod Steady
