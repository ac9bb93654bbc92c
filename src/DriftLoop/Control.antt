-- ===== src/DriftLoop/Control.antt =====
-- apps/web/lib/sync/controller.ts: what reaches the loop from outside. The anchors that come in,
-- the user's intents and their acks, the answers of the clock, and the escape hatches.
use syncstudies.Base.{Bool, true, false, not, ◌&&◌, ◌||◌, Option, none, some, if◌then◌else◌}
use syncstudies.Base.Text.{String, str_eq}
use syncstudies.Base.Int.{ℤ, pos, ◌+ℤ◌, ltb_ℤ}
use syncstudies.Timeline.{VideoAnchor, is_playing, position_at, clamp_to_duration}
use syncstudies.ClientStore.Data.{idle}
use syncstudies.DriftLoop.Loop.{
  Loop, Reading, PlayerState, buffering, playing, set_rate, load, cancel, observe, or_normal,
  join_convergence_ticks, seek_latency_init, post_seek_blind_ms,
}
use syncstudies.DriftLoop.Moves.{
  asks, suppress_for, reset_convergence, request_clock_resync, set_drift_state_only,
  track_buffering,
}
use syncstudies.DriftLoop.Tick.{tick, no_video}
use syncstudies.DriftLoop.Gate.{force_to_anchor, run_autoplay_gate}

pub data AnchorReason : Type 0 where
  control heartbeat resync set_video snapshot : AnchorReason

abbrev pub is_snapshot : AnchorReason → Bool
is_snapshot snapshot = true
is_snapshot _ = false

-- Where a joining client loads the video: 0.6 s ahead of a playing room.
unfoldable pub join_start_position : VideoAnchor → ℤ → ℤ
join_start_position anchor server_now =
    if is_playing anchor.status
    then clamp_to_duration (position_at anchor server_now +ℤ pos 60_000) anchor.duration_sec
    else position_at anchor server_now

abbrev pub bypassing : Reading → Reading
bypassing r = record r { bypass_cooldown = true; bypass_pause = false }

unfoldable pub schedule_evaluation : Loop → Reading → Loop
schedule_evaluation l r =
    if l.stopped || l.pending_evaluation
    then l
    else if ltb_ℤ r.mono l.suppress_until
    then record l { pending_evaluation = true }
    else tick l (bypassing r)

-- The timer of `scheduleEvaluation`.
unfoldable pub evaluation_due : Loop → Reading → Loop
evaluation_due l r = tick (record l { pending_evaluation = false }) (bypassing r)

abbrev pub rewinds : Option ℤ → ℤ → Bool
rewinds none revision = false
rewinds (some last) revision = ltb_ℤ revision last

abbrev pub same_ref : Option String → Option String → Bool
same_ref none none = true
same_ref (some a) (some b) = str_eq a b
same_ref none (some b) = false
same_ref (some a) none = false

abbrev pub or_empty : Option String → String
or_empty none = ""
or_empty (some v) = v

unfoldable pub load_video : Loop → VideoAnchor → Reading → Loop
load_video l anchor r =
    suppress_for
      (record (asks (reset_convergence l)
        (load (or_empty anchor.video_ref) (join_start_position anchor r.server_now))) {
          loaded_video_ref = anchor.video_ref;
          seek_latency = record { value = seek_latency_init; pending = none };
          player_error = none;
        })
      r.mono post_seek_blind_ms

-- The player has loaded: `anchor` is the one of then.
unfoldable pub on_loaded : Loop → VideoAnchor → Loop
on_loaded l anchor = if l.stopped then l else run_autoplay_gate l anchor

unfoldable pub by_reason : Loop → VideoAnchor → AnchorReason → Reading → Loop
by_reason l anchor snapshot r = force_to_anchor (reset_convergence l) anchor r
by_reason l anchor set_video r = force_to_anchor (reset_convergence l) anchor r
by_reason l anchor heartbeat r = l
by_reason l anchor control r = schedule_evaluation l r
by_reason l anchor resync r = schedule_evaluation l r

unfoldable pub adopt_anchor : Loop → VideoAnchor → AnchorReason → Reading → Loop
adopt_anchor l anchor reason r =
    if no_video anchor
    then set_drift_state_only (record l { loaded_video_ref = none }) idle
    else if not (same_ref anchor.video_ref l.loaded_video_ref)
    then load_video l anchor r
    else by_reason l anchor reason r

unfoldable pub apply_anchor : Loop → VideoAnchor → AnchorReason → Reading → Loop
apply_anchor l anchor reason r =
    if l.stopped
    then l
    else if not (is_snapshot reason) && rewinds l.last_revision anchor.revision
    then l
    else adopt_anchor (record l { last_revision = some anchor.revision }) anchor reason r

-- The timer of `start` runs while the loop is not stopped. Then the anchor of the store is applied as a snapshot.
unfoldable pub start : Loop → Reading → Loop
start l r =
    let begun : Loop = record l {
      stopped = false;
      last_tick = none;
      join_ticks = join_convergence_ticks;
    } in
    if not l.stopped
    then l
    else if no_video r.anchor
    then begun
    else apply_anchor begun r.anchor snapshot r

unfoldable pub restore_rate : Loop → VideoAnchor → Loop
restore_rate l anchor =
    if l.nudged_rate
    then record (asks l (set_rate (or_normal anchor.playback_rate) 0)) {
      rate_restoring = false;
      nudged_rate = false;
    }
    else record l { rate_restoring = false }

unfoldable pub stop : Loop → VideoAnchor → Loop
stop l anchor =
    let still : Loop =
      restore_rate (record l { stopped = true; pending_evaluation = false }) anchor in
    record still { seek_latency = cancel still.seek_latency }

unfoldable pub set_transport_connected : Loop → Bool → Loop
set_transport_connected l connected = record l {
  transport_connected = connected;
  seek_latency = if connected then l.seek_latency else cancel l.seek_latency;
}

unfoldable pub resync_now : Loop → Loop
resync_now l =
    request_clock_resync
      (record (reset_convergence l) { suppress_until = pos 0; clock_sanity_tripped = false }) 4
      false

-- The clock has answered a sync that was asked for `cold` or past the user's pause.
unfoldable pub on_clock_synced : Loop → Bool → Bool → Reading → Loop
on_clock_synced l cold past_pause r =
    let known : Loop = record l { clock_sync_pending = false } in
    if l.stopped
    then known
    else if cold
    then force_to_anchor known r.anchor r
    else tick known (record r { bypass_cooldown = true; bypass_pause = past_pause })

unfoldable pub on_clock_failed : Loop → Loop
on_clock_failed l = record l { clock_sync_pending = false }

unfoldable pub pause_auto_sync : Loop → VideoAnchor → Loop
pause_auto_sync l anchor = restore_rate (record l { auto_sync_paused = true }) anchor

unfoldable pub resume_auto_sync : Loop → Reading → Loop
resume_auto_sync l r =
    if l.auto_sync_paused
    then tick (record (reset_convergence l) { auto_sync_paused = false }) (bypassing r)
    else l

abbrev pub tracks : PlayerState → Bool
tracks buffering = true
tracks playing = true
tracks _ = false

unfoldable pub observe_player_state : Loop → Reading → Loop
observe_player_state l r =
    if l.stopped
    then l
    else let seen : Loop = record l {
      seek_latency = observe l.seek_latency r.player r.position r.anchor.playback_rate r.mono;
    } in
      if tracks r.player then (track_buffering seen r.player r.position r.anchor r.mono).0 else seen
