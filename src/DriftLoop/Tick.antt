-- ===== src/DriftLoop/Tick.antt =====
-- apps/web/lib/sync/controller.ts: `tick`, cut at its early returns into the stages that a reading
-- passes: the clock, the anchor, the stall, the gates, the review of the clock, the correction.
use syncstudies.Base.{
  ◌-◌, ◌*◌, min, Bool, true, false, not, ◌&&◌, ◌||◌, List, [], ◌∷◌, Option, none, some, ltb, leb,
  suc, if◌then◌else◌,
}
use syncstudies.Base.Int.{ℤ, pos, ◌+ℤ◌, ◌-ℤ◌, ltb_ℤ}
use syncstudies.Timeline.{VideoAnchor, PlaybackStatus, is_playing, position_at}
use syncstudies.ClientStore.Data.{DriftState, in_sync, correcting, resyncing, stalled}
use syncstudies.DriftLoop.Loop.{
  Loop, Reading, play_now, pause_now, plays, observe, magnitude, dead_zone, soft_max, hard_seek_at,
  clock_sanity_drift, micro_seek_min, min_hard_seek_gap_ms, min_micro_seek_gap_ms,
  max_consecutive_failures, max_backoff, cold_resume_gap_ms, hard_seek_window_ms,
}
use syncstudies.DriftLoop.Moves.{
  asks, hard_seek_to, micro_seek_to, soft_seek_to, nudge_rate, set_drift_state,
  set_drift_state_only, note_calm, request_clock_resync, begin_cold_resume, track_buffering,
}

-- `anchor.status === 'idle' || anchor.videoRef === null`
abbrev pub is_idle : PlaybackStatus → Bool
is_idle PlaybackStatus.idle = true
is_idle _ = false

abbrev pub is_none {ℓ} : {A : Type ℓ} → Option A → Bool
is_none none = true
is_none (some a) = false

unfoldable pub no_video : VideoAnchor → Bool
no_video a = is_idle a.status || is_none a.video_ref

unfoldable pub classify : VideoAnchor → ℤ → DriftState
classify anchor drift =
    if not (is_playing anchor.status)
    then if ltb soft_max (magnitude drift) then correcting else in_sync
    else if ltb (magnitude drift) dead_zone
    then in_sync
    else if ltb (magnitude drift) hard_seek_at
    then correcting
    else resyncing

-- `mono - last >= gap` and `mono - last > gap` where `last` starts at minus infinity.
abbrev pub gap_passed : Option ℤ → ℤ → ℤ → Bool
gap_passed none mono gap = true
gap_passed (some last) mono gap = not (ltb_ℤ (mono -ℤ last) gap)

abbrev pub gap_exceeded : Option ℤ → ℤ → ℤ → Bool
gap_exceeded none mono gap = true
gap_exceeded (some last) mono gap = ltb_ℤ gap (mono -ℤ last)

-- Where a corrective seek aims: past the room by what a seek takes.
unfoldable pub aim : Loop → ℤ → ℤ
aim l expected = expected +ℤ l.seek_latency.value

abbrev pub calm_over : Loop → Loop
calm_over l = record l { calm_ticks = 0 }

-- Section 1: the room plays and the player does not.
unfoldable pub start_player : Loop → Reading → ℤ → ℤ → Loop
start_player l r expected drift =
    if l.playback_blocked
    then set_drift_state l stalled drift
    else set_drift_state
        (calm_over (asks (hard_seek_to l (aim l expected) r.anchor r.mono false) play_now))
        resyncing drift

-- Section 1: the player plays and the room does not.
unfoldable pub stop_player : Loop → Reading → ℤ → Loop
stop_player l r drift =
    set_drift_state
      (calm_over (soft_seek_to (asks l pause_now) r.anchor.anchor_position_sec r.anchor r.mono))
      correcting drift

-- Both stand still.
unfoldable pub hold_still : Loop → Reading → ℤ → Loop
hold_still l r drift =
    if ltb soft_max (magnitude drift)
    then set_drift_state (calm_over (soft_seek_to l r.anchor.anchor_position_sec r.anchor r.mono))
        correcting drift
    else note_calm l drift

-- Section 3, the soft band.
unfoldable pub ease : Loop → Reading → ℤ → ℤ → Bool → Loop
ease l r expected drift bypass =
    set_drift_state
      (calm_over (
        if r.fine_rates
        then nudge_rate l drift r.anchor
        else if ltb micro_seek_min (magnitude drift)
            && (bypass || gap_exceeded l.last_micro_seek r.mono (pos min_micro_seek_gap_ms))
        then micro_seek_to l (aim l expected) r.anchor r.mono
        else l))
      correcting drift

-- A correction that failed.
unfoldable pub count_failure : Loop → Loop
count_failure l = record l {
  failures = suc l.failures;
  backoff =
      if leb max_consecutive_failures (suc l.failures)
      then min max_backoff (l.backoff * 2)
      else l.backoff;
  calm_ticks = 0;
}

-- Section 4, the hard band.
unfoldable pub jump : Loop → Reading → ℤ → ℤ → Bool → Loop
jump l r expected drift bypass =
    if not bypass
      && not (gap_passed l.last_hard_seek r.mono (pos (min_hard_seek_gap_ms * l.backoff)))
    then set_drift_state (count_failure l) resyncing drift
    else set_drift_state
        (calm_over (
          if plays r.player_after_seek
          then hard_seek_to l (aim l expected) r.anchor r.mono true
          else asks (hard_seek_to l (aim l expected) r.anchor r.mono true) play_now))
        resyncing drift

-- Both play: sections 2 to 4.
unfoldable pub follow : Loop → Reading → ℤ → ℤ → Bool → Loop
follow l r expected drift bypass =
    if ltb (magnitude drift) dead_zone
    then note_calm l drift
    else if ltb (magnitude drift) hard_seek_at
    then ease l r expected drift bypass
    else jump l r expected drift bypass

unfoldable pub correct : Loop → Reading → ℤ → ℤ → Bool → Loop
correct l r expected drift bypass =
    if is_playing r.anchor.status
    then if plays r.player
      then follow l r expected drift bypass
      else start_player l r expected drift
    else if plays r.player
    then stop_player l r drift
    else hold_still l r drift

unfoldable pub bypass_cooldown : Loop → Reading → Bool
bypass_cooldown l r = r.bypass_cooldown || ltb 0 l.join_ticks || l.recovering_from_stall

-- The clock may be under review, or the transport down.
unfoldable pub review : Loop → Reading → ℤ → ℤ → Loop
review l r expected drift =
    if l.clock_sync_pending
    then set_drift_state l resyncing drift
    else if not l.transport_connected
    then set_drift_state l (classify r.anchor drift) drift
    else correct (record l { join_ticks = l.join_ticks - 1 }) r expected drift (bypass_cooldown l r)

-- `recordDriftSample` as far as the loop reads it back: the seeks of the last minute.
abbrev pub drop_before : ℤ → List ℤ → List ℤ
drop_before cutoff [] = []
drop_before cutoff (t ∷ ts) = if ltb_ℤ t cutoff then drop_before cutoff ts else t ∷ ts

unfoldable pub record_drift_sample : Loop → ℤ → Loop
record_drift_sample l mono = record l {
  hard_seek_times = drop_before (mono -ℤ pos hard_seek_window_ms) l.hard_seek_times;
}

-- A huge drift is held for an event of the clock, once.
unfoldable pub measured : Loop → Reading → ℤ → ℤ → Loop
measured l r expected drift =
    if ltb clock_sanity_drift (magnitude drift) && not l.clock_sanity_tripped
    then request_clock_resync
        (set_drift_state (record l { clock_sanity_tripped = true }) resyncing drift) 8 false
    else review
        (record l {
          clock_sanity_tripped =
              if leb (magnitude drift) clock_sanity_drift then false else l.clock_sanity_tripped;
        })
        r expected drift

-- The gates that a measurement passes.
unfoldable pub gated : Loop → Reading → Bool
gated l r =
    not r.measurable || ltb_ℤ r.mono l.suppress_until || l.auto_sync_paused && not r.bypass_pause

unfoldable pub after_buffering : Loop × Bool → Reading → Loop
after_buffering (l, true) r = l
after_buffering (l, false) r =
    if gated l r
    then l
    else measured (record_drift_sample l r.mono) r (position_at r.anchor r.server_now)
        (r.position -ℤ position_at r.anchor r.server_now)

unfoldable pub with_anchor : Loop → Reading → Loop
with_anchor l r =
    after_buffering
      (track_buffering
        (record l {
          seek_latency = observe l.seek_latency r.player r.position r.anchor.playback_rate r.mono;
        })
        r.player r.position r.anchor r.mono)
      r

abbrev pub slept : Option ℤ → ℤ → Bool
slept none mono = false
slept (some previous) mono = ltb_ℤ cold_resume_gap_ms (mono -ℤ previous)

unfoldable pub tick_awake : Loop → Reading → Loop
tick_awake l r =
    if not r.clock_ready
    then l
    else if no_video r.anchor
    then set_drift_state_only l DriftState.idle
    else with_anchor l r

unfoldable pub tick : Loop → Reading → Loop
tick l r =
    if l.stopped
    then l
    else if slept l.last_tick r.mono
    then begin_cold_resume (record l { last_tick = some r.mono })
    else tick_awake (record l { last_tick = some r.mono }) r

-- One tick after another, with nothing in between.
unfoldable pub run_ticks : Loop → List Reading → Loop
run_ticks l [] = l
run_ticks l (r ∷ rs) = run_ticks (tick l r) rs
