-- ===== src/DriftLoop/Moves.antt =====
-- apps/web/lib/sync/controller.ts: the corrections and the small steps of the loop.
use syncstudies.Base.{
  ℕ, suc, ◌+◌, ◌*◌, ◌/◌, min, Bool, true, false, not, ◌&&◌, ◌||◌, [], ◌∷◌, ◌++◌, Option, none, some,
  if◌then◌else◌, leb, ltb, ◌==◌,
}
use syncstudies.Base.Int.{ℤ, pos, negsuc, ◌+ℤ◌, ◌-ℤ◌, ◌*ℤ◌, ltb_ℤ, max_ℤ}
use syncstudies.Timeline.{VideoAnchor, is_playing, clamp_to_duration}
use syncstudies.ClientStore.Data.{DriftState, in_sync, stalled}
use syncstudies.DriftLoop.Loop.{
  Loop, PlayerCall, seek_to, set_rate, sync_clock, report_buffering, PlayerState, is_buffering,
  is_unstarted, begin, cancel, clamp, or_normal, magnitude, post_seek_blind_ms,
  join_convergence_ticks, quality_recovery_ticks, buffering_report_after_ms,
}

abbrev pub asks : Loop → PlayerCall → Loop
asks l call = record l { done = l.done ++ call ∷ [] }

abbrev pub suppress_for : Loop → ℤ → ℕ → Loop
suppress_for l mono ms = record l { suppress_until = max_ℤ l.suppress_until (mono +ℤ pos ms) }

abbrev pub clamp_to_video : ℤ → VideoAnchor → ℤ
clamp_to_video position anchor = clamp_to_duration (max_ℤ (pos 0) position) anchor.duration_sec

unfoldable pub hard_seek_to : Loop → ℤ → VideoAnchor → ℤ → Bool → Loop
hard_seek_to l position anchor mono counts =
    let target : ℤ = clamp_to_video position anchor in
    suppress_for
      (record (asks l (seek_to target)) {
        seek_latency = begin l.seek_latency target mono;
        last_hard_seek = some mono;
        hard_seek_times = if counts then l.hard_seek_times ++ mono ∷ [] else l.hard_seek_times;
        recovering_from_stall = false;
      })
      mono post_seek_blind_ms

unfoldable pub micro_seek_to : Loop → ℤ → VideoAnchor → ℤ → Loop
micro_seek_to l position anchor mono =
    let target : ℤ = clamp_to_video position anchor in
    suppress_for
      (record (asks l (seek_to target)) {
        seek_latency = begin l.seek_latency target mono;
        last_micro_seek = some mono;
        recovering_from_stall = false;
      })
      mono post_seek_blind_ms

unfoldable pub soft_seek_to : Loop → ℤ → VideoAnchor → ℤ → Loop
soft_seek_to l position anchor mono =
    suppress_for
      (record (asks l (seek_to (clamp_to_video position anchor))) {
        seek_latency = cancel l.seek_latency;
      })
      mono post_seek_blind_ms

-- In 1/400000 of a rate: a quarter of the drift in seconds, at most a tenth.
unfoldable pub nudge_delta : ℤ → ℤ
nudge_delta drift = clamp drift (negsuc 39_999) (pos 40_000)

abbrev pub floor_if_zero : ℕ → ℕ
floor_if_zero d = if d == 0 then 20_000 else d

unfoldable pub nudge_window_ms : ℤ → ℕ
nudge_window_ms drift =
    min 4_000 (4_000 * magnitude drift / floor_if_zero (magnitude (nudge_delta drift)))

unfoldable pub nudged : VideoAnchor → ℤ → ℤ
nudged anchor drift = or_normal anchor.playback_rate *ℤ pos 4_000 -ℤ nudge_delta drift

unfoldable pub nudge_rate : Loop → ℤ → VideoAnchor → Loop
nudge_rate l drift anchor =
    if l.rate_restoring
    then l
    else if not (ltb_ℤ (pos 0) (nudged anchor drift))
    then l
    else record (asks l (set_rate (nudged anchor drift) (nudge_window_ms drift))) {
      nudged_rate = true;
      rate_restoring = true;
    }

abbrev pub reset_convergence : Loop → Loop
reset_convergence l = record l {
  join_ticks = join_convergence_ticks;
  failures = 0;
  backoff = 1;
  calm_ticks = 0;
}

-- `Number(x.toFixed(2))`
abbrev pub to_hundredths : ℤ → ℤ
to_hundredths (pos n) = pos ((n + 500) / 1_000 * 1_000)
to_hundredths (negsuc n) = pos 0 -ℤ pos ((suc n + 500) / 1_000 * 1_000)

abbrev pub publish_drift : ℤ → ℤ → ℤ
publish_drift old new = if ltb (magnitude (new -ℤ old)) 25_000 then old else to_hundredths new

unfoldable pub set_drift_state : Loop → DriftState → ℤ → Loop
set_drift_state l state drift = record l {
  drift_state = state;
  published_drift = publish_drift l.published_drift drift;
}

-- Without a drift.
unfoldable pub set_drift_state_only : Loop → DriftState → Loop
set_drift_state_only l state = record l { drift_state = state; published_drift = pos 0 }

unfoldable pub note_calm : Loop → ℤ → Loop
note_calm l drift =
    set_drift_state
      (record l {
        failures = 0;
        calm_ticks = suc l.calm_ticks;
        recovering_from_stall = false;
        backoff = if leb quality_recovery_ticks (suc l.calm_ticks) then 1 else l.backoff;
      })
      in_sync drift

unfoldable pub request_clock_resync : Loop → ℕ → Bool → Loop
request_clock_resync l samples cold =
    if l.clock_sync_pending
    then l
    else record (asks l (sync_clock samples cold)) { clock_sync_pending = true }

unfoldable pub begin_cold_resume : Loop → Loop
begin_cold_resume l =
    request_clock_resync
      (record (reset_convergence l) {
        seek_latency = cancel l.seek_latency;
        suppress_until = pos 0;
        clock_sanity_tripped = false;
      })
      4 true

abbrev pub since : Option ℤ → ℤ → ℤ
since none mono = mono
since (some t) mono = t

abbrev pub end_stall : Loop → Option ℤ → VideoAnchor → ℤ → Loop
end_stall l none anchor position = l
end_stall l (some t) anchor position =
    if l.buffering_reported
    then record (asks l (report_buffering false (clamp_to_video position anchor))) {
      buffering_since = none;
      buffering_reported = false;
      buffering_flag = false;
      recovering_from_stall = true;
      suppress_until = pos 0;
    }
    else record l { buffering_since = none }

abbrev pub in_stall : Loop → ℤ → VideoAnchor → ℤ → Loop
in_stall l begun anchor position =
    set_drift_state_only
      (record (asks l (report_buffering true (clamp_to_video position anchor))) {
        buffering_since = some begun;
        buffering_reported = true;
        buffering_flag = true;
      })
      stalled

-- The loop after it, and whether the player is stalled.
unfoldable pub track_buffering : Loop → PlayerState → ℤ → VideoAnchor → ℤ → Loop × Bool
track_buffering l state position anchor mono =
    if is_buffering state || is_unstarted state && is_playing anchor.status
    then (
      if not l.buffering_reported
            && is_playing anchor.status
            && not (ltb_ℤ (mono -ℤ since l.buffering_since mono) buffering_report_after_ms)
          then in_stall l (since l.buffering_since mono) anchor position
          else record l { buffering_since = some (since l.buffering_since mono) },
      true,
    )
    else (end_stall l l.buffering_since anchor position, false)
