-- ===== src/DriftLoop/Bounds.antt =====
-- What the loop's counters and its estimate stay within, whatever it reads.
use syncstudies.Base.{
  Bool, true, false, arith, ◌≤◌, Option, none, some, if_either, if◌then◌else◌, leb, ◌-◌,
}
use syncstudies.Base.Int.{ℤ, ◌≤ℤ◌, ◌-ℤ◌}
use syncstudies.Timeline.{VideoAnchor, position_at}
use syncstudies.DriftLoop.Loop.{
  Loop, Reading, PlayerState, SeekLatency, PendingSeek, observe, observe_if, seek_latency_min,
  seek_latency_max, max_backoff, join_convergence_ticks, magnitude, clock_sanity_drift,
}
use syncstudies.DriftLoop.Moves.{
  hard_seek_to, micro_seek_to, soft_seek_to, nudge_rate, track_buffering, request_clock_resync,
  begin_cold_resume, set_drift_state, set_drift_state_only, note_calm, end_stall,
}
use syncstudies.DriftLoop.Tick.{
  tick, tick_awake, with_anchor, after_buffering, measured, review, record_drift_sample, gated,
  correct, follow, start_player, stop_player, hold_still, ease, jump, count_failure,
  bypass_cooldown,
}

abbrev pub IsInRange : SeekLatency → Type 0
IsInRange e = (seek_latency_min ≤ℤ e.value) × (e.value ≤ℤ seek_latency_max)

pub record IsSound (l : Loop) : Type 0 where
  pub backs_off : 1 ≤ l.backoff
  pub returns : l.backoff ≤ max_backoff
  pub converges : l.join_ticks ≤ join_convergence_ticks
  pub estimate : IsInRange l.seek_latency

pub observe-IsInRange :
    (e : SeekLatency) (state : PlayerState) (position rate now : ℤ)
    → IsInRange e
    → IsInRange (observe e state position rate now)
unfolding observe
observe-IsInRange e state position rate now h = go e.pending
  where
    go : (p : Option PendingSeek) → IsInRange (observe_if e p state position rate now)
    go none = h
    go (some p) = ground arith

module _ (l : Loop) (s : IsSound l) (r : Reading) (expected drift : ℤ) where
  note_calm-IsSound : IsSound (note_calm l drift)
  unfolding note_calm set_drift_state
  note_calm-IsSound = ground arith

  ease-IsSound : (bypass : Bool) → IsSound (ease l r expected drift bypass)
  unfolding ease set_drift_state nudge_rate micro_seek_to
  ease-IsSound bypass = ground arith

  jump-IsSound : (bypass : Bool) → IsSound (jump l r expected drift bypass)
  unfolding jump set_drift_state hard_seek_to count_failure
  jump-IsSound bypass = ground arith

  start_player-IsSound : IsSound (start_player l r expected drift)
  unfolding start_player set_drift_state hard_seek_to
  start_player-IsSound = ground arith

  stop_player-IsSound : IsSound (stop_player l r drift)
  unfolding stop_player set_drift_state soft_seek_to
  stop_player-IsSound = ground arith

  hold_still-IsSound : IsSound (hold_still l r drift)
  unfolding hold_still set_drift_state soft_seek_to note_calm
  hold_still-IsSound = ground arith

  follow-IsSound : (bypass : Bool) → IsSound (follow l r expected drift bypass)
  unfolding follow
  follow-IsSound bypass =
      ground (arith, note_calm-IsSound, ease-IsSound bypass, jump-IsSound bypass)

  correct-IsSound : (bypass : Bool) → IsSound (correct l r expected drift bypass)
  unfolding correct
  correct-IsSound bypass =
      ground (
        arith,
        follow-IsSound bypass,
        start_player-IsSound,
        stop_player-IsSound,
        hold_still-IsSound,
      )

review-IsSound :
    (l : Loop) (r : Reading) (expected drift : ℤ) → IsSound l → IsSound (review l r expected drift)
unfolding review set_drift_state
review-IsSound l r expected drift s =
    let spent : Loop = record l { join_ticks = l.join_ticks - 1 } in
    let s' : IsSound spent = ground arith in
    ground (arith, correct-IsSound spent s' r expected drift (bypass_cooldown l r))

measured-IsSound :
    (l : Loop) (r : Reading) (expected drift : ℤ)
    → IsSound l
    → IsSound (measured l r expected drift)
unfolding measured request_clock_resync set_drift_state
measured-IsSound l r expected drift s =
    let believed : Loop = record l {
      clock_sanity_tripped =
          if leb (magnitude drift) clock_sanity_drift then false else l.clock_sanity_tripped;
    } in
    let s' : IsSound believed = ground arith in
    ground (arith, review-IsSound believed r expected drift s')

pub track_buffering-IsSound :
    (l : Loop) (state : PlayerState) (p : ℤ) (a : VideoAnchor) (m : ℤ)
    → IsSound l
    → IsSound (track_buffering l state p a m).0
unfolding track_buffering set_drift_state_only
track_buffering-IsSound l state p a m s = ground (arith, ended l.buffering_since)
  where
    ended : (t : Option ℤ) → IsSound (end_stall l t a p)
    ended none = s
    ended (some t) = ground arith

record_drift_sample-IsSound :
    (l : Loop) → IsSound l → (mono : ℤ) → IsSound (record_drift_sample l mono)
unfolding record_drift_sample
record_drift_sample-IsSound l s mono = ground arith

after_buffering-IsSound :
    (l : Loop) (waiting : Bool) (r : Reading) → IsSound l → IsSound (after_buffering (l, waiting) r)
unfolding after_buffering
after_buffering-IsSound l true r s = s
after_buffering-IsSound l false r s =
    let sampled : Loop = record_drift_sample l r.mono in
    let expected : ℤ = position_at r.anchor r.server_now in
    if_either IsSound (gated l r) l (measured sampled r expected (r.position -ℤ expected)) (λ _. s)
      (λ _.
        measured-IsSound sampled r expected (r.position -ℤ expected)
          (record_drift_sample-IsSound l s r.mono))

with_anchor-IsSound : (l : Loop) (r : Reading) → IsSound l → IsSound (with_anchor l r)
unfolding with_anchor
with_anchor-IsSound l r s =
    let e : SeekLatency =
      observe l.seek_latency r.player r.position r.anchor.playback_rate r.mono in
    let seen : Loop = record l { seek_latency = e } in
    let first : IsSound seen = record {
      backs_off = s.backs_off;
      returns = s.returns;
      converges = s.converges;
      estimate =
          observe-IsInRange l.seek_latency r.player r.position r.anchor.playback_rate r.mono
            s.estimate;
    } in
    let tracked : Loop × Bool = track_buffering seen r.player r.position r.anchor r.mono in
    after_buffering-IsSound tracked.0 tracked.1 r
      (track_buffering-IsSound seen r.player r.position r.anchor r.mono first)

stamped-IsSound : (l : Loop) (t : Option ℤ) → IsSound l → IsSound (record l { last_tick = t })
stamped-IsSound l t s = ground arith

tick_awake-IsSound : (l : Loop) (r : Reading) → IsSound l → IsSound (tick_awake l r)
unfolding tick_awake set_drift_state_only
tick_awake-IsSound l r s = ground (arith, with_anchor-IsSound l r s)

begin_cold_resume-IsSound : (l : Loop) → IsSound l → IsSound (begin_cold_resume l)
unfolding begin_cold_resume request_clock_resync
begin_cold_resume-IsSound l s = ground arith

pub tick-IsSound : (l : Loop) (r : Reading) → IsSound l → IsSound (tick l r)
unfolding tick
tick-IsSound l r s =
    let now : Loop = record l { last_tick = some r.mono } in
    let s' : IsSound now = stamped-IsSound l (some r.mono) s in
    ground (arith, begin_cold_resume-IsSound now s', tick_awake-IsSound now r s')
