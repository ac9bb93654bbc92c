-- ===== src/DriftLoop/Watching.antt =====
-- A tick that measures a playing player in a playing room, past every gate.
use syncstudies.Base.{
  ◌-◌, ◌≤◌, Bool, true, false, ◌≡◌, ◌∙◌, ap, arith, Option, none, some, if◌then◌else◌,
}
use syncstudies.Base.Int.{ℤ, pos, ◌≤ℤ◌, ◌-ℤ◌, ltb_ℤ}
use syncstudies.Timeline.{VideoAnchor, is_playing, position_at}
use syncstudies.DriftLoop.Loop.{
  Loop, Reading, playing, SeekLatency, observe, magnitude, clock_sanity_drift,
}
use syncstudies.DriftLoop.Moves.{track_buffering, end_stall}
use syncstudies.DriftLoop.Tick.{
  tick, slept, no_video, tick_awake, with_anchor, after_buffering, measured, review,
  record_drift_sample, gated, correct, follow, bypass_cooldown,
}

-- Where the room is, and how far the player is ahead.
abbrev pub expected : Reading → ℤ
expected r = position_at r.anchor r.server_now

abbrev pub drift : Reading → ℤ
drift r = r.position -ℤ expected r

-- Nothing keeps the loop from correcting a playing player, and the drift is no event of the clock.
pub record Watches (l : Loop) (r : Reading) : Type 0 where
  pub running : l.stopped ≡ false
  pub awake : slept l.last_tick r.mono ≡ false
  pub synced : r.clock_ready ≡ true
  pub video : no_video r.anchor ≡ false
  pub room_plays : is_playing r.anchor.status ≡ true
  pub player_plays : r.player ≡ playing
  pub trusted : r.measurable ≡ true
  pub seeing : ltb_ℤ r.mono l.suppress_until ≡ false
  pub wanted : l.auto_sync_paused ≡ false
  pub settled : l.clock_sync_pending ≡ false
  pub connected : l.transport_connected ≡ true
  pub counted : pos 0 ≤ℤ r.mono
  pub plausible : magnitude (drift r) ≤ clock_sanity_drift

abbrev pub estimated : Loop → Reading → SeekLatency
estimated l r = observe l.seek_latency r.player r.position r.anchor.playback_rate r.mono

abbrev pub seen : Loop → Reading → Loop
seen l r = record l { last_tick = some r.mono; seek_latency = estimated l r }

abbrev pub unstalled : Loop → Reading → Loop
unstalled l r =
    record_drift_sample (end_stall (seen l r) l.buffering_since r.anchor r.position) r.mono

-- The loop as the correction finds it.
abbrev pub prepared : Loop → Reading → Loop
prepared l r = record (unstalled l r) {
  clock_sanity_tripped = false;
  join_ticks = (unstalled l r).join_ticks - 1;
}

record KeepsGates (l u : Loop) : Type 0 where
  wanted : u.auto_sync_paused ≡ l.auto_sync_paused
  settled : u.clock_sync_pending ≡ l.clock_sync_pending
  connected : u.transport_connected ≡ l.transport_connected

KeepsGates-end_stall :
    (l : Loop) (since : Option ℤ) (a : VideoAnchor) (p : ℤ) → KeepsGates l (end_stall l since a p)
KeepsGates-end_stall l none a p = ground arith
KeepsGates-end_stall l (some t) a p = ground arith

if_no {ℓ} : {A : Type ℓ} (b : Bool) (x y : A) → b ≡ false → (if b then x else y) ≡ y
if_no b x y h = rw h

-- A stall that ends only opens the gates further.
gated-end_stall :
    (l : Loop) (since : Option ℤ) (r : Reading)
    → pos 0 ≤ℤ r.mono
    → gated l r ≡ false
    → gated (end_stall l since r.anchor r.position) r ≡ false
unfolding gated
gated-end_stall l none r late h = h
gated-end_stall l (some t) r late h = ground arith

module _ (l : Loop) (r : Reading) (w : Watches l r) where
  tracked :
      track_buffering (seen l r) r.player r.position r.anchor r.mono
      ≡ (end_stall (seen l r) l.buffering_since r.anchor r.position, false)
  unfolding track_buffering
  tracked = rw w.player_plays

  ungated_seen : gated (seen l r) r ≡ false
  unfolding gated
  ungated_seen = ground arith

  ungated : gated (end_stall (seen l r) l.buffering_since r.anchor r.position) r ≡ false
  ungated = gated-end_stall (seen l r) l.buffering_since r w.counted ungated_seen

  measured-follow :
      measured (unstalled l r) r (expected r) (drift r)
      ≡ follow (prepared l r) r (expected r) (drift r) (bypass_cooldown (unstalled l r) r)
  unfolding measured review correct record_drift_sample bypass_cooldown
  measured-follow =
      ground (arith, KeepsGates-end_stall (seen l r) l.buffering_since r.anchor r.position)

  with_anchor-follow :
      with_anchor (record l { last_tick = some r.mono }) r
      ≡ follow (prepared l r) r (expected r) (drift r) (bypass_cooldown (unstalled l r) r)
  unfolding with_anchor after_buffering
  with_anchor-follow =
      ap (λ u. after_buffering u r) tracked
      ∙ if_no _ (end_stall (seen l r) l.buffering_since r.anchor r.position)
          (measured (unstalled l r) r (expected r) (drift r)) ungated
      ∙ measured-follow

  tick_awake-with_anchor :
      tick_awake (record l { last_tick = some r.mono }) r
      ≡ with_anchor (record l { last_tick = some r.mono }) r
  unfolding tick_awake
  tick_awake-with_anchor = ground arith

  tick-awake : tick l r ≡ tick_awake (record l { last_tick = some r.mono }) r
  unfolding tick
  tick-awake = ground arith

  pub tick-follow :
      tick l r ≡ follow (prepared l r) r (expected r) (drift r) (bypass_cooldown (unstalled l r) r)
  tick-follow = tick-awake ∙ tick_awake-with_anchor ∙ with_anchor-follow
