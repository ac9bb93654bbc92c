-- ===== src/DriftLoop/Quiet.antt =====
-- When the loop leaves the player alone.
use syncstudies.Base.{
  Bool, true, false, not, ◌||◌, List, [], ◌∷◌, ◌++◌, ◌≡◌, refl, ◌∙◌, arith, keep, keep-append, All,
  append-nil, Option, none, some, ℕ, ◌&&◌, Bool-cases, inl, inr, if_either,
}
use syncstudies.Base.Int.{ℤ, ◌-ℤ◌}
use syncstudies.Timeline.{VideoAnchor, is_playing, position_at}
use syncstudies.ClientStore.Data.{idle}
use syncstudies.DriftLoop.Loop.{
  Loop, Reading, PlayerCall, PlayerState, seek_to, play_now, pause_now, set_rate, sync_clock,
  report_buffering, mute, unmute, load, send_control, SeekLatency, observe, is_buffering,
  is_unstarted,
}
use syncstudies.DriftLoop.Moves.{
  track_buffering, request_clock_resync, begin_cold_resume, set_drift_state, set_drift_state_only,
  end_stall, in_stall, clamp_to_video, since,
}
use syncstudies.DriftLoop.Tick.{
  tick, run_ticks, slept, no_video, tick_awake, with_anchor, after_buffering, measured, review,
  record_drift_sample, gated,
}

abbrev pub is_player_call : PlayerCall → Bool
is_player_call (seek_to p) = true
is_player_call play_now = true
is_player_call pause_now = true
is_player_call (set_rate r ms) = true
is_player_call (sync_clock n cold) = false
is_player_call (report_buffering b p) = false
is_player_call mute = true
is_player_call unmute = true
is_player_call (load v p) = true
is_player_call (send_control a p) = false

-- What was asked of the player, in order.
unfoldable pub player_calls : Loop → List PlayerCall
player_calls l = keep is_player_call l.done

-- The clock is under review, the transport is down, or the user has paused the loop.
unfoldable pub hands_off : Loop → Bool
hands_off l = l.clock_sync_pending || not l.transport_connected || l.auto_sync_paused

-- A stage that leaves the player alone if hands are off, and does not put them on.
record LeavesAlone (l l' : Loop) : Type 0 where
  calls : player_calls l' ≡ player_calls l
  off : hands_off l ≡ true → hands_off l' ≡ true

trans : {a b c : Loop} → LeavesAlone a b → LeavesAlone b c → LeavesAlone a c
trans f g = record { calls = g.calls ∙ f.calls; off = λ h. g.off (f.off h) }

quiet_call :
    (done : List PlayerCall) (call : PlayerCall)
    → is_player_call call ≡ false
    → keep is_player_call (done ++ call ∷ []) ≡ keep is_player_call done
quiet_call done call h =
    keep-append is_player_call done (call ∷ [])
    ∙ ground (arith, append-nil (keep is_player_call done))

LeavesAlone-end_stall :
    (l : Loop) (since : Option ℤ) (a : VideoAnchor) (p : ℤ) → LeavesAlone l (end_stall l since a p)
unfolding hands_off player_calls
LeavesAlone-end_stall l none a p = record { calls = refl; off = λ h. h }
LeavesAlone-end_stall l (some t) a p =
    ground (arith, quiet_call l.done (report_buffering false (clamp_to_video p a)))

pub player_calls-end_stall :
    (l : Loop) (since : Option ℤ) (a : VideoAnchor) (p : ℤ)
    → player_calls (end_stall l since a p) ≡ player_calls l
player_calls-end_stall l since a p = (LeavesAlone-end_stall l since a p).calls

LeavesAlone-in_stall :
    (l : Loop) (begun : ℤ) (a : VideoAnchor) (p : ℤ) → LeavesAlone l (in_stall l begun a p)
unfolding hands_off player_calls set_drift_state_only
LeavesAlone-in_stall l begun a p =
    ground (arith, quiet_call l.done (report_buffering true (clamp_to_video p a)))

LeavesAlone-since : (l : Loop) (t : Option ℤ) → LeavesAlone l (record l { buffering_since = t })
unfolding hands_off player_calls
LeavesAlone-since l t = record { calls = refl; off = λ h. h }

LeavesAlone-track_buffering :
    (l : Loop) (s : PlayerState) (p : ℤ) (a : VideoAnchor) (m : ℤ)
    → LeavesAlone l (track_buffering l s p a m).0
unfolding track_buffering
LeavesAlone-track_buffering l s p a m =
    elim (Bool-cases (is_buffering s || is_unstarted s && is_playing a.status)) [
      | inl stalled ↦ rw stalled (
          if_either (LeavesAlone l) _ _ _
            (λ _. LeavesAlone-in_stall l (since l.buffering_since m) a p)
            (λ _. LeavesAlone-since l (some (since l.buffering_since m))))
      | inr moving ↦ rw moving (LeavesAlone-end_stall l l.buffering_since a p)
    ]

LeavesAlone-request_clock_resync :
    (l : Loop) (n : ℕ) (cold : Bool) → LeavesAlone l (request_clock_resync l n cold)
unfolding request_clock_resync hands_off player_calls
LeavesAlone-request_clock_resync l n cold = ground (arith, quiet_call l.done (sync_clock n cold))

LeavesAlone-begin_cold_resume : (l : Loop) → LeavesAlone l (begin_cold_resume l)
unfolding begin_cold_resume request_clock_resync hands_off player_calls
LeavesAlone-begin_cold_resume l = ground (arith, quiet_call l.done (sync_clock 4 true))

LeavesAlone-record_drift_sample : (l : Loop) (mono : ℤ) → LeavesAlone l (record_drift_sample l mono)
unfolding record_drift_sample hands_off player_calls
LeavesAlone-record_drift_sample l mono = record { calls = refl; off = λ h. h }

gated-record_drift_sample :
    (l : Loop) (r : Reading) → gated l r ≡ false → gated (record_drift_sample l r.mono) r ≡ false
unfolding record_drift_sample gated
gated-record_drift_sample l r h = h

LeavesAlone-observed :
    (l : Loop) (latency : SeekLatency) → LeavesAlone l (record l { seek_latency = latency })
unfolding hands_off player_calls
LeavesAlone-observed l latency = record { calls = refl; off = λ h. h }

LeavesAlone-stamped : (l : Loop) (t : Option ℤ) → LeavesAlone l (record l { last_tick = t })
unfolding hands_off player_calls
LeavesAlone-stamped l t = record { calls = refl; off = λ h. h }

LeavesAlone-idle : (l : Loop) → LeavesAlone l (set_drift_state_only l idle)
unfolding set_drift_state_only hands_off player_calls
LeavesAlone-idle l = record { calls = refl; off = λ h. h }

LeavesAlone-measured :
    (l : Loop) (r : Reading) (expected drift : ℤ)
    → hands_off l ≡ true
    → gated l r ≡ false
    → r.bypass_pause ≡ false
    → LeavesAlone l (measured l r expected drift)
unfolding measured review request_clock_resync hands_off player_calls gated set_drift_state
LeavesAlone-measured l r expected drift h g b =
    ground (arith, quiet_call l.done (sync_clock 8 false))

LeavesAlone-after_buffering :
    (l : Loop) (waiting : Bool) (r : Reading)
    → hands_off l ≡ true
    → r.bypass_pause ≡ false
    → LeavesAlone l (after_buffering (l, waiting) r)
unfolding after_buffering
LeavesAlone-after_buffering l true r h b = record { calls = refl; off = λ h. h }
LeavesAlone-after_buffering l false r h b = elim (Bool-cases (gated l r)) [
  | inl shut ↦ rw shut (record { calls = refl; off = λ h. h })
  | inr passed ↦ rw passed (
      trans (LeavesAlone-record_drift_sample l r.mono) (
        LeavesAlone-measured (record_drift_sample l r.mono) r (position_at r.anchor r.server_now)
          (r.position -ℤ position_at r.anchor r.server_now)
          ((LeavesAlone-record_drift_sample l r.mono).off h) (gated-record_drift_sample l r passed)
          b))
]

LeavesAlone-with_anchor :
    (l : Loop) (r : Reading)
    → hands_off l ≡ true
    → r.bypass_pause ≡ false
    → LeavesAlone l (with_anchor l r)
unfolding with_anchor
LeavesAlone-with_anchor l r h b =
    let seen : Loop = record l {
      seek_latency = observe l.seek_latency r.player r.position r.anchor.playback_rate r.mono;
    } in
    let tracked : Loop × Bool = track_buffering seen r.player r.position r.anchor r.mono in
    let first : LeavesAlone l tracked.0 =
      trans
        (LeavesAlone-observed l
          (observe l.seek_latency r.player r.position r.anchor.playback_rate r.mono))
        (LeavesAlone-track_buffering seen r.player r.position r.anchor r.mono) in
    trans first (LeavesAlone-after_buffering tracked.0 tracked.1 r (first.off h) b)

LeavesAlone-tick_awake :
    (l : Loop) (r : Reading)
    → hands_off l ≡ true
    → r.bypass_pause ≡ false
    → LeavesAlone l (tick_awake l r)
unfolding tick_awake
LeavesAlone-tick_awake l r h b =
    if_either (LeavesAlone l) (not r.clock_ready) _ _ (λ _. record { calls = refl; off = λ h. h })
      (λ _.
        if_either (LeavesAlone l) (no_video r.anchor) _ _ (λ _. LeavesAlone-idle l)
          (λ _. LeavesAlone-with_anchor l r h b))

LeavesAlone-tick :
    (l : Loop) (r : Reading)
    → hands_off l ≡ true
    → r.bypass_pause ≡ false
    → LeavesAlone l (tick l r)
unfolding tick
LeavesAlone-tick l r h b =
    let now : Loop = record l { last_tick = some r.mono } in
    let stamped : LeavesAlone l now = LeavesAlone-stamped l (some r.mono) in
    if_either (LeavesAlone l) l.stopped _ _ (λ _. record { calls = refl; off = λ h. h })
      (λ _.
        if_either (LeavesAlone l) (slept l.last_tick r.mono) _ _
          (λ _. trans stamped (LeavesAlone-begin_cold_resume now))
          (λ _. trans stamped (LeavesAlone-tick_awake now r (stamped.off h) b)))

-- While the clock is under review, the transport is down or the user has paused the loop, no tick
-- asks anything of the player, however many come and whatever they read: also after a sleep of the
-- machine, and also if the drift is huge. No tick is called past the user's pause, and neither the
-- clock nor the transport nor the user answers in between.
pub run_ticks-hands_off :
    (l : Loop) (rs : List Reading)
    → hands_off l ≡ true
    → All (λ (r : Reading). r.bypass_pause ≡ false) rs
    → player_calls (run_ticks l rs) ≡ player_calls l
unfolding run_ticks
run_ticks-hands_off l [] h b = refl
run_ticks-hands_off l (r ∷ rs) h (b, bs) =
    let one : LeavesAlone l (tick l r) = LeavesAlone-tick l r h b in
    run_ticks-hands_off (tick l r) rs (one.off h) bs ∙ one.calls
