-- ===== src/DriftLoop/Sound.antt =====
-- Whatever happens to a controller, its counters and its estimate stay within bounds.
use syncstudies.Base.{Bool, true, false, List, [], ◌∷◌, arith, none, some}
use syncstudies.Base.Int.{ℤ, pos}
use syncstudies.Timeline.{VideoAnchor}
use syncstudies.DriftLoop.Loop.{
  Loop, Reading, SeekLatency, observe, unmute, fresh_loop, join_convergence_ticks,
}
use syncstudies.DriftLoop.Moves.{
  asks, reset_convergence, request_clock_resync, hard_seek_to, soft_seek_to, set_drift_state_only,
  clamp_to_video,
}
use syncstudies.DriftLoop.Gate.{
  clear_gesture_prompt, run_autoplay_gate, force_to_anchor, play_answered, gate_answered,
  on_autoplay_error,
}
use syncstudies.DriftLoop.Control.{
  AnchorReason, control, heartbeat, resync, set_video, snapshot, apply_anchor, adopt_anchor,
  by_reason, load_video, on_loaded, start, stop, evaluation_due, restore_rate, schedule_evaluation,
  set_transport_connected, resync_now, on_clock_synced, on_clock_failed, pause_auto_sync,
  resume_auto_sync, observe_player_state, bypassing,
}
use syncstudies.DriftLoop.Intents.{
  play_intent, pause_intent, seek_intent, on_ack, accept_gesture, gesture_answered, set_muted,
  apply_local_seek,
}
use syncstudies.DriftLoop.History.{
  Event, started, ticked, evaluation, state_seen, auto_sync_resumed, tapped, stopped, loaded,
  nudge_over, auto_sync_stopped, anchor_came, clock_synced, clock_failed, resynced, seek_failed,
  visible, transport, play_ended, refused, muted, gate_ended, failed, user_plays, user_pauses,
  tap_answered, user_seeks, acked, happen, run, on_seek_failed, on_player_error,
}
use syncstudies.DriftLoop.Bounds.{
  IsSound, IsInRange, tick-IsSound, observe-IsInRange, track_buffering-IsSound,
}

module _ (l : Loop) (s : IsSound l) where
  clear_gesture_prompt-IsSound : IsSound (clear_gesture_prompt l)
  unfolding clear_gesture_prompt
  clear_gesture_prompt-IsSound = ground arith

  run_autoplay_gate-IsSound : (a : VideoAnchor) → IsSound (run_autoplay_gate l a)
  unfolding run_autoplay_gate clear_gesture_prompt
  run_autoplay_gate-IsSound a = ground arith

  soft_seek_to-IsSound : (p : ℤ) (a : VideoAnchor) (m : ℤ) → IsSound (soft_seek_to l p a m)
  unfolding soft_seek_to
  soft_seek_to-IsSound p a m = ground arith

  hard_seek_to-IsSound :
      (p : ℤ) (a : VideoAnchor) (m : ℤ) (counts : Bool) → IsSound (hard_seek_to l p a m counts)
  unfolding hard_seek_to
  hard_seek_to-IsSound p a m counts = ground arith

  play_answered-IsSound : (begun : Bool) → IsSound (play_answered l begun)
  unfolding play_answered
  play_answered-IsSound begun = ground arith

  gate_answered-IsSound : (granted begun : Bool) → IsSound (gate_answered l granted begun)
  unfolding gate_answered
  gate_answered-IsSound granted begun = ground arith

  schedule_evaluation-IsSound : (r : Reading) → IsSound (schedule_evaluation l r)
  unfolding schedule_evaluation
  schedule_evaluation-IsSound r = ground (arith, tick-IsSound l (bypassing r) s)

  restore_rate-IsSound : (a : VideoAnchor) → IsSound (restore_rate l a)
  unfolding restore_rate
  restore_rate-IsSound a = ground arith

force_to_anchor-IsSound :
    (l : Loop) → IsSound l → (a : VideoAnchor) (r : Reading) → IsSound (force_to_anchor l a r)
unfolding force_to_anchor clear_gesture_prompt soft_seek_to hard_seek_to run_autoplay_gate
force_to_anchor-IsSound l s a r = ground arith

load_video-IsSound :
    (l : Loop) → IsSound l → (a : VideoAnchor) (r : Reading) → IsSound (load_video l a r)
unfolding load_video
load_video-IsSound l s a r = ground arith

by_reason-IsSound :
    (l : Loop) (a : VideoAnchor) (reason : AnchorReason) (r : Reading)
    → IsSound l
    → IsSound (by_reason l a reason r)
unfolding by_reason
by_reason-IsSound l a heartbeat r s = s
by_reason-IsSound l a control r s = schedule_evaluation-IsSound l s r
by_reason-IsSound l a resync r s = schedule_evaluation-IsSound l s r
by_reason-IsSound l a snapshot r s = force_to_anchor-IsSound _ (ground arith) a r
by_reason-IsSound l a set_video r s = force_to_anchor-IsSound _ (ground arith) a r

apply_anchor-IsSound :
    (l : Loop) (a : VideoAnchor) (reason : AnchorReason) (r : Reading)
    → IsSound l
    → IsSound (apply_anchor l a reason r)
unfolding apply_anchor adopt_anchor set_drift_state_only
apply_anchor-IsSound l a reason r s =
    let noted : Loop = record l { last_revision = some a.revision } in
    let s' : IsSound noted = ground arith in
    ground (arith, by_reason-IsSound noted a reason r s', load_video-IsSound noted s' a r)

start-IsSound : (l : Loop) (r : Reading) → IsSound l → IsSound (start l r)
unfolding start
start-IsSound l r s =
    let begun : Loop = record l {
      stopped = false;
      last_tick = none;
      join_ticks = join_convergence_ticks;
    } in
    let s' : IsSound begun = ground arith in
    ground (arith, apply_anchor-IsSound begun r.anchor snapshot r s')

on_clock_synced-IsSound :
    (l : Loop) (cold past_pause : Bool) (r : Reading)
    → IsSound l
    → IsSound (on_clock_synced l cold past_pause r)
unfolding on_clock_synced
on_clock_synced-IsSound l cold past_pause r s =
    let known : Loop = record l { clock_sync_pending = false } in
    let s' : IsSound known = ground arith in
    let asked : Reading = record r { bypass_cooldown = true; bypass_pause = past_pause } in
    ground (arith, force_to_anchor-IsSound known s' r.anchor r, tick-IsSound known asked s')

resume_auto_sync-IsSound : (l : Loop) (r : Reading) → IsSound l → IsSound (resume_auto_sync l r)
unfolding resume_auto_sync
resume_auto_sync-IsSound l r s =
    let freed : Loop = record (reset_convergence l) { auto_sync_paused = false } in
    let s' : IsSound freed = ground arith in ground (arith, tick-IsSound freed (bypassing r) s')

observe_player_state-IsSound :
    (l : Loop) (r : Reading) → IsSound l → IsSound (observe_player_state l r)
unfolding observe_player_state
observe_player_state-IsSound l r s =
    let e : SeekLatency =
      observe l.seek_latency r.player r.position r.anchor.playback_rate r.mono in
    let kept : IsInRange e =
      observe-IsInRange l.seek_latency r.player r.position r.anchor.playback_rate r.mono
        s.estimate in
    let seen : Loop = record l { seek_latency = e } in
    let s' : IsSound seen = record {
      backs_off = s.backs_off;
      returns = s.returns;
      converges = s.converges;
      estimate = kept;
    } in
    ground (arith, s', track_buffering-IsSound seen r.player r.position r.anchor r.mono s')

apply_local_seek-IsSound :
    (l : Loop) (p : ℤ) (r : Reading) → IsSound l → IsSound (apply_local_seek l p r)
unfolding apply_local_seek
apply_local_seek-IsSound l p r s = ground arith

on_ack-IsSound :
    (l : Loop) (accepted : Bool) (a : VideoAnchor) (r : Reading)
    → IsSound l
    → IsSound (on_ack l accepted a r)
unfolding on_ack
on_ack-IsSound l accepted a r s =
    let noted : Loop = record l { last_revision = some a.revision; suppress_until = pos 0 } in
    let s' : IsSound noted = ground arith in ground (arith, force_to_anchor-IsSound noted s' a r)

accept_gesture-IsSound : (l : Loop) (r : Reading) → IsSound l → IsSound (accept_gesture l r)
unfolding accept_gesture hard_seek_to
accept_gesture-IsSound l r s =
    let heard : Loop = asks (record l { gesture_granted = true }) unmute in
    let s' : IsSound heard = ground arith in
    ground (
      arith,
      schedule_evaluation-IsSound (clear_gesture_prompt heard)
          (clear_gesture_prompt-IsSound heard s') r,
    )

gesture_answered-IsSound :
    (l : Loop) (begun : Bool) (r : Reading) → IsSound l → IsSound (gesture_answered l begun r)
unfolding gesture_answered
gesture_answered-IsSound l true r s =
    schedule_evaluation-IsSound _ (clear_gesture_prompt-IsSound _ (play_answered-IsSound l s true))
      r
gesture_answered-IsSound l false r s = play_answered-IsSound l s false

intent-IsSound :
    (l : Loop) (can : Bool) (r : Reading)
    → IsSound l
    → IsSound (play_intent l can r) × IsSound (pause_intent l can r)
unfolding play_intent pause_intent clear_gesture_prompt
intent-IsSound l can r s = (ground arith, ground arith)

seek_intent-IsSound :
    (l : Loop) (can : Bool) (p : ℤ) (r : Reading) → IsSound l → IsSound (seek_intent l can p r)
unfolding seek_intent
seek_intent-IsSound l can p r s =
    let free : Loop = record l { gesture_granted = true } in
    let s' : IsSound free = ground arith in
    ground (arith, apply_local_seek-IsSound free (clamp_to_video p r.anchor) r s')

happen-IsSound : (l : Loop) (e : Event) → IsSound l → IsSound (happen l e)
unfolding happen evaluation_due stop on_loaded pause_auto_sync on_clock_failed resync_now
    on_seek_failed request_clock_resync set_transport_connected on_autoplay_error set_muted
    on_player_error restore_rate clear_gesture_prompt
happen-IsSound l (started r) s = start-IsSound l r s
happen-IsSound l (ticked r) s = tick-IsSound l r s
happen-IsSound l (evaluation r) s =
    tick-IsSound (record l { pending_evaluation = false }) (bypassing r) (ground arith)
happen-IsSound l (state_seen r) s = observe_player_state-IsSound l r s
happen-IsSound l (auto_sync_resumed r) s = resume_auto_sync-IsSound l r s
happen-IsSound l (tapped r) s = accept_gesture-IsSound l r s
happen-IsSound l (stopped a) s = ground arith
happen-IsSound l (loaded a) s = ground (arith, run_autoplay_gate-IsSound l s a)
happen-IsSound l (nudge_over a) s = ground arith
happen-IsSound l (auto_sync_stopped a) s = ground arith
happen-IsSound l (anchor_came a reason r) s = apply_anchor-IsSound l a reason r s
happen-IsSound l (clock_synced cold past r) s = on_clock_synced-IsSound l cold past r s
happen-IsSound l clock_failed s = ground arith
happen-IsSound l resynced s = ground arith
happen-IsSound l seek_failed s = ground arith
happen-IsSound l visible s = ground arith
happen-IsSound l (transport connected) s = ground arith
happen-IsSound l (play_ended begun) s = play_answered-IsSound l s begun
happen-IsSound l (refused blocked) s = ground arith
happen-IsSound l (muted m) s = ground arith
happen-IsSound l (gate_ended granted begun) s = gate_answered-IsSound l s granted begun
happen-IsSound l (failed e) s = ground arith
happen-IsSound l (user_plays can r) s = (intent-IsSound l can r s).0
happen-IsSound l (user_pauses can r) s = (intent-IsSound l can r s).1
happen-IsSound l (tap_answered begun r) s = gesture_answered-IsSound l begun r s
happen-IsSound l (user_seeks can p r) s = seek_intent-IsSound l can p r s
happen-IsSound l (acked accepted a r) s = on_ack-IsSound l accepted a r s

fresh_loop-IsSound : IsSound fresh_loop
fresh_loop-IsSound = omega arith

run_from-IsSound : (l : Loop) (es : List Event) → IsSound l → IsSound (run l es)
unfolding run
run_from-IsSound l [] s = s
run_from-IsSound l (e ∷ es) s = run_from-IsSound (happen l e) es (happen-IsSound l e s)

-- Whatever happens to a new controller, in any order: its backoff lies between one and eight, its
-- estimate of a seek lies between 80 and 1200 ms, and at most three of its ticks are left that may
-- seek at once for a join.
pub run-IsSound : (es : List Event) → IsSound (run fresh_loop es)
run-IsSound es = run_from-IsSound fresh_loop es fresh_loop-IsSound
