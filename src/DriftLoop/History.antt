-- ===== src/DriftLoop/History.antt =====
-- apps/web/lib/sync/controller.ts: all that can happen to a controller, in any order.
use syncstudies.Base.{Bool, false, Option, List, [], ◌∷◌}
use syncstudies.Base.Int.{ℤ}
use syncstudies.Timeline.{VideoAnchor}
use syncstudies.ClientStore.Data.{PlayerErrorInfo, idle}
use syncstudies.DriftLoop.Loop.{Loop, Reading, cancel}
use syncstudies.DriftLoop.Moves.{request_clock_resync}
use syncstudies.DriftLoop.Tick.{tick}
use syncstudies.DriftLoop.Gate.{play_answered, gate_answered, on_autoplay_error}
use syncstudies.DriftLoop.Control.{
  AnchorReason, apply_anchor, on_loaded, start, stop, evaluation_due, restore_rate,
  set_transport_connected, resync_now, on_clock_synced, on_clock_failed, pause_auto_sync,
  resume_auto_sync, observe_player_state,
}
use syncstudies.DriftLoop.Intents.{
  play_intent, pause_intent, seek_intent, on_ack, accept_gesture, gesture_answered, set_muted,
}

pub data Event : Type 0 where
  started ticked evaluation state_seen auto_sync_resumed tapped : Reading → Event
  stopped loaded nudge_over auto_sync_stopped : VideoAnchor → Event
  anchor_came : VideoAnchor → AnchorReason → Reading → Event
  clock_synced : Bool → Bool → Reading → Event
  clock_failed resynced seek_failed visible : Event
  transport play_ended refused muted : Bool → Event
  gate_ended : Bool → Bool → Event
  failed : PlayerErrorInfo → Event
  user_plays user_pauses tap_answered : Bool → Reading → Event
  user_seeks : Bool → ℤ → Reading → Event
  acked : Bool → VideoAnchor → Reading → Event

-- The `catch` of a seek.
unfoldable pub on_seek_failed : Loop → Loop
on_seek_failed l = record l { seek_latency = cancel l.seek_latency }

-- A video that is broken.
unfoldable pub on_player_error : Loop → PlayerErrorInfo → Loop
on_player_error l e = record l { player_error = Option.some e; drift_state = idle }

unfoldable pub happen : Loop → Event → Loop
happen l (started r) = start l r
happen l (ticked r) = tick l r
happen l (evaluation r) = evaluation_due l r
happen l (state_seen r) = observe_player_state l r
happen l (auto_sync_resumed r) = resume_auto_sync l r
happen l (tapped r) = accept_gesture l r
happen l (stopped a) = stop l a
happen l (loaded a) = on_loaded l a
happen l (nudge_over a) = restore_rate l a
happen l (auto_sync_stopped a) = pause_auto_sync l a
happen l (anchor_came a reason r) = apply_anchor l a reason r
happen l (clock_synced cold past_pause r) = on_clock_synced l cold past_pause r
happen l clock_failed = on_clock_failed l
happen l resynced = resync_now l
happen l seek_failed = on_seek_failed l
happen l visible = request_clock_resync l 3 false
happen l (transport connected) = set_transport_connected l connected
happen l (play_ended begun) = play_answered l begun
happen l (refused blocked) = on_autoplay_error l blocked
happen l (muted m) = set_muted l m
happen l (gate_ended granted begun) = gate_answered l granted begun
happen l (failed e) = on_player_error l e
happen l (user_plays can r) = play_intent l can r
happen l (user_pauses can r) = pause_intent l can r
happen l (tap_answered begun r) = gesture_answered l begun r
happen l (user_seeks can position r) = seek_intent l can position r
happen l (acked accepted a r) = on_ack l accepted a r

unfoldable pub run : Loop → List Event → Loop
run l [] = l
run l (e ∷ es) = run (happen l e) es
