-- ===== src/DriftLoop/Gate.antt =====
-- apps/web/lib/sync/controller.ts: the gate of autoplay, and putting the player on an anchor.
use syncstudies.Base.{Bool, true, false, not, ◌&&◌, if◌then◌else◌, ltb}
use syncstudies.Base.Int.{◌-ℤ◌}
use syncstudies.Timeline.{VideoAnchor, is_playing, position_at}
use syncstudies.DriftLoop.Loop.{
  Loop, Reading, play_now, pause_now, mute, unmute, plays, magnitude, dead_zone,
}
use syncstudies.DriftLoop.Moves.{asks, hard_seek_to, soft_seek_to}
use syncstudies.DriftLoop.Tick.{aim, no_video}

unfoldable pub set_gesture_prompt : Loop → Bool → Loop
set_gesture_prompt l muted = record l { needs_gesture = true; muted_for_autoplay = muted }

unfoldable pub clear_gesture_prompt : Loop → Loop
clear_gesture_prompt l =
    if not l.needs_gesture && not l.muted_for_autoplay
    then record l { playback_blocked = false }
    else record (if l.muted_for_autoplay then asks l unmute else l) {
      playback_blocked = false;
      needs_gesture = false;
      muted_for_autoplay = false;
    }

-- `attemptPlay` once the player has answered.
unfoldable pub play_answered : Loop → Bool → Loop
unfolding clear_gesture_prompt set_gesture_prompt
play_answered l started =
    if started
    then if l.muted_for_autoplay
      then record l { playback_blocked = false }
      else clear_gesture_prompt (record l { playback_blocked = false })
    else set_gesture_prompt (record l { playback_blocked = true }) l.muted_for_autoplay

unfoldable pub run_autoplay_gate : Loop → VideoAnchor → Loop
run_autoplay_gate l anchor =
    if not (is_playing anchor.status)
    then clear_gesture_prompt l
    else if l.gate_running
    then l
    else if l.gesture_granted
    then record (asks l play_now) { gate_running = true }
    else record (asks (asks l mute) play_now) { gate_running = true; muted_for_autoplay = true }

-- The gate's own continuation, behind that of `attemptPlay`; `granted` is what it branched on.
unfoldable pub gate_answered : Loop → Bool → Bool → Loop
unfolding play_answered set_gesture_prompt
gate_answered l granted started =
    let answered : Loop = record (play_answered l started) { gate_running = false } in
    if granted
    then if started then answered else set_gesture_prompt answered false
    else if started
    then set_gesture_prompt answered true
    else set_gesture_prompt (asks answered unmute) false

-- The player already plays within the dead zone.
unfoldable pub is_settled : Reading → VideoAnchor → Bool
is_settled r anchor =
    plays r.player
    && r.measurable
    && ltb (magnitude (r.position -ℤ position_at anchor r.server_now)) dead_zone

unfoldable pub force_to_anchor : Loop → VideoAnchor → Reading → Loop
force_to_anchor l anchor r =
    if no_video anchor
    then l
    else if not (is_playing anchor.status)
    then clear_gesture_prompt
        (soft_seek_to (asks l pause_now) anchor.anchor_position_sec anchor r.mono)
    else run_autoplay_gate
        (if is_settled r anchor
          then l
          else hard_seek_to l (aim l (position_at anchor r.server_now)) anchor r.mono false)
        anchor

-- An `error` of the player: a refusal to start unmuted or at all is an answer of the gate.
unfoldable pub on_autoplay_error : Loop → Bool → Loop
unfolding set_gesture_prompt
on_autoplay_error l blocked =
    set_gesture_prompt (record l { playback_blocked = blocked }) (not blocked)
