-- ===== src/DriftLoop/Intents.antt =====
-- apps/web/lib/sync/controller.ts: what the user does, applied to the own player first, and the
-- server's answers. Scrubbing is not modelled but for its end, which is a seek.
use syncstudies.Base.{Bool, true, false, not, ◌&&◌, ◌||◌, Option, none, some, if◌then◌else◌}
use syncstudies.Base.Int.{ℤ, pos, ◌+ℤ◌, ltb_ℤ, max_ℤ}
use syncstudies.Timeline.{VideoAnchor, play, pause, seek, is_playing, position_at}
use syncstudies.DriftLoop.Loop.{
  Loop, Reading, seek_to, play_now, pause_now, mute, unmute, send_control, cancel, plays,
  post_seek_blind_ms,
}
use syncstudies.DriftLoop.Moves.{asks, hard_seek_to, suppress_for, clamp_to_video}
use syncstudies.DriftLoop.Tick.{aim}
use syncstudies.DriftLoop.Gate.{clear_gesture_prompt, play_answered, force_to_anchor}
use syncstudies.DriftLoop.Control.{schedule_evaluation}

-- `play()`: whoever may not control the video is not listened to.
unfoldable pub play_intent : Loop → Bool → Reading → Loop
play_intent l can_control r =
    if not can_control
    then l
    else asks
        (suppress_for (asks (clear_gesture_prompt (record l { gesture_granted = true })) play_now)
          r.mono post_seek_blind_ms)
        (send_control play none)

unfoldable pub pause_intent : Loop → Bool → Reading → Loop
pause_intent l can_control r =
    if not can_control
    then l
    else asks
        (suppress_for (asks (record l { gesture_granted = true }) pause_now) r.mono
          post_seek_blind_ms)
        (send_control pause none)

-- Past the target by what a seek takes, while the room plays.
abbrev pub lead : Loop → VideoAnchor → ℤ
lead l anchor = if is_playing anchor.status then l.seek_latency.value else pos 0

unfoldable pub apply_local_seek : Loop → ℤ → Reading → Loop
apply_local_seek l target r =
    let sought : Loop =
      record (asks l (seek_to (clamp_to_video (target +ℤ lead l r.anchor) r.anchor))) {
        seek_latency = cancel l.seek_latency;
      } in
    suppress_for
      (if is_playing r.anchor.status && not (plays r.player) then asks sought play_now else sought)
      r.mono post_seek_blind_ms

unfoldable pub seek_intent : Loop → Bool → ℤ → Reading → Loop
seek_intent l can_control position r =
    if not can_control
    then l
    else asks
        (apply_local_seek (record l { gesture_granted = true }) (clamp_to_video position r.anchor)
          r)
        (send_control seek (some (clamp_to_video position r.anchor)))

abbrev pub later_revision : Option ℤ → ℤ → ℤ
later_revision none revision = revision
later_revision (some last) revision = max_ℤ last revision

-- The server's ack of a control, with the anchor that it carries.
unfoldable pub on_ack : Loop → Bool → VideoAnchor → Reading → Loop
on_ack l accepted anchor r =
    if l.stopped
    then l
    else if accepted
    then record l { last_revision = some (later_revision l.last_revision anchor.revision) }
    else if ltb_ℤ anchor.revision (pos 0)
    then l
    else force_to_anchor (record l { last_revision = some anchor.revision; suppress_until = pos 0 })
        anchor r

-- The tap on the bar: unmute, and land where the room is.
unfoldable pub accept_gesture : Loop → Reading → Loop
accept_gesture l r =
    let heard : Loop = asks (record l { gesture_granted = true }) unmute in
    if is_playing r.anchor.status
    then asks
        (hard_seek_to heard (aim heard (position_at r.anchor r.server_now)) r.anchor r.mono false)
        play_now
    else schedule_evaluation (clear_gesture_prompt heard) r

unfoldable pub gesture_answered : Loop → Bool → Reading → Loop
gesture_answered l started r =
    if started
    then schedule_evaluation (clear_gesture_prompt (play_answered l true)) r
    else play_answered l false

unfoldable pub set_muted : Loop → Bool → Loop
set_muted l muted =
    if muted
    then asks l mute
    else if l.muted_for_autoplay || l.needs_gesture
    then clear_gesture_prompt (record (asks l unmute) { gesture_granted = true })
    else asks l unmute
