-- ===== src/Timeline.antt =====
-- packages/shared/src/video.ts: positions, control commands and conflict decisions.
mod Anchor
pub mod Position
pub mod Seek
pub mod Conflict
pub mod Examples
pub use Anchor.*
use syncstudies.Base.{Bool, true, false, not, ◌&&◌, Option, some, if◌then◌else◌}
use syncstudies.Base.Text.{String, str_eq}
use syncstudies.Base.Int.{ℤ, pos, ◌+ℤ◌, ◌-ℤ◌, ◌*ℤ◌, ltb_ℤ, eq_ℤ, max_ℤ, min_ℤ}
use Anchor.{
  VideoAnchor, PlaybackStatus, idle, playing, paused, ended, ControlAction, play, pause, seek, rate,
  ControlCommand, SetVideoCommand, ControlDecision, accepted, rejected, stale_revision,
  recently_changed, normal_rate,
}

abbrev pub is_playing : PlaybackStatus → Bool
is_playing playing = true
is_playing _ = false

unfoldable pub clamp_to_duration : ℤ → Option ℤ → ℤ
clamp_to_duration p duration =
    let lower = max_ℤ (pos 0) p in elim duration [ Option.none ↦ lower | some d ↦ min_ℤ lower d ]

-- Where a playing anchor stands at `server_now_ms` before it is clamped.
unfoldable pub course : VideoAnchor → ℤ → ℤ
course a server_now_ms =
    a.anchor_position_sec +ℤ (server_now_ms -ℤ a.anchor_server_ms) *ℤ a.playback_rate

unfoldable pub position_at : VideoAnchor → ℤ → ℤ
unfolding course
position_at a server_now_ms =
    if not (is_playing a.status)
    then clamp_to_duration a.anchor_position_sec a.duration_sec
    else clamp_to_duration (course a server_now_ms) a.duration_sec

-- One second.
abbrev pub max_in_flight_compensation_ms : ℤ
max_in_flight_compensation_ms = pos 1000

-- `x ?? d`.
abbrev pub or_else {ℓ} : {A : Type ℓ} → Option A → A → A
or_else Option.none d = d
or_else (some x) d = x

unfoldable pub in_flight_ms : VideoAnchor → ControlCommand → ℤ → ℤ
in_flight_ms cur cmd now_ms =
    if is_playing cur.status
    then max_ℤ (pos 0) (min_ℤ max_in_flight_compensation_ms (now_ms -ℤ cmd.client_sent_at_ms))
    else pos 0

unfoldable pub seek_target : VideoAnchor → ControlCommand → ℤ → ℤ
unfolding in_flight_ms
seek_target cur cmd now_ms =
    or_else cmd.position_sec (position_at cur now_ms)
    +ℤ in_flight_ms cur cmd now_ms *ℤ cur.playback_rate

-- `cur.durationSec != null && target >= cur.durationSec`
abbrev pub reaches_end : Option ℤ → ℤ → Bool
reaches_end Option.none target = false
reaches_end (some d) target = not (ltb_ℤ target d)

-- The `switch` of `applyControl`, over the bumped copy `base`.
unfoldable pub apply_action :
    ControlAction → VideoAnchor → VideoAnchor → ControlCommand → ℤ → VideoAnchor
apply_action play base cur cmd now_ms = record base {
  status = playing;
  anchor_position_sec =
      if is_playing cur.status then position_at cur now_ms else cur.anchor_position_sec;
  anchor_server_ms = now_ms;
}
apply_action pause base cur cmd now_ms = record base {
  status = paused;
  anchor_position_sec = position_at cur now_ms;
  anchor_server_ms = now_ms;
}
apply_action seek base cur cmd now_ms = record base {
  anchor_position_sec = clamp_to_duration (seek_target cur cmd now_ms) cur.duration_sec;
  anchor_server_ms = now_ms;
  status =
      if reaches_end cur.duration_sec (seek_target cur cmd now_ms) && is_playing cur.status
      then ended
      else cur.status;
}
apply_action rate base cur cmd now_ms = record base {
  playback_rate = or_else cmd.rate normal_rate;
  anchor_position_sec = position_at cur now_ms;
  anchor_server_ms = now_ms;
}

unfoldable pub apply_control : VideoAnchor → ControlCommand → ℤ → VideoAnchor
unfolding apply_action
apply_control cur cmd now_ms =
    apply_action cmd.action
      (record cur { last_change_ms = now_ms; revision = cur.revision +ℤ pos 1 }) cur cmd now_ms

unfoldable pub apply_set_video : VideoAnchor → SetVideoCommand → ℤ → VideoAnchor
apply_set_video cur cmd now_ms = record cur {
  provider = cmd.provider;
  video_ref = some cmd.video_ref;
  title = cmd.title;
  duration_sec = cmd.duration_sec;
  status = paused;
  anchor_position_sec = pos 0;
  anchor_server_ms = now_ms;
  playback_rate = normal_rate;
  revision = cur.revision +ℤ pos 1;
  last_change_ms = now_ms;
}

unfoldable pub freeze_anchor : VideoAnchor → ℤ → VideoAnchor
freeze_anchor a now_ms = record a {
  status = if is_playing a.status then paused else a.status;
  anchor_position_sec = position_at a now_ms;
  anchor_server_ms = now_ms;
}

-- `lastActorId !== null && lastActorId !== actorId`
abbrev pub other_actor : Option String → String → Bool
other_actor Option.none actor_id = false
other_actor (some a) actor_id = not (str_eq a actor_id)

-- The two guards of `decideControl`.
unfoldable pub is_stale : VideoAnchor → ℤ → Bool
is_stale cur expected_revision =
    not (ltb_ℤ expected_revision (pos 0)) && not (eq_ℤ expected_revision cur.revision)

unfoldable pub is_locked : VideoAnchor → String → ℤ → ℤ → Bool
is_locked cur actor_id now_ms control_lock_ms =
    other_actor cur.last_actor_id actor_id && ltb_ℤ (now_ms -ℤ cur.last_change_ms) control_lock_ms

unfoldable pub decide_control : VideoAnchor → ℤ → String → ℤ → ℤ → ControlDecision
decide_control cur expected_revision actor_id now_ms control_lock_ms =
    if is_stale cur expected_revision
    then rejected stale_revision
    else if is_locked cur actor_id now_ms control_lock_ms
    then rejected recently_changed
    else accepted
