-- ===== src/Timeline/Anchor.antt =====
-- packages/shared/src/video.ts: the data of the timeline.
-- Numbers of the source are integers here. A `_ms` field is in milliseconds, a `_sec` field in
-- units of 1/100000 s, and a rate in hundredths, so that milliseconds times a rate is a position
-- and `elapsedSec * playbackRate` is exact.
use syncstudies.Base.{Option}
use syncstudies.Base.Text.{String}
use syncstudies.Base.Int.{ℤ, pos}

pub data VideoProvider : Type 0 where
  youtube file none : VideoProvider

pub data PlaybackStatus : Type 0 where
  idle playing paused ended : PlaybackStatus

pub data PlaybackControlPolicy : Type 0 where
  everyone host_and_cohosts host_only : PlaybackControlPolicy

pub record VideoAnchor : Type 0 where
  pub provider : VideoProvider
  pub video_ref : Option String
  pub title : Option String
  pub duration_sec : Option ℤ
  pub status : PlaybackStatus
  pub anchor_position_sec : ℤ
  pub anchor_server_ms : ℤ
  pub playback_rate : ℤ
  pub revision : ℤ
  pub last_actor_id : Option String
  pub last_change_ms : ℤ

-- The rate 1.
abbrev pub normal_rate : ℤ
normal_rate = pos 100

abbrev pub idle_anchor : VideoAnchor
idle_anchor = record {
  provider = VideoProvider.none;
  video_ref = Option.none;
  title = Option.none;
  duration_sec = Option.none;
  status = idle;
  anchor_position_sec = pos 0;
  anchor_server_ms = pos 0;
  playback_rate = normal_rate;
  revision = pos 0;
  last_actor_id = Option.none;
  last_change_ms = pos 0;
}

pub data ControlAction : Type 0 where
  play pause seek rate : ControlAction

pub record ControlCommand : Type 0 where
  pub action : ControlAction
  pub position_sec : Option ℤ
  pub rate : Option ℤ
  pub client_sent_at_ms : ℤ
  pub expected_revision : ℤ

pub record SetVideoCommand : Type 0 where
  pub provider : VideoProvider
  pub video_ref : String
  pub title : Option String
  pub duration_sec : Option ℤ

pub data ControlRejectReason : Type 0 where
  stale_revision recently_changed not_permitted rate_limited no_video : ControlRejectReason

-- `{ accepted: true }` or `{ accepted: false, reason }`.
pub data ControlDecision : Type 0 where
  accepted : ControlDecision
  rejected : ControlRejectReason → ControlDecision
