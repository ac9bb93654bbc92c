-- ===== src/VideoHandlers.antt =====
-- apps/realtime/src/handlers/video.ts: `video:control`, past the guard.
-- A handler reads the room twice: `cur` is what `getOrHydrate` gave it, `live` is the hash that the
-- script finds, which another node may have changed in between, and `fresh` is what a refusal reads
-- back. The broadcast is part of the result; metrics are left out.
pub mod Control
pub mod Accept
pub mod Race
pub mod Examples
use syncstudies.Base.{Bool, true, false, not, ◌||◌, List, [], Option, none, some, if◌then◌else◌}
use syncstudies.Base.Text.{String}
use syncstudies.Base.Int.{ℤ, pos, ltb_ℤ}
use syncstudies.Timeline.{
  VideoProvider, VideoAnchor, ControlCommand, ControlRejectReason, not_permitted, no_video,
  ControlDecision, accepted, rejected, apply_control, decide_control,
}
use syncstudies.Permissions.{Role, RoomPolicy, can_control_video}
use syncstudies.RoomState.{
  Hash, JsNumber, ApplyControlArgs, ScriptReply, written, refused, apply_atomic,
}

abbrev pub control_lock_ms : ℤ
control_lock_ms = pos 600

pub record ControlAck : Type 0 where
  pub ok : Bool
  pub reason : Option ControlRejectReason
  pub anchor : VideoAnchor

-- What a handler leaves: the hash, the anchor broadcast to the room, and the sender's ack.
pub record Handled : Type 0 where
  pub hash : Hash
  pub broadcast : Option VideoAnchor
  pub ack : ControlAck

-- Who sends, and the room's policy.
pub record Sender : Type 0 where
  pub user_id : String
  pub role : Role
  pub policy : RoomPolicy

-- `fresh?.anchor ?? fallback`
abbrev pub or_fallback : Option VideoAnchor → VideoAnchor → VideoAnchor
or_fallback none fallback = fallback
or_fallback (some anchor) fallback = anchor

unfoldable pub reject_control :
    Hash → Option VideoAnchor → ControlRejectReason → VideoAnchor → Handled
reject_control live fresh reason fallback = record {
  hash = live;
  broadcast = none;
  ack = record { ok = false; reason = some reason; anchor = or_fallback fresh fallback };
}

abbrev is_none_provider : VideoProvider → Bool
is_none_provider VideoProvider.none = true
is_none_provider VideoProvider.youtube = false
is_none_provider VideoProvider.file = false

abbrev is_null : Option String → Bool
is_null none = true
is_null (some s) = false

unfoldable pub lacks_video : VideoAnchor → Bool
lacks_video a = is_none_provider a.provider || is_null a.video_ref

-- The anchor that a control asks for, and the call of the script.
unfoldable pub next_anchor : Sender → VideoAnchor → ControlCommand → ℤ → VideoAnchor
next_anchor from cur cmd now_ms = record (apply_control cur cmd now_ms) {
  last_actor_id = some from.user_id;
}

-- A command that does not know the revision takes the one that was read.
unfoldable pub revision_to_check : VideoAnchor → ControlCommand → ℤ
revision_to_check cur cmd =
    if not (ltb_ℤ cmd.expected_revision (pos 0)) then cmd.expected_revision else cur.revision

unfoldable pub control_args : Sender → VideoAnchor → ControlCommand → ℤ → ApplyControlArgs
control_args from cur cmd now_ms = record {
  next = next_anchor from cur cmd now_ms;
  expected_revision = revision_to_check cur cmd;
  actor_id = some from.user_id;
  now_ms = now_ms;
  lock_ms = control_lock_ms;
  extra = [];
}

module _ (js : JsNumber) where
  -- The script's reply, dealt with.
  abbrev pub after_script :
      Option VideoAnchor → VideoAnchor → VideoAnchor → Hash → ScriptReply → Handled
  after_script fresh cur next hash (refused reason rev) = reject_control hash fresh reason cur
  after_script fresh cur next hash (written rev) =
      let done : VideoAnchor = record next { revision = rev } in
      record {
        hash = hash;
        broadcast = some done;
        ack = record { ok = true; reason = none; anchor = done };
      }

  unfoldable pub send_control :
      Sender → Hash → VideoAnchor → Option VideoAnchor → ControlCommand → ℤ → Handled
  send_control from live cur fresh cmd now_ms =
      let outcome = apply_atomic js live (control_args from cur cmd now_ms) in
      after_script fresh cur (next_anchor from cur cmd now_ms) outcome.0 outcome.1

  abbrev pub after_decision :
      Sender
      → Hash
      → VideoAnchor
      → Option VideoAnchor
      → ControlCommand
      → ℤ
      → ControlDecision
      → Handled
  after_decision from live cur fresh cmd now_ms (rejected reason) =
      reject_control live fresh reason cur
  after_decision from live cur fresh cmd now_ms accepted =
      send_control from live cur fresh cmd now_ms

  unfoldable pub handle_control :
      Sender → Hash → VideoAnchor → Option VideoAnchor → ControlCommand → ℤ → Handled
  handle_control from live cur fresh cmd now_ms =
      if not (can_control_video from.role from.policy.playback_control)
      then reject_control live fresh not_permitted cur
      else if lacks_video cur
      then reject_control live fresh no_video cur
      else after_decision from live cur fresh cmd now_ms
          (decide_control cur cmd.expected_revision from.user_id now_ms control_lock_ms)
