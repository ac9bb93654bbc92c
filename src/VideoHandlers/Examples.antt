-- ===== src/VideoHandlers/Examples.antt =====
-- `video:control` at a concrete room, and the theorems applied there.
use syncstudies.Base.{◌≡◌, ◌≢◌, ◌↔◌, true, false, none, arith}
use syncstudies.Base.Int.{pos}
use syncstudies.Timeline.{VideoAnchor, ControlCommand, pause, accepted, decide_control}
use syncstudies.Permissions.{member, RoomPolicy, can_control_video}
use syncstudies.Timeline.{everyone}
use syncstudies.RoomState.{anchor_from_hash, empty_hash}
use syncstudies.RoomState.RoundTrip.{anchor_from_hash-write_anchor}
use syncstudies.RoomState.Examples.{tally, lecture, live, lecture-IsStorable}
use syncstudies.VideoHandlers.{Sender, control_lock_ms, lacks_video, handle_control}
use syncstudies.VideoHandlers.Control.{IsFaithful, handle_control-IsFaithful}
use syncstudies.VideoHandlers.Accept.{handle_control-accepts}
use syncstudies.VideoHandlers.Race.{LeavesAlone, handle_control-moved}

abbrev seminar : RoomPolicy
seminar = record {
  playback_control = everyone;
  chat_locked = false;
  slow_mode_sec = 0;
  wait_for_slow = false;
  call_enabled = true;
  screenshare_enabled = true;
  annotations_enabled = true;
  max_participants = 8;
}

abbrev priya : Sender
priya = record { user_id = "priya"; role = member; policy = seminar }

abbrev pausing : ControlCommand
pausing = record {
  action = pause;
  position_sec = none;
  rate = none;
  client_sent_at_ms = pos 8;
  expected_revision = pos 3;
}

live-lecture : anchor_from_hash tally live ≡ lecture
live-lecture = anchor_from_hash-write_anchor tally empty_hash lecture lecture-IsStorable

handle_control-IsFaithful_example :
    IsFaithful tally live (handle_control tally priya live lecture none pausing (pos 9))
handle_control-IsFaithful_example =
    handle_control-IsFaithful tally priya live lecture none pausing (pos 9) (λ e. cc e) live-lecture

handle_control-accepts_example :
    ((handle_control tally priya live lecture none pausing (pos 9)).ack.ok ≡ true) ↔ (
      (can_control_video member everyone ≡ true)
      × (lacks_video lecture ≡ false)
      × (decide_control lecture (pos 3) "priya" (pos 9) control_lock_ms ≡ accepted))
handle_control-accepts_example =
    handle_control-accepts tally priya live lecture none pausing (pos 9) live-lecture

-- What Priya's node read before the room came to its third revision.
abbrev outdated : VideoAnchor
outdated = record lecture { revision = pos 2 }

moved_on : (anchor_from_hash tally live).revision ≢ outdated.revision
moved_on e = ground (arith, live-lecture)

handle_control-moved_example :
    LeavesAlone tally live (handle_control tally priya live outdated none pausing (pos 9))
handle_control-moved_example =
    handle_control-moved tally priya live outdated none pausing (pos 9) (omega arith) moved_on
