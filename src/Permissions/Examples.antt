-- ===== src/Permissions/Examples.antt =====
-- Permissions at concrete roles, and the theorems applied there.
use syncstudies.Base.{◌≡◌, refl, true, false}
use syncstudies.Timeline.{everyone}
use syncstudies.Permissions.{member, notes_edit, can, RoomPolicy}

abbrev lecture : RoomPolicy
lecture = record {
  playback_control = everyone;
  chat_locked = true;
  slow_mode_sec = 0;
  wait_for_slow = false;
  call_enabled = true;
  screenshare_enabled = false;
  annotations_enabled = false;
  max_participants = 8;
}

member_edits : can member notes_edit ≡ true
unfolding can
member_edits = refl
