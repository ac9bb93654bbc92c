-- ===== src/Timeline/Examples.antt =====
-- Runs of the timeline at concrete inputs, and the theorems applied there.
use syncstudies.Base.{◌≡◌, ◌≢◌, refl, some, none, arith}
use syncstudies.Base.Text.{String, str_eq_iff}
use syncstudies.Base.Int.{pos, ◌+ℤ◌, ◌-ℤ◌, ◌*ℤ◌, ◌≤ℤ◌, ◌<ℤ◌}
use syncstudies.Timeline.Anchor.{
  VideoProvider, VideoAnchor, idle_anchor, playing, ControlCommand, play, pause, seek,
}
use syncstudies.Timeline.{position_at, apply_control, clamp_to_duration}
use syncstudies.Timeline.Seek.{seek_compensates}

-- A lecture of 100 s that plays since 1000 ms from second 10, at one and a half times the speed.
abbrev lecture : VideoAnchor
lecture = record idle_anchor {
  provider = VideoProvider.youtube;
  video_ref = some "dQw4w9WgXcQ";
  duration_sec = some (pos 10_000_000);
  status = playing;
  anchor_position_sec = pos 1_000_000;
  anchor_server_ms = pos 1000;
  playback_rate = pos 150;
  revision = pos 7;
  last_actor_id = some "priya";
  last_change_ms = pos 1000;
}

abbrev press_pause : ControlCommand
press_pause = record {
  action = pause;
  position_sec = none;
  rate = none;
  client_sent_at_ms = pos 2900;
  expected_revision = pos 7;
}

abbrev press_play : ControlCommand
press_play = record press_pause { action = play }

-- To second 50, sent at 2800 ms.
abbrev drag : ControlCommand
drag = record press_pause {
  action = seek;
  position_sec = some (pos 5_000_000);
  client_sent_at_ms = pos 2800;
}

-- Two seconds later the room is three seconds further.
lecture_position : position_at lecture (pos 3000) ≡ pos 1_300_000
unfolding position_at clamp_to_duration ◌+ℤ◌ ◌-ℤ◌ ◌*ℤ◌
lecture_position = refl

lecture_end : position_at lecture (pos 1_000_000) ≡ pos 10_000_000
unfolding position_at clamp_to_duration ◌+ℤ◌ ◌-ℤ◌ ◌*ℤ◌
lecture_end = refl

drag_delay : pos 3000 -ℤ drag.client_sent_at_ms ≤ℤ pos 1000
unfolding ◌-ℤ◌
drag_delay = omega arith

seek_compensates_example :
    position_at (apply_control lecture drag (pos 3000)) (pos 3000)
    ≡ position_at (apply_control lecture drag (pos 2800)) (pos 3000)
seek_compensates_example =
    seek_compensates lecture drag (pos 3000) (pos 5_000_000) refl refl refl (omega arith)
      (omega arith) (omega arith) drag_delay

sam_differs : ◌≢◌ {A = String} "sam" "priya"
sam_differs e = cc ((str_eq_iff "sam" "priya").1 e)

soon : pos 3500 -ℤ pos 3000 <ℤ pos 600
unfolding ◌-ℤ◌
soon = omega arith
