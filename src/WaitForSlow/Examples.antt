-- ===== src/WaitForSlow/Examples.antt =====
-- A lecture that waits for Sam, and the theorems applied there.
use syncstudies.Base.{◌≡◌, ◌≢◌, refl, true, false, none, some, [], ◌∷◌, arith}
use syncstudies.Base.Int.{pos, ◌-ℤ◌, ◌<ℤ◌}
use syncstudies.Timeline.{VideoAnchor, paused, pause, is_playing, position_at}
use syncstudies.RoomState.{Hash, anchor_from_hash, write_anchor, empty_hash}
use syncstudies.RoomState.Examples.{tally, lecture, live, lecture-IsStorable}
use syncstudies.RoomState.RoundTrip.{IsStorable, anchor_from_hash-write_anchor}
use syncstudies.RoomState.Decision.{system_lock}
use syncstudies.Guard.{RoomMeta}
use syncstudies.Guard.Examples.{study}
use syncstudies.WaitForSlow.{WaitRoom, evaluate_wait_for_slow, stop_waiting_and_resume, on_cap}
use syncstudies.WaitForSlow.System.{system_control-done}
use syncstudies.WaitForSlow.Resume.{PlaysFrom, stop_waiting-PlaysFrom, wait_ends}
use syncstudies.WaitForSlow.Strand.{on_cap-strands}

abbrev patient : RoomMeta
patient = record study { policy = record study.policy { wait_for_slow = true } }

abbrev room : WaitRoom
room = record {
  hash = live;
  buffering = "sam" ∷ [];
  meta = some patient;
  is_leader = true;
  waiting = false;
  sent = [];
}

live-lecture : anchor_from_hash tally live ≡ lecture
live-lecture = anchor_from_hash-write_anchor tally empty_hash lecture lecture-IsStorable

lecture-free : system_lock (anchor_from_hash tally live) (pos 9) ≡ false
unfolding ◌-ℤ◌
lecture-free = rw live-lecture

lecture-held : (evaluate_wait_for_slow tally room (pos 9)).waiting ≡ true
unfolding evaluate_wait_for_slow
lecture-held = rw live-lecture (rw (system_control-done tally room pause (pos 9) lecture-free))

wait_ends_example :
    PlaysFrom tally
      (pos 10_009)
      (position_at (anchor_from_hash tally live) (pos 9))
      (on_cap tally (evaluate_wait_for_slow tally room (pos 9)) (pos 10_009))
wait_ends_example = wait_ends tally room (pos 9) (pos 10_009) refl lecture-held

-- Priya pauses while the room waits.
abbrev paused_by_priya : VideoAnchor
paused_by_priya = record lecture { status = paused }

paused_by_priya-IsStorable : IsStorable tally paused_by_priya
paused_by_priya-IsStorable = record {
  ref_ne_empty = lecture-IsStorable.ref_ne_empty;
  title_ne_empty = lecture-IsStorable.title_ne_empty;
  actor_ne_empty = lecture-IsStorable.actor_ne_empty;
}

abbrev paused_live : Hash
paused_live = write_anchor tally empty_hash paused_by_priya

abbrev waiting_room : WaitRoom
waiting_room = record room { hash = paused_live; waiting = true }

live-paused : anchor_from_hash tally paused_live ≡ paused_by_priya
live-paused =
    anchor_from_hash-write_anchor tally empty_hash paused_by_priya paused_by_priya-IsStorable

priya-free : system_lock (anchor_from_hash tally paused_live) (pos 9) ≡ false
unfolding ◌-ℤ◌
priya-free = rw live-paused

stop_waiting-PlaysFrom_example :
    PlaysFrom tally
      (pos 9)
      (position_at (anchor_from_hash tally paused_live) (pos 9))
      (stop_waiting_and_resume tally waiting_room false (pos 9))
stop_waiting-PlaysFrom_example =
    stop_waiting-PlaysFrom tally waiting_room (pos 9) refl refl priya-free

priya-person : (anchor_from_hash tally paused_live).last_actor_id ≢ none
priya-person e = cc (e, live-paused)

-- Her node's clock is ahead of this one's.
priya-ahead : pos 4 <ℤ (anchor_from_hash tally paused_live).last_change_ms
priya-ahead = rw live-paused (omega arith)

priya-still : is_playing (anchor_from_hash tally paused_live).status ≡ false
priya-still = rw live-paused

on_cap-strands_example :
    ((on_cap tally waiting_room (pos 4)).hash ≡ paused_live)
    × ((on_cap tally waiting_room (pos 4)).waiting ≡ false)
    × (evaluate_wait_for_slow tally (on_cap tally waiting_room (pos 4)) (pos 90)
        ≡ on_cap tally waiting_room (pos 4))
on_cap-strands_example =
    on_cap-strands tally waiting_room (pos 4) (pos 90) refl priya-person priya-ahead priya-still
