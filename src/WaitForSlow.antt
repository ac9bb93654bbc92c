-- ===== src/WaitForSlow.antt =====
-- apps/realtime/src/handlers/video.ts: a playing room is paused while somebody's video loads, and
-- resumed when all have caught up or the cap has passed.
-- The model is one room on one node. `getOrHydrate` finds the room in Redis, and nobody changes it
-- between that read and the script; what others do between two calls is any change of the record.
-- The line in the transcript and the log are left out; `sent` is what the room is sent.
pub mod System
pub mod Resume
pub mod Strand
pub mod Examples
use syncstudies.Base.{
  ℕ, Bool, true, false, not, ◌&&◌, List, [], ◌∷◌, ◌++◌, Option, none, some, if◌then◌else◌,
}
use syncstudies.Base.Text.{String}
use syncstudies.Base.Int.{ℤ, pos, ◌+ℤ◌}
use syncstudies.Timeline.{
  VideoAnchor, ControlAction, ControlCommand, play, pause, apply_control, is_playing,
}
use syncstudies.RoomState.{
  Hash, JsNumber, anchor_from_hash, ApplyControlArgs, ScriptReply, written, refused, apply_atomic,
}
use syncstudies.Guard.{RoomMeta}

abbrev pub wait_for_slow_max_ms : ℕ
wait_for_slow_max_ms = 10_000

-- `video:state`, and `video:waiting` with those waited for and until when.
pub data Emitted : Type 0 where
  state_sent : VideoAnchor → Emitted
  waiting_sent : List String → ℤ → Emitted

-- The room in Redis, what the room's metadata says, and this node's part: its lease, and whether
-- `autoPaused` has the room, which is while the cap timer is set.
pub record WaitRoom : Type 0 where
  pub hash : Hash
  pub buffering : List String
  pub meta : Option RoomMeta
  pub is_leader : Bool
  pub waiting : Bool
  pub sent : List Emitted

abbrev pub emit : WaitRoom → Emitted → WaitRoom
emit room e = record room { sent = room.sent ++ e ∷ [] }

abbrev pub is_empty : List String → Bool
is_empty [] = true
is_empty (x ∷ xs) = false

-- A control by nobody.
abbrev pub system_command : ControlAction → VideoAnchor → ℤ → ControlCommand
system_command action cur now = record {
  action = action;
  position_sec = none;
  rate = none;
  client_sent_at_ms = now;
  expected_revision = cur.revision;
}

unfoldable pub system_next : ControlAction → VideoAnchor → ℤ → VideoAnchor
system_next action cur now = record (apply_control cur (system_command action cur now) now) {
  last_actor_id = none;
}

unfoldable pub system_args : ControlAction → VideoAnchor → ℤ → ApplyControlArgs
system_args action cur now = record {
  next = system_next action cur now;
  expected_revision = cur.revision;
  actor_id = none;
  now_ms = now;
  lock_ms = pos 0;
  extra = [];
}

abbrev pub after_system :
    WaitRoom → VideoAnchor → Hash → ScriptReply → WaitRoom × Option VideoAnchor
after_system room next hash (refused reason rev) = (record room { hash = hash }, none)
after_system room next hash (written rev) =
    let done : VideoAnchor = record next { revision = rev } in
    (emit (record room { hash = hash }) (state_sent done), some done)

abbrev pub after_pause : ℤ → WaitRoom × Option VideoAnchor → WaitRoom
after_pause now (room, none) = room
after_pause now (room, some paused) =
    record (emit room (waiting_sent room.buffering (now +ℤ pos wait_for_slow_max_ms))) {
      waiting = true;
    }

abbrev pub waits_for_slow : Option RoomMeta → Bool
waits_for_slow none = false
waits_for_slow (some meta) = meta.policy.wait_for_slow

unfoldable pub abandon_wait_for_slow : WaitRoom → WaitRoom
abandon_wait_for_slow room = record room { waiting = false }

module _ (js : JsNumber) where
  unfoldable pub system_control : WaitRoom → ControlAction → ℤ → WaitRoom × Option VideoAnchor
  system_control room action now =
      let cur : VideoAnchor = anchor_from_hash js room.hash in
      let outcome = apply_atomic js room.hash (system_args action cur now) in
      after_system room (system_next action cur now) outcome.0 outcome.1

  unfoldable pub resume_after_wait : WaitRoom → Bool → ℤ → WaitRoom
  resume_after_wait room force now =
      if not force && not room.is_leader
      then room
      else (system_control (emit room (waiting_sent [] now)) play now).0

  unfoldable pub stop_waiting_and_resume : WaitRoom → Bool → ℤ → WaitRoom
  stop_waiting_and_resume room force now =
      if room.waiting then resume_after_wait (record room { waiting = false }) force now else room

  -- The cap timer, which forgets the wait before it resumes the room.
  unfoldable pub on_cap : WaitRoom → ℤ → WaitRoom
  on_cap room now =
      if room.waiting then resume_after_wait (record room { waiting = false }) false now else room

  unfoldable pub evaluate_wait_for_slow : WaitRoom → ℤ → WaitRoom
  evaluate_wait_for_slow room now =
      if not room.is_leader
      then room
      else if not (waits_for_slow room.meta)
      then stop_waiting_and_resume room false now
      else if is_empty room.buffering
      then stop_waiting_and_resume room false now
      else if room.waiting
      then room
      else if not (is_playing (anchor_from_hash js room.hash).status)
      then room
      else after_pause now (system_control room pause now)
