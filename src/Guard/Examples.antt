-- ===== src/Guard/Examples.antt =====
-- The guard at concrete requests, and the theorems applied there.
use syncstudies.Base.{ℕ, ◌≡◌, ◌↔◌, refl, true, false, none, some, [], ◌∷◌}
use syncstudies.Base.Int.{pos, ◌+ℤ◌, ◌-ℤ◌}
use syncstudies.Timeline.{everyone}
use syncstudies.Permissions.{member, notes_edit}
use syncstudies.SocketLimit.{
  Limiter, limits, video_control, consume, evaluate, hit, struck, record_strike, rate_limit_script,
  apply_cooldown,
}
use syncstudies.Guard.{RoomMeta, SocketData, Answers, admits, after_verdict, guard_room_event}
use syncstudies.Guard.Admit.{Entitled, guard_room_event-admits}

-- Eight controls of ten seconds are used up, and there were two breaches a moment ago.
abbrev worn_out : Limiter
worn_out = record {
  strikes = λ s. pos 100 ∷ pos 200 ∷ [];
  local_windows = λ k. none;
  counters = λ k. some (record { count = 8; expires_at = some (pos 10_000) });
  cooldowns = λ u. none;
  redis_up = true;
}

abbrev sam : SocketData
sam = record { socket_id = "s"; user_id = "sam"; has_room = true }

abbrev pub study : RoomMeta
study = record {
  is_active = true;
  policy = record {
    playback_control = everyone;
    chat_locked = false;
    slow_mode_sec = 0;
    wait_for_slow = false;
    call_enabled = true;
    screenshare_enabled = true;
    annotations_enabled = true;
    max_participants = 8;
  };
}

abbrev answers : Answers ℕ
answers = record { parsed = some 7; meta = some study; participant = some member }

guard_room_event-admits_example :
    ((guard_room_event worn_out sam "video:control"
        (limits video_control)
        (some notes_edit)
        answers
        (pos 300)).outcome
      ≡ admits 7 study member)
    ↔ (((consume worn_out "s" "video:control" (limits video_control) (pos 300)).1.allowed ≡ true)
        × Entitled true (some notes_edit) answers 7 study member)
guard_room_event-admits_example =
    guard_room_event-admits worn_out sam "video:control" (limits video_control) (some notes_edit)
      answers (pos 300) 7 study member

third_strike :
    ((guard_room_event worn_out sam "video:control"
        (limits video_control)
        none
        answers
        (pos 300)).disconnected
      ≡ true)
    × ((guard_room_event worn_out sam "video:control"
          (limits video_control)
          none
          answers
          (pos 300)).limiter.redis_up
        ≡ true)
unfolding guard_room_event after_verdict consume evaluate hit struck record_strike rate_limit_script
    apply_cooldown ◌+ℤ◌ ◌-ℤ◌
third_strike = (refl, refl)
