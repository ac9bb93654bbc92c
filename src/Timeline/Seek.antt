-- ===== src/Timeline/Seek.antt =====
-- Controls over time: a playing room keeps its course, and a seek makes up for its delay.
use syncstudies.Base.{◌≡◌, refl, sym, ap, ◌∙◌, true, Option, some, arith, Bool-cases, inl, inr}
use syncstudies.Base.Int.{
  ℤ, pos, ◌+ℤ◌, ◌-ℤ◌, ◌*ℤ◌, ◌≤ℤ◌, max_ℤ, min_ℤ, int_laws, *ℤ_nonneg, le-+ℤ, move_none,
}
use syncstudies.Timeline.Anchor.{VideoAnchor, play, seek, ControlCommand}
use syncstudies.Timeline.{
  is_playing, clamp_to_duration, course, position_at, apply_control, apply_action, in_flight_ms,
  reaches_end, seek_target, max_in_flight_compensation_ms,
}
use syncstudies.Timeline.Position.{
  clamp_forward, position_at_playing, position_at_still, position_at-anchored, bumped, course_step,
  clamp_idem,
}

course_nonneg :
    (a : VideoAnchor) (t : ℤ)
    → pos 0 ≤ℤ a.anchor_position_sec
    → pos 0 ≤ℤ a.playback_rate
    → a.anchor_server_ms ≤ℤ t
    → pos 0 ≤ℤ course a t
unfolding course
course_nonneg a t start speed since =
    let ahead = *ℤ_nonneg (t -ℤ a.anchor_server_ms) a.playback_rate (omega int_laws) speed in
    omega int_laws

-- `play` on a playing room changes nothing that a viewer sees: at every later time the room is
-- where it would have been. The room stands at a nonnegative position since no later than now, and
-- plays at a nonnegative rate.
pub play_keeps_course :
    (cur : VideoAnchor) (cmd : ControlCommand) (now_ms later_ms : ℤ)
    → cmd.action ≡ play
    → is_playing cur.status ≡ true
    → pos 0 ≤ℤ cur.anchor_position_sec
    → pos 0 ≤ℤ cur.playback_rate
    → cur.anchor_server_ms ≤ℤ now_ms
    → now_ms ≤ℤ later_ms
    → position_at (apply_control cur cmd now_ms) later_ms ≡ position_at cur later_ms
unfolding apply_control apply_action
play_keeps_course cur cmd now_ms later_ms is_play p start speed since until = rw is_play (
    position_at_playing (apply_action play (bumped cur now_ms) cur cmd now_ms) later_ms refl
    ∙ rw
        (
          p,
          position_at_playing cur later_ms p,
          position_at_playing cur now_ms p,
          course_step cur now_ms later_ms,
        )
        (unfold course in
          clamp_forward (course cur now_ms) ((later_ms -ℤ now_ms) *ℤ cur.playback_rate)
            cur.duration_sec (course_nonneg cur now_ms start speed since)
            (*ℤ_nonneg (later_ms -ℤ now_ms) cur.playback_rate (omega int_laws) speed)))

-- The anchor that a seek leaves.
sought : VideoAnchor → ControlCommand → ℤ → VideoAnchor
unfolding apply_action
sought cur cmd now_ms = apply_action seek (bumped cur now_ms) cur cmd now_ms

apply_control-seek :
    (cur : VideoAnchor) (cmd : ControlCommand) (now_ms : ℤ)
    → cmd.action ≡ seek
    → apply_control cur cmd now_ms ≡ sought cur cmd now_ms
unfolding apply_control sought
apply_control-seek cur cmd now_ms is_seek =
    ap (λ a. apply_action a (bumped cur now_ms) cur cmd now_ms) is_seek

position_at-sought :
    (cur : VideoAnchor) (cmd : ControlCommand) (now_ms : ℤ)
    → position_at (sought cur cmd now_ms) now_ms
      ≡ clamp_to_duration (seek_target cur cmd now_ms) cur.duration_sec
unfolding sought seek_target
position_at-sought cur cmd now_ms =
    position_at-anchored (sought cur cmd now_ms) now_ms refl
    ∙ clamp_idem (seek_target cur cmd now_ms) cur.duration_sec

clamp_id :
    (delay : ℤ)
    → pos 0 ≤ℤ delay
    → delay ≤ℤ max_in_flight_compensation_ms
    → max_ℤ (pos 0) (min_ℤ max_in_flight_compensation_ms delay) ≡ delay
clamp_id delay h k = ground arith

seek_target_delayed :
    (cur : VideoAnchor) (cmd : ControlCommand) (now_ms requested : ℤ)
    → cmd.position_sec ≡ some requested
    → is_playing cur.status ≡ true
    → cmd.client_sent_at_ms ≤ℤ now_ms
    → now_ms -ℤ cmd.client_sent_at_ms ≤ℤ max_in_flight_compensation_ms
    → seek_target cur cmd now_ms
      ≡ requested +ℤ (now_ms -ℤ cmd.client_sent_at_ms) *ℤ cur.playback_rate
unfolding seek_target in_flight_ms
seek_target_delayed cur cmd now_ms requested at p since late =
    let delay : ℤ = now_ms -ℤ cmd.client_sent_at_ms in
    let kept : max_ℤ (pos 0) (min_ℤ max_in_flight_compensation_ms delay) ≡ delay =
      clamp_id delay (omega int_laws) late in
    rw (at, p, kept)

clamp_past_end :
    (p q : ℤ) (d : Option ℤ)
    → reaches_end d p ≡ true
    → p ≤ℤ q
    → clamp_to_duration q d ≡ clamp_to_duration p d
unfolding clamp_to_duration
clamp_past_end p q Option.none h k = cc
clamp_past_end p q (some d) h k = ground arith

-- Sought at once, and watched for the time that the delay took.
sought_prompt :
    (cur : VideoAnchor) (cmd : ControlCommand) (now_ms requested : ℤ)
    → cmd.position_sec ≡ some requested
    → is_playing cur.status ≡ true
    → pos 0 ≤ℤ requested
    → pos 0 ≤ℤ cur.playback_rate
    → cmd.client_sent_at_ms ≤ℤ now_ms
    → position_at (sought cur cmd cmd.client_sent_at_ms) now_ms
      ≡ clamp_to_duration
          (requested +ℤ (now_ms -ℤ cmd.client_sent_at_ms) *ℤ cur.playback_rate)
          cur.duration_sec
unfolding sought
sought_prompt cur cmd now_ms requested at p start speed since =
    elim (Bool-cases (reaches_end cur.duration_sec requested)) [
      | inl over ↦
          position_at_still sent now_ms (unfold sought in rw (target, over, p))
          ∙ rw target (
              clamp_idem requested cur.duration_sec
              ∙ sym
                  (clamp_past_end requested _ cur.duration_sec over (le-+ℤ requested moved ahead)))
      | inr within ↦
          position_at_playing sent now_ms (unfold sought in rw (target, within, p))
          ∙ unfold course in rw target (clamp_forward requested moved cur.duration_sec start ahead)
    ]
  where
    moved : ℤ
    moved = (now_ms -ℤ cmd.client_sent_at_ms) *ℤ cur.playback_rate

    ahead : pos 0 ≤ℤ moved
    ahead = *ℤ_nonneg (now_ms -ℤ cmd.client_sent_at_ms) cur.playback_rate (omega int_laws) speed

    sent : VideoAnchor
    sent = sought cur cmd cmd.client_sent_at_ms

    target : seek_target cur cmd cmd.client_sent_at_ms ≡ requested
    target =
        seek_target_delayed cur cmd cmd.client_sent_at_ms requested at p (omega arith)
          (omega int_laws)
        ∙ move_none requested cmd.client_sent_at_ms cur.playback_rate

-- A seek in a playing room lands where it would have landed had it reached the server at once: a
-- delay of up to a second is made up for. The target and the rate are nonnegative, and the command
-- was not sent in the future.
pub seek_compensates :
    (cur : VideoAnchor) (cmd : ControlCommand) (now_ms requested : ℤ)
    → cmd.action ≡ seek
    → cmd.position_sec ≡ some requested
    → is_playing cur.status ≡ true
    → pos 0 ≤ℤ requested
    → pos 0 ≤ℤ cur.playback_rate
    → cmd.client_sent_at_ms ≤ℤ now_ms
    → now_ms -ℤ cmd.client_sent_at_ms ≤ℤ max_in_flight_compensation_ms
    → position_at (apply_control cur cmd now_ms) now_ms
      ≡ position_at (apply_control cur cmd cmd.client_sent_at_ms) now_ms
seek_compensates cur cmd now_ms requested is_seek at p start speed since late =
    rw
      (
        apply_control-seek cur cmd now_ms is_seek,
        apply_control-seek cur cmd cmd.client_sent_at_ms is_seek,
        position_at-sought cur cmd now_ms,
        seek_target_delayed cur cmd now_ms requested at p since late,
      )
      (sym (sought_prompt cur cmd now_ms requested at p start speed since))
